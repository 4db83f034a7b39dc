-- ===== src/Histstore/Players.antt =====
-- internal/histstore/recorder.go: player ids, and the map of the players of a match.
use oof_rl.Prelude.{
  ℤ, Text, codes, Bool, ◌&&◌, ◌||◌, not, Option, none, some, List, [], ◌∷◌, ◌++◌, ◌==◌,
  int_comparable, text_comparable, is_empty, itoa, has_prefix, trim_space, to_lower, lookup, insert,
  if◌then◌else◌,
}
use oof_rl.Oofevents.Types.{PlayerSnapshot}

abbrev pub Players : Type 0
Players = List (Text × PlayerSnapshot)

unfoldable pub is_unknown_id : Text → Bool
is_unknown_id primary_id = has_prefix (to_lower (trim_space primary_id)) (codes "unknown|")

unfoldable pub bot_id : Text → ℤ → Text
bot_id guid shortcut = codes "bot:" ++ (guid ++ (codes ":" ++ itoa shortcut))

unfoldable pub resolve_player_id : Text → Text → ℤ → Text → Text
resolve_player_id guid primary_id shortcut name =
    let trimmed = trim_space primary_id in
    if not (is_empty trimmed) && not (is_unknown_id trimmed)
    then trimmed
    else if is_empty guid || is_empty name
    then []
    else bot_id guid shortcut

-- The loop of onStateUpdated that builds the map of the current players.
unfoldable pub add_player : Text → PlayerSnapshot → Players → Players
add_player id pl players =
    if is_empty id then players else insert id (record pl { primary_id = id }) players

unfoldable pub collect_players : Text → List PlayerSnapshot → Players → Players
unfolding add_player
collect_players guid [] players = players
collect_players guid (pl ∷ pls) players =
    collect_players guid pls
      (add_player (resolve_player_id guid pl.primary_id pl.shortcut pl.name) pl players)

-- The loop of mergeCurrentPlayers.
unfoldable pub merge_players : Players → Players → Players
merge_players [] last = last
merge_players ((id, pl) ∷ current) last = merge_players current (insert id pl last)

unfoldable pub with_touches : Option PlayerSnapshot → PlayerSnapshot → PlayerSnapshot
with_touches none current = current
with_touches (some previous) current = record current {
  touches = previous.touches;
  car_touches = previous.car_touches;
}

-- preserveLiveTouchCounts, on the map of the current players.
unfoldable pub preserve_live_touch_counts : Players → Players → Players
unfolding with_touches
preserve_live_touch_counts last [] = []
preserve_live_touch_counts last ((id, current) ∷ rest) =
    (id, with_touches (lookup id last) current) ∷ preserve_live_touch_counts last rest

-- findPlayerByShortcut, in the order in which the range visits the map.
unfoldable pub find_player_by_shortcut : ℤ → Players → Text
find_player_by_shortcut shortcut [] = []
find_player_by_shortcut shortcut ((id, pl) ∷ rest) =
    if pl.shortcut == shortcut then id else find_player_by_shortcut shortcut rest
