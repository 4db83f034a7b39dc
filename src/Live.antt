-- ===== src/Live.antt =====
-- plugins/live/logic.go: the live state, and the touches that a replay keeps from live play. The JSON
-- decoder and encoder and fmt.Sprintf are the parameter `Codec`; a player is a decoded object, and a
-- null in the list of players, a nil map, is left out of the model.
pub mod Replay
use oof_rl.Prelude.{
  ℕ, Text, codes, Bool, true, false, not, ◌&&◌, Option, none, some, List, [], ◌∷◌, ◌++◌, ◌==◌,
  text_comparable, is_empty, lookup, insert, if◌then◌else◌,
}

-- A decoded value: nil, a string, or another one by its text.
pub data AnyValue : Type 0 where
  any_nil : AnyValue
  any_string any_other : Text → AnyValue

abbrev pub Player : Type 0
Player = List (Text × AnyValue)

pub record LiveState : Type 0 where
  pub match_guid : Text
  pub players : Text
  pub game : Text

pub record StateUpdatedPayload : Type 0 where
  pub guid : Text
  pub players : Text
  pub game : Text

pub record TouchSnapshot : Type 0 where
  pub touches : AnyValue
  pub car_touches : AnyValue

pub record Codec : Type 0 where
  pub decode_event : Text → Option StateUpdatedPayload
  pub decode_is_replay : Text → Option Bool
  pub decode_players : Text → Option (List Player)
  pub encode_players : List Player → Option Text
  pub sprint : AnyValue → Text

abbrev pub TouchCache : Type 0
TouchCache = List (Text × TouchSnapshot)

-- The plugin's variables; a nil map and an empty one are the same here.
pub record State : Type 0 where
  pub state : Option LiveState
  pub touch_cache_guid : Text
  pub touch_cache : TouchCache

abbrev value_or_nil : Option AnyValue → AnyValue
value_or_nil none = any_nil
value_or_nil (some v) = v

-- pl[key]
unfoldable pub field_of : Player → Text → AnyValue
field_of pl key = value_or_nil (lookup key pl)

abbrev text_of : AnyValue → Text
text_of (any_string s) = s
text_of other = []

unfoldable pub player_cache_key : Codec → Player → Text
unfolding field_of
player_cache_key codec pl =
    let primary_id = text_of (field_of pl (codes "PrimaryId")) in
    if not (is_empty primary_id)
    then primary_id
    else codec.sprint (field_of pl (codes "TeamNum"))
      ++ (codes ":"
          ++ (codec.sprint (field_of pl (codes "Shortcut"))
              ++ (codes ":" ++ codec.sprint (field_of pl (codes "Name")))))

abbrev pub snapshot : Player → TouchSnapshot
snapshot pl = record {
  touches = field_of pl (codes "Touches");
  car_touches = field_of pl (codes "CarTouches");
}

unfoldable pub refresh_live_touch_cache : Codec → List Player → TouchCache → TouchCache
unfolding player_cache_key
refresh_live_touch_cache codec [] cache = cache
refresh_live_touch_cache codec (pl ∷ players) cache =
    let key = player_cache_key codec pl in
    refresh_live_touch_cache codec players
      (if is_empty key then cache else insert key (snapshot pl) cache)

abbrev pub restore : Option TouchSnapshot → Player → Player
restore none pl = pl
restore (some cached) pl =
    insert (codes "CarTouches") cached.car_touches (insert (codes "Touches") cached.touches pl)

unfoldable pub apply_live_touch_cache : Codec → List Player → TouchCache → List Player
unfolding player_cache_key
apply_live_touch_cache codec [] cache = []
apply_live_touch_cache codec (pl ∷ players) cache =
    restore (lookup (player_cache_key codec pl) cache) pl
    ∷ apply_live_touch_cache codec players cache

abbrev as_sent : StateUpdatedPayload → LiveState
as_sent ev = record { match_guid = ev.guid; players = ev.players; game = ev.game }

abbrev with_players : StateUpdatedPayload → Option Text → LiveState
with_players ev none = as_sent ev
with_players ev (some players) = record { match_guid = ev.guid; players = players; game = ev.game }

abbrev pub cache_for : Text → State → State
cache_for guid s =
    if guid == s.touch_cache_guid then s else record s { touch_cache_guid = guid; touch_cache = [] }

abbrev pub normalized :
    Codec → StateUpdatedPayload → Option Bool → Option (List Player) → State → State × LiveState
normalized codec ev (some true) (some players) s =
    (s, with_players ev (codec.encode_players (apply_live_touch_cache codec players s.touch_cache)))
normalized codec ev (some false) (some players) s =
    (record s { touch_cache = refresh_live_touch_cache codec players s.touch_cache }, as_sent ev)
normalized codec ev game players s = (s, as_sent ev)

unfoldable pub normalize_state_updated : Codec → StateUpdatedPayload → State → State × LiveState
unfolding refresh_live_touch_cache apply_live_touch_cache
normalize_state_updated codec ev s =
    normalized codec ev (codec.decode_is_replay ev.game) (codec.decode_players ev.players)
      (cache_for ev.guid s)

abbrev pub reset_state_locked : State
reset_state_locked = record { state = none; touch_cache_guid = []; touch_cache = [] }

abbrev pub update_state : Codec → Option StateUpdatedPayload → State → State
update_state codec none s = s
update_state codec (some ev) s =
    let (s', live) = normalize_state_updated codec ev s in record s' { state = some live }

unfoldable pub on_event : Codec → Text → Text → State → State
unfolding normalize_state_updated
on_event codec event_type payload s =
    if event_type == codes "state.updated"
    then update_state codec (codec.decode_event payload) s
    else if event_type == codes "match.destroyed"
    then reset_state_locked
    else s

-- What handleHTTP answers: the state, if there is one.
unfoldable pub handle_http : State → Option LiveState
handle_http s = s.state
