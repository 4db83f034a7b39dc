-- ===== src/Dejavu/Recall.antt =====
-- plugins/dejavu/logic.go: the plugin's state, its events and the recall request. The two locks let
-- one request at a time fill the cache, so a request is one step. What the host's query returns to a
-- request is an argument, `none` for a failure; the JSON of the answer is left as the record.
pub mod Keys
use oof_rl.Prelude.{
  ℕ, ℤ, Text, codes, Bool, true, false, not, ◌&&◌, ◌||◌, Option, none, some, List, [], ◌∷◌, ◌++◌,
  ◌==◌, text_comparable, is_empty, lookup, map, leb, ltb, nat_beq, if◌then◌else◌,
}
use oof_rl.Dejavu.Roster.{
  LivePlayer, LiveState, RecallPlayer, normalize_primary_id, is_usable_stable_id, valid_team,
  find_selected_player, build_roster_rows,
}
use oof_rl.Dejavu.History.{Runtime, Row, HistoryAgg, Aggs, aggregate_encounter_rows}

pub record HistoryCache : Type 0 where
  pub ready : Bool
  pub key : Text
  pub aggregates : Aggs
  pub error : Text

unfoldable pub no_cache : HistoryCache
no_cache = record { ready = false; key = []; aggregates = []; error = [] }

-- The package's variables.
pub record State : Type 0 where
  pub current : Option LiveState
  pub cache : HistoryCache

-- A player of the decoded payload of a state.updated event.
pub record PayloadPlayer : Type 0 where
  pub primary_id : Text
  pub name : Text
  pub team_num : ℤ
  pub shortcut : ℤ

-- What the plugin does with an event of each type; `none` is a payload that does not decode.
pub data PluginEvent : Type 0 where
  state_updated : Option (Text × List PayloadPlayer) → PluginEvent
  match_ended match_destroyed other_event : PluginEvent

unfoldable pub reset_current_match : State
reset_current_match = record { current = none; cache = no_cache }

abbrev pub live_player : PayloadPlayer → LivePlayer
live_player p = record {
  primary_id = normalize_primary_id p.primary_id;
  name = p.name;
  team_num = p.team_num;
  shortcut = p.shortcut;
}

abbrev pub is_nil {ℓ} : {A : Type ℓ} → List A → Bool
is_nil [] = true
is_nil (_ ∷ _) = false

unfoldable pub on_event : PluginEvent → State → State
unfolding reset_current_match
on_event (state_updated none) s = s
on_event (state_updated (some (guid, players))) s =
    let next = normalize_primary_id guid in
    if is_empty next || is_nil players then reset_current_match else record s {
      current = some (record { match_guid = next; players = map live_player players });
    }
on_event match_ended s = reset_current_match
on_event match_destroyed s = reset_current_match
on_event other_event s = s

-- The order of sort.Strings, which on valid UTF-8 is that of the code points.
unfoldable pub text_leb : Text → Text → Bool
text_leb [] t = true
text_leb (c ∷ s) [] = false
text_leb (c ∷ s) (d ∷ t) = ltb c d || (nat_beq c d && text_leb s t)

abbrev pub place : Text → List Text → List Text
place id [] = id ∷ []
place id (other ∷ ids) =
    let rest = place id ids in if text_leb id other then id ∷ other ∷ ids else other ∷ rest

unfoldable pub sort_texts : List Text → List Text
sort_texts [] = []
sort_texts (id ∷ ids) = place id (sort_texts ids)

-- strings.Join
abbrev pub join : Text → List Text → Text
join sep [] = []
join sep (id ∷ []) = id
join sep (id ∷ other ∷ ids) = id ++ (sep ++ join sep (other ∷ ids))

abbrev pub nul : Text
nul = 0 ∷ []

unfoldable pub history_key : Text → Text → List Text → Text
history_key match_guid selected_id target_ids =
    match_guid ++ (nul ++ (selected_id ++ (nul ++ join nul target_ids)))

-- cloneAggs
unfoldable pub clone_aggs : Aggs → Aggs
clone_aggs [] = []
clone_aggs ((id, agg) ∷ aggs) =
    (id, record agg { seen_match_ids = []; last_seen_time = 0 }) ∷ clone_aggs aggs

unfoldable pub read_cached_history : Text → HistoryCache → Option (Aggs × Text)
unfolding clone_aggs
read_cached_history key cache =
    if cache.ready && cache.key == key
    then some (clone_aggs cache.aggregates, cache.error)
    else none

unfoldable pub invalidate_cached_history_error : Text → HistoryCache → HistoryCache
invalidate_cached_history_error key cache =
    if cache.ready && cache.key == key && not (is_empty cache.error) then no_cache else cache

abbrev pub history_query_failed_message : Text
history_query_failed_message = codes "history query failed"

-- What the host returns for the query of the selected player, the match and the targets.
abbrev pub Answers : Type 0
Answers = Text → Text → List Text → Option (List Row)

module _ (rt : Runtime) where
  aggregate_answer : Option (List Row) → Text → List Text → Aggs × Text
  aggregate_answer none match_guid target_ids = ([], history_query_failed_message)
  aggregate_answer (some rows) match_guid target_ids =
      (aggregate_encounter_rows rt rows match_guid target_ids, [])

  -- The part of cachedHistory between the tests of the cache and its change.
  unfoldable pub query_history : Answers → Text → Text → List Text → Aggs × Text
  unfolding aggregate_answer
  query_history answers selected_id match_guid target_ids =
      if is_nil target_ids
      then ([], [])
      else aggregate_answer (answers selected_id match_guid target_ids) match_guid target_ids

  unfoldable pub cached_or_queried :
      Option (Aggs × Text)
      → Answers
      → Text
      → Text
      → Text
      → List Text
      → HistoryCache
      → (Aggs × Text) × HistoryCache
  unfolding query_history clone_aggs
  cached_or_queried (some found) answers key selected_id match_guid target_ids cache =
      (found, cache)
  cached_or_queried none answers key selected_id match_guid target_ids cache =
      let (aggs, error) = query_history answers selected_id match_guid target_ids in
      (
        (aggs, error),
        record { ready = true; key = key; aggregates = clone_aggs aggs; error = error },
      )

  unfoldable pub cached_history :
      Answers → Text → Text → Text → List Text → HistoryCache → (Aggs × Text) × HistoryCache
  unfolding cached_or_queried read_cached_history
  cached_history answers key selected_id match_guid target_ids cache =
      cached_or_queried (read_cached_history key cache) answers key selected_id match_guid
        target_ids cache
