-- ===== src/Dejavu/Requests.antt =====
-- plugins/dejavu/logic.go: handleHTTP and handleRecall.
pub mod Plain
pub mod Transparency
pub mod Retry
pub mod Run
use oof_rl.Prelude.{
  ℕ, ℤ, Text, codes, Bool, true, false, not, ◌&&◌, ◌||◌, Option, none, some, List, [], ◌∷◌, ◌==◌,
  text_comparable, is_empty, lookup, map, if◌then◌else◌,
}
use oof_rl.Dejavu.Roster.{
  LivePlayer, LiveState, RecallPlayer, normalize_primary_id, is_usable_stable_id, valid_team,
  find_selected_player, build_roster_rows,
}
use oof_rl.Dejavu.History.{Runtime, HistoryAgg, Aggs}
use oof_rl.Dejavu.Recall.{
  State, HistoryCache, Answers, sort_texts, history_key, invalidate_cached_history_error,
  cached_history,
}

pub data Status : Type 0 where
  no_active_match no_selected_player selected_not_in_roster selected_unstable_id : Status
  selected_invalid_team ok history_error : Status

pub record SelectedState : Type 0 where
  pub primary_id : Text
  pub name : Text
  pub team_num : ℤ

pub record RecallResponse : Type 0 where
  pub status : Status
  pub match_guid : Text
  pub selected_id : Text
  pub selected : Option SelectedState
  pub players : List RecallPlayer
  pub error : Text
  pub retryable : Bool

-- A recall's answer, or an error of a status code.
pub data HttpResponse : Type 0 where
  recall : RecallResponse → HttpResponse
  json_error : ℕ → Text → HttpResponse

-- `query_param` is sdk.QueryParam on the request's query.
pub record HttpRequest : Type 0 where
  pub method : Text
  pub path : Text
  pub query_param : Text → Text

abbrev early : Status → Text → Text → RecallResponse
early status match_guid selected_id = record {
  status = status;
  match_guid = match_guid;
  selected_id = selected_id;
  selected = none;
  players = [];
  error = [];
  retryable = false;
}

abbrev pub found_response : Text → Text → LivePlayer → RecallResponse
found_response match_guid selected_id p = record (early ok match_guid selected_id) {
  selected = some (record { primary_id = p.primary_id; name = p.name; team_num = p.team_num });
}

abbrev state_if_named : LiveState → Option LiveState
state_if_named st = if is_empty st.match_guid then none else some st

unfoldable pub snapshot_current_state : Option LiveState → Option LiveState
snapshot_current_state none = none
snapshot_current_state (some st) = state_if_named st

unfoldable pub apply_agg : RecallPlayer → HistoryAgg → RecallPlayer
apply_agg row agg = record row {
  prior_count = agg.prior_count;
  with_count = agg.with_count;
  against_count = agg.against_count;
  with_wins = agg.with_wins;
  with_losses = agg.with_losses;
  against_wins = agg.against_wins;
  against_losses = agg.against_losses;
  with_no_result = agg.with_no_result;
  against_no_result = agg.against_no_result;
  last_seen = agg.last_seen;
}

unfoldable pub apply_found : RecallPlayer → Option HistoryAgg → RecallPlayer
unfolding apply_agg
apply_found row none = row
apply_found row (some agg) = apply_agg row agg

-- The loop of handleRecall over the rows.
unfoldable pub apply_aggs : Aggs → List RecallPlayer → List RecallPlayer
unfolding apply_found
apply_aggs aggs [] = []
apply_aggs aggs (row ∷ rows) =
    (if row.stable_id then apply_found row (lookup row.primary_id aggs) else row)
    ∷ apply_aggs aggs rows

abbrev pub fill : Aggs × Text → List RecallPlayer → RecallResponse → RecallResponse
fill (aggs, error) rows resp =
    let resp' = record resp { players = apply_aggs aggs rows } in
    if is_empty error
    then resp'
    else record resp' { status = history_error; error = error; retryable = true }

abbrev pub selected_of : (Text → Text) → Text
selected_of param =
    let player = normalize_primary_id (param (codes "player")) in
    if is_empty player then normalize_primary_id (param (codes "anchor")) else player

module _ (rt : Runtime) (answers : Answers) where
  -- handleRecall from buildRosterRows on.
  unfoldable pub recall_history :
      Bool → LiveState → Text → ℤ → RecallResponse → HistoryCache → RecallResponse × HistoryCache
  recall_history retry st selected_id team resp cache =
      let (rows, ids) = build_roster_rows st selected_id team in
      let targets = sort_texts ids in
      let key = history_key st.match_guid selected_id targets in
      let cache' = if retry then invalidate_cached_history_error key cache else cache in
      let (found, cache'') =
        cached_history rt answers key selected_id st.match_guid targets cache' in
      (fill found rows resp, cache'')

  unfoldable pub recall_selected :
      Bool → LiveState → Text → Option LivePlayer → HistoryCache → RecallResponse × HistoryCache
  unfolding recall_history
  recall_selected retry st selected_id none cache =
      (early selected_not_in_roster st.match_guid selected_id, cache)
  recall_selected retry st selected_id (some p) cache =
      let resp = found_response st.match_guid selected_id p in
      if not (is_usable_stable_id selected_id)
      then (record resp { status = selected_unstable_id }, cache)
      else if not (valid_team p.team_num)
      then (record resp { status = selected_invalid_team }, cache)
      else recall_history retry st selected_id p.team_num resp cache

  unfoldable pub recall_in :
      Bool → Text → Option LiveState → HistoryCache → RecallResponse × HistoryCache
  unfolding recall_selected
  recall_in retry selected_id none cache = (early no_active_match [] [], cache)
  recall_in retry selected_id (some st) cache =
      if is_empty selected_id
      then (early no_selected_player st.match_guid [], cache)
      else recall_selected retry st selected_id (find_selected_player st.players selected_id) cache

  unfoldable pub handle_recall : HttpRequest → State → RecallResponse × State
  unfolding recall_in snapshot_current_state
  handle_recall req s =
      let (resp, cache') =
        recall_in (req.query_param (codes "retry") == codes "1") (selected_of req.query_param)
          (snapshot_current_state s.current) s.cache in
      (resp, record s { cache = cache' })

  unfoldable pub handle_http : HttpRequest → State → HttpResponse × State
  unfolding handle_recall
  handle_http req s =
      let (resp, s') = handle_recall req s in
      if req.path == codes "/api/dejavu/recall"
      then if not (is_empty req.method) && not (req.method == codes "GET")
        then (json_error 405 (codes "method not allowed"), s)
        else (recall resp, s')
      else (json_error 404 (codes "not found"), s)
