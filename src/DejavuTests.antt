-- ===== src/DejavuTests.antt =====
-- The theorems about the Deja Vu plugin at concrete inputs.
use oof_rl.Prelude.{
  ℕ, pos, ◌≤◌, ◌≡◌, refl, Text, codes, text_beq, true, false, not, ◌&&◌, ◌==◌, text_comparable,
  nat_beq, some, List, [], ◌∷◌, length, if◌then◌else◌,
}
use oof_rl.Dejavu.Roster.{LivePlayer, LiveState, build_roster_rows, member, is_usable_stable_id}
use oof_rl.Dejavu.Roster.Rows.{build_roster_rows_lem, other_rows, is_distinct, in_roster}
use oof_rl.Dejavu.History.{
  Runtime, Row, value_string, value_int, value_bool, aggregate_encounter_rows, is_with, is_win,
  is_decided,
}
use oof_rl.Dejavu.History.Counts.{
  agg_of, first_encounters, count, IsConsistent, aggregate_encounter_rows_lem,
  aggregate_encounter_rows-IsConsistent,
}
use oof_rl.Dejavu.Recall.{
  Answers, State, no_cache, reset_current_match, state_updated, match_ended,
  history_query_failed_message,
}
use oof_rl.Dejavu.Recall.Keys.{has_nul}
use oof_rl.Dejavu.Requests.{HttpRequest, handle_recall}
use oof_rl.Dejavu.Requests.Run.{Input, event, request, serve, serve_uncached, serve_lem}
use oof_rl.Dejavu.Requests.Retry.{retry_asks_again}

abbrev runtime : Runtime
runtime = record {
  sprint = λ v. [];
  int_of_float = λ bits. pos bits;
  is_float_zero = λ bits. nat_beq bits 0;
  parse_time = λ s. length s;
}

abbrev player : Text → ℕ → LivePlayer
player id team = record { primary_id = id; name = id; team_num = pos team; shortcut = pos 1 }

abbrev lobby : LiveState
lobby = record {
  match_guid = codes "g";
  players =
      player (codes "me") 0
      ∷ player (codes "ann") 1
      ∷ player (codes "bot:1") 1
      ∷ player (codes "ann") 1
      ∷ [];
}

abbrev row : Text → ℕ → ℕ → ℕ → Row
row id match_id team winner =
    (codes "target_id", value_string id)
    ∷ (codes "match_id", value_int (pos match_id))
    ∷ (codes "target_team_num", value_int (pos team))
    ∷ (codes "anchor_team_num", value_int (pos 0))
    ∷ (codes "winner_team_num", value_int (pos winner))
    ∷ (codes "incomplete", value_bool false)
    ∷ (codes "started_at", value_string (codes "t"))
    ∷ []

abbrev rows : List Row
rows =
    row (codes "ann") 1 0 0
    ∷ row (codes "ann") 1 0 0
    ∷ row (codes "ann") 2 1 1
    ∷ row (codes "ann") 3 1 7
    ∷ row (codes "bob") 4 1 1
    ∷ []

build_roster_rows_lem_example :
    let (shown, ids) = build_roster_rows lobby (codes "me") (pos 0) in
    (shown ≡ other_rows (codes "g") (codes "me") (pos 0) lobby.players 0)
    × (is_distinct ids ≡ true)
    × ((id : Text)
        → member id ids
          ≡ (is_usable_stable_id id && not (id == codes "me") && in_roster id lobby.players))
build_roster_rows_lem_example = build_roster_rows_lem lobby (codes "me") (pos 0)

aggregate_encounter_rows-IsConsistent_example :
    let agg =
      agg_of (codes "ann") (aggregate_encounter_rows runtime rows (codes "g") (codes "ann" ∷ [])) in
    IsConsistent agg × (agg.prior_count ≤ 5)
aggregate_encounter_rows-IsConsistent_example =
    aggregate_encounter_rows-IsConsistent runtime rows (codes "g") (codes "ann" ∷ []) (codes "ann")

aggregate_encounter_rows_lem_example :
    let agg =
      agg_of (codes "ann") (aggregate_encounter_rows runtime rows (codes "g") (codes "ann" ∷ [])) in
    let es = first_encounters runtime (codes "g") (codes "ann" ∷ []) (codes "ann") [] rows in
    (agg.with_count ≡ count is_with es)
    × (agg.against_count ≡ count (λ e. not (is_with e)) es)
    × (agg.with_wins ≡ count (λ e. is_decided e && is_with e && is_win e) es)
    × (agg.with_losses ≡ count (λ e. is_decided e && is_with e && not (is_win e)) es)
    × (agg.against_wins ≡ count (λ e. is_decided e && not (is_with e) && is_win e) es)
    × (agg.against_losses ≡ count (λ e. is_decided e && not (is_with e) && not (is_win e)) es)
    × (agg.with_no_result ≡ count (λ e. not (is_decided e) && is_with e) es)
    × (agg.against_no_result ≡ count (λ e. not (is_decided e) && not (is_with e)) es)
aggregate_encounter_rows_lem_example =
    aggregate_encounter_rows_lem runtime rows (codes "g") (codes "ann" ∷ []) (codes "ann")

abbrev answers : Answers
answers selected guid ids = some rows

abbrev param : Text → Text → Text
param retry key =
    if key == codes "player" then codes "me" else if key == codes "retry" then retry else []

abbrev ask : Text → HttpRequest
ask retry = record {
  method = codes "GET";
  path = codes "/api/dejavu/recall";
  query_param = param retry;
}

abbrev session : List Input
session =
    event (
      state_updated (
        some (
          codes "g",
          record { primary_id = codes "me"; name = []; team_num = pos 0; shortcut = pos 1 }
              ∷ record { primary_id = codes "ann"; name = []; team_num = pos 1; shortcut = pos 2 }
              ∷ [],
        )))
    ∷ request (ask [])
    ∷ request (ask [])
    ∷ event match_ended
    ∷ request (ask [])
    ∷ []

serve_lem_example :
    serve runtime answers session reset_current_match
    ≡ serve_uncached runtime answers session reset_current_match
unfolding has_nul text_beq
serve_lem_example =
    serve_lem runtime answers session
      ((refl, (refl, (refl, tt))), ((refl, refl), ((refl, refl), (tt, ((refl, refl), tt)))))

abbrev failed : State
failed = record {
  current = some lobby;
  cache = record {
    ready = true;
    key = codes "g";
    aggregates = [];
    error = history_query_failed_message;
  };
}

retry_asks_again_example :
    (handle_recall runtime answers (ask (codes "1")) failed).0
    ≡ (handle_recall runtime answers (ask (codes "1")) (record failed { cache = no_cache })).0
unfolding text_beq
retry_asks_again_example = retry_asks_again runtime answers (ask (codes "1")) failed refl refl
