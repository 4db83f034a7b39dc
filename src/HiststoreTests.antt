-- ===== src/HiststoreTests.antt =====
-- The theorems about the match history at concrete inputs.
use oof_rl.Prelude.{
  ℕ, pos, minus_one, ◌≡◌, refl, codes, text_beq, true, false, not, ◌&&◌, none, some, arith,
  nat_comparable, List, [], ◌∷◌, lookup, text_comparable, ltb_ℤ, is_neg,
}
use oof_rl.Oofevents.Types.{
  Base, base, authoritative, no_source, PlayerSnapshot, TeamSnapshot, GameSnapshot, match_ended,
  clock_updated,
}
use oof_rl.Histstore.Store.{Db, key_comparable, MatchRow, empty_db, new_match_row}
use oof_rl.Histstore.Players.{Players}
use oof_rl.Histstore.Recorder.{
  Recorder, reset_match_state, on_goal_scored, on_ball_hit, on_clock_updated, on_stat_feed,
  on_match_ended, on_match_destroyed, is_likely_forfeit, is_active_match, team_score_lead,
  score_lead,
}
use oof_rl.Histstore.Recorder.Isolation.{foreign_events_ignored}
use oof_rl.Histstore.Recorder.Forfeit.{is_likely_forfeit_lem, winner_leads, last_score, opponents}
use oof_rl.Histstore.Recorder.Flush.{
  match_ended_records, match_destroyed_records, closed_row, final_stats, IsRoster,
}

abbrev player : PlayerSnapshot
player = record {
  name = codes "Ann";
  primary_id = codes "s1";
  shortcut = pos 4;
  team_num = pos 1;
  score = pos 300;
  goals = pos 2;
  shots = pos 3;
  assists = pos 0;
  saves = pos 1;
  touches = pos 12;
  car_touches = pos 5;
  demos = pos 1;
  speed = none;
  boost = none;
  is_boosting = none;
  is_on_wall = none;
  is_powersliding = none;
  is_demolished = none;
  is_supersonic = none;
}

-- The same player in a replay, where the counts start again.
abbrev replayed : PlayerSnapshot
replayed = record player { touches = pos 0; car_touches = pos 1 }

abbrev roster : Players
roster = (codes "s1", player) ∷ []

abbrev replay_roster : Players
replay_roster = (codes "s1", replayed) ∷ []

abbrev team : ℕ → ℕ → TeamSnapshot
team n score = record {
  name = [];
  team_num = pos n;
  score = pos score;
  color_primary = [];
  color_secondary = [];
}

abbrev game : GameSnapshot
game = record {
  teams = team 0 1 ∷ team 1 4 ∷ [];
  time_seconds = pos 30;
  is_overtime = false;
  is_replay = true;
  ball = record { speed = 0 };
  arena = codes "Mannfield";
  playlist = some (pos 11);
  has_winner = false;
  winner = [];
}

abbrev recording : Recorder
recording = record reset_match_state {
  match_id = 1;
  match_guid = codes "m1";
  last_players = roster;
  last_teams = team 0 1 ∷ team 1 4 ∷ [];
  last_time_seconds = pos 30;
  last_clock_known = true;
}

abbrev opened_row : MatchRow
opened_row = new_match_row (codes "m1") (codes "Mannfield") 5

abbrev db : Db
db = record empty_db { matches = (1, opened_row) ∷ []; next_match_id = 2 }

abbrev same_order : Players → Players
same_order m = m

abbrev last_id : Db → ℕ → ℕ
last_id _ id = id

abbrev base_of : List ℕ → Base
base_of guid = record {
  event_type = [];
  at_time = 0;
  certainty = authoritative;
  source = no_source;
  guid = guid;
}

-- The map holds the player once.
one_player : IsRoster (same_order recording.last_players)
unfolding lookup
one_player = (refl, refl, tt)

clock_m2 : is_active_match (codes "m2") recording ≡ false
unfolding is_active_match text_beq
clock_m2 = refl

foreign_events_ignored_example :
    let e = clock_updated (base_of (codes "m2")) (pos 9) true in
    (on_goal_scored 7 same_order last_id e recording db ≡ (recording, db))
    × (on_ball_hit 7 same_order last_id true e recording db ≡ (recording, db))
    × (on_clock_updated 7 same_order last_id e recording db ≡ (recording, db))
    × (on_stat_feed 7 same_order last_id e recording db ≡ (recording, db))
    × (on_match_ended 7 same_order last_id e recording db ≡ (recording, db))
unfolding base
foreign_events_ignored_example =
    foreign_events_ignored 7 same_order last_id true
      (clock_updated (base_of (codes "m2")) (pos 9) true) recording db clock_m2

forfeit : is_likely_forfeit (pos 1) recording ≡ true
unfolding is_likely_forfeit team_score_lead score_lead reset_match_state
forfeit = refl

is_likely_forfeit_lem_example : is_likely_forfeit (pos 1) recording ≡ (
    not recording.overtime
    && not (is_neg (pos 1))
    && ltb_ℤ (pos 5) recording.last_time_seconds
    && winner_leads
        (last_score (pos 1) none recording.last_teams)
        (opponents (pos 1) recording.last_teams))
is_likely_forfeit_lem_example = is_likely_forfeit_lem (pos 1) recording

match_ended_records_example :
    let (r', db') =
      on_match_ended 7 same_order last_id
        (match_ended (base_of (codes "m1")) (pos 1))
        recording
        db in
    (r' ≡ reset_match_state)
    × (lookup 1 db'.matches
        ≡ some
            (closed_row 7 (pos 1) false (is_likely_forfeit (pos 1) recording) recording opened_row))
    × ((p : List ℕ)
        → lookup (1, p) db'.stats ≡ final_stats (lookup (1, p) db.stats) (lookup p roster))
unfolding is_active_match text_beq lookup
match_ended_records_example =
    match_ended_records 7 same_order last_id (base_of (codes "m1")) (pos 1) recording opened_row db
      (λ e. omega (arith, e)) refl refl refl (one_player, λ p. refl)

match_destroyed_records_example :
    let (r', db') = on_match_destroyed 7 same_order last_id recording db in
    (r' ≡ reset_match_state)
    × (lookup 1 db'.matches ≡ some (closed_row 7 minus_one true false recording opened_row))
    × ((p : List ℕ)
        → lookup (1, p) db'.stats ≡ final_stats (lookup (1, p) db.stats) (lookup p roster))
unfolding lookup
match_destroyed_records_example =
    match_destroyed_records 7 same_order last_id recording opened_row db (λ e. omega (arith, e))
      refl refl (one_player, λ p. refl)
