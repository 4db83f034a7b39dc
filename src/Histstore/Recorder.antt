-- ===== src/Histstore/Recorder.antt =====
-- internal/histstore/recorder.go: the recorder of the match history. A handler takes the recorder and
-- the database and returns both; the errors of the store are logged and dropped, as in the source.
pub mod Isolation
pub mod Forfeit
pub mod Roster
pub mod Flush
pub mod Run
use oof_rl.Prelude.{
  ℕ, ℤ, pos, minus_one, ltb_ℤ, is_neg, zero, suc, ◌+◌, Text, codes, Bool, true, false, ◌&&◌, ◌||◌,
  not, Option, none, some, List, [], ◌∷◌, ◌++◌, ◌==◌, int_comparable, text_comparable, is_empty,
  nat_beq, leb, length, if◌then◌else◌,
}
use oof_rl.Oofevents.Types
use oof_rl.Oofevents.Types.{
  Event, Base, PlayerSnapshot, TeamSnapshot, GameSnapshot, GoalScored, StatFeed, BallHit,
  match_guid, state_updated, goal_scored, ball_hit, clock_updated, stat_feed, match_ended,
}
use oof_rl.Oofevents.Bus.{unwrap}
use oof_rl.Histstore.Store.{
  Db, StatsRow, upsert_player, upsert_match, update_match_playlist, end_match, update_team_scores,
  upsert_player_match_stats_with_name, insert_goal_with_game_clock, insert_ball_hit,
  insert_statfeed_event_with_game_clock, null_if_empty,
}
use oof_rl.Histstore.Players.{
  Players, resolve_player_id, collect_players, merge_players, preserve_live_touch_counts,
  find_player_by_shortcut,
}

-- The per-match state; `match_id` is 0 where no match is active, and a nil map is the empty one.
pub record Recorder : Type 0 where
  pub match_id : ℕ
  pub match_guid : Text
  pub overtime : Bool
  pub playlist_type : Option ℤ
  pub last_players : Players
  pub last_teams : List TeamSnapshot
  pub last_time_seconds : ℤ
  pub last_clock_known : Bool
  pub replay_active : Bool

unfoldable pub reset_match_state : Recorder
reset_match_state = record {
  match_id = 0;
  match_guid = [];
  overtime = false;
  playlist_type = none;
  last_players = [];
  last_teams = [];
  last_time_seconds = pos 0;
  last_clock_known = false;
  replay_active = false;
}

-- NewRecorder
abbrev pub new : Recorder
new = reset_match_state

unfoldable pub is_active_match : Text → Recorder → Bool
is_active_match guid r = is_empty guid || is_empty r.match_guid || guid == r.match_guid

unfoldable pub game_clock_seconds : Recorder → Option ℤ
game_clock_seconds r = if r.last_clock_known then some r.last_time_seconds else none

unfoldable pub is_active_live_clock : GameSnapshot → Bool
is_active_live_clock game =
    if game.has_winner then false else game.is_overtime || ltb_ℤ (pos 5) game.time_seconds

-- The variables of the loop in teamScoreLead.
pub record Lead : Type 0 where
  pub winner_score : ℤ
  pub opponent_score : ℤ
  pub winner_found : Bool
  pub opponent_found : Bool

unfoldable pub score_lead : ℤ → List TeamSnapshot → Lead → Lead
score_lead winner [] lead = lead
score_lead winner (t ∷ ts) lead = score_lead winner ts (
    if t.team_num == winner
    then record lead { winner_score = t.score; winner_found = true }
    else if not lead.opponent_found || ltb_ℤ lead.opponent_score t.score
    then record lead { opponent_score = t.score; opponent_found = true }
    else lead)

unfoldable pub team_score_lead : ℤ → List TeamSnapshot → Lead
unfolding score_lead
team_score_lead winner teams = score_lead winner teams (record {
  winner_score = pos 0;
  opponent_score = pos 0;
  winner_found = false;
  opponent_found = false;
})

unfoldable pub is_likely_forfeit : ℤ → Recorder → Bool
unfolding team_score_lead
is_likely_forfeit winner r =
    if r.overtime || is_neg winner || not (ltb_ℤ (pos 5) r.last_time_seconds)
    then false
    else let lead = team_score_lead winner r.last_teams in
      (lead.winner_found && lead.opponent_found) && ltb_ℤ lead.opponent_score lead.winner_score

-- The loop of flushMatch over the teams; -1 stands for a score that was not seen.
unfoldable pub final_scores : List TeamSnapshot → ℤ × ℤ → ℤ × ℤ
final_scores [] scores = scores
final_scores (t ∷ ts) (score0, score1) = final_scores ts (
    if t.team_num == pos 0
    then (t.score, score1)
    else if t.team_num == pos 1
    then (score0, t.score)
    else (score0, score1))

unfoldable pub stats_of : PlayerSnapshot → StatsRow
stats_of pl = record {
  player_name = pl.name;
  team_num = pl.team_num;
  score = pl.score;
  goals = pl.goals;
  shots = pl.shots;
  assists = pl.assists;
  saves = pl.saves;
  touches = pl.touches;
  car_touches = pl.car_touches;
  demos = pl.demos;
}

abbrev is_nil {ℓ} : {A : Type ℓ} → List A → Bool
is_nil [] = true
is_nil (_ ∷ _) = false

abbrev is_none {ℓ} : {A : Type ℓ} → Option A → Bool
is_none none = true
is_none (some _) = false

abbrev id_or_zero : Option ℕ → ℕ
id_or_zero none = 0
id_or_zero (some id) = id

-- `now` is the time, `range` the order in which a range statement visits a map of players, and
-- `last_insert_id` the driver's LastInsertId.
module _ (now : ℕ) (range : Players → Players) (last_insert_id : Db → ℕ → ℕ) where
  unfoldable pub flush_player : ℕ → PlayerSnapshot → Db → Db
  unfolding stats_of
  flush_player id pl db =
      (upsert_player_match_stats_with_name id pl.primary_id (stats_of pl)
        (upsert_player now pl.primary_id pl.name db).0).0

  -- The loop of flushMatch over the players.
  unfoldable pub flush_players : ℕ → Players → Db → Db
  unfolding flush_player
  flush_players id [] db = db
  flush_players id ((_, pl) ∷ pls) db = flush_players id pls (flush_player id pl db)

  unfoldable pub flush_scores : ℕ → List TeamSnapshot → Db → Db
  unfolding final_scores
  flush_scores id teams db =
      let (score0, score1) = final_scores teams (minus_one, minus_one) in
      if not (is_neg score0) && not (is_neg score1)
      then (update_team_scores id score0 score1 db).0
      else db

  unfoldable pub flush_match : ℤ → Bool → Bool → Recorder → Db → Recorder × Db
  unfolding flush_scores flush_players reset_match_state
  flush_match winner incomplete forfeit r db =
      let ended = (end_match now r.match_id winner r.overtime incomplete forfeit db).0 in
      let scored = flush_scores r.match_id r.last_teams ended in
      (reset_match_state, flush_players r.match_id (range r.last_players) scored)

  unfoldable pub switch_match : Text → Recorder → Db → Recorder × Db
  unfolding flush_match
  switch_match guid r db = if is_empty guid || guid == r.match_guid then (r, db) else (
    record reset_match_state { match_guid = guid },
    if nat_beq r.match_id 0 then db else (flush_match minus_one true false r db).1,
  )

  unfoldable pub on_match_started : Event → Recorder → Db → Recorder × Db
  unfolding switch_match
  on_match_started e r db =
      if is_empty (match_guid e) then (r, db) else switch_match (match_guid e) r db

  -- The next recorder's players, given the map of the current ones.
  unfoldable pub update_players : GameSnapshot → Players → Players → Players
  update_players game current last =
      if game.is_replay
      then (if leb (length last) (length current)
          then preserve_live_touch_counts last current
          else last)
      else if leb (length last) (length current)
      then current
      else if is_active_live_clock game
      then merge_players (range current) last
      else current

  -- The part of onStateUpdated that opens the match in the database.
  unfoldable pub open_match : Text → Recorder → Db → Recorder × Db
  open_match arena r db =
      if nat_beq r.match_id 0 && not (is_empty r.match_guid)
      then (let (db', id) = upsert_match last_insert_id r.match_guid arena now db in
          (record r { match_id = id_or_zero id }, db'))
      else (r, db)

  unfoldable pub record_playlist : Option ℤ → Recorder → Db → Recorder × Db
  record_playlist none r db = (r, db)
  record_playlist (some playlist) r db =
      if not (nat_beq r.match_id 0) && is_none r.playlist_type
      then (
        record r { playlist_type = some playlist },
        (update_match_playlist r.match_id playlist db).0,
      )
      else (r, db)

  unfoldable pub update_snapshot : Text → List PlayerSnapshot → GameSnapshot → Recorder → Recorder
  unfolding update_players
  update_snapshot guid pls game r = record r {
    last_players =
        if is_nil pls
        then r.last_players
        else update_players game (collect_players guid pls []) r.last_players;
    last_teams = if is_nil game.teams then r.last_teams else game.teams;
  }

  unfoldable pub state_updated_with :
      Text → List PlayerSnapshot → GameSnapshot → Recorder → Db → Recorder × Db
  unfolding switch_match open_match record_playlist update_snapshot
  state_updated_with guid pls game r db =
      if nat_beq r.match_id 0 && game.has_winner
      then (r, db)
      else (let (r1, db1) = switch_match guid r db in
          let timed = record r1 {
            overtime = game.is_overtime;
            last_time_seconds = game.time_seconds;
            last_clock_known = true;
            replay_active = game.is_replay;
          } in
          let (r2, db2) = open_match game.arena timed db1 in
          record_playlist game.playlist (update_snapshot guid pls game r2) db2)

  -- The type assertion of each handler is the match on the unwrapped event.
  on_state : Event → Recorder → Db → Recorder × Db
  unfolding state_updated_with
  on_state (state_updated b pls game) r db = state_updated_with b.guid pls game r db
  on_state _ r db = (r, db)

  unfoldable pub on_state_updated : Event → Recorder → Db → Recorder × Db
  unfolding on_state unwrap
  on_state_updated e r db = on_state (unwrap e) r db

  goal_recorded : Text → GoalScored → Recorder → Db → Recorder × Db
  goal_recorded guid goal r db =
      if not (is_active_match guid r) || is_empty goal.scorer then (r, db) else (
        r,
        (insert_goal_with_game_clock
            (record {
              match_id = r.match_id;
              scorer_id = find_player_by_shortcut goal.scorer_shortcut (range r.last_players);
              scorer_name = goal.scorer;
              assister_id =
                  if is_empty goal.assister
                  then none
                  else null_if_empty
                      (find_player_by_shortcut goal.assister_shortcut (range r.last_players));
              assister_name = goal.assister;
              ball_last_touch_id =
                  null_if_empty
                    (find_player_by_shortcut goal.last_touch_shortcut (range r.last_players));
              goal_speed = goal.goal_speed;
              goal_time = goal.goal_time;
              game_time_seconds = game_clock_seconds r;
              game_overtime = r.overtime;
              impact_x = goal.impact_x;
              impact_y = goal.impact_y;
              impact_z = goal.impact_z;
              scored_at = now;
            })
            db).0,
      )

  on_goal : Event → Recorder → Db → Recorder × Db
  unfolding goal_recorded
  on_goal (goal_scored b goal) r db = goal_recorded b.guid goal r db
  on_goal _ r db = (r, db)

  unfoldable pub on_goal_scored : Event → Recorder → Db → Recorder × Db
  unfolding on_goal unwrap
  on_goal_scored e r db = if nat_beq r.match_id 0 then (r, db) else on_goal (unwrap e) r db

  ball_hit_recorded : Text → BallHit → Recorder → Db → Recorder × Db
  ball_hit_recorded guid hit r db =
      if not (is_active_match guid r) || r.replay_active then (r, db) else (
        r,
        (insert_ball_hit
            (record {
              match_id = r.match_id;
              player_id =
                  resolve_player_id guid hit.player_primary_id hit.player_shortcut hit.player_name;
              pre_hit_speed = hit.pre_hit_speed;
              post_hit_speed = hit.post_hit_speed;
              loc_x = hit.loc_x;
              loc_y = hit.loc_y;
              loc_z = hit.loc_z;
              hit_at = now;
            })
            db).0,
      )

  on_hit : Event → Recorder → Db → Recorder × Db
  unfolding ball_hit_recorded
  on_hit (ball_hit b hit) r db = ball_hit_recorded b.guid hit r db
  on_hit _ r db = (r, db)

  -- `enabled` is cfg.Storage.BallHitEvents.
  unfoldable pub on_ball_hit : Bool → Event → Recorder → Db → Recorder × Db
  unfolding on_hit unwrap
  on_ball_hit enabled e r db =
      if not enabled || nat_beq r.match_id 0 then (r, db) else on_hit (unwrap e) r db

  on_clock : Event → Recorder → Recorder
  on_clock (clock_updated b seconds overtime) r =
      if is_active_match b.guid r
      then record r { overtime = overtime; last_time_seconds = seconds; last_clock_known = true }
      else r
  on_clock _ r = r

  unfoldable pub on_clock_updated : Event → Recorder → Db → Recorder × Db
  unfolding on_clock unwrap
  on_clock_updated e r db = (if nat_beq r.match_id 0 then r else on_clock (unwrap e) r, db)

  stat_recorded : Text → StatFeed → Recorder → Db → Recorder × Db
  stat_recorded guid feed r db =
      if is_empty feed.event_name
        || is_empty feed.main_target
        || not (is_active_match guid r)
        || nat_beq r.match_id 0
      then (r, db)
      else (
        r,
        (insert_statfeed_event_with_game_clock
            (record {
              match_id = r.match_id;
              player_id = find_player_by_shortcut feed.main_target_shortcut (range r.last_players);
              player_name = feed.main_target;
              team_num = feed.main_target_team_num;
              event_type = feed.event_name;
              target_id =
                  if is_empty feed.secondary_target
                  then []
                  else find_player_by_shortcut feed.secondary_target_shortcut
                      (range r.last_players);
              target_name = feed.secondary_target;
              game_time_seconds = game_clock_seconds r;
              game_overtime = r.overtime;
              occurred_at = now;
            })
            db).0,
      )

  on_stat : Event → Recorder → Db → Recorder × Db
  unfolding stat_recorded
  on_stat (stat_feed b feed) r db = stat_recorded b.guid feed r db
  on_stat _ r db = (r, db)

  unfoldable pub on_stat_feed : Event → Recorder → Db → Recorder × Db
  unfolding on_stat unwrap
  on_stat_feed e r db = on_stat (unwrap e) r db

  on_end : Event → Recorder → Db → Recorder × Db
  unfolding flush_match
  on_end (match_ended b winner) r db =
      if nat_beq r.match_id 0 || not (is_active_match b.guid r)
      then (r, db)
      else flush_match winner false (is_likely_forfeit winner r) r db
  on_end _ r db = (r, db)

  unfoldable pub on_match_ended : Event → Recorder → Db → Recorder × Db
  unfolding on_end unwrap
  on_match_ended e r db = on_end (unwrap e) r db

  unfoldable pub on_match_destroyed : Recorder → Db → Recorder × Db
  unfolding flush_match
  on_match_destroyed r db =
      if nat_beq r.match_id 0
      then (reset_match_state, db)
      else flush_match minus_one true false r db
