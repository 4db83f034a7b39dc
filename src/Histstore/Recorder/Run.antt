-- ===== src/Histstore/Recorder/Run.antt =====
-- The recorder on the bus: Subscribe, and what a sequence of events does.
use oof_rl.Prelude.{ℕ, Bool, List, [], ◌∷◌, ◌==◌, text_comparable, if◌then◌else◌}
use oof_rl.Oofevents.Types.{
  Event, event_type, type_match_started, type_state_updated, type_goal_scored, type_ball_hit,
  type_clock_updated, type_stat_feed, type_match_ended, type_match_destroyed,
}
use oof_rl.Histstore.Store.{Db}
use oof_rl.Histstore.Players.{Players}
use oof_rl.Histstore.Recorder.{
  Recorder, on_match_started, on_state_updated, on_goal_scored, on_ball_hit, on_clock_updated,
  on_stat_feed, on_match_ended, on_match_destroyed,
}

module _ (range : Players → Players) (last_insert_id : Db → ℕ → ℕ) (enabled : Bool) where
  -- The handler that Subscribe registers for the type of the event.
  unfoldable pub handle : ℕ → Event → Recorder → Db → Recorder × Db
  handle now e r db =
      if event_type e == type_match_started
      then on_match_started now range last_insert_id e r db
      else if event_type e == type_state_updated
      then on_state_updated now range last_insert_id e r db
      else if event_type e == type_goal_scored
      then on_goal_scored now range last_insert_id e r db
      else if event_type e == type_ball_hit
      then on_ball_hit now range last_insert_id enabled e r db
      else if event_type e == type_clock_updated
      then on_clock_updated now range last_insert_id e r db
      else if event_type e == type_stat_feed
      then on_stat_feed now range last_insert_id e r db
      else if event_type e == type_match_ended
      then on_match_ended now range last_insert_id e r db
      else if event_type e == type_match_destroyed
      then on_match_destroyed now range last_insert_id r db
      else (r, db)

  -- A sequence of events with the time of each.
  unfoldable pub handle_all : List (ℕ × Event) → Recorder → Db → Recorder × Db
  unfolding handle
  handle_all [] r db = (r, db)
  handle_all ((now, e) ∷ es) r db = let (r', db') = handle now e r db in handle_all es r' db'
