-- ===== src/Histstore/Recorder/Isolation.antt =====
-- What the recorder ignores.
use oof_rl.Prelude.{ℕ, ◌≡◌, refl, Bool, false, arith, text_comparable}
use oof_rl.Oofevents.Types.{
  Event, base, match_guid, match_ended, goal_scored, stat_feed, clock_updated, ball_hit, stamped,
}
use oof_rl.Oofevents.Bus.{unwrap}
use oof_rl.Histstore.Store.{Db}
use oof_rl.Histstore.Players.{Players}
use oof_rl.Histstore.Recorder.{
  Recorder, is_active_match, on_goal_scored, on_goal, goal_recorded, on_ball_hit, on_hit,
  ball_hit_recorded, on_clock_updated, on_clock, on_stat_feed, on_stat, stat_recorded,
  on_match_ended, on_end,
}

module _ (now : ℕ) (range : Players → Players) (last_insert_id : Db → ℕ → ℕ) where
  foreign_event :
      (enabled : Bool) (e : Event) (r : Recorder) (db : Db)
      → is_active_match (match_guid e) r ≡ false
      → (on_goal now range last_insert_id e r db ≡ (r, db))
        × (on_hit now range last_insert_id e r db ≡ (r, db))
        × (on_clock now range last_insert_id e r ≡ r)
        × (on_stat now range last_insert_id e r db ≡ (r, db))
        × (on_end now range last_insert_id e r db ≡ (r, db))
  unfolding base on_goal goal_recorded on_hit ball_hit_recorded on_clock on_stat stat_recorded
      on_end
  foreign_event enabled (goal_scored b g) r db h = (ground arith, refl, refl, refl, refl)
  foreign_event enabled (ball_hit b g) r db h = (refl, ground arith, refl, refl, refl)
  foreign_event enabled (clock_updated b s o) r db h = (refl, refl, ground arith, refl, refl)
  foreign_event enabled (stat_feed b g) r db h = (refl, refl, refl, ground arith, refl)
  foreign_event enabled (match_ended b w) r db h = (refl, refl, refl, refl, ground arith)
  foreign_event enabled _ r db h = (refl, refl, refl, refl, refl)

match_guid-unwrap : (e : Event) → match_guid (unwrap e) ≡ match_guid e
unfolding base unwrap
match_guid-unwrap (stamped e src) = refl
match_guid-unwrap _ = refl

module _ (now : ℕ) (range : Players → Players) (last_insert_id : Db → ℕ → ℕ) where
  -- While a match is recorded, an event that names another match changes neither the recorder nor the
  -- database, whichever of the handlers of goals, hits, clocks, stats and match ends it reaches,
  -- and whether or not a bus has stamped it.
  pub foreign_events_ignored :
      (enabled : Bool) (e : Event) (r : Recorder) (db : Db)
      → is_active_match (match_guid e) r ≡ false
      → (on_goal_scored now range last_insert_id e r db ≡ (r, db))
        × (on_ball_hit now range last_insert_id enabled e r db ≡ (r, db))
        × (on_clock_updated now range last_insert_id e r db ≡ (r, db))
        × (on_stat_feed now range last_insert_id e r db ≡ (r, db))
        × (on_match_ended now range last_insert_id e r db ≡ (r, db))
  unfolding on_goal_scored on_ball_hit on_clock_updated on_stat_feed on_match_ended
  foreign_events_ignored enabled e r db h =
      let (goal, hit, clock, stat, ended) =
        foreign_event now range last_insert_id enabled (unwrap e) r db
          (rw (match_guid-unwrap e) h) in
      (ground arith, ground arith, ground arith, stat, ended)

  idle_stat :
      (e : Event) (r : Recorder) (db : Db)
      → r.match_id ≡ 0
      → (on_stat now range last_insert_id e r db).1 ≡ db
  unfolding on_stat stat_recorded
  idle_stat (stat_feed b feed) r db h = ground arith
  idle_stat _ r db h = refl

  idle_end :
      (e : Event) (r : Recorder) (db : Db)
      → r.match_id ≡ 0
      → (on_end now range last_insert_id e r db).1 ≡ db
  unfolding on_end
  idle_end (match_ended b winner) r db h = ground arith
  idle_end _ r db h = refl

  -- Without an active match a goal, a hit, a clock, a stat and the end of a match write nothing
  -- to the database.
  nothing_without_match :
      (enabled : Bool) (e : Event) (r : Recorder) (db : Db)
      → r.match_id ≡ 0
      → ((on_goal_scored now range last_insert_id e r db).1 ≡ db)
        × ((on_ball_hit now range last_insert_id enabled e r db).1 ≡ db)
        × ((on_clock_updated now range last_insert_id e r db).1 ≡ db)
        × ((on_stat_feed now range last_insert_id e r db).1 ≡ db)
        × ((on_match_ended now range last_insert_id e r db).1 ≡ db)
  unfolding on_goal_scored on_ball_hit on_clock_updated on_stat_feed on_match_ended
  nothing_without_match enabled e r db h =
      (ground arith, ground arith, refl, idle_stat (unwrap e) r db h, idle_end (unwrap e) r db h)
