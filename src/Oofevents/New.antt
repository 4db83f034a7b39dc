-- ===== src/Oofevents/New.antt =====
-- internal/oofevents/eventtypes.go: the constructors of events. `now` is what time.Now returns to
-- the call of NewBase.
use mathlib.Core.List.{foldl}
use oof_rl.Prelude.{ℕ, ℤ, Text, Bool, true, false, List, []}
use oof_rl.Wire.{Float64}
use oof_rl.Oofevents.Types.{
  Certainty, authoritative, inferred, Base, no_source, Team, ActionKind, PlayerSnapshot,
  GameSnapshot, GameAction, GoalScored, StatFeed, BallHit, Event, type_match_started,
  type_match_ended, type_match_destroyed, type_match_restarted, type_overtime_started,
  type_goal_scored, type_stat_feed, type_clock_updated, type_ball_hit, type_crossbar_hit,
  type_state_updated, type_game_action, match_started, match_ended, match_destroyed,
  match_restarted, overtime_started, goal_scored, stat_feed, clock_updated, ball_hit, crossbar_hit,
  state_updated, game_action,
}

unfoldable pub new_base : ℕ → Text → Certainty → Text → Base
new_base now typ cert guid = record {
  event_type = typ;
  at_time = now;
  certainty = cert;
  source = no_source;
  guid = guid;
}

module _ (now : ℕ) where
  unfoldable pub new_match_started : Text → Event
  unfolding new_base
  new_match_started guid = match_started (new_base now type_match_started authoritative guid)

  unfoldable pub new_match_ended : Text → ℤ → Event
  unfolding new_base
  new_match_ended guid winner_team_num =
      match_ended (new_base now type_match_ended authoritative guid) winner_team_num

  unfoldable pub new_match_destroyed : Event
  unfolding new_base
  new_match_destroyed = match_destroyed (new_base now type_match_destroyed authoritative [])

  unfoldable pub new_match_restarted : Text → Text → Event
  unfolding new_base
  new_match_restarted guid previous_guid =
      match_restarted (new_base now type_match_restarted inferred guid) previous_guid

  unfoldable pub new_overtime_started : Text → ℤ → Event
  unfolding new_base
  new_overtime_started guid clock_seconds =
      overtime_started (new_base now type_overtime_started inferred guid) clock_seconds

  unfoldable pub new_goal_scored : Text → GoalScored → Event
  unfolding new_base
  new_goal_scored guid goal = goal_scored (new_base now type_goal_scored authoritative guid) goal

  unfoldable pub new_stat_feed : Text → StatFeed → Event
  unfolding new_base
  new_stat_feed guid feed = stat_feed (new_base now type_stat_feed authoritative guid) feed

  unfoldable pub new_clock_updated : Text → ℤ → Bool → Event
  unfolding new_base
  new_clock_updated guid seconds overtime =
      clock_updated (new_base now type_clock_updated authoritative guid) seconds overtime

  unfoldable pub new_ball_hit : Text → BallHit → Event
  unfolding new_base
  new_ball_hit guid hit = ball_hit (new_base now type_ball_hit authoritative guid) hit

  unfoldable pub new_crossbar_hit : Text → Text → Float64 → Float64 → Event
  unfolding new_base
  new_crossbar_hit guid last_toucher ball_speed impact_force =
      crossbar_hit (new_base now type_crossbar_hit authoritative guid) (record {
        ball_speed = ball_speed;
        impact_force = impact_force;
        last_toucher = last_toucher;
      })

  unfoldable pub new_state_updated : Text → List PlayerSnapshot → GameSnapshot → Event
  unfolding new_base
  new_state_updated guid players game =
      state_updated (new_base now type_state_updated authoritative guid) players game

-- A functional option of NewGameAction.
abbrev pub GameActionOpt : Type 0
GameActionOpt = GameAction → GameAction

unfoldable pub with_own_goal : GameActionOpt
with_own_goal a = record a { is_own_goal = true }

unfoldable pub with_epic_save : GameActionOpt
with_epic_save a = record a { is_epic_save = true }

unfoldable pub with_victim : Text → GameActionOpt
with_victim id a = record a { victim_id = id }

unfoldable pub new_game_action :
    ℕ → Text → ActionKind → Team → Text → Text → List GameActionOpt → Event
unfolding new_base
new_game_action now guid action team player_id player_name opts =
    game_action (new_base now type_game_action authoritative guid) (
      foldl (λ a opt. opt a)
        (record {
          action = action;
          team = team;
          player_id = player_id;
          player_name = player_name;
          is_own_goal = false;
          is_epic_save = false;
          victim_id = [];
        })
        opts)
