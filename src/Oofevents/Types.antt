-- ===== src/Oofevents/Types.antt =====
-- internal/oofevents/types.go and eventtypes.go: certainty, the base of an event, the snapshots, and
-- the concrete event types as the constructors of one data type.
use oof_rl.Prelude.{
  ℕ, ℤ, pos, Text, codes, Bool, Option, none, some, List, [], ◌==◌, int_comparable, if◌then◌else◌,
}
use oof_rl.Wire.{Float64, RawMessage}

pub data Certainty : Type 0 where
  authoritative inferred signal : Certainty

-- The value of the Go constant.
abbrev pub rank : Certainty → ℕ
rank authoritative = 0
rank inferred = 1
rank signal = 2

pub record Source : Type 0 where
  pub plugin_id : Text
  pub label : Text

pub record Base : Type 0 where
  pub event_type : Text
  pub at_time : ℕ
  pub certainty : Certainty
  pub source : Source
  pub guid : Text

abbrev pub no_source : Source
no_source = record { plugin_id = []; label = [] }

abbrev pub type_match_started : Text
type_match_started = codes "match.started"

abbrev pub type_match_ended : Text
type_match_ended = codes "match.ended"

abbrev pub type_match_destroyed : Text
type_match_destroyed = codes "match.destroyed"

abbrev pub type_match_restarted : Text
type_match_restarted = codes "match.restarted"

abbrev pub type_overtime_started : Text
type_overtime_started = codes "overtime.started"

abbrev pub type_goal_scored : Text
type_goal_scored = codes "goal.scored"

abbrev pub type_stat_feed : Text
type_stat_feed = codes "stat.feed"

abbrev pub type_clock_updated : Text
type_clock_updated = codes "clock.updated"

abbrev pub type_ball_hit : Text
type_ball_hit = codes "ball.hit"

abbrev pub type_crossbar_hit : Text
type_crossbar_hit = codes "crossbar.hit"

abbrev pub type_state_updated : Text
type_state_updated = codes "state.updated"

abbrev pub type_game_action : Text
type_game_action = codes "game.action"

-- The strings "blue" and "orange", and "" where a team number is not recognised.
pub data Team : Type 0 where
  team_blue team_orange team_unknown : Team

unfoldable pub team_from_num : ℤ → Option Team
team_from_num n =
    if n == pos 0 then some team_blue else if n == pos 1 then some team_orange else none

unfoldable pub opponent : Team → Team
opponent team_blue = team_orange
opponent team_orange = team_blue
opponent team_unknown = team_unknown

pub data ActionKind : Type 0 where
  action_ball_hit action_shot action_save action_goal action_assist action_demo : ActionKind

pub record PlayerSnapshot : Type 0 where
  pub name : Text
  pub primary_id : Text
  pub shortcut : ℤ
  pub team_num : ℤ
  pub score : ℤ
  pub goals : ℤ
  pub shots : ℤ
  pub assists : ℤ
  pub saves : ℤ
  pub touches : ℤ
  pub car_touches : ℤ
  pub demos : ℤ
  pub speed : Option Float64
  pub boost : Option ℤ
  pub is_boosting : Option Bool
  pub is_on_wall : Option Bool
  pub is_powersliding : Option Bool
  pub is_demolished : Option Bool
  pub is_supersonic : Option Bool

pub record BallSnapshot : Type 0 where
  pub speed : Float64

pub record TeamSnapshot : Type 0 where
  pub name : Text
  pub team_num : ℤ
  pub score : ℤ
  pub color_primary : Text
  pub color_secondary : Text

pub record GameSnapshot : Type 0 where
  pub teams : List TeamSnapshot
  pub time_seconds : ℤ
  pub is_overtime : Bool
  pub is_replay : Bool
  pub ball : BallSnapshot
  pub arena : Text
  pub playlist : Option ℤ
  pub has_winner : Bool
  pub winner : Text

pub record GoalScored : Type 0 where
  pub scorer : Text
  pub scorer_shortcut : ℤ
  pub assister : Text
  pub assister_shortcut : ℤ
  pub last_touch_shortcut : ℤ
  pub goal_speed : Float64
  pub goal_time : Float64
  pub impact_x : Float64
  pub impact_y : Float64
  pub impact_z : Float64
  pub team_num : ℤ

pub record StatFeed : Type 0 where
  pub event_name : Text
  pub main_target : Text
  pub main_target_primary_id : Text
  pub main_target_shortcut : ℤ
  pub main_target_team_num : ℤ
  pub secondary_target : Text
  pub secondary_target_primary_id : Text
  pub secondary_target_shortcut : ℤ

pub record BallHit : Type 0 where
  pub player_name : Text
  pub player_primary_id : Text
  pub player_shortcut : ℤ
  pub player_team_num : ℤ
  pub pre_hit_speed : Float64
  pub post_hit_speed : Float64
  pub loc_x : Float64
  pub loc_y : Float64
  pub loc_z : Float64

pub record CrossbarHit : Type 0 where
  pub ball_speed : Float64
  pub impact_force : Float64
  pub last_toucher : Text

pub record GameAction : Type 0 where
  pub action : ActionKind
  pub team : Team
  pub player_id : Text
  pub player_name : Text
  pub is_own_goal : Bool
  pub is_epic_save : Bool
  pub victim_id : Text

-- A value of the interface OOFEvent. `stamped` is the wrapper stampedEvent of impl.go.
pub data Event : Type 0 where
  match_started match_destroyed : Base → Event
  match_ended : Base → ℤ → Event
  match_restarted : Base → Text → Event
  overtime_started : Base → ℤ → Event
  goal_scored : Base → GoalScored → Event
  stat_feed : Base → StatFeed → Event
  clock_updated : Base → ℤ → Bool → Event
  ball_hit : Base → BallHit → Event
  crossbar_hit : Base → CrossbarHit → Event
  state_updated : Base → List PlayerSnapshot → GameSnapshot → Event
  game_action : Base → GameAction → Event
  raw_event : Base → RawMessage → Event
  stamped : Event → Source → Event

-- The methods of Base, promoted through each concrete type; the wrapper forwards all but Source.
unfoldable pub base : Event → Base
base (match_started b) = b
base (match_destroyed b) = b
base (match_ended b _) = b
base (match_restarted b _) = b
base (overtime_started b _) = b
base (goal_scored b _) = b
base (stat_feed b _) = b
base (clock_updated b _ _) = b
base (ball_hit b _) = b
base (crossbar_hit b _) = b
base (state_updated b _ _) = b
base (game_action b _) = b
base (raw_event b _) = b
base (stamped e src) = record (base e) { source = src }

abbrev pub event_type : Event → Text
event_type e = (base e).event_type

abbrev pub certainty : Event → Certainty
certainty e = (base e).certainty

abbrev pub match_guid : Event → Text
match_guid e = (base e).guid

abbrev pub source : Event → Source
source e = (base e).source
