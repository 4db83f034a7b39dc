-- ===== src/Wire.antt =====
-- internal/events/types.go: the messages of the game's API after JSON decoding. A pointer field is
-- an `Option`. A float64 is kept as its bit pattern, since the program only copies these values.
use oof_rl.Prelude.{ℕ, ℤ, Text, Bool, Option, List}

abbrev pub Float64 : Type 0
Float64 = ℕ

-- json.RawMessage
abbrev pub RawMessage : Type 0
RawMessage = List ℕ

pub record Envelope : Type 0 where
  pub event : Text
  pub content : RawMessage

pub record PlayerRef : Type 0 where
  pub name : Text
  pub primary_id : Text
  pub shortcut : ℤ
  pub team_num : ℤ

pub record AttackerRef : Type 0 where
  pub name : Text
  pub shortcut : ℤ
  pub team_num : ℤ

pub record Player : Type 0 where
  pub name : Text
  pub primary_id : Text
  pub shortcut : ℤ
  pub team_num : ℤ
  pub score : ℤ
  pub goals : ℤ
  pub shots : ℤ
  pub assists : ℤ
  pub saves : ℤ
  pub touches : ℤ
  pub car_touches : ℤ
  pub demos : ℤ
  pub has_car : Option Bool
  pub speed : Option Float64
  pub boost : Option ℤ
  pub boosting : Option Bool
  pub on_ground : Option Bool
  pub on_wall : Option Bool
  pub powersliding : Option Bool
  pub demolished : Option Bool
  pub supersonic : Option Bool
  pub attacker : Option AttackerRef

pub record Team : Type 0 where
  pub name : Text
  pub team_num : ℤ
  pub score : ℤ
  pub color_primary : Text
  pub color_secondary : Text

pub record Ball : Type 0 where
  pub speed : Float64
  pub team_num : ℤ

pub record Target : Type 0 where
  pub name : Text
  pub shortcut : ℤ
  pub team_num : ℤ

pub record GameState : Type 0 where
  pub teams : List Team
  pub time_seconds : ℤ
  pub overtime : Bool
  pub frame : Option ℤ
  pub elapsed : Option Float64
  pub ball : Ball
  pub replay : Bool
  pub has_winner : Bool
  pub winner : Text
  pub arena : Text
  pub has_target : Bool
  pub target : Option Target
  pub playlist : Option ℤ

pub record UpdateStateData : Type 0 where
  pub match_guid : Text
  pub players : List Player
  pub game : GameState

pub record Vec3 : Type 0 where
  pub x : Float64
  pub y : Float64
  pub z : Float64

pub record BallHitBall : Type 0 where
  pub pre_hit_speed : Float64
  pub post_hit_speed : Float64
  pub location : Vec3

pub record BallHitData : Type 0 where
  pub match_guid : Text
  pub players : List PlayerRef
  pub ball : BallHitBall

pub record LastTouch : Type 0 where
  pub player : PlayerRef
  pub speed : Float64

pub record GoalScoredData : Type 0 where
  pub match_guid : Text
  pub goal_speed : Float64
  pub goal_time : Float64
  pub impact_location : Vec3
  pub scorer : PlayerRef
  pub assister : Option PlayerRef
  pub ball_last_touch : LastTouch

pub record MatchGuidData : Type 0 where
  pub match_guid : Text

pub record MatchEndedData : Type 0 where
  pub match_guid : Text
  pub winner_team_num : ℤ

pub record ClockData : Type 0 where
  pub match_guid : Text
  pub time_seconds : ℤ
  pub overtime : Bool

pub record CrossbarHitData : Type 0 where
  pub match_guid : Text
  pub ball_location : Vec3
  pub ball_speed : Float64
  pub impact_force : Float64
  pub ball_last_touch : LastTouch

pub record StatfeedEventData : Type 0 where
  pub match_guid : Text
  pub event_name : Text
  pub main_target : PlayerRef
  pub secondary_target : Option PlayerRef

-- encoding/json, which is not part of the repository: for each type what Unmarshal makes of a
-- message, `none` for an error.
pub record Json : Type 0 where
  pub match_guid_data : RawMessage → Option MatchGuidData
  pub match_ended_data : RawMessage → Option MatchEndedData
  pub goal_scored_data : RawMessage → Option GoalScoredData
  pub statfeed_data : RawMessage → Option StatfeedEventData
  pub clock_data : RawMessage → Option ClockData
  pub ball_hit_data : RawMessage → Option BallHitData
  pub crossbar_hit_data : RawMessage → Option CrossbarHitData
  pub update_state_data : RawMessage → Option UpdateStateData
