-- ===== src/Rlevents/Convert.antt =====
-- internal/rlevents/translator.go: the parts of messages copied into the fields of events.
use oof_rl.Prelude.{ℤ, pos, Text, Option, none, some, List, [], ◌∷◌, map}
use oof_rl.Wire
use oof_rl.Wire.{PlayerRef, GoalScoredData, StatfeedEventData, BallHitData}
use oof_rl.Oofevents.Types.{
  PlayerSnapshot, TeamSnapshot, GameSnapshot, GoalScored, StatFeed, BallHit,
}

unfoldable pub name_or_empty : Option PlayerRef → Text
name_or_empty none = []
name_or_empty (some p) = p.name

unfoldable pub primary_id_or_empty : Option PlayerRef → Text
primary_id_or_empty none = []
primary_id_or_empty (some p) = p.primary_id

unfoldable pub shortcut_or_zero : Option PlayerRef → ℤ
shortcut_or_zero none = pos 0
shortcut_or_zero (some p) = p.shortcut

unfoldable pub goal_of : GoalScoredData → GoalScored
unfolding name_or_empty shortcut_or_zero
goal_of d = record {
  scorer = d.scorer.name;
  scorer_shortcut = d.scorer.shortcut;
  assister = name_or_empty d.assister;
  assister_shortcut = shortcut_or_zero d.assister;
  last_touch_shortcut = d.ball_last_touch.player.shortcut;
  goal_speed = d.goal_speed;
  goal_time = d.goal_time;
  impact_x = d.impact_location.x;
  impact_y = d.impact_location.y;
  impact_z = d.impact_location.z;
  team_num = d.scorer.team_num;
}

unfoldable pub feed_of : StatfeedEventData → StatFeed
unfolding name_or_empty primary_id_or_empty shortcut_or_zero
feed_of d = record {
  event_name = d.event_name;
  main_target = d.main_target.name;
  main_target_primary_id = d.main_target.primary_id;
  main_target_shortcut = d.main_target.shortcut;
  main_target_team_num = d.main_target.team_num;
  secondary_target = name_or_empty d.secondary_target;
  secondary_target_primary_id = primary_id_or_empty d.secondary_target;
  secondary_target_shortcut = shortcut_or_zero d.secondary_target;
}

-- The zero value of PlayerRef, for a hit with no player.
abbrev pub no_player : PlayerRef
no_player = record { name = []; primary_id = []; shortcut = pos 0; team_num = pos 0 }

unfoldable pub first_player : List PlayerRef → PlayerRef
first_player [] = no_player
first_player (p ∷ _) = p

unfoldable pub hit_of : BallHitData → BallHit
unfolding first_player
hit_of d = record {
  player_name = (first_player d.players).name;
  player_primary_id = (first_player d.players).primary_id;
  player_shortcut = (first_player d.players).shortcut;
  player_team_num = (first_player d.players).team_num;
  pre_hit_speed = d.ball.pre_hit_speed;
  post_hit_speed = d.ball.post_hit_speed;
  loc_x = d.ball.location.x;
  loc_y = d.ball.location.y;
  loc_z = d.ball.location.z;
}

unfoldable pub player_snapshot : Wire.Player → PlayerSnapshot
player_snapshot p = record {
  name = p.name;
  primary_id = p.primary_id;
  shortcut = p.shortcut;
  team_num = p.team_num;
  score = p.score;
  goals = p.goals;
  shots = p.shots;
  assists = p.assists;
  saves = p.saves;
  touches = p.touches;
  car_touches = p.car_touches;
  demos = p.demos;
  speed = p.speed;
  boost = p.boost;
  is_boosting = p.boosting;
  is_on_wall = p.on_wall;
  is_powersliding = p.powersliding;
  is_demolished = p.demolished;
  is_supersonic = p.supersonic;
}

unfoldable pub team_snapshot : Wire.Team → TeamSnapshot
team_snapshot tm = record {
  name = tm.name;
  team_num = tm.team_num;
  score = tm.score;
  color_primary = tm.color_primary;
  color_secondary = tm.color_secondary;
}

unfoldable pub game_snapshot : Wire.GameState → GameSnapshot
unfolding team_snapshot
game_snapshot g = record {
  teams = map team_snapshot g.teams;
  time_seconds = g.time_seconds;
  is_overtime = g.overtime;
  is_replay = g.replay;
  ball = record { speed = g.ball.speed };
  arena = g.arena;
  playlist = g.playlist;
  has_winner = g.has_winner;
  winner = g.winner;
}
