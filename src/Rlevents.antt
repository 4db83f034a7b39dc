-- ===== src/Rlevents.antt =====
-- internal/rlevents/translator.go: from the messages of the game's API to the events of the bus.
mod Convert
pub mod Certainties
pub mod Lifecycle
pub mod Overtime
pub mod Actions
unfoldable pub use Convert.*
use oof_rl.Prelude.{
  ℕ, ℤ, pos, Text, codes, Bool, true, false, not, ◌&&◌, ◌||◌, Option, none, some, List, [], ◌∷◌,
  ◌++◌, map, ◌==◌, text_comparable, is_empty, if◌then◌else◌,
}
use oof_rl.Wire
use oof_rl.Wire.{
  Json, Envelope, PlayerRef, GoalScoredData, StatfeedEventData, ClockData, BallHitData,
  CrossbarHitData, UpdateStateData, MatchGuidData, MatchEndedData,
}
use oof_rl.Oofevents.Types.{
  Certainty, authoritative, inferred, Event, Team, team_from_num, ActionKind, action_ball_hit,
  action_shot, action_save, action_goal, action_assist, action_demo, PlayerSnapshot, TeamSnapshot,
  GameSnapshot, GoalScored, StatFeed, BallHit,
}
use oof_rl.Oofevents.New.{
  new_match_started, new_match_ended, new_match_destroyed, new_match_restarted,
  new_overtime_started, new_goal_scored, new_stat_feed, new_clock_updated, new_ball_hit,
  new_crossbar_hit, new_state_updated, new_game_action, GameActionOpt, with_own_goal,
  with_epic_save, with_victim,
}

-- The field `bus` is the list of publications that each method returns.
pub record Translator : Type 0 where
  pub current_guid : Text
  pub last_overtime : Bool

unfoldable pub new : Translator
new = record { current_guid = []; last_overtime = false }

-- A call of a method of PluginBus: the certainty that its name promises, and the event.
pub record Publication : Type 0 where
  pub expected : Certainty
  pub event : Event

abbrev pub publish_authoritative : Event → Publication
publish_authoritative e = record { expected = authoritative; event = e }

abbrev pub publish_inferred : Event → Publication
publish_inferred e = record { expected = inferred; event = e }

-- `now k` is what time.Now returns to the k-th call site of one Translate.
module _ (now : ℕ → ℕ) where
  unfoldable pub advance_guid : Text → Translator → Translator × List Publication
  advance_guid new_guid t = if is_empty new_guid then (t, []) else (
    record t { current_guid = new_guid },
    if not (is_empty t.current_guid) && not (t.current_guid == new_guid)
        then publish_inferred (new_match_restarted (now 0) new_guid t.current_guid) ∷ []
        else [],
  )

  unfoldable pub on_match_start : Option MatchGuidData → Translator → Translator × List Publication
  unfolding advance_guid
  on_match_start none t = (t, [])
  on_match_start (some d) t =
      if is_empty d.match_guid
      then (t, [])
      else let (t', out) = advance_guid d.match_guid t in
        (
          t',
          if d.match_guid == t.current_guid
              then out
              else out ++ (publish_authoritative (new_match_started (now 1) d.match_guid) ∷ []),
        )

  unfoldable pub on_match_ended : Option MatchEndedData → Translator → Translator × List Publication
  on_match_ended none t = (t, [])
  on_match_ended (some d) t = (
    record { current_guid = []; last_overtime = false },
    publish_authoritative (new_match_ended (now 0) d.match_guid d.winner_team_num) ∷ [],
  )

  unfoldable pub on_match_destroyed : Translator → Translator × List Publication
  on_match_destroyed t = (
    record { current_guid = []; last_overtime = false },
    publish_authoritative (new_match_destroyed (now 0)) ∷ [],
  )

  unfoldable pub on_goal_scored : Option GoalScoredData → Translator → Translator × List Publication
  unfolding goal_of
  on_goal_scored none t = (t, [])
  on_goal_scored (some d) t =
      (t, publish_authoritative (new_goal_scored (now 0) d.match_guid (goal_of d)) ∷ [])

  unfoldable pub action_of :
      StatfeedEventData → Team → ActionKind → List GameActionOpt → List Publication
  action_of d team kind opts =
      publish_authoritative (
        new_game_action (now 1) d.match_guid kind team d.main_target.primary_id d.main_target.name
          opts)
      ∷ []

  -- The switch over the name of the stat.
  unfoldable pub stat_action : StatfeedEventData → Team → List Publication
  unfolding action_of primary_id_or_empty
  stat_action d team =
      if d.event_name == codes "Shot"
      then action_of d team action_shot []
      else if d.event_name == codes "Save"
      then action_of d team action_save []
      else if d.event_name == codes "EpicSave"
      then action_of d team action_save (with_epic_save ∷ [])
      else if d.event_name == codes "Goal"
      then action_of d team action_goal []
      else if d.event_name == codes "OwnGoal"
      then action_of d team action_goal (with_own_goal ∷ [])
      else if d.event_name == codes "Assist"
      then action_of d team action_assist []
      else if d.event_name == codes "Demolish"
      then action_of d team action_demo (with_victim (primary_id_or_empty d.secondary_target) ∷ [])
      else []

  unfoldable pub team_action : StatfeedEventData → Option Team → List Publication
  unfolding stat_action
  team_action d none = []
  team_action d (some team) = stat_action d team

  unfoldable pub on_stat_feed :
      Option StatfeedEventData → Translator → Translator × List Publication
  unfolding feed_of team_action
  on_stat_feed none t = (t, [])
  on_stat_feed (some d) t = (
    t,
    publish_authoritative (new_stat_feed (now 0) d.match_guid (feed_of d))
        ∷ team_action d (team_from_num d.main_target.team_num),
  )

  unfoldable pub on_clock_updated : Option ClockData → Translator → Translator × List Publication
  on_clock_updated none t = (t, [])
  on_clock_updated (some d) t =
      let tick =
        publish_authoritative (new_clock_updated (now 1) d.match_guid d.time_seconds d.overtime) in
      (
        record t { last_overtime = d.overtime },
        if d.overtime && not t.last_overtime
            then publish_inferred (new_overtime_started (now 0) d.match_guid d.time_seconds)
              ∷ tick
              ∷ []
            else tick ∷ [],
      )

  abbrev pub hit_by : Text → PlayerRef → Option Team → List Publication
  hit_by guid p none = []
  hit_by guid p (some team) =
      publish_authoritative
        (new_game_action (now 1) guid action_ball_hit team p.primary_id p.name [])
      ∷ []

  unfoldable pub hit_action : Text → List PlayerRef → List Publication
  hit_action guid [] = []
  hit_action guid (p ∷ _) = hit_by guid p (team_from_num p.team_num)

  unfoldable pub on_ball_hit : Option BallHitData → Translator → Translator × List Publication
  unfolding hit_of hit_action
  on_ball_hit none t = (t, [])
  on_ball_hit (some d) t = (
    t,
    publish_authoritative (new_ball_hit (now 0) d.match_guid (hit_of d))
        ∷ hit_action d.match_guid d.players,
  )

  unfoldable pub on_crossbar_hit :
      Option CrossbarHitData → Translator → Translator × List Publication
  on_crossbar_hit none t = (t, [])
  on_crossbar_hit (some d) t = (
    t,
    publish_authoritative (
          new_crossbar_hit (now 0) d.match_guid d.ball_last_touch.player.name d.ball_speed
            d.impact_force)
        ∷ [],
  )

  unfoldable pub on_update_state :
      Option UpdateStateData → Translator → Translator × List Publication
  unfolding advance_guid player_snapshot game_snapshot
  on_update_state none t = (t, [])
  on_update_state (some d) t =
      let (t', out) = advance_guid d.match_guid t in
      (
        t',
        out
            ++ (publish_authoritative (
                  new_state_updated (now 1) d.match_guid (map player_snapshot d.players)
                    (game_snapshot d.game))
                ∷ []),
      )

  -- The switch of Translate; `json` is the decoder that each handler calls.
  unfoldable pub translate : Json → Envelope → Translator → Translator × List Publication
  translate json env t =
      if env.event == codes "MatchCreated" || env.event == codes "MatchInitialized"
      then on_match_start (json.match_guid_data env.content) t
      else if env.event == codes "MatchEnded"
      then on_match_ended (json.match_ended_data env.content) t
      else if env.event == codes "MatchDestroyed"
      then on_match_destroyed t
      else if env.event == codes "GoalScored"
      then on_goal_scored (json.goal_scored_data env.content) t
      else if env.event == codes "StatfeedEvent"
      then on_stat_feed (json.statfeed_data env.content) t
      else if env.event == codes "ClockUpdatedSeconds"
      then on_clock_updated (json.clock_data env.content) t
      else if env.event == codes "BallHit"
      then on_ball_hit (json.ball_hit_data env.content) t
      else if env.event == codes "CrossbarHit"
      then on_crossbar_hit (json.crossbar_hit_data env.content) t
      else if env.event == codes "UpdateState"
      then on_update_state (json.update_state_data env.content) t
      else (t, [])

  unfoldable pub translate_all : Json → List Envelope → Translator → Translator × List Publication
  translate_all json [] t = (t, [])
  translate_all json (env ∷ envs) t =
      let (t', out) = translate json env t in
      let (t'', rest) = translate_all json envs t' in (t'', out ++ rest)
