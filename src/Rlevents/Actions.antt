-- ===== src/Rlevents/Actions.antt =====
-- The normalised game actions.
use oof_rl.Prelude.{
  ℕ, ◌≡◌, ◌≢◌, refl, Bool, true, false, codes, Text, Option, none, some, List, [], ◌∷◌, ◌++◌, arith,
  ◌==◌, text_comparable, text_beq, text_beq_iff, Bool-cases, inl, inr, if◌then◌else◌,
}
use mathlib.Core.List.{append_assoc}
use oof_rl.Wire.{
  Json, Envelope, ClockData, MatchGuidData, MatchEndedData, GoalScoredData, StatfeedEventData,
  BallHitData, CrossbarHitData, UpdateStateData, PlayerRef,
}
use oof_rl.Oofevents.Types.{
  Event, Team, team_from_num, ActionKind, action_ball_hit, action_shot, action_save, action_goal,
  action_assist, action_demo, GameAction, game_action,
}
use oof_rl.Oofevents.New.{
  new_match_started, new_match_ended, new_match_destroyed, new_match_restarted,
  new_overtime_started, new_goal_scored, new_stat_feed, new_clock_updated, new_ball_hit,
  new_crossbar_hit, new_state_updated, new_game_action, with_own_goal, with_epic_save, with_victim,
}
use oof_rl.Rlevents.{
  Translator, Publication, on_match_start, on_match_ended, on_match_destroyed, on_goal_scored,
  on_stat_feed, team_action, on_clock_updated, on_ball_hit, hit_action, on_crossbar_hit,
  on_update_state, translate, translate_all, primary_id_or_empty,
}

abbrev pub action_event : Event → List GameAction
action_event (game_action b a) = a ∷ []
action_event _ = []

-- The game actions among the publications.
abbrev pub actions : List Publication → List GameAction
actions [] = []
actions (p ∷ ps) = action_event p.event ++ actions ps

-- What a stat stands for: the kind of action, and whether it is an own goal, an epic save, and one
-- with a victim.
pub record StatSource : Type 0 where
  pub kind : ActionKind
  pub own_goal : Bool
  pub epic_save : Bool
  pub has_victim : Bool

abbrev plain : ActionKind → StatSource
plain k = record { kind = k; own_goal = false; epic_save = false; has_victim = false }

-- The documented sources of actions, by the name of the stat.
abbrev pub sources : List (Text × StatSource)
sources =
    (codes "Shot", plain action_shot)
    ∷ (codes "Save", plain action_save)
    ∷ (codes "EpicSave", record (plain action_save) { epic_save = true })
    ∷ (codes "Goal", plain action_goal)
    ∷ (codes "OwnGoal", record (plain action_goal) { own_goal = true })
    ∷ (codes "Assist", plain action_assist)
    ∷ (codes "Demolish", record (plain action_demo) { has_victim = true })
    ∷ []

abbrev pub source_named : Text → List (Text × StatSource) → Option StatSource
source_named name [] = none
source_named name ((known, s) ∷ rest) = if name == known then some s else source_named name rest

abbrev pub action_from : StatfeedEventData → Team → Option StatSource → List GameAction
action_from d team none = []
action_from d team (some s) =
    record {
      action = s.kind;
      team = team;
      player_id = d.main_target.primary_id;
      player_name = d.main_target.name;
      is_own_goal = s.own_goal;
      is_epic_save = s.epic_save;
      victim_id = if s.has_victim then primary_id_or_empty d.secondary_target else [];
    }
    ∷ []

abbrev pub actions_from : StatfeedEventData → Option Team → List GameAction
actions_from d none = []
actions_from d (some team) = action_from d team (source_named d.event_name sources)

abbrev pub feed_actions : Option StatfeedEventData → List GameAction
feed_actions none = []
feed_actions (some d) = actions_from d (team_from_num d.main_target.team_num)

abbrev pub touch : PlayerRef → Option Team → List GameAction
touch p none = []
touch p (some team) =
    record {
      action = action_ball_hit;
      team = team;
      player_id = p.primary_id;
      player_name = p.name;
      is_own_goal = false;
      is_epic_save = false;
      victim_id = [];
    }
    ∷ []

abbrev pub touch_actions : List PlayerRef → List GameAction
touch_actions [] = []
touch_actions (p ∷ _) = touch p (team_from_num p.team_num)

abbrev pub hit_actions : Option BallHitData → List GameAction
hit_actions none = []
hit_actions (some d) = touch_actions d.players

abbrev pub message_actions : Json → Envelope → List GameAction
message_actions json env =
    if env.event == codes "StatfeedEvent"
    then feed_actions (json.statfeed_data env.content)
    else if env.event == codes "BallHit"
    then hit_actions (json.ball_hit_data env.content)
    else []

abbrev pub messages_actions : Json → List Envelope → List GameAction
messages_actions json [] = []
messages_actions json (env ∷ envs) = message_actions json env ++ messages_actions json envs

actions-append : (ps qs : List Publication) → actions (ps ++ qs) ≡ actions ps ++ actions qs
actions-append [] qs = refl
actions-append (p ∷ ps) qs = rw (actions-append ps qs, append_assoc)

module _ (now : ℕ → ℕ) where
  actions-team_action :
      (d : StatfeedEventData) (o : Option Team) → actions (team_action now d o) ≡ actions_from d o
  unfolding team_action new_game_action with_own_goal with_epic_save with_victim
  actions-team_action d none = refl
  actions-team_action d (some team) = ground arith

  actions-stat_feed :
      (o : Option StatfeedEventData) (t : Translator)
      → actions (on_stat_feed now o t).1 ≡ feed_actions o
  unfolding on_stat_feed new_stat_feed
  actions-stat_feed none t = refl
  actions-stat_feed (some d) t = actions-team_action d (team_from_num d.main_target.team_num)

  actions-hit_action :
      (guid : Text) (ps : List PlayerRef) → actions (hit_action now guid ps) ≡ touch_actions ps
  unfolding hit_action new_game_action
  actions-hit_action guid [] = refl
  actions-hit_action guid (p ∷ ps) = ground arith

  actions-ball_hit :
      (o : Option BallHitData) (t : Translator) → actions (on_ball_hit now o t).1 ≡ hit_actions o
  unfolding on_ball_hit new_ball_hit
  actions-ball_hit none t = refl
  actions-ball_hit (some d) t = actions-hit_action d.match_guid d.players

  actions-goal_scored :
      (o : Option GoalScoredData) (t : Translator) → actions (on_goal_scored now o t).1 ≡ []
  unfolding on_goal_scored new_goal_scored
  actions-goal_scored none t = refl
  actions-goal_scored (some d) t = refl

  actions-match_start :
      (o : Option MatchGuidData) (t : Translator) → actions (on_match_start now o t).1 ≡ []
  unfolding on_match_start new_match_started new_match_restarted
  actions-match_start none t = refl
  actions-match_start (some d) t = ground arith

  actions-match_ended :
      (o : Option MatchEndedData) (t : Translator) → actions (on_match_ended now o t).1 ≡ []
  unfolding on_match_ended new_match_ended
  actions-match_ended none t = refl
  actions-match_ended (some d) t = refl

  actions-clock_updated :
      (o : Option ClockData) (t : Translator) → actions (on_clock_updated now o t).1 ≡ []
  unfolding on_clock_updated new_clock_updated new_overtime_started
  actions-clock_updated none t = refl
  actions-clock_updated (some d) t = ground arith

  actions-crossbar_hit :
      (o : Option CrossbarHitData) (t : Translator) → actions (on_crossbar_hit now o t).1 ≡ []
  unfolding on_crossbar_hit new_crossbar_hit
  actions-crossbar_hit none t = refl
  actions-crossbar_hit (some d) t = refl

  actions-update_state :
      (o : Option UpdateStateData) (t : Translator) → actions (on_update_state now o t).1 ≡ []
  unfolding on_update_state new_state_updated new_match_restarted
  actions-update_state none t = refl
  actions-update_state (some d) t = ground arith

  actions-match_destroyed : (t : Translator) → actions (on_match_destroyed now t).1 ≡ []
  unfolding on_match_destroyed new_match_destroyed
  actions-match_destroyed t = refl

  feed_message :
      (json : Json) (env : Envelope) (t : Translator)
      → env.event ≡ codes "StatfeedEvent"
      → translate now json env t ≡ on_stat_feed now (json.statfeed_data env.content) t
  unfolding translate text_beq
  feed_message json env t h = rw h

  hit_message :
      (json : Json) (env : Envelope) (t : Translator)
      → env.event ≡ codes "BallHit"
      → translate now json env t ≡ on_ball_hit now (json.ball_hit_data env.content) t
  unfolding translate text_beq
  hit_message json env t h = rw h

  other_message :
      (json : Json) (env : Envelope) (t : Translator)
      → env.event ≢ codes "StatfeedEvent"
      → env.event ≢ codes "BallHit"
      → actions (translate now json env t).1 ≡ []
  unfolding translate
  other_message json env t h k = ground (
    arith,
    text_beq_iff env.event (codes "StatfeedEvent"),
    text_beq_iff env.event (codes "BallHit"),
    actions-match_start (json.match_guid_data env.content) t,
    actions-match_ended (json.match_ended_data env.content) t,
    actions-match_destroyed t,
    actions-goal_scored (json.goal_scored_data env.content) t,
    actions-clock_updated (json.clock_data env.content) t,
    actions-crossbar_hit (json.crossbar_hit_data env.content) t,
    actions-update_state (json.update_state_data env.content) t,
  )

  actions-translate :
      (json : Json) (env : Envelope) (t : Translator)
      → actions (translate now json env t).1 ≡ message_actions json env
  actions-translate json env t = elim (Bool-cases (env.event == codes "StatfeedEvent")) [
    | inl feed ↦
        rw (feed_message json env t ((text_beq_iff _ _).0 feed), feed)
          (actions-stat_feed (json.statfeed_data env.content) t)
    | inr no_feed ↦ elim (Bool-cases (env.event == codes "BallHit")) [
      | inl hit ↦
          rw (hit_message json env t ((text_beq_iff _ _).0 hit), no_feed)
            (rw hit (actions-ball_hit (json.ball_hit_data env.content) t))
      | inr no_hit ↦
          rw (no_feed, no_hit)
            (other_message json env t
              (λ e. cc (no_feed, (text_beq_iff env.event (codes "StatfeedEvent")).1 e))
              (λ e. cc (no_hit, (text_beq_iff env.event (codes "BallHit")).1 e)))
    ]
  ]

  -- Over any messages the game actions are those of the documented sources, in order, and no other: each
  -- StatfeedEvent that decodes yields the action of its stat, with the flags and the victim of that
  -- stat, each BallHit one touch of its first player, both only for the teams 0 and 1; all other
  -- messages, GoalScored included, yield none.
  pub translate_all-actions :
      (json : Json) (envs : List Envelope) (t : Translator)
      → actions (translate_all now json envs t).1 ≡ messages_actions json envs
  unfolding translate_all
  translate_all-actions json [] t = refl
  translate_all-actions json (env ∷ envs) t =
      rw
        (actions-append (translate now json env t).1
          (translate_all now json envs (translate now json env t).0).1)
        (rw (
          actions-translate json env t,
          translate_all-actions json envs (translate now json env t).0,
        ))
