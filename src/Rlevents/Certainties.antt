-- ===== src/Rlevents/Certainties.antt =====
-- The certainty that each publication of the translator promises.
use oof_rl.Prelude.{
  ℕ, ◌≡◌, refl, Option, none, some, List, [], ◌∷◌, arith, nat_beq_iff, All, All-append,
}
use oof_rl.Wire.{
  Json, Envelope, StatfeedEventData, BallHitData, PlayerRef, MatchGuidData, MatchEndedData,
  GoalScoredData, ClockData, CrossbarHitData, UpdateStateData,
}
use oof_rl.Oofevents.Types.{Team, base, rank, certainty, team_from_num}
use oof_rl.Oofevents.New.{
  new_match_started, new_match_ended, new_match_destroyed, new_match_restarted,
  new_overtime_started, new_goal_scored, new_stat_feed, new_clock_updated, new_ball_hit,
  new_crossbar_hit, new_state_updated, new_game_action,
}
use oof_rl.Oofevents.Bus.{Bus, publish_with_certainty, check_stopped}
use oof_rl.Rlevents.{
  Translator, Publication, on_match_start, on_match_ended, on_match_destroyed, on_goal_scored,
  on_stat_feed, stat_action, team_action, action_of, on_clock_updated, on_ball_hit, hit_action,
  on_crossbar_hit, on_update_state, translate, translate_all,
}

-- The event has the certainty that its publishing method expects.
abbrev IsHonest : Publication → Type 0
IsHonest p = certainty p.event ≡ p.expected

-- What the publishing method does: not the panic, but the first half of publish.
abbrev pub IsPublishable : Publication → Type 0
IsPublishable p =
    (g : ℕ) (b : Bus)
    → publish_with_certainty g p.event p.expected b ≡ some (check_stopped g p.event b)

module _ (now : ℕ → ℕ) where
  stat_action-IsHonest :
      (d : StatfeedEventData) (team : Team) → All IsHonest (stat_action now d team)
  unfolding stat_action action_of base new_game_action
  stat_action-IsHonest d team = ground arith

  hit_action-IsHonest :
      (d : BallHitData) (ps : List PlayerRef) → All IsHonest (hit_action now d.match_guid ps)
  unfolding hit_action base new_game_action
  hit_action-IsHonest d [] = tt
  hit_action-IsHonest d (p ∷ ps) = ground arith

  team_action-IsHonest :
      (d : StatfeedEventData) (team : Option Team) → All IsHonest (team_action now d team)
  unfolding team_action
  team_action-IsHonest d none = tt
  team_action-IsHonest d (some team) = stat_action-IsHonest d team

  on_match_start-IsHonest :
      (o : Option MatchGuidData) (t : Translator) → All IsHonest (on_match_start now o t).1
  unfolding on_match_start base new_match_started new_match_restarted
  on_match_start-IsHonest none t = tt
  on_match_start-IsHonest (some d) t = ground arith

  on_match_ended-IsHonest :
      (o : Option MatchEndedData) (t : Translator) → All IsHonest (on_match_ended now o t).1
  unfolding on_match_ended base new_match_ended
  on_match_ended-IsHonest none t = tt
  on_match_ended-IsHonest (some d) t = ground arith

  on_match_destroyed-IsHonest : (t : Translator) → All IsHonest (on_match_destroyed now t).1
  unfolding on_match_destroyed base new_match_destroyed
  on_match_destroyed-IsHonest t = ground arith

  on_goal_scored-IsHonest :
      (o : Option GoalScoredData) (t : Translator) → All IsHonest (on_goal_scored now o t).1
  unfolding on_goal_scored base new_goal_scored
  on_goal_scored-IsHonest none t = tt
  on_goal_scored-IsHonest (some d) t = ground arith

  on_stat_feed-IsHonest :
      (o : Option StatfeedEventData) (t : Translator) → All IsHonest (on_stat_feed now o t).1
  unfolding on_stat_feed base new_stat_feed
  on_stat_feed-IsHonest none t = tt
  on_stat_feed-IsHonest (some d) t =
      (refl, team_action-IsHonest d (team_from_num d.main_target.team_num))

  on_clock_updated-IsHonest :
      (o : Option ClockData) (t : Translator) → All IsHonest (on_clock_updated now o t).1
  unfolding on_clock_updated base new_clock_updated new_overtime_started
  on_clock_updated-IsHonest none t = tt
  on_clock_updated-IsHonest (some d) t = ground arith

  on_ball_hit-IsHonest :
      (o : Option BallHitData) (t : Translator) → All IsHonest (on_ball_hit now o t).1
  unfolding on_ball_hit base new_ball_hit
  on_ball_hit-IsHonest none t = tt
  on_ball_hit-IsHonest (some d) t = (refl, hit_action-IsHonest d d.players)

  on_crossbar_hit-IsHonest :
      (o : Option CrossbarHitData) (t : Translator) → All IsHonest (on_crossbar_hit now o t).1
  unfolding on_crossbar_hit base new_crossbar_hit
  on_crossbar_hit-IsHonest none t = tt
  on_crossbar_hit-IsHonest (some d) t = ground arith

  on_update_state-IsHonest :
      (o : Option UpdateStateData) (t : Translator) → All IsHonest (on_update_state now o t).1
  unfolding on_update_state base new_state_updated new_match_restarted
  on_update_state-IsHonest none t = tt
  on_update_state-IsHonest (some d) t = ground arith

  translate-IsHonest :
      (json : Json) (env : Envelope) (t : Translator) → All IsHonest (translate now json env t).1
  unfolding translate
  translate-IsHonest json env t = ground (
    arith,
    on_match_start-IsHonest (json.match_guid_data env.content) t,
    on_match_ended-IsHonest (json.match_ended_data env.content) t,
    on_match_destroyed-IsHonest t,
    on_goal_scored-IsHonest (json.goal_scored_data env.content) t,
    on_stat_feed-IsHonest (json.statfeed_data env.content) t,
    on_clock_updated-IsHonest (json.clock_data env.content) t,
    on_ball_hit-IsHonest (json.ball_hit_data env.content) t,
    on_crossbar_hit-IsHonest (json.crossbar_hit_data env.content) t,
    on_update_state-IsHonest (json.update_state_data env.content) t,
  )

  translate_all-IsHonest :
      (json : Json) (envs : List Envelope) (t : Translator)
      → All IsHonest (translate_all now json envs t).1
  unfolding translate_all
  translate_all-IsHonest json [] t = tt
  translate_all-IsHonest json (env ∷ envs) t =
      All-append IsHonest (translate now json env t).1
        (translate_all now json envs (translate now json env t).0).1 (translate-IsHonest json env t)
        (translate_all-IsHonest json envs (translate now json env t).0)

  IsPublishable-IsHonest : (p : Publication) → IsHonest p → IsPublishable p
  unfolding publish_with_certainty
  IsPublishable-IsHonest p honest g b =
      rw (honest, (nat_beq_iff (rank p.expected) (rank p.expected)).1 refl) refl

  All-IsPublishable : (ps : List Publication) → All IsHonest ps → All IsPublishable ps
  All-IsPublishable [] h = tt
  All-IsPublishable (p ∷ ps) h = (IsPublishable-IsHonest p h.0, All-IsPublishable ps h.1)

  -- Whatever messages arrive and however they decode, each event that the translator publishes passes
  -- the test of its certainty in the method that publishes it, on every bus and from every goroutine:
  -- the method does not panic there, and goes on to the test of the stopped flag with this event.
  pub translate_all-IsPublishable :
      (json : Json) (envs : List Envelope) (t : Translator)
      → All IsPublishable (translate_all now json envs t).1
  translate_all-IsPublishable json envs t =
      All-IsPublishable (translate_all now json envs t).1 (translate_all-IsHonest json envs t)
