-- ===== src/Rlevents/Overtime.antt =====
-- When the translator reports the start of an overtime.
use oof_rl.Prelude.{
  ℕ, suc, ◌+◌, ◌≡◌, refl, Bool, true, false, ◌||◌, codes, Option, none, some, List, [], ◌∷◌, ◌++◌,
  arith, ap, ◌==◌, text_comparable, if◌then◌else◌,
}
use oof_rl.Wire.{
  Json, Envelope, ClockData, MatchGuidData, MatchEndedData, GoalScoredData, StatfeedEventData,
  BallHitData, CrossbarHitData, UpdateStateData, PlayerRef,
}
use oof_rl.Oofevents.Types.{Event, Team, overtime_started, team_from_num}
use oof_rl.Oofevents.New.{
  new_match_started, new_match_ended, new_match_destroyed, new_match_restarted,
  new_overtime_started, new_goal_scored, new_stat_feed, new_clock_updated, new_ball_hit,
  new_crossbar_hit, new_state_updated, new_game_action,
}
use oof_rl.Rlevents.{
  Translator, Publication, on_match_start, on_match_ended, on_match_destroyed, on_goal_scored,
  on_stat_feed, team_action, on_clock_updated, on_ball_hit, hit_action, on_crossbar_hit,
  on_update_state, translate, translate_all,
}

abbrev pub is_overtime_start : Event → Bool
is_overtime_start (overtime_started b s) = true
is_overtime_start _ = false

abbrev pub count_starts : List Publication → ℕ
count_starts [] = 0
count_starts (p ∷ ps) =
    let rest = count_starts ps in if is_overtime_start p.event then suc rest else rest

abbrev pub ended_flag : Option MatchEndedData → Option Bool
ended_flag none = none
ended_flag (some d) = some false

abbrev pub clock_flag : Option ClockData → Option Bool
clock_flag none = none
clock_flag (some d) = some d.overtime

-- What a message says about overtime: a clock message carries the flag, the end of a match clears it.
abbrev pub overtime_flag : Json → Envelope → Option Bool
overtime_flag json env =
    if env.event == codes "MatchCreated" || env.event == codes "MatchInitialized"
    then none
    else if env.event == codes "MatchEnded"
    then ended_flag (json.match_ended_data env.content)
    else if env.event == codes "MatchDestroyed"
    then some false
    else if env.event == codes "GoalScored"
    then none
    else if env.event == codes "StatfeedEvent"
    then none
    else if env.event == codes "ClockUpdatedSeconds"
    then clock_flag (json.clock_data env.content)
    else none

abbrev pub after : Bool → Option Bool → Bool
after before none = before
after before (some now) = now

abbrev pub edge : Bool → Option Bool → ℕ
edge before none = 0
edge before (some now) = if now then (if before then 0 else 1) else 0

-- How often the flag goes from false to true over a sequence of messages.
abbrev pub rising_edges : Json → Bool → List Envelope → ℕ
rising_edges json before [] = 0
rising_edges json before (env ∷ envs) =
    edge before (overtime_flag json env)
    + rising_edges json (after before (overtime_flag json env)) envs

count_starts-append :
    (ps qs : List Publication) → count_starts (ps ++ qs) ≡ count_starts ps + count_starts qs
count_starts-append [] qs = omega arith
count_starts-append (p ∷ ps) qs = ground (arith, count_starts-append ps qs)

-- What a handler does to the flag and to the count, given what its message says.
abbrev Follows : Bool → Option Bool → Translator × List Publication → Type 0
Follows before flag (t, out) =
    (count_starts out ≡ edge before flag) × (t.last_overtime ≡ after before flag)

module _ (now : ℕ → ℕ) where
  Follows-match_start :
      (o : Option MatchGuidData) (t : Translator)
      → Follows t.last_overtime none (on_match_start now o t)
  unfolding on_match_start new_match_started new_match_restarted
  Follows-match_start none t = (refl, refl)
  Follows-match_start (some d) t = (ground arith, ground arith)

  Follows-match_ended :
      (o : Option MatchEndedData) (t : Translator)
      → Follows t.last_overtime (ended_flag o) (on_match_ended now o t)
  unfolding on_match_ended new_match_ended
  Follows-match_ended none t = (refl, refl)
  Follows-match_ended (some d) t = (ground arith, ground arith)

  Follows-match_destroyed :
      (t : Translator) → Follows t.last_overtime (some false) (on_match_destroyed now t)
  unfolding on_match_destroyed new_match_destroyed
  Follows-match_destroyed t = (ground arith, ground arith)

  Follows-goal_scored :
      (o : Option GoalScoredData) (t : Translator)
      → Follows t.last_overtime none (on_goal_scored now o t)
  unfolding on_goal_scored new_goal_scored
  Follows-goal_scored none t = (refl, refl)
  Follows-goal_scored (some d) t = (refl, refl)

  stat_action-quiet :
      (d : StatfeedEventData) (o : Option Team) → count_starts (team_action now d o) ≡ 0
  unfolding team_action new_game_action
  stat_action-quiet d none = refl
  stat_action-quiet d (some team) = ground arith

  Follows-stat_feed :
      (o : Option StatfeedEventData) (t : Translator)
      → Follows t.last_overtime none (on_stat_feed now o t)
  unfolding on_stat_feed new_stat_feed
  Follows-stat_feed none t = (refl, refl)
  Follows-stat_feed (some d) t = (stat_action-quiet d (team_from_num d.main_target.team_num), refl)

  Follows-clock_updated :
      (o : Option ClockData) (t : Translator)
      → Follows t.last_overtime (clock_flag o) (on_clock_updated now o t)
  unfolding on_clock_updated new_clock_updated new_overtime_started
  Follows-clock_updated none t = (ground arith, refl)
  Follows-clock_updated (some d) t = (ground arith, refl)

  hit_action-quiet :
      (d : BallHitData) (ps : List PlayerRef) → count_starts (hit_action now d.match_guid ps) ≡ 0
  unfolding hit_action new_game_action
  hit_action-quiet d [] = refl
  hit_action-quiet d (p ∷ ps) = ground arith

  Follows-ball_hit :
      (o : Option BallHitData) (t : Translator) → Follows t.last_overtime none (on_ball_hit now o t)
  unfolding on_ball_hit new_ball_hit
  Follows-ball_hit none t = (refl, refl)
  Follows-ball_hit (some d) t = (hit_action-quiet d d.players, refl)

  Follows-crossbar_hit :
      (o : Option CrossbarHitData) (t : Translator)
      → Follows t.last_overtime none (on_crossbar_hit now o t)
  unfolding on_crossbar_hit new_crossbar_hit
  Follows-crossbar_hit none t = (refl, refl)
  Follows-crossbar_hit (some d) t = (refl, refl)

  Follows-update_state :
      (o : Option UpdateStateData) (t : Translator)
      → Follows t.last_overtime none (on_update_state now o t)
  unfolding on_update_state new_state_updated new_match_restarted
  Follows-update_state none t = (refl, refl)
  Follows-update_state (some d) t = (ground arith, ground arith)

  Follows-translate :
      (json : Json) (env : Envelope) (t : Translator)
      → Follows t.last_overtime (overtime_flag json env) (translate now json env t)
  unfolding translate
  Follows-translate json env t = ground (
    arith,
    Follows-match_start (json.match_guid_data env.content) t,
    Follows-match_ended (json.match_ended_data env.content) t,
    Follows-match_destroyed t,
    Follows-goal_scored (json.goal_scored_data env.content) t,
    Follows-stat_feed (json.statfeed_data env.content) t,
    Follows-clock_updated (json.clock_data env.content) t,
    Follows-ball_hit (json.ball_hit_data env.content) t,
    Follows-crossbar_hit (json.crossbar_hit_data env.content) t,
    Follows-update_state (json.update_state_data env.content) t,
  )

  -- Over any messages, and whether or not a match is active, the translator publishes overtime.started
  -- exactly as often as the overtime flag of the clock messages goes from false to true, the end of a
  -- match clearing the flag.
  pub translate_all-rising_edges :
      (json : Json) (envs : List Envelope) (t : Translator)
      → count_starts (translate_all now json envs t).1 ≡ rising_edges json t.last_overtime envs
  unfolding translate_all
  translate_all-rising_edges json [] t = refl
  translate_all-rising_edges json (env ∷ envs) t =
      let (t', out) = translate now json env t in
      let (counted, flag) = Follows-translate json env t in
      rw (count_starts-append out (translate_all now json envs t').1, counted)
        (rw (← flag) (
          ap (λ (n : ℕ). edge t.last_overtime (overtime_flag json env) + n)
            (translate_all-rising_edges json envs t')))
