-- ===== src/Rlevents/Lifecycle.antt =====
-- What a listener of the bus can rely on about the match that the translator reports.
use oof_rl.Prelude.{
  ℕ, ◌≡◌, refl, Bool, true, false, not, ◌&&◌, ◌||◌, Text, Option, none, some, List, [], ◌∷◌, ◌++◌,
  arith, ◌==◌, text_comparable, is_empty, text_beq_iff, text_beq_refl, if◌then◌else◌,
}
use oof_rl.Wire.{
  Json, Envelope, ClockData, MatchGuidData, MatchEndedData, GoalScoredData, StatfeedEventData,
  BallHitData, CrossbarHitData, UpdateStateData, PlayerRef,
}
use oof_rl.Oofevents.Types.{
  Event, Team, team_from_num, base, match_started, match_restarted, match_ended, match_destroyed,
  state_updated,
}
use oof_rl.Oofevents.New.{
  new_match_started, new_match_ended, new_match_destroyed, new_match_restarted,
  new_overtime_started, new_goal_scored, new_stat_feed, new_clock_updated, new_ball_hit,
  new_crossbar_hit, new_state_updated, new_game_action,
}
use oof_rl.Rlevents.{
  Translator, Publication, on_match_start, on_match_ended, on_match_destroyed, on_goal_scored,
  on_stat_feed, team_action, on_clock_updated, on_ball_hit, hit_action, on_crossbar_hit,
  on_update_state, translate, translate_all,
}

-- What a listener knows: the live match, "" for none, and whether the last event was a restart.
pub record Listener : Type 0 where
  pub live : Text
  pub fresh : Bool

abbrev pub listen : Listener → Event → Listener
listen l (match_started b) = record { live = b.guid; fresh = false }
listen l (match_restarted b prev) = record { live = b.guid; fresh = true }
listen l (match_ended b w) = record { live = []; fresh = false }
listen l (match_destroyed b) = record { live = []; fresh = false }
listen l (state_updated b ps g) = record {
  live = if is_empty b.guid then l.live else b.guid;
  fresh = false;
}
listen l _ = record { live = l.live; fresh = false }

-- A start names a match, and comes where none is live or right after the restart that switched to it.
-- A restart names the live match as the previous one and another as the new one. A state is one of
-- the live match, if both name one.
abbrev pub allowed : Listener → Event → Bool
allowed l (match_started b) =
    not (is_empty b.guid) && (is_empty l.live || (l.fresh && b.guid == l.live))
allowed l (match_restarted b prev) =
    prev == l.live && not (is_empty prev) && not (is_empty b.guid) && not (prev == b.guid)
allowed l (state_updated b ps g) = is_empty b.guid || is_empty l.live || b.guid == l.live
allowed l _ = true

abbrev pub listen_all : Listener → List Publication → Listener
listen_all l [] = l
listen_all l (p ∷ ps) = listen_all (listen l p.event) ps

abbrev pub all_allowed : Listener → List Publication → Bool
all_allowed l [] = true
all_allowed l (p ∷ ps) = allowed l p.event && all_allowed (listen l p.event) ps

abbrev pub listener_of : Translator → Listener
listener_of t = record { live = t.current_guid; fresh = false }

listen_all-append :
    (l : Listener) (ps qs : List Publication)
    → listen_all l (ps ++ qs) ≡ listen_all (listen_all l ps) qs
listen_all-append l [] qs = refl
listen_all-append l (p ∷ ps) qs = listen_all-append (listen l p.event) ps qs

all_allowed-append :
    (l : Listener) (ps qs : List Publication)
    → all_allowed l ps ≡ true
    → all_allowed (listen_all l ps) qs ≡ true
    → all_allowed l (ps ++ qs) ≡ true
all_allowed-append l [] qs h k = k
all_allowed-append l (p ∷ ps) qs h k = ground (arith, all_allowed-append (listen l p.event) ps qs)

-- The publications are allowed, and leave the listener with the translator's match.
abbrev Agrees : Translator → Translator × List Publication → Type 0
Agrees t (t', out) =
    (all_allowed (listener_of t) out ≡ true) × (listen_all (listener_of t) out ≡ listener_of t')

module _ (now : ℕ → ℕ) where
  Agrees-match_start :
      (o : Option MatchGuidData) (t : Translator) → Agrees t (on_match_start now o t)
  unfolding on_match_start new_match_started new_match_restarted base
  Agrees-match_start none t = (refl, refl)
  Agrees-match_start (some d) t = (
    ground (
      arith,
      text_beq_iff d.match_guid t.current_guid,
      text_beq_iff t.current_guid d.match_guid,
      text_beq_refl t.current_guid,
      text_beq_refl d.match_guid,
    ),
    ground
        (arith, text_beq_iff d.match_guid t.current_guid, text_beq_iff t.current_guid d.match_guid),
  )

  Agrees-match_ended :
      (o : Option MatchEndedData) (t : Translator) → Agrees t (on_match_ended now o t)
  unfolding on_match_ended new_match_ended
  Agrees-match_ended none t = (refl, refl)
  Agrees-match_ended (some d) t = (ground arith, ground arith)

  Agrees-match_destroyed : (t : Translator) → Agrees t (on_match_destroyed now t)
  unfolding on_match_destroyed new_match_destroyed
  Agrees-match_destroyed t = (ground arith, ground arith)

  Agrees-goal_scored :
      (o : Option GoalScoredData) (t : Translator) → Agrees t (on_goal_scored now o t)
  unfolding on_goal_scored new_goal_scored
  Agrees-goal_scored none t = (refl, refl)
  Agrees-goal_scored (some d) t = (refl, refl)

  team_action-silent :
      (d : StatfeedEventData) (o : Option Team) (l : Listener)
      → l.fresh ≡ false
      → (all_allowed l (team_action now d o) ≡ true) × (listen_all l (team_action now d o) ≡ l)
  unfolding team_action new_game_action
  team_action-silent d none l f = (refl, refl)
  team_action-silent d (some team) l f = (ground arith, ground arith)

  Agrees-stat_feed :
      (o : Option StatfeedEventData) (t : Translator) → Agrees t (on_stat_feed now o t)
  unfolding on_stat_feed new_stat_feed
  Agrees-stat_feed none t = (refl, refl)
  Agrees-stat_feed (some d) t =
      team_action-silent d (team_from_num d.main_target.team_num) (listener_of t) refl

  Agrees-clock_updated :
      (o : Option ClockData) (t : Translator) → Agrees t (on_clock_updated now o t)
  unfolding on_clock_updated new_clock_updated new_overtime_started
  Agrees-clock_updated none t = (refl, refl)
  Agrees-clock_updated (some d) t = (ground arith, ground arith)

  hit_action-silent :
      (guid : Text) (ps : List PlayerRef) (l : Listener)
      → l.fresh ≡ false
      → (all_allowed l (hit_action now guid ps) ≡ true)
        × (listen_all l (hit_action now guid ps) ≡ l)
  unfolding hit_action new_game_action
  hit_action-silent guid [] l f = (refl, refl)
  hit_action-silent guid (p ∷ ps) l f = (ground arith, ground arith)

  Agrees-ball_hit : (o : Option BallHitData) (t : Translator) → Agrees t (on_ball_hit now o t)
  unfolding on_ball_hit new_ball_hit
  Agrees-ball_hit none t = (refl, refl)
  Agrees-ball_hit (some d) t = hit_action-silent d.match_guid d.players (listener_of t) refl

  Agrees-crossbar_hit :
      (o : Option CrossbarHitData) (t : Translator) → Agrees t (on_crossbar_hit now o t)
  unfolding on_crossbar_hit new_crossbar_hit
  Agrees-crossbar_hit none t = (refl, refl)
  Agrees-crossbar_hit (some d) t = (refl, refl)

  Agrees-update_state :
      (o : Option UpdateStateData) (t : Translator) → Agrees t (on_update_state now o t)
  unfolding on_update_state new_state_updated new_match_restarted base
  Agrees-update_state none t = (refl, refl)
  Agrees-update_state (some d) t = (
    ground (
      arith,
      text_beq_iff d.match_guid t.current_guid,
      text_beq_iff t.current_guid d.match_guid,
      text_beq_refl t.current_guid,
      text_beq_refl d.match_guid,
    ),
    ground
        (arith, text_beq_iff d.match_guid t.current_guid, text_beq_iff t.current_guid d.match_guid),
  )

  Agrees-translate :
      (json : Json) (env : Envelope) (t : Translator) → Agrees t (translate now json env t)
  unfolding translate
  Agrees-translate json env t = ground (
    arith,
    Agrees-match_start (json.match_guid_data env.content) t,
    Agrees-match_ended (json.match_ended_data env.content) t,
    Agrees-match_destroyed t,
    Agrees-goal_scored (json.goal_scored_data env.content) t,
    Agrees-stat_feed (json.statfeed_data env.content) t,
    Agrees-clock_updated (json.clock_data env.content) t,
    Agrees-ball_hit (json.ball_hit_data env.content) t,
    Agrees-crossbar_hit (json.crossbar_hit_data env.content) t,
    Agrees-update_state (json.update_state_data env.content) t,
  )

  -- Over any messages, a listener that starts with the translator's match sees only allowed events: a
  -- match starts once, a change of match is announced by a restart that names the old and the new
  -- one, states belong to the live match; and it ends with the match that the translator holds.
  pub translate_all-Agrees :
      (json : Json) (envs : List Envelope) (t : Translator)
      → (all_allowed (listener_of t) (translate_all now json envs t).1 ≡ true)
        × (listen_all (listener_of t) (translate_all now json envs t).1
            ≡ listener_of (translate_all now json envs t).0)
  unfolding translate_all
  translate_all-Agrees json [] t = (refl, refl)
  translate_all-Agrees json (env ∷ envs) t =
      let (t', out) = translate now json env t in
      let rest = (translate_all now json envs t').1 in
      let (fine, meets) = Agrees-translate json env t in
      let (fine', meets') = translate_all-Agrees json envs t' in
      (
        all_allowed-append (listener_of t) out rest fine (rw meets fine'),
        rw (listen_all-append (listener_of t) out rest) (rw meets meets'),
      )
