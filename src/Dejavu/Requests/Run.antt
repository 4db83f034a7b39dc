-- ===== src/Dejavu/Requests/Run.antt =====
-- A session of the plugin: events and recall requests in the order in which the locks let them in.
use oof_rl.Prelude.{
  ◌≡◌, ◌∙◌, refl, ◌||◌, none, some, List, [], ◌∷◌, is_empty, All, map, Bool-cases, inl, inr,
}
use oof_rl.Dejavu.Roster.{normalize_primary_id}
use oof_rl.Dejavu.History.{Runtime}
use oof_rl.Dejavu.Recall.{
  State, PayloadPlayer, PluginEvent, state_updated, match_ended, match_destroyed, other_event,
  on_event, reset_current_match, live_player, is_nil, no_cache, Answers,
}
use oof_rl.Dejavu.Recall.Keys.{IsPlain}
use oof_rl.Dejavu.Requests.{HttpRequest, RecallResponse, handle_recall}
use oof_rl.Dejavu.Requests.Plain.{ArePlain, normalize-IsPlain}
use oof_rl.Dejavu.Requests.Transparency.{
  IsSound, unset, IsPlainState, IsPlainRequest, handle_recall-Answered,
}

pub data Input : Type 0 where
  event : PluginEvent → Input
  request : HttpRequest → Input

module _ (rt : Runtime) (answers : Answers) where
  -- The answers to the requests.
  unfoldable pub serve : List Input → State → List RecallResponse
  serve [] s = []
  serve (event e ∷ inputs) s = serve inputs (on_event e s)
  serve (request req ∷ inputs) s =
      let (resp, s') = handle_recall rt answers req s in resp ∷ serve inputs s'

  -- The same without a cache: each request finds it empty.
  unfoldable pub serve_uncached : List Input → State → List RecallResponse
  serve_uncached [] s = []
  serve_uncached (event e ∷ inputs) s = serve_uncached inputs (on_event e s)
  serve_uncached (request req ∷ inputs) s =
      (handle_recall rt answers req (record s { cache = no_cache })).0 ∷ serve_uncached inputs s

-- The ids that an event carries have no NUL.
abbrev pub IsPlainEvent : PluginEvent → Type 0
IsPlainEvent (state_updated (some (guid, players))) =
    IsPlain guid × All (λ (p : PayloadPlayer). IsPlain p.primary_id) players
IsPlainEvent _ = Unit

abbrev pub IsPlainInput : Input → Type 0
IsPlainInput (event e) = IsPlainEvent e
IsPlainInput (request req) = IsPlainRequest req

ArePlain-map :
    (players : List PayloadPlayer)
    → All (λ (p : PayloadPlayer). IsPlain p.primary_id) players
    → ArePlain (map live_player players)
ArePlain-map [] h = h
ArePlain-map (p ∷ players) h = (normalize-IsPlain p.primary_id h.0, ArePlain-map players h.1)

IsPlainState-on_event :
    (e : PluginEvent) (s : State)
    → IsPlainEvent e
    → IsPlainState s.current
    → IsPlainState (on_event e s).current
unfolding on_event reset_current_match
IsPlainState-on_event (state_updated none) s h plain = plain
IsPlainState-on_event (state_updated (some (guid, players))) s h plain =
    elim (Bool-cases (is_empty (normalize_primary_id guid) || is_nil players)) [
      | inl resets ↦ rw resets tt
      | inr keeps ↦ rw keeps (normalize-IsPlain guid h.0, ArePlain-map players h.1)
    ]
IsPlainState-on_event match_ended s h plain = tt
IsPlainState-on_event match_destroyed s h plain = tt
IsPlainState-on_event other_event s h plain = plain

module _ (rt : Runtime) (answers : Answers) where
  IsSound-on_event :
      (e : PluginEvent) (s : State)
      → IsSound rt answers s.cache
      → IsSound rt answers (on_event e s).cache
  unfolding on_event reset_current_match no_cache
  IsSound-on_event (state_updated none) s sound = sound
  IsSound-on_event (state_updated (some (guid, players))) s sound =
      elim (Bool-cases (is_empty (normalize_primary_id guid) || is_nil players)) [
        | inl resets ↦ rw resets (unset refl)
        | inr keeps ↦ rw keeps sound
      ]
  IsSound-on_event match_ended s sound = unset refl
  IsSound-on_event match_destroyed s sound = unset refl
  IsSound-on_event other_event s sound = sound

  current-on_event :
      (e : PluginEvent) (s t : State)
      → s.current ≡ t.current
      → (on_event e s).current ≡ (on_event e t).current
  unfolding on_event reset_current_match
  current-on_event (state_updated none) s t same = same
  current-on_event (state_updated (some (guid, players))) s t same =
      elim (Bool-cases (is_empty (normalize_primary_id guid) || is_nil players)) [
        | inl resets ↦ rw resets refl
        | inr keeps ↦ rw keeps refl
      ]
  current-on_event match_ended s t same = refl
  current-on_event match_destroyed s t same = refl
  current-on_event other_event s t same = same

  without_cache :
      (req : HttpRequest) (s t : State)
      → s.current ≡ t.current
      → (handle_recall rt answers req (record s { cache = no_cache })).0
        ≡ (handle_recall rt answers req (record t { cache = no_cache })).0
  without_cache req s t same = rw same refl

  current-handle_recall :
      (req : HttpRequest) (s : State) → (handle_recall rt answers req s).1.current ≡ s.current
  unfolding handle_recall
  current-handle_recall req s = refl

  serve-cached :
      (inputs : List Input) (s t : State)
      → All IsPlainInput inputs
      → s.current ≡ t.current
      → IsPlainState s.current
      → IsSound rt answers s.cache
      → serve rt answers inputs s ≡ serve_uncached rt answers inputs t
  unfolding serve serve_uncached
  serve-cached [] s t h same plain sound = refl
  serve-cached (event e ∷ inputs) s t h same plain sound =
      serve-cached inputs (on_event e s) (on_event e t) h.1 (current-on_event e s t same)
        (IsPlainState-on_event e s h.0 plain) (IsSound-on_event e s sound)
  serve-cached (request req ∷ inputs) s t h same plain sound =
      let (shown, later) = handle_recall-Answered rt answers req s plain h.0 sound in
      let s' = (handle_recall rt answers req s).1 in
      let rest =
        serve-cached inputs s' t h.1 (current-handle_recall req s ∙ same)
          (rw (current-handle_recall req s) plain) later in
      rw (shown ∙ without_cache req s t same, rest) refl

  -- As long as the database's answers do not change and no id or GUID that comes in has a NUL, the
  -- plugin answers every request of a session, retries included, as it would without its cache,
  -- whatever events come between.
  pub serve_lem :
      (inputs : List Input)
      → All IsPlainInput inputs
      → serve rt answers inputs reset_current_match
        ≡ serve_uncached rt answers inputs reset_current_match
  unfolding reset_current_match no_cache
  serve_lem inputs h =
      serve-cached inputs reset_current_match reset_current_match h refl tt (unset refl)
