-- ===== src/Dejavu/Requests/Transparency.antt =====
-- The cache does not show in the answers.
use oof_rl.Prelude.{
  ℤ, ◌≡◌, ◌∙◌, refl, ap, sym, Text, codes, Bool, true, false, not, ◌&&◌, Option, none, some, List,
  [], ◌∷◌, ◌==◌, text_comparable, text_beq, text_beq_iff, lookup, is_empty, All, arith, Bool-cases,
  inl, inr, if◌then◌else◌,
}
use oof_rl.Dejavu.Roster.{
  LivePlayer, LiveState, RecallPlayer, normalize_primary_id, is_usable_stable_id, valid_team,
  build_roster_rows, find_selected_player,
}
use oof_rl.Dejavu.History.{Runtime, Aggs}
use oof_rl.Dejavu.Recall.{
  HistoryCache, State, Answers, no_cache, clone_aggs, query_history, read_cached_history,
  cached_or_queried, cached_history, history_key, invalidate_cached_history_error, sort_texts,
}
use oof_rl.Dejavu.Recall.Keys.{IsPlain, IsTarget, history_key-injective}
use oof_rl.Dejavu.Requests.{
  HttpRequest, RecallResponse, apply_agg, apply_found, apply_aggs, fill, recall_history,
  recall_selected, recall_in, handle_recall, selected_of, found_response, snapshot_current_state,
}
use oof_rl.Dejavu.Requests.Plain.{ArePlain, targets-AreTargets, normalize-IsPlain}

-- The cache holds what the database answers, under the key of some request, or nothing.
pub data IsSound (rt : Runtime) (answers : Answers) (cache : HistoryCache) : Type 0 where
  unset : cache.ready ≡ false → IsSound rt answers cache
  filled :
      (guid selected : Text) (ids : List Text)
      → IsPlain guid
      → IsPlain selected
      → All IsTarget ids
      → cache.key ≡ history_key guid selected ids
      → cache.aggregates ≡ clone_aggs (query_history rt answers selected guid ids).0
      → cache.error ≡ (query_history rt answers selected guid ids).1
      → IsSound rt answers cache

clone_aggs_twice : (aggs : Aggs) → clone_aggs (clone_aggs aggs) ≡ clone_aggs aggs
unfolding clone_aggs
clone_aggs_twice [] = refl
clone_aggs_twice ((id, agg) ∷ aggs) =
    ap (λ (rest : Aggs). (id, record agg { seen_match_ids = []; last_seen_time = 0 }) ∷ rest)
      (clone_aggs_twice aggs)

found-clone :
    (row : RecallPlayer) (id : Text) (aggs : Aggs)
    → apply_found row (lookup id (clone_aggs aggs)) ≡ apply_found row (lookup id aggs)
unfolding clone_aggs lookup apply_found apply_agg
found-clone row id [] = refl
found-clone row id ((other, agg) ∷ aggs) = elim (Bool-cases (text_beq other id)) [
  | inl same ↦ rw same
  | inr differs ↦ rw differs (found-clone row id aggs)
]

apply_aggs-clone :
    (aggs : Aggs) (rows : List RecallPlayer)
    → apply_aggs (clone_aggs aggs) rows ≡ apply_aggs aggs rows
unfolding apply_aggs
apply_aggs-clone aggs [] = refl
apply_aggs-clone aggs (row ∷ rows) =
    rw (found-clone row row.primary_id aggs, apply_aggs-clone aggs rows)

-- What a request reads of the cache or the database, without the book-keeping.
Shows : Aggs × Text → Aggs × Text → Type 0
Shows (aggs, error) (aggs', error') = (clone_aggs aggs ≡ clone_aggs aggs') × (error ≡ error')

fill-Shows :
    (found found' : Aggs × Text) (rows : List RecallPlayer) (resp : RecallResponse)
    → Shows found found'
    → fill found rows resp ≡ fill found' rows resp
unfolding Shows
fill-Shows (aggs, error) (aggs', error') rows resp (same, e) =
    let players : apply_aggs aggs rows ≡ apply_aggs aggs' rows =
      sym (apply_aggs-clone aggs rows)
      ∙ ap (λ (a : Aggs). apply_aggs a rows) same
      ∙ apply_aggs-clone aggs' rows in
    rw (players, e)

abbrev pub IsPlainState : Option LiveState → Type 0
IsPlainState none = Unit
IsPlainState (some st) = IsPlain st.match_guid × ArePlain st.players

-- Neither parameter that names a player has a NUL.
abbrev pub IsPlainRequest : HttpRequest → Type 0
IsPlainRequest req =
    IsPlain (req.query_param (codes "player")) × IsPlain (req.query_param (codes "anchor"))

choose-IsPlain :
    (test : Bool) (s t : Text) → IsPlain s → IsPlain t → IsPlain (if test then s else t)
choose-IsPlain true s t p q = p
choose-IsPlain false s t p q = q

module _ (rt : Runtime) (answers : Answers) where
  -- A miss.
  queried :
      (guid selected : Text) (ids : List Text) (cache : HistoryCache)
      → IsPlain guid
      → IsPlain selected
      → All IsTarget ids
      → let (found, cache') =
          cached_or_queried rt none answers
            (history_key guid selected ids)
            selected
            guid
            ids
            cache in
        Shows found (query_history rt answers selected guid ids) × IsSound rt answers cache'
  unfolding cached_or_queried Shows
  queried guid selected ids cache p q h =
      ((refl, refl), filled guid selected ids p q h refl refl refl)

  hit :
      (guid selected : Text) (ids : List Text) (cache : HistoryCache)
      → IsPlain guid
      → IsPlain selected
      → All IsTarget ids
      → IsSound rt answers cache
      → cache.ready ≡ true
      → cache.key ≡ history_key guid selected ids
      → Shows
          (clone_aggs cache.aggregates, cache.error)
          (query_history rt answers selected guid ids)
  unfolding Shows
  hit guid selected ids cache p q h (unset off) on key = ground (arith, off, on)
  hit guid selected ids cache p q h (filled g s i p' q' h' k a e) on key =
      let (same_guid, same_selected, same_ids) =
        history_key-injective g guid s selected i ids p' p q' q h' h (sym k ∙ key) in
      let same : query_history rt answers s g i ≡ query_history rt answers selected guid ids =
        rw (same_guid, same_selected, same_ids) refl in
      (
        clone_aggs_twice cache.aggregates
            ∙ ap clone_aggs a
            ∙ clone_aggs_twice (query_history rt answers s g i).0
            ∙ ap (λ (f : Aggs × Text). clone_aggs f.0) same,
        e ∙ ap (λ (f : Aggs × Text). f.1) same,
      )

  cached_history-Shows :
      (guid selected : Text) (ids : List Text) (cache : HistoryCache)
      → IsPlain guid
      → IsPlain selected
      → All IsTarget ids
      → IsSound rt answers cache
      → let (found, cache') =
          cached_history rt answers (history_key guid selected ids) selected guid ids cache in
        Shows found (query_history rt answers selected guid ids) × IsSound rt answers cache'
  unfolding cached_history read_cached_history cached_or_queried
  cached_history-Shows guid selected ids cache p q h sound =
      let key = history_key guid selected ids in
      elim (Bool-cases (cache.ready && text_beq cache.key key)) [
        | inl both ↦ rw both (
          hit guid selected ids cache p q h sound (ground (arith, both))
              ((text_beq_iff cache.key key).0 (ground (arith, both))),
          sound,
        )
        | inr miss ↦ rw miss (queried guid selected ids cache p q h)
      ]

  invalidate-IsSound :
      (key : Text) (cache : HistoryCache)
      → IsSound rt answers cache
      → IsSound rt answers (invalidate_cached_history_error key cache)
  unfolding invalidate_cached_history_error no_cache
  invalidate-IsSound key cache sound =
      elim (Bool-cases (cache.ready && text_beq cache.key key && not (is_empty cache.error))) [
        | inl drops ↦ rw drops (unset refl)
        | inr keeps ↦ rw keeps sound
      ]

  retried :
      (retry : Bool) (key : Text) (cache : HistoryCache)
      → IsSound rt answers cache
      → IsSound rt answers (if retry then invalidate_cached_history_error key cache else cache)
  retried true key cache sound = invalidate-IsSound key cache sound
  retried false key cache sound = sound

  -- A request with a sound cache is answered by the database, and leaves a sound cache.
  abbrev Answered : (HistoryCache → RecallResponse × HistoryCache) → HistoryCache → Type 0
  Answered request cache =
      ((request cache).0 ≡ (request no_cache).0) × IsSound rt answers (request cache).1

  no_cache-IsSound : IsSound rt answers no_cache
  unfolding no_cache
  no_cache-IsSound = unset refl

  recall_history-direct :
      (retry : Bool) (st : LiveState) (selected : Text) (team : ℤ) (resp : RecallResponse)
      (cache : HistoryCache)
      → IsPlain st.match_guid
      → IsPlain selected
      → ArePlain st.players
      → IsSound rt answers cache
      → let (rows, ids) = build_roster_rows st selected team in
        let (resp', cache') = recall_history rt answers retry st selected team resp cache in
        (resp' ≡ fill (query_history rt answers selected st.match_guid (sort_texts ids)) rows resp)
        × IsSound rt answers cache'
  unfolding recall_history
  recall_history-direct retry st selected team resp cache p q plain sound =
      let (rows, ids) = build_roster_rows st selected team in
      let targets = sort_texts ids in
      let key = history_key st.match_guid selected targets in
      let cache' = if retry then invalidate_cached_history_error key cache else cache in
      let sound' = retried retry key cache sound in
      let (shows, later) =
        cached_history-Shows st.match_guid selected targets cache' p q
          (targets-AreTargets st selected team plain) sound' in
      (
        fill-Shows (cached_history rt answers key selected st.match_guid targets cache').0
            (query_history rt answers selected st.match_guid targets) rows resp shows,
        later,
      )

  recall_selected-Answered :
      (retry : Bool) (st : LiveState) (selected : Text) (found : Option LivePlayer)
      (cache : HistoryCache)
      → IsPlain st.match_guid
      → IsPlain selected
      → ArePlain st.players
      → IsSound rt answers cache
      → Answered (recall_selected rt answers retry st selected found) cache
  unfolding recall_selected
  recall_selected-Answered retry st selected none cache p q plain sound = (refl, sound)
  recall_selected-Answered retry st selected (some pl) cache p q plain sound =
      elim (Bool-cases (is_usable_stable_id selected)) [
        | inr unstable ↦ rw unstable (refl, sound)
        | inl usable ↦ elim (Bool-cases (valid_team pl.team_num)) [
          | inr other ↦ rw (usable, other) (refl, sound)
          | inl valid ↦
              let resp = found_response st.match_guid selected pl in
              let (shown, later) =
                recall_history-direct retry st selected pl.team_num resp cache p q plain sound in
              let (fresh, _) =
                recall_history-direct retry st selected pl.team_num resp no_cache p q plain
                  no_cache-IsSound in
              rw (usable, valid) (shown ∙ sym fresh, later)
        ]
      ]

  recall_in-Answered :
      (retry : Bool) (selected : Text) (current : Option LiveState) (cache : HistoryCache)
      → IsPlain selected
      → IsPlainState current
      → IsSound rt answers cache
      → Answered (recall_in rt answers retry selected current) cache
  unfolding recall_in
  recall_in-Answered retry selected none cache q plain sound = (refl, sound)
  recall_in-Answered retry selected (some st) cache q (p, plain) sound =
      elim (Bool-cases (is_empty selected)) [
        | inl none_selected ↦ rw none_selected (refl, sound)
        | inr chosen ↦ rw chosen (
            recall_selected-Answered retry st selected (find_selected_player st.players selected)
              cache p q plain sound)
      ]

  snapshot-IsPlainState :
      (current : Option LiveState)
      → IsPlainState current
      → IsPlainState (snapshot_current_state current)
  unfolding snapshot_current_state
  snapshot-IsPlainState none plain = tt
  snapshot-IsPlainState (some st) plain = elim (Bool-cases (is_empty st.match_guid)) [
    | inl unnamed ↦ rw unnamed tt
    | inr named ↦ rw named plain
  ]

  pub handle_recall-Answered :
      (req : HttpRequest) (s : State)
      → IsPlainState s.current
      → IsPlainRequest req
      → IsSound rt answers s.cache
      → ((handle_recall rt answers req s).0
          ≡ (handle_recall rt answers req (record s { cache = no_cache })).0)
        × IsSound rt answers (handle_recall rt answers req s).1.cache
  unfolding handle_recall
  handle_recall-Answered req s plain (player, anchor) sound =
      recall_in-Answered (req.query_param (codes "retry") == codes "1")
        (selected_of req.query_param) (snapshot_current_state s.current) s.cache
        (choose-IsPlain (is_empty (normalize_primary_id (req.query_param (codes "player")))) _ _
          (normalize-IsPlain _ anchor) (normalize-IsPlain _ player))
        (snapshot-IsPlainState s.current plain) sound
