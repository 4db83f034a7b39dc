-- ===== src/Dejavu/Requests/Retry.antt =====
-- What the retry parameter does after a failed query.
use oof_rl.Prelude.{
  ℤ, ◌≡◌, ◌∙◌, refl, ap, sym, Text, codes, true, false, ◌&&◌, Option, none, some, List,
  text_comparable, text_beq, is_empty, Bool-cases, inl, inr,
}
use oof_rl.Dejavu.Roster.{
  LivePlayer, LiveState, is_usable_stable_id, valid_team, build_roster_rows, find_selected_player,
}
use oof_rl.Dejavu.History.{Runtime}
use oof_rl.Dejavu.Recall.{
  HistoryCache, State, Answers, no_cache, read_cached_history, cached_or_queried, cached_history,
  history_key, invalidate_cached_history_error, sort_texts,
}
use oof_rl.Dejavu.Requests.{
  HttpRequest, RecallResponse, found_response, recall_history, recall_selected, recall_in,
  handle_recall, selected_of, snapshot_current_state, fill,
}

dropped :
    (key : Text) (cache : HistoryCache)
    → is_empty cache.error ≡ false
    → read_cached_history key (invalidate_cached_history_error key cache) ≡ none
unfolding read_cached_history invalidate_cached_history_error no_cache
dropped key cache failed = elim (Bool-cases (cache.ready && text_beq cache.key key)) [
  | inl both ↦ rw (both, failed) refl
  | inr other ↦ rw other (rw other refl)
]

nothing_dropped :
    (key : Text) → read_cached_history key (invalidate_cached_history_error key no_cache) ≡ none
unfolding read_cached_history invalidate_cached_history_error no_cache
nothing_dropped key = refl

module _ (rt : Runtime) (answers : Answers) where
  missed :
      (key selected guid : Text) (ids : List Text) (cache : HistoryCache)
      → read_cached_history key cache ≡ none
      → cached_history rt answers key selected guid ids cache
        ≡ cached_history rt answers key selected guid ids no_cache
  unfolding cached_history cached_or_queried read_cached_history no_cache
  missed key selected guid ids cache miss = rw miss refl

  retry_history :
      (st : LiveState) (selected : Text) (team : ℤ) (resp : RecallResponse) (cache : HistoryCache)
      → is_empty cache.error ≡ false
      → recall_history rt answers true st selected team resp cache
        ≡ recall_history rt answers true st selected team resp no_cache
  unfolding recall_history
  retry_history st selected team resp cache failed =
      let targets = sort_texts (build_roster_rows st selected team).1 in
      let key = history_key st.match_guid selected targets in
      ap (λ (c : _). (fill c.0 (build_roster_rows st selected team).0 resp, c.1))
        (missed key selected st.match_guid targets (invalidate_cached_history_error key cache)
            (dropped key cache failed)
          ∙ sym (
              missed key selected st.match_guid targets
                (invalidate_cached_history_error key no_cache) (nothing_dropped key)))

  retry_selected :
      (st : LiveState) (selected : Text) (found : Option LivePlayer) (cache : HistoryCache)
      → is_empty cache.error ≡ false
      → (recall_selected rt answers true st selected found cache).0
        ≡ (recall_selected rt answers true st selected found no_cache).0
  unfolding recall_selected
  retry_selected st selected none cache failed = refl
  retry_selected st selected (some p) cache failed =
      elim (Bool-cases (is_usable_stable_id selected)) [
        | inr unstable ↦ rw unstable refl
        | inl usable ↦ elim (Bool-cases (valid_team p.team_num)) [
          | inr other ↦ rw (usable, other) refl
          | inl valid ↦
              rw (usable, valid)
                (ap (λ (c : RecallResponse × HistoryCache). c.0)
                  (retry_history st selected p.team_num (found_response st.match_guid selected p)
                    cache failed))
        ]
      ]

  retry_in :
      (selected : Text) (current : Option LiveState) (cache : HistoryCache)
      → is_empty cache.error ≡ false
      → (recall_in rt answers true selected current cache).0
        ≡ (recall_in rt answers true selected current no_cache).0
  unfolding recall_in
  retry_in selected none cache failed = refl
  retry_in selected (some st) cache failed = elim (Bool-cases (is_empty selected)) [
    | inl none_selected ↦ rw none_selected refl
    | inr chosen ↦
        rw chosen
          (retry_selected st selected (find_selected_player st.players selected) cache failed)
  ]

  -- While the cache holds a failed query, a request with retry=1 is answered as if there were no
  -- cache, whatever the database answers now.
  pub retry_asks_again :
      (req : HttpRequest) (s : State)
      → is_empty s.cache.error ≡ false
      → req.query_param (codes "retry") ≡ codes "1"
      → (handle_recall rt answers req s).0
        ≡ (handle_recall rt answers req (record s { cache = no_cache })).0
  unfolding handle_recall text_beq
  retry_asks_again req s failed retry =
      rw retry
        (retry_in (selected_of req.query_param) (snapshot_current_state s.current) s.cache failed)
