-- ===== src/Session/Requests/NewSession.antt =====
-- POST /api/session/new saves what the live summary showed.
use oof_rl.Prelude.{
  ℕ, is_neg, ◌≤◌, ◌<◌, ◌≡◌, refl, ap, ◌∙◌, Text, codes, Bool, false, not, ◌&&◌, some, List, [], ◌∷◌,
  ◌++◌, ◌==◌, All, keep, int_comparable, text_comparable, same_self, text_beq, is_empty, nat_beq,
  arith, Bool-cases, inl, inr, leb, ltb,
}
use oof_rl.Dejavu.History.{Row}
use oof_rl.Session.{
  Runtime, SessionRow, Summary, SavedSession, row_str, in_session, match_of_row,
  session_matches_between, zero_summary, add_match, summarize, populate,
  populate_session_stats_from_matches, session_from_row,
}
use oof_rl.Session.Split.{add_summary, sessions_add_up}
use oof_rl.Session.Requests.{
  State, HttpRequest, Outside, handle_new, populate_session_stats, session_by_id,
}

-- An incomplete match of the database has no winner.
abbrev pub HasNoWinner : Runtime → Row → Type 0
HasNoWinner rt row =
    let m = match_of_row rt row in (m.incomplete && not (is_neg m.winner_team_num)) ≡ false

populate-summarize :
    (rt : Runtime) (start end : ℕ) (rows : List Row) (sum : Summary)
    → All (HasNoWinner rt) rows
    → populate (session_matches_between rt start end rows) sum
      ≡ summarize (session_matches_between rt start end rows) sum
unfolding session_matches_between summarize populate
populate-summarize rt start end [] sum h = refl
populate-summarize rt start end (row ∷ rows) sum h =
    elim (Bool-cases (in_session start end (rt.parse_time (row_str row (codes "started_at"))))) [
      | inr outside ↦ rw outside (populate-summarize rt start end rows sum h.1)
      | inl inside ↦
          let m = match_of_row rt row in
          rw inside (
            populate-summarize rt start end rows
              (add_match (not m.incomplete && not (is_neg m.winner_team_num)) m sum) h.1
            ∙ ap
                (λ decided.
                  summarize (session_matches_between rt start end rows) (add_match decided m sum))
                (same_test m.incomplete (not (is_neg m.winner_team_num)) h.0))
    ]
  where
    same_test :
        (incomplete won : Bool) → (incomplete && won) ≡ false → (not incomplete && won) ≡ won
    same_test incomplete won h = ground (arith, h)

-- A match started in [from, to).
abbrev pub starts_between : Runtime → ℕ → ℕ → Row → Bool
starts_between rt from to row =
    let at = rt.parse_time (row_str row (codes "started_at")) in leb from at && ltb at to

-- No match started between these times, whichever comes first.
abbrev pub NoneBetween : Runtime → ℕ → ℕ → Row → Type 0
NoneBetween rt a b row = (starts_between rt a b row ≡ false) × (starts_between rt b a row ≡ false)

same_bounds :
    (start start' end end' at : ℕ)
    → 0 < end
    → 0 < end'
    → ((leb start at && ltb at start') ≡ false) × ((leb start' at && ltb at start) ≡ false)
    → ((leb end at && ltb at end') ≡ false) × ((leb end' at && ltb at end) ≡ false)
    → in_session start end at ≡ in_session start' end' at
unfolding in_session
same_bounds start start' end end' at p p' s e = ground (arith, p, p', s.0, s.1, e.0, e.1)

-- A session keeps its matches if its bounds move over no match.
same_matches :
    (rt : Runtime) (start start' end end' : ℕ) (rows : List Row)
    → 0 < end
    → 0 < end'
    → All (NoneBetween rt start start') rows
    → All (NoneBetween rt end end') rows
    → session_matches_between rt start end rows ≡ session_matches_between rt start' end' rows
unfolding session_matches_between
same_matches rt start start' end end' [] p p' s e = refl
same_matches rt start start' end end' (row ∷ rows) p p' s e =
    rw
      (
        same_bounds start start' end end' (rt.parse_time (row_str row (codes "started_at"))) p p'
            s.0 e.0,
        same_matches rt start start' end end' rows p p' s.1 e.1,
      )
      refl

keep-append :
    (test : SessionRow → Bool) (rs ss : List SessionRow)
    → keep test (rs ++ ss) ≡ keep test rs ++ keep test ss
keep-append test [] ss = refl
keep-append test (r ∷ rs) ss = elim (Bool-cases (test r)) [
  | inl passes ↦ rw passes (ap (λ l. r ∷ l) (keep-append test rs ss))
  | inr fails ↦ rw fails (keep-append test rs ss)
]

module _ (rt : Runtime) (out later : Outside) (req : HttpRequest) (s : State)
    (player_id : Text) where
  -- The row that POST /api/session/new inserts.
  abbrev pub new_row : SessionRow
  new_row = record {
    id = s.next_id;
    player_id = player_id;
    started_at = rt.format_rfc3339 s.since;
    ended_at = rt.format_rfc3339 out.now_later;
  }

  handle_new-inserts :
      req.method ≡ codes "POST"
      → rt.body_field (codes "player_id") req.body ≡ player_id
      → is_empty player_id ≡ false
      → nat_beq s.since 0 ≡ false
      → out.exec_fails ≡ false
      → ((handle_new rt out req s).0.sessions ≡ s.sessions ++ (new_row ∷ []))
        × ((handle_new rt out req s).0.since ≡ out.now)
  unfolding handle_new text_beq
  handle_new-inserts post named some_player open_since works =
      rw (post, named, some_player, open_since, works) (refl, refl)

  session_by_id-new_row :
      (s' : State)
      → s'.sessions ≡ s.sessions ++ (new_row ∷ [])
      → keep (λ (r : SessionRow). r.id == s.next_id) s.sessions ≡ []
      → later.select_fails ≡ false
      → session_by_id rt later s.next_id s' ≡ some (session_from_row rt (rt.host_row new_row))
  unfolding session_by_id
  session_by_id-new_row s' inserted fresh readable =
      rw
        (
          readable,
          inserted,
          keep-append (λ (r : SessionRow). r.id == s.next_id) s.sessions (new_row ∷ []),
          fresh,
          same_self s.next_id,
        )
        refl

  abbrev pub saved : SavedSession
  saved = record { row = new_row; stats = zero_summary }

  -- If a player asks for a new session while one runs, the statement succeeds, the database can be
  -- read later, the clock does not run backwards, the saved end is not read as the zero time, no row
  -- has the next id, the host's row reads back as the row, no match of the player started between a
  -- bound of the session and what the saved time of that bound reads as, which lacks the fraction of
  -- the second, and no incomplete match of the player has a winner, then the old session is found
  -- under that id, and the live summary from before is the sum of the saved counters and the live
  -- summary of the new session.
  pub handle_new-keeps_counts :
      req.method ≡ codes "POST"
      → rt.body_field (codes "player_id") req.body ≡ player_id
      → is_empty player_id ≡ false
      → nat_beq s.since 0 ≡ false
      → out.exec_fails ≡ false
      → later.select_fails ≡ false
      → s.since ≤ out.now
      → 0 < rt.parse_time (rt.format_rfc3339 out.now_later)
      → keep (λ (r : SessionRow). r.id == s.next_id) s.sessions ≡ []
      → session_from_row rt (rt.host_row new_row) ≡ saved
      → All
          (NoneBetween rt (rt.parse_time (rt.format_rfc3339 s.since)) s.since)
          (later.match_rows player_id)
      → All
          (NoneBetween rt (rt.parse_time (rt.format_rfc3339 out.now_later)) out.now)
          (later.match_rows player_id)
      → All (HasNoWinner rt) (later.match_rows player_id)
      → let s' = (handle_new rt out req s).0 in
        let rows = later.match_rows player_id in
        (session_by_id rt later s.next_id s' ≡ some saved)
        × (summarize (session_matches_between rt s.since 0 rows) zero_summary
            ≡ add_summary
                (populate_session_stats rt later saved).0.stats
                (summarize (session_matches_between rt s'.since 0 rows) zero_summary))
  unfolding populate_session_stats populate_session_stats_from_matches
  handle_new-keeps_counts post named some_player open_since works readable forwards ended fresh
        read_back no_start no_end decided =
      let (inserted, since) = handle_new-inserts post named some_player open_since works in
      let rows = later.match_rows player_id in
      let positive : 0 < out.now = ground (arith, forwards, open_since) in
      (
        session_by_id-new_row (handle_new rt out req s).0 inserted fresh readable
            ∙ ap some read_back,
        rw
            (
              since,
              same_matches rt (rt.parse_time (rt.format_rfc3339 s.since)) s.since
                  (rt.parse_time (rt.format_rfc3339 out.now_later)) out.now rows ended positive
                  no_start no_end,
              populate-summarize rt s.since out.now rows zero_summary decided,
            )
            (sessions_add_up rt s.since out.now 0 forwards positive refl rows).0,
      )
