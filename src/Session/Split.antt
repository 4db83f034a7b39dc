-- ===== src/Session/Split.antt =====
-- A session that is split at a time falls into two whose summaries add up.
use oof_rl.Prelude.{
  ℕ, ℤ, pos, ◌+ℤ◌, add_comm_ℤ, add_assoc_ℤ, is_neg, ◌≤◌, ◌<◌, ◌≡◌, refl, ap, sym, ◌∙◌, codes, Bool,
  true, false, not, ◌&&◌, ◌||◌, List, [], ◌∷◌, ◌==◌, int_comparable, leb, nat_beq, arith,
  if◌then◌else◌,
}
use oof_rl.Dejavu.History.{Row}
use oof_rl.Session.{
  Runtime, Summary, SessionMatch, row_str, in_session, match_of_row, session_matches_between,
  zero_summary, add_match, summarize, populate,
}

abbrev pub add_summary : Summary → Summary → Summary
add_summary a b = record {
  games = a.games +ℤ b.games;
  wins = a.wins +ℤ b.wins;
  losses = a.losses +ℤ b.losses;
  goals = a.goals +ℤ b.goals;
  assists = a.assists +ℤ b.assists;
  saves = a.saves +ℤ b.saves;
  shots = a.shots +ℤ b.shots;
  demos = a.demos +ℤ b.demos;
}

-- (a + x) + b is (a + b) + x.
swap_last : (a x b : ℤ) → (a +ℤ x) +ℤ b ≡ (a +ℤ b) +ℤ x
swap_last a x b = add_assoc_ℤ a x b ∙ ap (λ y. a +ℤ y) (add_comm_ℤ x b) ∙ sym (add_assoc_ℤ a b x)

swap_last_if :
    (test : Bool) (a b : ℤ)
    → (if test then a +ℤ pos 1 else a) +ℤ b ≡ (if test then (a +ℤ b) +ℤ pos 1 else a +ℤ b)
swap_last_if true a b = swap_last a (pos 1) b
swap_last_if false a b = refl

add_last_if :
    (test : Bool) (a b : ℤ)
    → a +ℤ (if test then b +ℤ pos 1 else b) ≡ (if test then (a +ℤ b) +ℤ pos 1 else a +ℤ b)
add_last_if true a b = sym (add_assoc_ℤ a b (pos 1))
add_last_if false a b = refl

-- A match may be added to either part of a sum.
add_match-left :
    (decided : Bool) (m : SessionMatch) (a b : Summary)
    → add_summary (add_match decided m a) b ≡ add_match decided m (add_summary a b)
unfolding add_match
add_match-left decided m a b =
    rw
      (
        swap_last a.games (pos 1) b.games,
        swap_last_if (decided && (m.player_team == m.winner_team_num)) a.wins b.wins,
        swap_last_if (decided && not (m.player_team == m.winner_team_num)) a.losses b.losses,
        swap_last a.goals m.goals b.goals,
        swap_last a.assists m.assists b.assists,
        swap_last a.saves m.saves b.saves,
        swap_last a.shots m.shots b.shots,
        swap_last a.demos m.demos b.demos,
      )
      refl

add_match-right :
    (decided : Bool) (m : SessionMatch) (a b : Summary)
    → add_summary a (add_match decided m b) ≡ add_match decided m (add_summary a b)
unfolding add_match
add_match-right decided m a b =
    rw
      (
        add_last_if (decided && (m.player_team == m.winner_team_num)) a.wins b.wins,
        add_last_if (decided && not (m.player_team == m.winner_team_num)) a.losses b.losses,
        add_assoc_ℤ a.games b.games (pos 1),
        add_assoc_ℤ a.goals b.goals m.goals,
        add_assoc_ℤ a.assists b.assists m.assists,
        add_assoc_ℤ a.saves b.saves m.saves,
        add_assoc_ℤ a.shots b.shots m.shots,
        add_assoc_ℤ a.demos b.demos m.demos,
      )
      refl

-- Both loops, `decide` being the test of the winner.
abbrev total : (SessionMatch → Bool) → List SessionMatch → Summary → Summary
total decide [] sum = sum
total decide (m ∷ ms) sum = total decide ms (add_match (decide m) m sum)

abbrev pub has_winner : SessionMatch → Bool
has_winner m = not (is_neg m.winner_team_num)

abbrev pub is_complete_win : SessionMatch → Bool
is_complete_win m = not m.incomplete && not (is_neg m.winner_team_num)

summarize-total :
    (ms : List SessionMatch) (sum : Summary) → summarize ms sum ≡ total has_winner ms sum
unfolding summarize
summarize-total [] sum = refl
summarize-total (m ∷ ms) sum = summarize-total ms (add_match (has_winner m) m sum)

populate-total :
    (ms : List SessionMatch) (sum : Summary) → populate ms sum ≡ total is_complete_win ms sum
unfolding populate
populate-total [] sum = refl
populate-total (m ∷ ms) sum = populate-total ms (add_match (is_complete_win m) m sum)

in_session-split :
    (start middle end at : ℕ)
    → start ≤ middle
    → 0 < middle
    → (nat_beq end 0 || leb middle end) ≡ true
    → (in_session start end at ≡ (in_session start middle at || in_session middle end at))
      × ((in_session start middle at && in_session middle end at) ≡ false)
unfolding in_session
in_session-split start middle end at before positive after =
    (ground (arith, before, positive, after), ground (arith, before, positive, after))

-- A row of one of the parts, of neither, and not of both.
split_row :
    (decide : SessionMatch → Bool) (m : SessionMatch) (whole left right : List SessionMatch)
    (in_left in_right : Bool)
    → (in_left && in_right) ≡ false
    → ((x y : Summary)
        → total decide whole (add_summary x y)
          ≡ add_summary (total decide left x) (total decide right y))
    → (x y : Summary)
    → total decide (if in_left || in_right then m ∷ whole else whole) (add_summary x y)
      ≡ add_summary
          (total decide (if in_left then m ∷ left else left) x)
          (total decide (if in_right then m ∷ right else right) y)
split_row decide m whole left right true false h split x y =
    ap (total decide whole) (sym (add_match-left (decide m) m x y))
    ∙ split (add_match (decide m) m x) y
split_row decide m whole left right false true h split x y =
    ap (total decide whole) (sym (add_match-right (decide m) m x y))
    ∙ split x (add_match (decide m) m y)
split_row decide m whole left right false false h split x y = split x y
split_row decide m whole left right true true h split x y = absurd (ground (arith, h))

module _ (rt : Runtime) (start middle end : ℕ) (before : start ≤ middle) (positive : 0 < middle)
    (after : (nat_beq end 0 || leb middle end) ≡ true) where
  total-split :
      (decide : SessionMatch → Bool) (rows : List Row) (x y : Summary)
      → total decide (session_matches_between rt start end rows) (add_summary x y)
        ≡ add_summary
            (total decide (session_matches_between rt start middle rows) x)
            (total decide (session_matches_between rt middle end rows) y)
  unfolding session_matches_between
  total-split decide [] x y = refl
  total-split decide (row ∷ rows) x y =
      let at = rt.parse_time (row_str row (codes "started_at")) in
      let (either, both) = in_session-split start middle end at before positive after in
      rw either (
        split_row decide (match_of_row rt row) (session_matches_between rt start end rows)
          (session_matches_between rt start middle rows)
          (session_matches_between rt middle end rows) (in_session start middle at)
          (in_session middle end at) both (total-split decide rows) x y)

  -- If a session is split at a time other than the zero time that is not before its start nor, unless
  -- it is open, after its end, then both the live summary and the saved counters of the whole are the
  -- sums of those of the two parts, so each match is counted exactly once.
  pub sessions_add_up :
      (rows : List Row)
      → (summarize (session_matches_between rt start end rows) zero_summary
          ≡ add_summary
              (summarize (session_matches_between rt start middle rows) zero_summary)
              (summarize (session_matches_between rt middle end rows) zero_summary))
        × (populate (session_matches_between rt start end rows) zero_summary
            ≡ add_summary
                (populate (session_matches_between rt start middle rows) zero_summary)
                (populate (session_matches_between rt middle end rows) zero_summary))
  sessions_add_up rows = (
    rw
        (
          summarize-total (session_matches_between rt start end rows) zero_summary,
          summarize-total (session_matches_between rt start middle rows) zero_summary,
          summarize-total (session_matches_between rt middle end rows) zero_summary,
        )
        (total-split has_winner rows zero_summary zero_summary),
    rw
        (
          populate-total (session_matches_between rt start end rows) zero_summary,
          populate-total (session_matches_between rt start middle rows) zero_summary,
          populate-total (session_matches_between rt middle end rows) zero_summary,
        )
        (total-split is_complete_win rows zero_summary zero_summary),
  )
