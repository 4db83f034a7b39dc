-- ===== src/Dejavu/History/Counts.antt =====
-- What the counters of an aggregate count.
use oof_rl.Prelude.{
  ℕ, ℤ, suc, ◌+◌, ◌≤◌, ◌≡◌, ◌∙◌, refl, ap, Text, Bool, not, ◌&&◌, List, [], ◌∷◌, ◌==◌,
  text_comparable, int_comparable, text_beq, text_beq_iff, lookup, lookup-insert, length, arith,
  Bool-cases, inl, inr, if◌then◌else◌,
}
use oof_rl.Dejavu.History.{
  Runtime, Row, Encounter, HistoryAgg, Aggs, zero_agg, agg_or_zero, read_row, seen, is_relevant,
  is_with, is_win, is_decided, count_encounter, add_encounter, aggregate_from,
  aggregate_encounter_rows,
}

-- The relevant rows of a player, one for each match that is not in the list: its first.
abbrev pub first_encounters : Runtime → Text → List Text → Text → List ℤ → List Row → List Encounter
first_encounters rt guid ids id old [] = []
first_encounters rt guid ids id old (row ∷ rows) =
    let e = read_row rt row in
    let later = first_encounters rt guid ids id (e.match_id ∷ old) rows in
    let skipped = first_encounters rt guid ids id old rows in
    if is_relevant guid ids e && e.target_id == id && not (seen e.match_id old)
    then e ∷ later
    else skipped

abbrev pub count : (Encounter → Bool) → List Encounter → ℕ
count test [] = 0
count test (e ∷ es) = let rest = count test es in if test e then suc rest else rest

-- Each of the encounters counted, from the first on.
tally : Runtime → List Encounter → HistoryAgg → HistoryAgg
tally rt [] agg = agg
tally rt (e ∷ es) agg = tally rt es (count_encounter rt e agg)

seen-count_encounter :
    (rt : Runtime) (e : Encounter) (agg : HistoryAgg)
    → (count_encounter rt e agg).seen_match_ids ≡ e.match_id ∷ agg.seen_match_ids
unfolding count_encounter
seen-count_encounter rt e agg = ground arith

abbrev pub agg_of : Text → Aggs → HistoryAgg
agg_of id aggs = agg_or_zero (lookup id aggs)

-- What a row does to the aggregate of a player.
abbrev counted : Runtime → Text → List Text → Text → Encounter → HistoryAgg → HistoryAgg
counted rt guid ids id e agg =
    if is_relevant guid ids e && e.target_id == id && not (seen e.match_id agg.seen_match_ids)
    then count_encounter rt e agg
    else agg

agg_of-add_encounter :
    (rt : Runtime) (guid : Text) (ids : List Text) (id : Text) (e : Encounter) (aggs : Aggs)
    → agg_of id (add_encounter rt guid ids e aggs) ≡ counted rt guid ids id e (agg_of id aggs)
unfolding add_encounter
agg_of-add_encounter rt guid ids id e aggs = elim (Bool-cases (is_relevant guid ids e)) [
  | inr skip ↦ rw skip
  | inl go ↦ elim (Bool-cases (text_beq e.target_id id)) [
    | inr other ↦ rw go (rw lookup-insert (rw other))
    | inl same ↦
        rw go
          (rw lookup-insert (rw same (rw ((text_beq_iff e.target_id id).0 same) (ground arith))))
  ]
]

agg_of-aggregate_from :
    (rt : Runtime) (guid : Text) (ids : List Text) (id : Text) (rows : List Row) (aggs : Aggs)
    → agg_of id (aggregate_from rt guid ids rows aggs)
      ≡ tally rt
          (first_encounters rt guid ids id (agg_of id aggs).seen_match_ids rows)
          (agg_of id aggs)
unfolding aggregate_from tally
agg_of-aggregate_from rt guid ids id [] aggs = refl
agg_of-aggregate_from rt guid ids id (row ∷ rows) aggs =
    let e = read_row rt row in
    let aggs' = add_encounter rt guid ids e aggs in
    agg_of-aggregate_from rt guid ids id rows aggs'
    ∙ elim (Bool-cases (
        is_relevant guid ids e
        && text_beq e.target_id id
        && not (seen e.match_id (agg_of id aggs).seen_match_ids))) [
          | inl go ↦ rw (
            agg_of-add_encounter rt guid ids id e aggs,
            go,
            seen-count_encounter rt e (agg_of id aggs),
          )
          | inr skip ↦ rw (agg_of-add_encounter rt guid ids id e aggs, skip)
        ]

-- A counter that each encounter passing a test raises by one.
Counts : Runtime → (HistoryAgg → ℕ) → (Encounter → Bool) → Type 0
Counts rt counter test =
    (e : Encounter) (agg : HistoryAgg)
    → counter (count_encounter rt e agg) ≡ counter agg + count test (e ∷ [])

tally-Counts :
    (rt : Runtime) (counter : HistoryAgg → ℕ) (test : Encounter → Bool)
    → Counts rt counter test
    → (es : List Encounter) (agg : HistoryAgg)
    → counter (tally rt es agg) ≡ counter agg + count test es
unfolding tally Counts
tally-Counts rt counter test counts [] agg = omega arith
tally-Counts rt counter test counts (e ∷ es) agg =
    tally-Counts rt counter test counts es (count_encounter rt e agg) ∙ ground (arith, counts e agg)

aggregate-Counts :
    (rt : Runtime) (rows : List Row) (guid : Text) (ids : List Text) (id : Text)
    (counter : HistoryAgg → ℕ) (test : Encounter → Bool)
    → Counts rt counter test
    → counter zero_agg ≡ 0
    → counter (agg_of id (aggregate_encounter_rows rt rows guid ids))
      ≡ count test (first_encounters rt guid ids id [] rows)
unfolding aggregate_encounter_rows lookup zero_agg
aggregate-Counts rt rows guid ids id counter test counts start =
    ap counter (agg_of-aggregate_from rt guid ids id rows [])
    ∙ omega (
      arith,
      start,
      tally-Counts rt counter test counts (first_encounters rt guid ids id [] rows) zero_agg,
    )

-- The counters of a player's aggregate count the first relevant row of each match: with and against
-- by the sides of the target and the selected player; wins and losses of either kind among the
-- decided ones, by the side of the selected player; and the undecided ones of either kind.
pub aggregate_encounter_rows_lem :
    (rt : Runtime) (rows : List Row) (guid : Text) (ids : List Text) (id : Text)
    → let agg = agg_of id (aggregate_encounter_rows rt rows guid ids) in
      let es = first_encounters rt guid ids id [] rows in
      (agg.with_count ≡ count is_with es)
      × (agg.against_count ≡ count (λ e. not (is_with e)) es)
      × (agg.with_wins ≡ count (λ e. is_decided e && is_with e && is_win e) es)
      × (agg.with_losses ≡ count (λ e. is_decided e && is_with e && not (is_win e)) es)
      × (agg.against_wins ≡ count (λ e. is_decided e && not (is_with e) && is_win e) es)
      × (agg.against_losses ≡ count (λ e. is_decided e && not (is_with e) && not (is_win e)) es)
      × (agg.with_no_result ≡ count (λ e. not (is_decided e) && is_with e) es)
      × (agg.against_no_result ≡ count (λ e. not (is_decided e) && not (is_with e)) es)
unfolding Counts count_encounter zero_agg
aggregate_encounter_rows_lem rt rows guid ids id =
    let by = aggregate-Counts rt rows guid ids id in
    (
      by (λ a. a.with_count) is_with (λ e agg. ground arith) refl,
      by (λ a. a.against_count) (λ e. not (is_with e)) (λ e agg. ground arith) refl,
      by (λ a. a.with_wins) (λ e. is_decided e && is_with e && is_win e) (λ e agg. ground arith)
          refl,
      by (λ a. a.with_losses) (λ e. is_decided e && is_with e && not (is_win e))
          (λ e agg. ground arith) refl,
      by (λ a. a.against_wins) (λ e. is_decided e && not (is_with e) && is_win e)
          (λ e agg. ground arith) refl,
      by (λ a. a.against_losses) (λ e. is_decided e && not (is_with e) && not (is_win e))
          (λ e agg. ground arith) refl,
      by (λ a. a.with_no_result) (λ e. not (is_decided e) && is_with e) (λ e agg. ground arith)
          refl,
      by (λ a. a.against_no_result) (λ e. not (is_decided e) && not (is_with e))
          (λ e agg. ground arith) refl,
    )

-- The sums that the panel of the plugin shows.
abbrev pub IsConsistent : HistoryAgg → Type 0
IsConsistent a =
    (a.prior_count ≡ a.with_count + a.against_count)
    × (a.with_count ≡ a.with_wins + a.with_losses + a.with_no_result)
    × (a.against_count ≡ a.against_wins + a.against_losses + a.against_no_result)

count_encounter-IsConsistent :
    (rt : Runtime) (e : Encounter) (agg : HistoryAgg)
    → IsConsistent agg
    → IsConsistent (count_encounter rt e agg)
unfolding count_encounter
count_encounter-IsConsistent rt e agg h = (ground arith, ground arith, ground arith)

tally-IsConsistent :
    (rt : Runtime) (es : List Encounter) (agg : HistoryAgg)
    → IsConsistent agg
    → IsConsistent (tally rt es agg)
unfolding tally
tally-IsConsistent rt [] agg h = h
tally-IsConsistent rt (e ∷ es) agg h =
    tally-IsConsistent rt es (count_encounter rt e agg) (count_encounter-IsConsistent rt e agg h)

length-first_encounters :
    (rt : Runtime) (guid : Text) (ids : List Text) (id : Text) (old : List ℤ) (rows : List Row)
    → length (first_encounters rt guid ids id old rows) ≤ length rows
length-first_encounters rt guid ids id old [] = omega arith
length-first_encounters rt guid ids id old (row ∷ rows) = ground (
  arith,
  length-first_encounters rt guid ids id ((read_row rt row).match_id ∷ old) rows,
  length-first_encounters rt guid ids id old rows,
)

count-both :
    (test : Encounter → Bool) (es : List Encounter)
    → count test es + count (λ e. not (test e)) es ≡ length es
count-both test [] = omega arith
count-both test (e ∷ es) = ground (arith, count-both test es)

-- Whatever rows the query returns, each player's prior count is the sum of with and against, each of
-- these is the sum of its wins, losses and matches without a result, and the prior count is at most
-- the number of rows.
pub aggregate_encounter_rows-IsConsistent :
    (rt : Runtime) (rows : List Row) (guid : Text) (ids : List Text) (id : Text)
    → let agg = agg_of id (aggregate_encounter_rows rt rows guid ids) in
      IsConsistent agg × (agg.prior_count ≤ length rows)
unfolding aggregate_encounter_rows lookup zero_agg
aggregate_encounter_rows-IsConsistent rt rows guid ids id =
    let es = first_encounters rt guid ids id [] rows in
    let sums = tally-IsConsistent rt es zero_agg (refl, refl, refl) in
    let sums' : IsConsistent (agg_of id (aggregate_encounter_rows rt rows guid ids)) =
      rw (agg_of-aggregate_from rt guid ids id rows []) sums in
    let counts = aggregate_encounter_rows_lem rt rows guid ids id in
    (
      sums',
      omega (
        arith,
        sums'.0,
        counts.0,
        counts.1,
        count-both is_with es,
        length-first_encounters rt guid ids id [] rows,
      ),
    )
