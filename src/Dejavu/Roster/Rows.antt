-- ===== src/Dejavu/Roster/Rows.antt =====
-- What buildRosterRows makes of a roster.
use mathlib.Core.List.{append-nil, append_assoc}
use oof_rl.Prelude.{
  ℕ, ℤ, ◌+◌, ◌≡◌, ◌∙◌, refl, sym, Text, Bool, true, false, not, ◌&&◌, ◌||◌, List, [], ◌∷◌, ◌++◌,
  ◌==◌, text_comparable, text_beq_iff, arith, if◌then◌else◌,
}
use oof_rl.Dejavu.Roster.{
  LivePlayer, LiveState, RecallPlayer, member, normalize_primary_id, is_usable_stable_id, row_of,
  note_id, roster_rows, build_roster_rows,
}

-- A player has this id.
abbrev pub in_roster : Text → List LivePlayer → Bool
in_roster id [] = false
in_roster id (p ∷ ps) = normalize_primary_id p.primary_id == id || in_roster id ps

abbrev pub is_distinct : List Text → Bool
is_distinct [] = true
is_distinct (id ∷ ids) = not (member id ids) && is_distinct ids

member-snoc :
    (id other : Text) (ids : List Text)
    → member id (ids ++ (other ∷ [])) ≡ (member id ids || other == id)
unfolding member
member-snoc id other [] = ground arith
member-snoc id other (x ∷ ids) = ground (arith, member-snoc id other ids)

is_distinct-snoc :
    (other : Text) (ids : List Text)
    → is_distinct (ids ++ (other ∷ [])) ≡ (not (member other ids) && is_distinct ids)
unfolding member
is_distinct-snoc other [] = refl
is_distinct-snoc other (x ∷ ids) = ground (
  arith,
  is_distinct-snoc other ids,
  member-snoc x other ids,
  text_beq_iff x other,
  text_beq_iff other x,
)

member-note_id :
    (id pid : Text) (ids : List Text)
    → member id (note_id pid ids) ≡ (member id ids || (is_usable_stable_id pid && pid == id))
member-note_id id pid ids = ground (arith, member-snoc id pid ids, text_beq_iff pid id)

is_distinct-note_id :
    (pid : Text) (ids : List Text) → is_distinct ids ≡ true → is_distinct (note_id pid ids) ≡ true
is_distinct-note_id pid ids h = ground (arith, is_distinct-snoc pid ids)

member-roster_rows :
    (id guid selected : Text) (team : ℤ) (ps : List LivePlayer) (index : ℕ)
    (rows : List RecallPlayer) (ids : List Text)
    → member id (roster_rows guid selected team ps index rows ids).1
      ≡ (member id ids || (is_usable_stable_id id && not (id == selected) && in_roster id ps))
unfolding roster_rows
member-roster_rows id guid selected team [] index rows ids = ground arith
member-roster_rows id guid selected team (p ∷ ps) index rows ids =
    let pid = normalize_primary_id p.primary_id in
    let own = pid == selected in
    member-roster_rows id guid selected team ps (index + 1)
      (if own then rows else rows ++ (row_of guid team p index ∷ []))
      (if own then ids else note_id pid ids)
    ∙ ground (
      arith,
      member-note_id id pid ids,
      text_beq_iff pid id,
      text_beq_iff pid selected,
      text_beq_iff id selected,
    )

is_distinct-roster_rows :
    (guid selected : Text) (team : ℤ) (ps : List LivePlayer) (index : ℕ) (rows : List RecallPlayer)
    (ids : List Text)
    → is_distinct ids ≡ true
    → is_distinct (roster_rows guid selected team ps index rows ids).1 ≡ true
unfolding roster_rows
is_distinct-roster_rows guid selected team [] index rows ids h = h
is_distinct-roster_rows guid selected team (p ∷ ps) index rows ids h =
    let pid = normalize_primary_id p.primary_id in
    let own = pid == selected in
    is_distinct-roster_rows guid selected team ps (index + 1)
      (if own then rows else rows ++ (row_of guid team p index ∷ []))
      (if own then ids else note_id pid ids) (ground (arith, is_distinct-note_id pid ids h))

-- The rows of the players other than the selected one, in the roster's order.
abbrev pub other_rows : Text → Text → ℤ → List LivePlayer → ℕ → List RecallPlayer
other_rows guid selected team [] index = []
other_rows guid selected team (p ∷ ps) index =
    let rest = other_rows guid selected team ps (index + 1) in
    if normalize_primary_id p.primary_id == selected then rest else row_of guid team p index ∷ rest

append_step :
    (own : Bool) (row : RecallPlayer) (rows rest : List RecallPlayer)
    → ((if own then rows else rows ++ (row ∷ [])) ++ rest)
      ≡ (rows ++ (if own then rest else row ∷ rest))
append_step true row rows rest = refl
append_step false row rows rest = append_assoc rows (row ∷ []) rest

rows-roster_rows :
    (guid selected : Text) (team : ℤ) (ps : List LivePlayer) (index : ℕ) (rows : List RecallPlayer)
    (ids : List Text)
    → (roster_rows guid selected team ps index rows ids).0
      ≡ (rows ++ other_rows guid selected team ps index)
unfolding roster_rows
rows-roster_rows guid selected team [] index rows ids = sym (append-nil rows)
rows-roster_rows guid selected team (p ∷ ps) index rows ids =
    let pid = normalize_primary_id p.primary_id in
    let own = pid == selected in
    rows-roster_rows guid selected team ps (index + 1)
      (if own then rows else rows ++ (row_of guid team p index ∷ []))
      (if own then ids else note_id pid ids)
    ∙ append_step own (row_of guid team p index) rows (other_rows guid selected team ps (index + 1))

-- The recall shows each player of the roster but the selected one, in order, and asks for the history
-- of exactly the ids of other players that are usable, each once.
pub build_roster_rows_lem :
    (st : LiveState) (selected : Text) (team : ℤ)
    → let (rows, ids) = build_roster_rows st selected team in
      (rows ≡ other_rows st.match_guid selected team st.players 0)
      × (is_distinct ids ≡ true)
      × ((id : Text)
          → member id ids
            ≡ (is_usable_stable_id id && not (id == selected) && in_roster id st.players))
unfolding build_roster_rows member
build_roster_rows_lem st selected team = (
  rows-roster_rows st.match_guid selected team st.players 0 [] [],
  is_distinct-roster_rows st.match_guid selected team st.players 0 [] [] refl,
  λ id. member-roster_rows id st.match_guid selected team st.players 0 [] [],
)
