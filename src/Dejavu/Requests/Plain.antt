-- ===== src/Dejavu/Requests/Plain.antt =====
-- Strings without a NUL, through the roster and the sort.
use oof_rl.Prelude.{
  ℕ, ℤ, ◌+◌, ◌≡◌, refl, Text, Bool, true, false, not, ◌&&◌, List, [], ◌∷◌, ◌++◌, ◌==◌,
  text_comparable, trim_space, trim_left, trim_right, is_empty, All, All-append, arith, Bool-cases,
  inl, inr, if◌then◌else◌,
}
use oof_rl.Dejavu.Roster.{
  LivePlayer, LiveState, RecallPlayer, member, normalize_primary_id, is_usable_stable_id, note_id,
  row_of, roster_rows, build_roster_rows,
}
use oof_rl.Dejavu.Recall.{sort_texts, place, text_leb}
use oof_rl.Dejavu.Recall.Keys.{has_nul, IsPlain, IsTarget}

trim_left-IsPlain : (s : Text) → IsPlain s → IsPlain (trim_left s)
unfolding trim_left has_nul
trim_left-IsPlain [] p = p
trim_left-IsPlain (c ∷ s) p = ground (arith, trim_left-IsPlain s)

trim_right-IsPlain : (s : Text) → IsPlain s → IsPlain (trim_right s)
unfolding trim_right has_nul
trim_right-IsPlain [] p = p
trim_right-IsPlain (c ∷ s) p = ground (arith, trim_right-IsPlain s)

pub normalize-IsPlain : (s : Text) → IsPlain s → IsPlain (normalize_primary_id s)
unfolding normalize_primary_id trim_space
normalize-IsPlain s p = trim_right-IsPlain (trim_left s) (trim_left-IsPlain s p)

-- The ids of a roster are without a NUL.
abbrev pub ArePlain : List LivePlayer → Type 0
ArePlain ps = All (λ (p : LivePlayer). IsPlain p.primary_id) ps

trim_right_left : (s : Text) → is_empty s ≡ true → is_empty (trim_space s) ≡ true
unfolding trim_space trim_left trim_right
trim_right_left [] e = refl
trim_right_left (c ∷ s) e = ground (arith, e)

usable_nonempty : (s : Text) → is_usable_stable_id s ≡ true → is_empty s ≡ false
unfolding is_usable_stable_id normalize_primary_id
usable_nonempty s u = ground (arith, trim_right_left s)

choose-AreTargets :
    (test : Bool) (ids others : List Text)
    → All IsTarget ids
    → All IsTarget others
    → All IsTarget (if test then ids else others)
choose-AreTargets true ids others h k = h
choose-AreTargets false ids others h k = k

note_id-AreTargets :
    (pid : Text) (ids : List Text) → IsPlain pid → All IsTarget ids → All IsTarget (note_id pid ids)
note_id-AreTargets pid ids p h =
    elim (Bool-cases (is_usable_stable_id pid && not (member pid ids))) [
      | inl new ↦ rw new (
          All-append IsTarget ids (pid ∷ []) h ((p, usable_nonempty pid (ground (arith, new))), tt))
      | inr old ↦ rw old h
    ]

roster_rows-AreTargets :
    (guid selected : Text) (team : ℤ) (ps : List LivePlayer) (index : ℕ) (rows : List RecallPlayer)
    (ids : List Text)
    → ArePlain ps
    → All IsTarget ids
    → All IsTarget (roster_rows guid selected team ps index rows ids).1
unfolding roster_rows
roster_rows-AreTargets guid selected team [] index rows ids plain h = h
roster_rows-AreTargets guid selected team (p ∷ ps) index rows ids (first, rest) h =
    let pid = normalize_primary_id p.primary_id in
    let own = pid == selected in
    roster_rows-AreTargets guid selected team ps (index + 1)
      (if own then rows else rows ++ (row_of guid team p index ∷ []))
      (if own then ids else note_id pid ids) rest
      (choose-AreTargets own ids (note_id pid ids) h
        (note_id-AreTargets pid ids (normalize-IsPlain p.primary_id first) h))

place-AreTargets :
    (id : Text) (ids : List Text) → IsTarget id → All IsTarget ids → All IsTarget (place id ids)
place-AreTargets id [] t h = (t, tt)
place-AreTargets id (other ∷ ids) t (first, rest) =
    choose-AreTargets (text_leb id other) (id ∷ other ∷ ids) (other ∷ place id ids)
      (t, (first, rest)) (first, place-AreTargets id ids t rest)

sort-AreTargets : (ids : List Text) → All IsTarget ids → All IsTarget (sort_texts ids)
unfolding sort_texts
sort-AreTargets [] h = h
sort-AreTargets (id ∷ ids) (first, rest) =
    place-AreTargets id (sort_texts ids) first (sort-AreTargets ids rest)

-- The targets of a roster without a NUL can stand in a key.
pub targets-AreTargets :
    (st : LiveState) (selected : Text) (team : ℤ)
    → ArePlain st.players
    → All IsTarget (sort_texts (build_roster_rows st selected team).1)
unfolding build_roster_rows
targets-AreTargets st selected team plain =
    sort-AreTargets (roster_rows st.match_guid selected team st.players 0 [] []).1
      (roster_rows-AreTargets st.match_guid selected team st.players 0 [] [] plain tt)
