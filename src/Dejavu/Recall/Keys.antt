-- ===== src/Dejavu/Recall/Keys.antt =====
-- The key of the cache names the match, the selected player and the targets.
use oof_rl.Prelude.{
  ◌≡◌, refl, Text, Bool, true, false, ◌||◌, List, [], ◌∷◌, ◌++◌, nat_beq, is_empty, All, arith,
}
use oof_rl.Dejavu.Recall.{nul, join, history_key}

unfoldable pub has_nul : Text → Bool
has_nul [] = false
has_nul (c ∷ s) = nat_beq c 0 || has_nul s

-- A part of a key without NUL.
abbrev pub IsPlain : Text → Type 0
IsPlain s = has_nul s ≡ false

-- An id of a target.
abbrev pub IsTarget : Text → Type 0
IsTarget s = IsPlain s × (is_empty s ≡ false)

split_key :
    (s t x y : Text) → IsPlain s → IsPlain t → (s ++ (0 ∷ x)) ≡ (t ++ (0 ∷ y)) → (s ≡ t) × (x ≡ y)
unfolding has_nul
split_key [] [] x y p q e = ground (arith, e)
split_key [] (d ∷ t) x y p q e = ground (arith, e)
split_key (c ∷ s) [] x y p q e = ground (arith, e)
split_key (c ∷ s) (d ∷ t) x y p q e = ground (arith, e, split_key s t x y)

has_nul-split : (s x : Text) → has_nul (s ++ (0 ∷ x)) ≡ true
unfolding has_nul
has_nul-split [] x = ground arith
has_nul-split (c ∷ s) x = ground (arith, has_nul-split s x)

join-injective :
    (ids others : List Text)
    → All IsTarget ids
    → All IsTarget others
    → join nul ids ≡ join nul others
    → ids ≡ others
join-injective [] [] h k e = refl
join-injective [] (b ∷ []) h k e = ground (arith, e)
join-injective [] ([] ∷ c ∷ r) h k e = ground (arith, e, k)
join-injective [] ((x ∷ b) ∷ c ∷ r) h k e = ground (arith, e)
join-injective (a ∷ []) [] h k e = ground (arith, e)
join-injective (a ∷ []) (b ∷ []) h k e = ground (arith, e)
join-injective (a ∷ []) (b ∷ c ∷ r) h k e = ground (arith, e, has_nul-split b (join nul (c ∷ r)))
join-injective ([] ∷ c ∷ r) [] h k e = ground (arith, h)
join-injective ((x ∷ b) ∷ c ∷ r) [] h k e = ground (arith, e)
join-injective (b ∷ c ∷ r) (a ∷ []) h k e = ground (arith, e, has_nul-split b (join nul (c ∷ r)))
join-injective (a ∷ c ∷ r) (b ∷ d ∷ q) h k e =
    let (head, tail) = split_key a b (join nul (c ∷ r)) (join nul (d ∷ q)) h.0.0 k.0.0 e in
    ground (arith, head, join-injective (c ∷ r) (d ∷ q) h.1 k.1 tail)

-- Two requests share a key only if they name the same match, the same player and the same targets, as
-- long as none of these contains a NUL character and no target is empty.
pub history_key-injective :
    (guid guid' selected selected' : Text) (ids ids' : List Text)
    → IsPlain guid
    → IsPlain guid'
    → IsPlain selected
    → IsPlain selected'
    → All IsTarget ids
    → All IsTarget ids'
    → history_key guid selected ids ≡ history_key guid' selected' ids'
    → (guid ≡ guid') × (selected ≡ selected') × (ids ≡ ids')
unfolding history_key
history_key-injective guid guid' selected selected' ids ids' p p' q q' h h' e =
    let (same_guid, rest) =
      split_key guid guid' (selected ++ (nul ++ join nul ids)) (selected' ++ (nul ++ join nul ids'))
        p p' e in
    let (same_selected, same_ids) =
      split_key selected selected' (join nul ids) (join nul ids') q q' rest in
    (same_guid, same_selected, join-injective ids ids' h h' same_ids)
