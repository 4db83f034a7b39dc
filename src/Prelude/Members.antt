-- ===== src/Prelude/Members.antt =====
-- Membership, repetition and counting in lists of a comparable type: a Go set or multiset.
use Prim.Native.Nat.{ℕ, suc, ◌+◌, ◌≤◌}
use mathlib.Core.Path.{◌≡◌, refl}
use mathlib.Core.Bool.{Bool, true, false, not, ◌&&◌, ◌||◌}
use mathlib.Core.List.{List, [], ◌∷◌, ◌++◌}
use native.Mathlib.Omega.{arith}
use oof_rl.Prelude.Tests.{if◌then◌else◌}
use oof_rl.Prelude.Lists.{length}
use oof_rl.Prelude.Equality.{Comparable, ◌==◌}

module _ {ℓ} {A : Type ℓ} ⦃c : Comparable A⦄ where
  unfoldable pub contains : List A → A → Bool
  contains [] a = false
  contains (x ∷ xs) a = x == a || contains xs a

  unfoldable pub are_distinct : List A → Bool
  unfolding contains
  are_distinct [] = true
  are_distinct (x ∷ xs) = not (contains xs x) && are_distinct xs

  unfoldable pub occurrences : A → List A → ℕ
  occurrences a [] = 0
  occurrences a (x ∷ xs) = let rest = occurrences a xs in if x == a then suc rest else rest

  pub same_self : (a : A) → (a == a) ≡ true
  same_self a = (c.same_iff a a).1 refl

  pub contains-append :
      (xs ys : List A) (a : A) → contains (xs ++ ys) a ≡ (contains xs a || contains ys a)
  unfolding contains
  contains-append [] ys a = refl
  contains-append (x ∷ xs) ys a = ground (arith, contains-append xs ys a)

  pub are_distinct-snoc :
      (xs : List A) (a : A)
      → are_distinct (xs ++ (a ∷ [])) ≡ (are_distinct xs && not (contains xs a))
  unfolding are_distinct contains
  are_distinct-snoc [] a = refl
  are_distinct-snoc (x ∷ xs) a =
      ground (
        arith,
        are_distinct-snoc xs a,
        contains-append xs (a ∷ []) x,
        c.same_iff a x,
        c.same_iff x a,
      )

  pub occurrences-snoc :
      (a b : A) (xs : List A)
      → occurrences a (xs ++ (b ∷ [])) ≡ occurrences a xs + (if b == a then 1 else 0)
  unfolding occurrences
  occurrences-snoc a b [] = ground arith
  occurrences-snoc a b (x ∷ xs) = ground (arith, occurrences-snoc a b xs)

  -- Without the first occurrence.
  erase : A → List A → List A
  erase a [] = []
  erase a (x ∷ xs) = let rest = erase a xs in if x == a then xs else x ∷ rest

  contains-erase :
      (a b : A) (xs : List A) → (a == b) ≡ false → contains (erase a xs) b ≡ contains xs b
  unfolding erase contains
  contains-erase a b [] h = refl
  contains-erase a b (x ∷ xs) h =
      ground (arith, contains-erase a b xs, c.same_iff x a, c.same_iff x b, c.same_iff a b)

  length-erase :
      (a : A) (xs : List A) → contains xs a ≡ true → suc (length (erase a xs)) ≡ length xs
  unfolding erase contains
  length-erase a [] h = ground (arith, h)
  length-erase a (x ∷ xs) h = ground (arith, length-erase a xs)

  -- A list without repetition is at most as long as one that has its members.
  pub length-le_of_contains :
      (xs ys : List A)
      → are_distinct xs ≡ true
      → ((a : A) → contains xs a ≡ true → contains ys a ≡ true)
      → length xs ≤ length ys
  unfolding are_distinct contains
  length-le_of_contains [] ys d h = omega arith
  length-le_of_contains (x ∷ xs) ys d h =
      let first : contains ys x ≡ true = h x (ground (arith, same_self x)) in
      let rest =
        length-le_of_contains xs (erase x ys) (ground (arith, d))
          (λ a m. ground (arith, d, m, h a, contains-erase x a ys, c.same_iff x a)) in
      omega (arith, rest, length-erase x ys first)

  pub are_distinct-middle :
      (xs ys : List A) (a : A) → are_distinct (xs ++ (a ∷ ys)) ≡ true → contains xs a ≡ false
  unfolding are_distinct contains
  are_distinct-middle [] ys a d = refl
  are_distinct-middle (x ∷ xs) ys a d = ground (
    arith,
    are_distinct-middle xs ys a,
    contains-append xs (a ∷ ys) x,
    c.same_iff x a,
    c.same_iff a x,
  )

  pub contains-middle : (xs ys : List A) (a : A) → contains (xs ++ (a ∷ ys)) a ≡ true
  unfolding contains
  contains-middle xs ys a = ground (arith, contains-append xs (a ∷ ys) a, same_self a)
