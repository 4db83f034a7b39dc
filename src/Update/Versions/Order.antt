-- ===== src/Update/Versions/Order.antt =====
-- The order of versions.
use oof_rl.Prelude.{
  ℤ, pos, negsuc, ◌≡◌, refl, sym, Text, Bool, true, false, Option, none, some, List, [], ◌∷◌,
  text_comparable, arith,
}
use oof_rl.Update.Versions.{
  Semver, Ordering, less, same, greater, compare_int, compare_text, compare_pre_numbers,
  compare_pre_id, atoi_strict, then_by, compare_ids, compare_pre, compare_semver,
}

abbrev pub flip : Ordering → Ordering
flip less = greater
flip same = same
flip greater = less

-- Comparing the other way round flips the result.
abbrev pub Flips {ℓ} : {A : Type ℓ} → (A → A → Ordering) → A → A → Type 0
Flips compare a b = compare b a ≡ flip (compare a b)

abbrev pub is_ordering : Ordering → Ordering → Bool
is_ordering less less = true
is_ordering same same = true
is_ordering greater greater = true
is_ordering _ _ = false

-- What a chain of two comparisons says of the outer one.
abbrev pub chain : Ordering → Ordering → Ordering → Bool
chain same second outer = is_ordering second outer
chain first same outer = is_ordering first outer
chain less less outer = is_ordering less outer
chain greater greater outer = is_ordering greater outer
chain _ _ outer = true

abbrev pub Chains {ℓ} : {A : Type ℓ} → (A → A → Ordering) → A → A → A → Type 0
Chains compare a b c = chain (compare a b) (compare b c) (compare a c) ≡ true

Flips-compare_int : (a b : ℤ) → Flips compare_int a b
unfolding compare_int
Flips-compare_int (pos a) (pos b) = ground arith
Flips-compare_int (pos a) (negsuc b) = refl
Flips-compare_int (negsuc a) (pos b) = refl
Flips-compare_int (negsuc a) (negsuc b) = ground arith

Chains-compare_int : (a b c : ℤ) → Chains compare_int a b c
unfolding compare_int
Chains-compare_int (pos a) (pos b) (pos c) = ground arith
Chains-compare_int (pos a) (pos b) (negsuc c) = ground arith
Chains-compare_int (pos a) (negsuc b) (pos c) = ground arith
Chains-compare_int (pos a) (negsuc b) (negsuc c) = ground arith
Chains-compare_int (negsuc a) (pos b) (pos c) = ground arith
Chains-compare_int (negsuc a) (pos b) (negsuc c) = ground arith
Chains-compare_int (negsuc a) (negsuc b) (pos c) = ground arith
Chains-compare_int (negsuc a) (negsuc b) (negsuc c) = ground arith

Flips-compare_text : (s t : Text) → Flips compare_text s t
unfolding compare_text
Flips-compare_text [] [] = refl
Flips-compare_text [] (d ∷ t) = refl
Flips-compare_text (c ∷ s) [] = refl
Flips-compare_text (c ∷ s) (d ∷ t) = ground (arith, Flips-compare_text s t)

Chains-compare_text : (s t u : Text) → Chains compare_text s t u
unfolding compare_text
Chains-compare_text [] [] [] = refl
Chains-compare_text [] [] (e ∷ u) = refl
Chains-compare_text [] (d ∷ t) [] = ground arith
Chains-compare_text [] (d ∷ t) (e ∷ u) = ground arith
Chains-compare_text (c ∷ s) [] [] = ground arith
Chains-compare_text (c ∷ s) [] (e ∷ u) = ground arith
Chains-compare_text (c ∷ s) (d ∷ t) [] = ground arith
Chains-compare_text (c ∷ s) (d ∷ t) (e ∷ u) = ground (arith, Chains-compare_text s t u)

flip-then_by : (x y : Ordering) → flip (then_by x y) ≡ then_by (flip x) (flip y)
flip-then_by less y = refl
flip-then_by same y = refl
flip-then_by greater y = refl

chain-then_by :
    (x1 x2 x3 y1 y2 y3 : Ordering)
    → chain x1 x2 x3 ≡ true
    → chain y1 y2 y3 ≡ true
    → chain (then_by x1 y1) (then_by x2 y2) (then_by x3 y3) ≡ true
chain-then_by less less x3 y1 y2 y3 h k = ground (arith, h)
chain-then_by less same x3 y1 y2 y3 h k = ground (arith, h)
chain-then_by less greater x3 y1 y2 y3 h k = ground (arith, h)
chain-then_by same x2 x3 y1 y2 y3 h k = ground (arith, h, k)
chain-then_by greater less x3 y1 y2 y3 h k = ground (arith, h)
chain-then_by greater same x3 y1 y2 y3 h k = ground (arith, h)
chain-then_by greater greater x3 y1 y2 y3 h k = ground (arith, h)

Flips-numbers :
    (m n : Option ℤ) (a b : Text) → compare_pre_numbers n m b a ≡ flip (compare_pre_numbers m n a b)
unfolding compare_pre_numbers
Flips-numbers (some m) (some n) a b = Flips-compare_int m n
Flips-numbers (some m) none a b = refl
Flips-numbers none (some n) a b = refl
Flips-numbers none none a b = Flips-compare_text a b

Chains-numbers :
    (m n o : Option ℤ) (a b c : Text)
    → chain
        (compare_pre_numbers m n a b)
        (compare_pre_numbers n o b c)
        (compare_pre_numbers m o a c)
      ≡ true
unfolding compare_pre_numbers
Chains-numbers (some m) (some n) (some o) a b c = Chains-compare_int m n o
Chains-numbers (some m) (some n) none a b c = ground arith
Chains-numbers (some m) none (some o) a b c = ground arith
Chains-numbers (some m) none none a b c = ground arith
Chains-numbers none (some n) (some o) a b c = ground arith
Chains-numbers none (some n) none a b c = ground arith
Chains-numbers none none (some o) a b c = ground arith
Chains-numbers none none none a b c = Chains-compare_text a b c

Flips-compare_ids : (ids bs : List Text) → Flips compare_ids ids bs
unfolding compare_ids compare_pre_id
Flips-compare_ids [] [] = refl
Flips-compare_ids [] (b ∷ bs) = refl
Flips-compare_ids (a ∷ ids) [] = refl
Flips-compare_ids (a ∷ ids) (b ∷ bs) =
    rw (Flips-numbers (atoi_strict a) (atoi_strict b) a b, Flips-compare_ids ids bs)
      (sym (flip-then_by (compare_pre_id a b) (compare_ids ids bs)))

Chains-compare_ids : (ids bs cs : List Text) → Chains compare_ids ids bs cs
unfolding compare_ids compare_pre_id
Chains-compare_ids [] [] cs = ground arith
Chains-compare_ids [] (b ∷ bs) [] = ground arith
Chains-compare_ids [] (b ∷ bs) (c ∷ cs) = ground arith
Chains-compare_ids (a ∷ ids) [] [] = ground arith
Chains-compare_ids (a ∷ ids) [] (c ∷ cs) = ground arith
Chains-compare_ids (a ∷ ids) (b ∷ bs) [] = ground arith
Chains-compare_ids (a ∷ ids) (b ∷ bs) (c ∷ cs) =
    chain-then_by (compare_pre_id a b) (compare_pre_id b c) (compare_pre_id a c)
      (compare_ids ids bs) (compare_ids bs cs) (compare_ids ids cs)
      (Chains-numbers (atoi_strict a) (atoi_strict b) (atoi_strict c) a b c)
      (Chains-compare_ids ids bs cs)

Flips-compare_pre : (ids bs : List Text) → Flips compare_pre ids bs
unfolding compare_pre
Flips-compare_pre [] [] = refl
Flips-compare_pre [] (b ∷ bs) = refl
Flips-compare_pre (a ∷ ids) [] = refl
Flips-compare_pre (a ∷ ids) (b ∷ bs) = Flips-compare_ids (a ∷ ids) (b ∷ bs)

Chains-compare_pre : (ids bs cs : List Text) → Chains compare_pre ids bs cs
unfolding compare_pre
Chains-compare_pre [] [] [] = refl
Chains-compare_pre [] [] (c ∷ cs) = refl
Chains-compare_pre [] (b ∷ bs) [] = ground arith
Chains-compare_pre [] (b ∷ bs) (c ∷ cs) = ground arith
Chains-compare_pre (a ∷ ids) [] [] = ground arith
Chains-compare_pre (a ∷ ids) [] (c ∷ cs) = ground arith
Chains-compare_pre (a ∷ ids) (b ∷ bs) [] = ground arith
Chains-compare_pre (a ∷ ids) (b ∷ bs) (c ∷ cs) = Chains-compare_ids (a ∷ ids) (b ∷ bs) (c ∷ cs)

Flips-then_by :
    (x y x' y' : Ordering) → x' ≡ flip x → y' ≡ flip y → then_by x' y' ≡ flip (then_by x y)
Flips-then_by x y x' y' e f = rw (e, f) (sym (flip-then_by x y))

pub Flips-compare_semver : (a b : Semver) → Flips compare_semver a b
unfolding compare_semver
Flips-compare_semver a b = Flips-then_by _ _ _ _ (Flips-compare_int a.major b.major) (
    Flips-then_by _ _ _ _ (Flips-compare_int a.minor b.minor)
      (Flips-then_by _ _ _ _ (Flips-compare_int a.patch b.patch) (Flips-compare_pre a.pre b.pre)))

pub Chains-compare_semver : (a b c : Semver) → Chains compare_semver a b c
unfolding compare_semver
Chains-compare_semver a b c =
    chain-then_by _ _ _ _ _ _ (Chains-compare_int a.major b.major c.major) (
      chain-then_by _ _ _ _ _ _ (Chains-compare_int a.minor b.minor c.minor) (
        chain-then_by _ _ _ _ _ _ (Chains-compare_int a.patch b.patch c.patch)
          (Chains-compare_pre a.pre b.pre c.pre)))

-- Comparing two versions the other way round flips the result; and of three versions, where the
-- first two and the last two compare in the same direction or one of these pairs compares as equal,
-- the outer two compare as the chain says.
pub compare_semver_lem :
    (a b c : Semver)
    → (compare_semver b a ≡ flip (compare_semver a b))
      × (chain (compare_semver a b) (compare_semver b c) (compare_semver a c) ≡ true)
compare_semver_lem a b c = (Flips-compare_semver a b, Chains-compare_semver a b c)
