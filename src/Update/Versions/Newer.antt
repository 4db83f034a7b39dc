-- ===== src/Update/Versions/Newer.antt =====
-- IsNewer as a relation on versions.
use oof_rl.Prelude.{
  ◌≡◌, ◌∙◌, refl, ap, sym, Text, true, false, Bool, ◌&&◌, List, Option, some, [], ◌∷◌,
  text_comparable, text_beq, text_beq_iff, trim_space, trim_left, trim_right, is_empty, arith,
  Bool-cases, inl, inr,
}
use oof_rl.Update.Versions.{
  Semver, Ordering, less, same, greater, compare_semver, parse_semver, cut, split, newer_parsed,
  is_newer, is_greater,
}
use oof_rl.Update.Versions.Order.{flip, chain, Flips-compare_semver, Chains-compare_semver}

abbrev pub version : Text → Option Semver
version s = parse_semver (trim_space s)

flip_same : (o : Ordering) → o ≡ flip o → o ≡ same
flip_same less e = ground (arith, e)
flip_same same e = refl
flip_same greater e = ground (arith, e)

compare_semver_refl : (a : Semver) → compare_semver a a ≡ same
compare_semver_refl a = flip_same (compare_semver a a) (Flips-compare_semver a a)

parsed_nonempty : (s : Text) (v : Semver) → parse_semver s ≡ some v → is_empty s ≡ false
unfolding parse_semver cut split trim_space trim_left trim_right
parsed_nonempty [] v e = ground (arith, e)
parsed_nonempty (c ∷ s) v e = refl

same_version : (l c : Semver) → some l ≡ some c → is_greater (compare_semver l c) ≡ false
same_version l c e =
    let equal : l ≡ c = ground (arith, e) in rw equal (ap is_greater (compare_semver_refl c))

-- Between two versions of the form of semver, the latest is newer exactly if it comes after the
-- current one in the order.
is_newer_lem :
    (current latest : Text) (c l : Semver)
    → version current ≡ some c
    → version latest ≡ some l
    → is_newer current latest ≡ is_greater (compare_semver l c)
unfolding is_newer newer_parsed
is_newer_lem current latest c l parsed parsed' =
    elim (Bool-cases (text_beq (trim_space current) (trim_space latest))) [
      | inr differs ↦
          rw (parsed_nonempty (trim_space latest) l parsed', differs) (rw (parsed, parsed') refl)
      | inl equal ↦
          let texts = (text_beq_iff (trim_space current) (trim_space latest)).0 equal in
          rw (parsed_nonempty (trim_space latest) l parsed', equal)
            (sym (same_version l c (sym parsed' ∙ ap parse_semver (sym texts) ∙ parsed)))
    ]

outer_greater :
    (x y z : Ordering)
    → chain x y z ≡ true
    → is_greater x ≡ true
    → is_greater y ≡ true
    → is_greater z ≡ true
outer_greater greater greater z h p q = ground (arith, h)
outer_greater greater less z h p q = ground (arith, q)
outer_greater greater same z h p q = ground (arith, q)
outer_greater less y z h p q = ground (arith, p)
outer_greater same y z h p q = ground (arith, p)

not_both : (x y : Ordering) → y ≡ flip x → (is_greater x && is_greater y) ≡ false
not_both less y e = refl
not_both same y e = refl
not_both greater y e = rw e refl

-- Two versions of the form of semver are not newer than each other, so no update offers a way back.
is_newer-one_way :
    (s t : Text) (a b : Semver)
    → version s ≡ some a
    → version t ≡ some b
    → (is_newer s t && is_newer t s) ≡ false
is_newer-one_way s t a b p q =
    rw (is_newer_lem s t a b p q, is_newer_lem t s b a q p)
      (not_both (compare_semver b a) (compare_semver a b) (Flips-compare_semver b a))

-- A version newer than a newer one is newer, for versions of the form of semver.
is_newer-transitive :
    (s t u : Text) (a b c : Semver)
    → version s ≡ some a
    → version t ≡ some b
    → version u ≡ some c
    → is_newer s t ≡ true
    → is_newer t u ≡ true
    → is_newer s u ≡ true
is_newer-transitive s t u a b c p q r st tu =
    is_newer_lem s u a c p r
    ∙ outer_greater (compare_semver c b) (compare_semver b a) (compare_semver c a)
        (Chains-compare_semver c b a) (sym (is_newer_lem t u b c q r) ∙ tu)
        (sym (is_newer_lem s t a b p q) ∙ st)

abbrev pub IsVersion : Text → Type 0
IsVersion s = (v : Semver) × (version s ≡ some v)

-- Releases of the form of semver, each newer than the one before.
abbrev pub AreUpdates : Text → List Text → Type 0
AreUpdates s [] = Unit
AreUpdates s (t ∷ ts) = IsVersion t × (is_newer s t ≡ true) × AreUpdates t ts

abbrev pub last_of : Text → List Text → Text
last_of s [] = s
last_of s (t ∷ ts) = last_of t ts

last_is_newer :
    (s t : Text) (ts : List Text)
    → IsVersion s
    → IsVersion t
    → is_newer s t ≡ true
    → AreUpdates t ts
    → IsVersion (last_of t ts) × (is_newer s (last_of t ts) ≡ true)
last_is_newer s t [] is_s is_t newer us = (is_t, newer)
last_is_newer s t (u ∷ us) (a, p) (b, q) newer ((c, r), step, rest) =
    last_is_newer s u us (a, p) (c, r) (is_newer-transitive s t u a b c p q r newer step) rest

-- From a version of the form of semver, however many such updates are installed one after the other,
-- each newer than the version before it, the last is newer than the first version, and the first
-- version is not newer than the last.
pub updates_never_return :
    (s t : Text) (ts : List Text)
    → IsVersion s
    → AreUpdates s (t ∷ ts)
    → (is_newer s (last_of t ts) ≡ true) × (is_newer (last_of t ts) s ≡ false)
updates_never_return s t ts (a, p) (is_t, newer, rest) =
    let ((b, q), later) = last_is_newer s t ts (a, p) is_t newer rest in
    (
      later,
      one_of (is_newer s (last_of t ts)) (is_newer (last_of t ts) s) later
          (is_newer-one_way s (last_of t ts) a b p q),
    )
  where
    one_of : (x y : Bool) → x ≡ true → (x && y) ≡ false → y ≡ false
    one_of x y h k = ground (arith, h, k)
