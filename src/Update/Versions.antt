-- ===== src/Update/Versions.antt =====
-- internal/update/update.go: versions and their order. An int is an int64 whose arithmetic wraps.
pub mod Order
pub mod Newer
use oof_rl.Prelude.{
  ℕ, ℤ, pos, negsuc, ltb_ℤ, zero, suc, ◌+◌, ◌-◌, ◌*◌, ◌%◌, ◌^◌, Text, codes, Bool, true, false, not,
  ◌&&◌, ◌||◌, Option, none, some, List, [], ◌∷◌, ◌==◌, int_comparable, text_comparable, is_empty,
  has_prefix, trim_space, leb, ltb, nat_beq, if◌then◌else◌,
}

-- The int64 with these low 64 bits.
unfoldable pub int64 : ℕ → ℤ
int64 n = let low = n % 2 ^ 64 in if ltb low (2 ^ 63) then pos low else negsuc (2 ^ 64 - 1 - low)

-- The loop of atoiStrict; the number is kept by its low 64 bits.
unfoldable pub digits_value : Text → ℕ → Option ℕ
digits_value [] n = some n
digits_value (c ∷ s) n =
    let rest = digits_value s ((n * 10 + (c - b'0')) % 2 ^ 64) in
    if leb b'0' c && leb c b'9' then rest else none

abbrev has_leading_zero : Text → Bool
has_leading_zero (c ∷ d ∷ s) = nat_beq c b'0'
has_leading_zero _ = false

abbrev as_int : Option ℕ → Option ℤ
as_int none = none
as_int (some n) = some (int64 n)

unfoldable pub atoi_strict : Text → Option ℤ
unfolding digits_value int64
atoi_strict s = if is_empty s || has_leading_zero s then none else as_int (digits_value s 0)

infixl 10 ◌>>=◌
abbrev ◌>>=◌ {ℓ κ} : {A : Type ℓ} {B : Type κ} → Option A → (A → Option B) → Option B
none >>= f = none
(some a) >>= f = f a

pub record Semver : Type 0 where
  pub major : ℤ
  pub minor : ℤ
  pub patch : ℤ
  pub pre : List Text

-- The text before the first occurrence of the character, and the text after it if there is one.
unfoldable pub cut : ℕ → Text → Text × Option Text
cut sep [] = ([], none)
cut sep (c ∷ s) =
    let (before, after) = cut sep s in if nat_beq c sep then ([], some s) else (c ∷ before, after)

abbrev add_part : ℕ → ℕ → Text → List Text → List Text
add_part sep c s [] = []
add_part sep c s (part ∷ parts) = if nat_beq c sep then [] ∷ part ∷ parts else (c ∷ part) ∷ parts

-- strings.Split by one character.
unfoldable pub split : ℕ → Text → List Text
split sep [] = [] ∷ []
split sep (c ∷ s) = add_part sep c s (split sep s)

abbrev some_empty : List Text → Bool
some_empty [] = false
some_empty (id ∷ ids) = is_empty id || some_empty ids

-- The prerelease identifiers; `none` is a malformed suffix.
abbrev pre_of : Option Text → Option (List Text)
pre_of none = some []
pre_of (some suffix) =
    let ids = split b'.' suffix in if is_empty suffix || some_empty ids then none else some ids

abbrev three : List Text → List Text → Option Semver
three (a ∷ b ∷ c ∷ []) pre = do
  major ← atoi_strict a
  minor ← atoi_strict b
  patch ← atoi_strict c
  some (record { major = major; minor = minor; patch = patch; pre = pre })
three _ pre = none

abbrev without_v : Text → Text
without_v [] = []
without_v (c ∷ s) = if nat_beq c b'v' then s else c ∷ s

unfoldable pub parse_semver : Text → Option Semver
unfolding cut split atoi_strict
parse_semver v =
    let (version, _) = cut b'+' (without_v (trim_space v)) in
    let (core, suffix) = cut b'-' version in do pre ← pre_of suffix; three (split b'.' core) pre

-- The result -1, 0 or 1 of a comparison.
pub data Ordering : Type 0 where
  less same greater : Ordering

unfoldable pub compare_int : ℤ → ℤ → Ordering
compare_int a b = if ltb_ℤ b a then greater else if ltb_ℤ a b then less else same

-- strings.Compare
unfoldable pub compare_text : Text → Text → Ordering
compare_text [] [] = same
compare_text [] (d ∷ t) = less
compare_text (c ∷ s) [] = greater
compare_text (c ∷ s) (d ∷ t) =
    let rest = compare_text s t in if ltb c d then less else if ltb d c then greater else rest

unfoldable pub compare_pre_numbers : Option ℤ → Option ℤ → Text → Text → Ordering
unfolding compare_int compare_text
compare_pre_numbers (some m) (some n) a b = compare_int m n
compare_pre_numbers (some m) none a b = less
compare_pre_numbers none (some n) a b = greater
compare_pre_numbers none none a b = compare_text a b

unfoldable pub compare_pre_id : Text → Text → Ordering
unfolding compare_pre_numbers
compare_pre_id a b = compare_pre_numbers (atoi_strict a) (atoi_strict b) a b

abbrev pub then_by : Ordering → Ordering → Ordering
then_by same later = later
then_by first later = first

-- The loop over the shared identifiers and the comparison of the lengths after it.
unfoldable pub compare_ids : List Text → List Text → Ordering
unfolding compare_pre_id
compare_ids [] [] = same
compare_ids [] (b ∷ bs) = less
compare_ids (a ∷ more) [] = greater
compare_ids (a ∷ more) (b ∷ bs) = then_by (compare_pre_id a b) (compare_ids more bs)

unfoldable pub compare_pre : List Text → List Text → Ordering
unfolding compare_ids
compare_pre [] [] = same
compare_pre [] (b ∷ bs) = greater
compare_pre (a ∷ more) [] = less
compare_pre (a ∷ more) (b ∷ bs) = compare_ids (a ∷ more) (b ∷ bs)

unfoldable pub compare_semver : Semver → Semver → Ordering
unfolding compare_int compare_pre
compare_semver a b = then_by (compare_int a.major b.major) (
    then_by (compare_int a.minor b.minor)
      (then_by (compare_int a.patch b.patch) (compare_pre a.pre b.pre)))

abbrev pub is_greater : Ordering → Bool
is_greater greater = true
is_greater _ = false

unfoldable pub newer_parsed : Option Semver → Option Semver → Bool
unfolding compare_semver
newer_parsed (some c) (some l) = is_greater (compare_semver l c)
newer_parsed _ _ = true

unfoldable pub is_newer : Text → Text → Bool
unfolding newer_parsed parse_semver
is_newer current latest =
    let c = trim_space current in
    let l = trim_space latest in
    if is_empty l || c == l then false else newer_parsed (parse_semver c) (parse_semver l)
