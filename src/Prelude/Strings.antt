-- ===== src/Prelude/Strings.antt =====
-- Go strings as lists of code points, and the functions of package strings that the program calls.
-- All strings come from JSON, whose decoder yields valid UTF-8, so a string is its code points.
use Prim.Native.Char.{code}
use Prim.Native.Nat.{ℕ, zero, suc, ◌+◌, ◌*◌, ◌/◌, ◌-◌, ◌%◌, ◌^◌}
use Prim.Native.String.{String}
use mathlib.Core.Path.{◌≡◌, refl}
use mathlib.Core.Logic.{◌↔◌}
use mathlib.Core.Bool.{Bool, true, false, not, ◌&&◌, ◌||◌}
use mathlib.Core.List.{List, [], ◌∷◌, ◌++◌, map, reverse}
use native.Mathlib.Omega.{arith}
use oof_rl.Prelude.Int.{ℤ, pos, negsuc}
use oof_rl.Prelude.Tests.{leb, nat_beq, if◌then◌else◌}

abbrev pub Text : Type 0
Text = List ℕ

-- A Go string literal.
abbrev pub codes : String → Text
codes String.[] = []
codes (String.◌∷◌ c s) = code c ∷ codes s

unfoldable pub text_beq : Text → Text → Bool
text_beq [] [] = true
text_beq (c ∷ s) (d ∷ t) = nat_beq c d && text_beq s t
text_beq _ _ = false

pub text_beq_iff : (s t : Text) → (text_beq s t ≡ true) ↔ (s ≡ t)
unfolding text_beq
text_beq_iff [] [] = ground arith
text_beq_iff [] (d ∷ t) = ground arith
text_beq_iff (c ∷ s) [] = ground arith
text_beq_iff (c ∷ s) (d ∷ t) = ground (arith, text_beq_iff s t)

pub text_beq_refl : (s : Text) → text_beq s s ≡ true
text_beq_refl s = (text_beq_iff s s).1 refl

abbrev pub is_empty : Text → Bool
is_empty [] = true
is_empty (_ ∷ _) = false

-- strings.HasPrefix
unfoldable pub has_prefix : Text → Text → Bool
has_prefix s [] = true
has_prefix [] (p ∷ ps) = false
has_prefix (c ∷ s) (p ∷ ps) = nat_beq c p && has_prefix s ps

-- strings.HasSuffix
unfoldable pub has_suffix : Text → Text → Bool
unfolding has_prefix
has_suffix s p = has_prefix (reverse s) (reverse p)

-- unicode.IsSpace
unfoldable pub is_space : ℕ → Bool
is_space c =
    (leb 0x09 c && leb c 0x0d)
    || nat_beq c 0x20
    || nat_beq c 0x85
    || nat_beq c 0xa0
    || nat_beq c 0x1680
    || (leb 0x2000 c && leb c 0x200a)
    || nat_beq c 0x2028
    || nat_beq c 0x2029
    || nat_beq c 0x202f
    || nat_beq c 0x205f
    || nat_beq c 0x3000

unfoldable pub trim_left : Text → Text
unfolding is_space
trim_left [] = []
trim_left (c ∷ s) = if is_space c then trim_left s else c ∷ s

unfoldable pub trim_right : Text → Text
unfolding is_space
trim_right [] = []
trim_right (c ∷ s) = let rest = trim_right s in if is_space c && is_empty rest then [] else c ∷ rest

-- strings.TrimSpace
unfoldable pub trim_space : Text → Text
unfolding trim_left trim_right
trim_space s = trim_right (trim_left s)

-- unicode.ToLower, on the letters that have an ASCII lower case: A to Z, the Turkish capital I with
-- a dot and the Kelvin sign. No other letter is mapped to or from ASCII, and the program looks at
-- the result only through ASCII prefixes.
unfoldable pub to_lower_rune : ℕ → ℕ
to_lower_rune c =
    if leb b'A' c && leb c b'Z'
    then c + 32
    else if nat_beq c 0x130
    then b'i'
    else if nat_beq c 0x212a
    then b'k'
    else c

-- strings.ToLower
unfoldable pub to_lower : Text → Text
unfolding to_lower_rune
to_lower = map to_lower_rune

-- The decimal digits of a number below 10 ^ fuel.
decimal : ℕ → ℕ → Text
decimal zero n = []
decimal (suc fuel) n =
    let front = decimal fuel (n / 10) in
    let last = (n % 10 + b'0') ∷ [] in if nat_beq (n / 10) 0 then last else front ++ last

-- strconv.Itoa; an int64 has at most 19 digits.
unfoldable pub itoa : ℤ → Text
unfolding decimal
itoa (pos n) = decimal 20 n
itoa (negsuc n) = b'-' ∷ decimal 20 (n + 1)

-- The value of a string of digits after `n`, and whether it is one; a value beyond uint64 ends it.
abbrev digits : Text → ℕ → ℕ × Bool
digits [] n = (n, true)
digits (c ∷ s) n =
    let m = n * 10 + (c - b'0') in
    let rest = digits s m in
    if not (leb b'0' c && leb c b'9')
    then (0, false)
    else if leb (2 ^ 64) m
    then (m, true)
    else rest

abbrev clamp : Bool → ℕ → ℤ
clamp neg n =
    if neg
    then (if leb (2 ^ 63) n
        then negsuc (2 ^ 63 - 1)
        else if nat_beq n 0
        then pos 0
        else negsuc (n - 1))
    else if leb (2 ^ 63) n
    then pos (2 ^ 63 - 1)
    else pos n

abbrev parse_digits : Bool → Text → ℤ
parse_digits neg s = let (n, ok) = digits s 0 in if is_empty s || not ok then pos 0 else clamp neg n

-- The number that strconv.ParseInt(s, 10, 64) returns, which is 0 after a syntax error and the
-- nearest int64 after a range error.
unfoldable pub parse_int : Text → ℤ
parse_int [] = pos 0
parse_int (c ∷ s) =
    if nat_beq c b'-'
    then parse_digits true s
    else if nat_beq c b'+'
    then parse_digits false s
    else parse_digits false (c ∷ s)
