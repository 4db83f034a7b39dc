-- ===== src/Prelude/Equality.antt =====
-- Go's `==` on the comparable types of the program.
use Prim.Native.Nat.{ℕ}
use mathlib.Core.Path.{◌≡◌}
use mathlib.Core.Logic.{◌↔◌}
use mathlib.Core.Bool.{Bool, true}
use oof_rl.Prelude.Tests.{nat_beq, nat_beq_iff}
use oof_rl.Prelude.Int.{ℤ, int_beq, int_beq_iff}
use oof_rl.Prelude.Strings.{Text, text_beq, text_beq_iff}

-- A comparable type has a test that agrees with equality.
pub record Comparable {ℓ} (T : Type ℓ) : Type ℓ where
  pub same : T → T → Bool
  pub same_iff : (x y : T) → (same x y ≡ true) ↔ (x ≡ y)

instance abbrev pub text_comparable : Comparable Text
text_comparable = record { same = text_beq; same_iff = text_beq_iff }

instance abbrev pub int_comparable : Comparable ℤ
int_comparable = record { same = int_beq; same_iff = int_beq_iff }

instance abbrev pub nat_comparable : Comparable ℕ
nat_comparable = record { same = nat_beq; same_iff = nat_beq_iff }

-- The test of whichever instance the operands' type has.
infix 50 ◌==◌
abbrev pub ◌==◌ {ℓ} : {T : Type ℓ} ⦃c : Comparable T⦄ → T → T → Bool
◌==◌ ⦃c⦄ x y = c.same x y
