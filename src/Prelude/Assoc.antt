-- ===== src/Prelude/Assoc.antt =====
-- Go's maps as association lists: a key stands once, and the order of the entries is one of the
-- orders in which a `range` over the map may run.
use mathlib.Core.Path.{◌≡◌, refl}
use mathlib.Core.Option.{Option, none, some}
use mathlib.Core.List.{List, [], ◌∷◌}
use native.Mathlib.Omega.{arith}
use oof_rl.Prelude.Tests.{if◌then◌else◌}
use oof_rl.Prelude.Equality.{Comparable, ◌==◌}

module _ {ℓ κ} {K : Type ℓ} {V : Type κ} ⦃c : Comparable K⦄ where
  -- delete(m, key)
  unfoldable pub remove : K → List (K × V) → List (K × V)
  remove key [] = []
  remove key ((other, val) ∷ tail) =
      let kept = remove key tail in if other == key then kept else (other, val) ∷ kept

  -- val, ok := m[key]
  unfoldable pub lookup : K → List (K × V) → Option V
  lookup key [] = none
  lookup key ((other, val) ∷ tail) = if other == key then some val else lookup key tail

  pub lookup-remove :
      (key probe : K) (m : List (K × V))
      → lookup probe (remove key m) ≡ (if key == probe then none else lookup probe m)
  unfolding lookup remove
  lookup-remove key probe [] = ground arith
  lookup-remove key probe ((other, val) ∷ tail) = ground (
    arith,
    lookup-remove key probe tail,
    c.same_iff other key,
    c.same_iff other probe,
    c.same_iff key probe,
  )

  -- m[key] = val, which keeps the place of a key that is there.
  unfoldable pub insert : K → V → List (K × V) → List (K × V)
  insert key val [] = (key, val) ∷ []
  insert key val ((other, old) ∷ tail) =
      if other == key then (other, val) ∷ tail else (other, old) ∷ insert key val tail

  pub lookup-insert :
      (key probe : K) (val : V) (m : List (K × V))
      → lookup probe (insert key val m) ≡ (if key == probe then some val else lookup probe m)
  unfolding lookup insert
  lookup-insert key probe val [] = refl
  lookup-insert key probe val ((other, old) ∷ tail) = ground (
    arith,
    lookup-insert key probe val tail,
    c.same_iff other key,
    c.same_iff other probe,
    c.same_iff key probe,
  )
