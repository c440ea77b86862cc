-- ===== src/Prelude/Fallible.antt =====
-- Go's `(T, error)` results.
use mathlib.Core.Path.{◌≡◌, refl}
use native.Mathlib.Omega.{arith}
use mathlib.Core.Logic.{◌⊎◌, inl, inr}

pub data Fallible {ℓ κ} (E : Type κ) (A : Type ℓ) : Type (ℓ ⊔ κ) where
  ok : A → Fallible E A
  err : E → Fallible E A

module _ {ℓ κ} {E : Type κ} {A : Type ℓ} where
  pub Fallible-cases : (r : Fallible E A) → ((a : A) × (r ≡ ok a)) ⊎ ((e : E) × (r ≡ err e))
  Fallible-cases (ok a) = inl (a, refl)
  Fallible-cases (err e) = inr (e, refl)

  pub err_no_ok : {e : E} {a : A} → ◌≡◌ {A = Fallible E A} (err e) (ok a) → ⊥
  err_no_ok p = ground arith

  pub ok_inj : {a b : A} → ◌≡◌ {A = Fallible E A} (ok a) (ok b) → a ≡ b
  ok_inj p = ground arith
