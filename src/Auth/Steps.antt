-- ===== src/Auth/Steps.antt =====
-- What the success of a sequence of reads says of its steps.
use kubeflare.Prelude.{◌≡◌, refl, Bool, true, false, String, str_eq, eq_iff, not, ◌||◌, arith}
use kubeflare.Prelude.Fallible.{Fallible, ok, err}
pub use kubeflare.Prelude.Action.{then_read-ok, error-not-ok}
use kubeflare.Auth.{AuthError, Read, refuse_if, then_read, hidden}

module _ {S A : Type 0} where
  pub refuse_if-ok :
      (b : Bool) (next : Read S A) (s t : S) (a : A)
      → refuse_if b next s ≡ (ok a, t)
      → (b ≡ false) × (next s ≡ (ok a, t))
  refuse_if-ok true next s t a h = error-not-ok _ a s t h
  refuse_if-ok false next s t a h = (refl, h)

  pub hidden-ok :
      (r : Fallible AuthError A × S) (a : A) (t : S) → hidden r ≡ (ok a, t) → r ≡ (ok a, t)
  hidden-ok (ok b, s) a t h = h
  hidden-ok (err e, s) a t h = error-not-ok _ a s t h

pub or-false : (a b : Bool) → (a || b) ≡ false → (a ≡ false) × (b ≡ false)
or-false false false h = (refl, refl)
or-false false true h = ground arith
or-false true b h = ground arith

pub same-text : (a b : String) → not (str_eq a b) ≡ false → a ≡ b
same-text a b h = ground (arith, eq_iff a b)

module _ {S A : Type 0} where
  -- A test of a store that must answer false.
  pub denied-ok :
      (r : Fallible AuthError Bool × S) (next : Read S A) (a : A) (t : S)
      → then_read (hidden r) (λ b. refuse_if b next) ≡ (ok a, t)
      → (u : S) × (r ≡ (ok false, u)) × (next u ≡ (ok a, t))
  denied-ok (err e, s) next a t h = error-not-ok _ a s t h
  denied-ok (ok true, s) next a t h = error-not-ok _ a s t h
  denied-ok (ok false, s) next a t h = (s, refl, h)
