-- ===== src/Prelude/Action.antt =====
-- Operations on the state of the world that may return an error, in sequence.
use mathlib.Core.Path.{◌≡◌, refl, ap}
use mathlib.Core.Option.{Option, none, some}
use native.Mathlib.Omega.{arith}
use kubeflare.Prelude.Fallible.{Fallible, ok, err}

abbrev pub Action : Type 0 → Type 0 → Type 0 → Type 0
Action S E A = S → Fallible E A × S

module _ {S E A B : Type 0} where
  -- The first error ends the whole.
  abbrev pub then_read : Fallible E A × S → (A → Action S E B) → Fallible E B × S
  then_read (ok a, s) next = next a s
  then_read (err e, s) next = (err e, s)

  infixl 5 ◌>>=◌
  abbrev pub ◌>>=◌ : Action S E A → (A → Action S E B) → Action S E B
  ◌>>=◌ read next s = then_read (read s) next

  pub error-not-ok : (e : E) (a : A) (s t : S) → ◌≡◌ {A = Fallible E A × S} (err e, s) (ok a, t) → B
  error-not-ok e a s t h = ground (arith, ap (λ (r, x). r) h)

module _ {S E B : Type 0} where
  infixl 5 ◌>>◌
  abbrev pub ◌>>◌ : Action S E (Unit {0}) → Action S E B → Action S E B
  first >> next = first >>= λ _. next

module _ {S E : Type 0} where
  abbrev pub written : Option E × S → Fallible E (Unit {0}) × S
  written (none, s) = (ok tt, s)
  written (some e, s) = (err e, s)

  -- `if err := f(...); err != nil { return ..., err }`
  abbrev pub perform : (S → Option E × S) → Action S E (Unit {0})
  perform write s = written (write s)

module _ {S E A : Type 0} where
  abbrev pub return : A → Action S E A
  return a s = (ok a, s)

  abbrev pub fail : E → Action S E A
  fail e s = (err e, s)

  -- What cannot fail.
  abbrev pub always : (S → A × S) → Action S E A
  always f s = let (a, s') = f s in (ok a, s')

  -- What leaves the world alone.
  abbrev pub pure : Fallible E A → Action S E A
  pure r s = (r, s)

  pub pure-ok :
      (r : Fallible E A) (s t : S) (a : A)
      → ◌≡◌ {A = Fallible E A × S} (r, s) (ok a, t)
      → (r ≡ ok a) × (s ≡ t)
  pure-ok r s t a h = (ap (λ (x, y). x) h, ap (λ (x, y). y) h)

module _ {S E A B : Type 0} where
  pub then_read-ok :
      (r : Fallible E A × S) (next : A → Action S E B) (b : B) (t : S)
      → then_read r next ≡ (ok b, t)
      → (a : A) × (s : S) × (r ≡ (ok a, s)) × (next a s ≡ (ok b, t))
  then_read-ok (ok a, s) next b t h = (a, s, refl, h)
  then_read-ok (err e, s) next b t h = error-not-ok e b s t h
