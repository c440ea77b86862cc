-- ===== src/Iam/Gates/Replay.antt =====
-- A one-time password is accepted once: the claim of its key stands against a second use.
use kubeflare.Prelude.{
  ℕ, ◌+◌, ◌≡◌, ◌≢◌, refl, ap, subst, inl, inr, Bool-cases, Bool, true, false, ◌||◌, some, String,
  arith,
}
use kubeflare.Prelude.Fallible.{Fallible, ok, err}
use kubeflare.Prelude.Text.{trim_space}
use kubeflare.Prelude.Dots.{is_empty}
use kubeflare.Auth.{AuthError, SecurityStateStore}
use kubeflare.Auth.Failover.Once.{GrantsOnce}
use kubeflare.Auth.Failover.Revocation.{Leaves}
use kubeflare.Iam.{Libs, Service}
use kubeflare.Iam.Gates.{validate_totp, totp_key, claim_if, claim_code, claimed_or, claim_ttl}

-- What is asked of a store and of the libraries besides `GrantsOnce`: a claim is always decided, and
-- neither the clock nor the test of a code takes a claim back.
pub record Decides {S : Type 0} (libs : Libs S) (store : SecurityStateStore S) (key : String)
    (Known : S → Type 0) : Type 0 where
  pub decided : (at : ℕ) (s t : S) (e : AuthError) → store.claim_once key at s ≢ (err e, t)
  pub clock : Leaves Known libs.now
  pub tested : (code secret : String) → Leaves Known (libs.validate_code code secret)

module _ {S : Type 0} (libs : Libs S) where
  claimed_or-true :
      (r : Fallible AuthError Bool × S) (t : S)
      → ((e : AuthError) (u : S) → r ≢ (err e, u))
      → claimed_or libs r ≡ (true, t)
      → r ≡ (ok true, t)
  claimed_or-true (ok b, s) t decided h = ap (λ (x, y). (ok x, y)) h
  claimed_or-true (err e, s) t decided h = absurd (decided e s refl)

  claim_if-claimed :
      (svc : Service S) (store : SecurityStateStore S) (key : String) (r : Bool × S) (t : S)
      (Known : S → Type 0)
      → svc.security ≡ some store
      → Decides libs store key Known
      → claim_if libs svc key r ≡ (true, t)
      → (u : S) × (v : S) × (at : ℕ) × (r ≡ (true, u))
        × (Known u → Known v)
        × (store.claim_once key at v ≡ (ok true, t))
  claim_if-claimed svc store key (false, u) t Known is decides h =
      ground (arith, ap (λ (x, y). x) h)
  claim_if-claimed svc store key (true, u) t Known is decides h =
      let claimed : claim_code libs (some store) key u ≡ (true, t) =
        subst (λ o. claim_code libs o key u ≡ (true, t)) is h in
      let (now, v) = libs.now u in
      (
        u,
        v,
        now + claim_ttl,
        refl,
        decides.clock u v now refl,
        claimed_or-true (store.claim_once key (now + claim_ttl) v) t
            (λ e x. decides.decided _ v x e) claimed,
      )

  -- An accepted code was granted by the store.
  validate_totp-claimed :
      (svc : Service S) (store : SecurityStateStore S) (subject secret code : String) (s t : S)
      (Known : S → Type 0)
      → svc.security ≡ some store
      → Decides libs store (totp_key subject (trim_space code)) Known
      → validate_totp libs svc subject secret code s ≡ (true, t)
      → (v : S) × (at : ℕ) × (Known s → Known v)
        × (store.claim_once (totp_key subject (trim_space code)) at v ≡ (ok true, t))
  unfolding validate_totp
  validate_totp-claimed svc store subject secret code s t Known is decides h =
      elim (Bool-cases (is_empty (trim_space code) || is_empty (trim_space secret))) [
        | inl e ↦ ground (arith, ap (λ (x, y). x) (rw e at h))
        | inr e ↦
            let (u, v, at, tested, kept, claimed) =
              claim_if-claimed svc store (totp_key subject (trim_space code))
                (libs.validate_code (trim_space code) secret s) t Known is decides (rw e at h) in
            (v, at, λ known. kept (decides.tested _ _ s u true tested known), claimed)
      ]

  -- A code that was accepted for a subject is never accepted for it again, in whatever state the
  -- claim still stands: with a store that grants a key once and decides every claim.
  pub validate_totp-single :
      (svc : Service S) (store : SecurityStateStore S) (subject code : String) (Known : S → Type 0)
      → svc.security ≡ some store
      → GrantsOnce store (totp_key subject (trim_space code)) Known
      → Decides libs store (totp_key subject (trim_space code)) Known
      → (secret secret' : String) (s s' : S)
      → validate_totp libs svc subject secret code s ≡ (true, s')
      → (later t : S) → (Known s' → Known later)
      → validate_totp libs svc subject secret' code later ≢ (true, t)
  validate_totp-single svc store subject code Known is law decides secret secret' s s' first later t
        kept again =
      let (v, at, before, claimed) =
        validate_totp-claimed svc store subject secret code s s' Known is decides first in
      let (w, at', still, twice) =
        validate_totp-claimed svc store subject secret' code later t Known is decides again in
      law.refused at' w t (still (kept (law.granted at v s' claimed))) twice
