-- ===== src/Auth/Failover/Security.antt =====
-- internal/module/iam/infrastructure/authstate/failover_store.go: the login failures, the OIDC states
-- and the one-time claims of the failover store.
use kubeflare.Prelude.{ℕ, Bool, true, false, Option, none, some, String, str_eq, if◌then◌else◌}
use kubeflare.Prelude.Fallible.{Fallible, ok, err}
use kubeflare.Auth.{AuthError, LoginFailure, Write, Read, SecurityStateStore}
use kubeflare.Auth.Failover.{
  FailoverStore, call_security_all, authoritative_security_store, best_effort_security, drop_value,
  with_pointer,
}

abbrev no_failure : LoginFailure
no_failure = record { key = ""; count = 0; locked_until = 0; expires_at = 0 }

module _ {S A : Type 0} where
  -- The authority's answer, and a call of the other store where the answer asks for one.
  abbrev pub answered :
      ℕ
      → (SecurityStateStore S → Read S A)
      → FailoverStore S
      → (A → Bool)
      → Fallible AuthError A × S
      → Fallible AuthError A × S
  answered authority fn f mirrored (err e, s) = (err e, s)
  answered authority fn f mirrored (ok a, s) = (
    ok a,
    if mirrored a then best_effort_security authority (λ other. drop_value (fn other)) f s else s,
  )

  abbrev on_security_authority :
      (SecurityStateStore S → Read S A)
      → A
      → (A → Bool)
      → FailoverStore S
      → Option (ℕ × SecurityStateStore S)
      → Read S A
  on_security_authority fn nothing mirrored f none s = (ok nothing, s)
  on_security_authority fn nothing mirrored f (some (pointer, store)) s =
      answered pointer fn f mirrored (fn store s)

module _ {S : Type 0} where
  unfoldable pub clear_login_failure : FailoverStore S → String → Write S
  unfolding call_security_all
  clear_login_failure f key = call_security_all (λ store. store.clear_login_failure key) f

  unfoldable pub increment_login_failure :
      FailoverStore S → String → ℕ → ℕ → ℕ → Read S LoginFailure
  unfolding authoritative_security_store best_effort_security
  increment_login_failure f key expires_at lock_after lockout =
      on_security_authority
        (λ store. store.increment_login_failure key expires_at lock_after lockout) no_failure
        (λ a. true) f (authoritative_security_store f)

  -- The primary's record of failures, where it has one, or the fallback's.
  abbrev failure_fallback : Option (ℕ × SecurityStateStore S) → String → Read S LoginFailure
  failure_fallback none key s = (ok no_failure, s)
  failure_fallback (some (pointer, store)) key s = store.get_login_failure key s

  abbrev failure_or :
      Fallible AuthError LoginFailure × S
      → Read S LoginFailure
      → Fallible AuthError LoginFailure × S
  failure_or (err e, s) next = next s
  failure_or (ok failure, s) next = if str_eq failure.key "" then next s else (ok failure, s)

  unfoldable pub get_login_failure : FailoverStore S → String → Read S LoginFailure
  get_login_failure f key s = elim (with_pointer f.primary) [
    | none ↦ failure_fallback (with_pointer f.fallback) key s
    | some (pointer, store) ↦
        failure_or (store.get_login_failure key s) (failure_fallback (with_pointer f.fallback) key)
  ]

  abbrev saved :
      ℕ
      → (SecurityStateStore S → Write S)
      → FailoverStore S
      → Option AuthError × S
      → Option AuthError × S
  saved authority fn f (some e, s) = (some e, s)
  saved authority fn f (none, s) = (none, best_effort_security authority fn f s)

  unfoldable pub save_oidc_state : FailoverStore S → String → ℕ → Write S
  unfolding authoritative_security_store best_effort_security
  save_oidc_state f state expires_at s = elim (authoritative_security_store f) [
    | none ↦ (none, s)
    | some (pointer, store) ↦
        saved pointer (λ other. other.save_oidc_state state expires_at) f
          (store.save_oidc_state state expires_at s)
  ]

  unfoldable pub has_oidc_state : FailoverStore S → String → Read S Bool
  unfolding authoritative_security_store
  has_oidc_state f state s = elim (authoritative_security_store f) [
    | none ↦ (ok false, s)
    | some (pointer, store) ↦ store.has_oidc_state state s
  ]

  unfoldable pub claim_once : FailoverStore S → String → ℕ → Read S Bool
  unfolding authoritative_security_store best_effort_security
  claim_once f key expires_at =
      on_security_authority (λ store. store.claim_once key expires_at) false (λ claimed. claimed) f
        (authoritative_security_store f)

  unfoldable pub consume_oidc_state : FailoverStore S → String → Read S Bool
  unfolding authoritative_security_store best_effort_security
  consume_oidc_state f state =
      on_security_authority (λ store. store.consume_oidc_state state) false (λ consumed. consumed) f
        (authoritative_security_store f)
