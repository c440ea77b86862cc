-- ===== src/Auth/Failover.antt =====
-- internal/module/iam/infrastructure/authstate/failover_store.go: two stores behind one. Writes that
-- revoke go to both; what may happen once only is decided by one of them, the authority. The stores
-- are parameters; both act on one state of the world.
pub mod Security
pub mod Revocation
pub mod Once
use kubeflare.Prelude.{ℕ, Bool, true, false, Option, none, some, String, ◌==◌, if◌then◌else◌}
use kubeflare.Prelude.Fallible.{Fallible, ok, err}
use kubeflare.Auth.{
  AuthError, session_not_found, refresh_token_not_found, TokenSession, RefreshTokenRecord, Write,
  Read, TokenStateStore, SecurityStateStore,
}

-- A store that is not nil: the pointer, by which Go compares it, its operations, and what the type
-- assertion to `domain.SecurityStateStore` finds.
pub record Store (S : Type 0) : Type 0 where
  pub pointer : ℕ
  pub token : TokenStateStore S
  pub security : Option (SecurityStateStore S)

pub record FailoverStore (S : Type 0) : Type 0 where
  pub primary : Option (Store S)
  pub fallback : Option (Store S)

abbrev last_error : Option AuthError → Option AuthError → Option AuthError
last_error e none = e
last_error e (some e') = some e'

module _ {S A : Type 0} where
  abbrev or_else : Fallible AuthError A × S → Read S A → Fallible AuthError A × S
  or_else (ok a, s) next = (ok a, s)
  or_else (err e, s) next = next s

  abbrev read_fallback : (Store S → Read S A) → AuthError → Option (Store S) → Read S A
  read_fallback fn missing none s = (err missing, s)
  read_fallback fn missing (some store) s = fn store s

  -- `GetSession` and `GetRefreshToken`: the primary's answer, or the fallback's.
  unfoldable pub read_value : (Store S → Read S A) → AuthError → FailoverStore S → Read S A
  read_value fn missing f s = elim f.primary [
    | none ↦ read_fallback fn missing f.fallback s
    | some store ↦ or_else (fn store s) (read_fallback fn missing f.fallback)
  ]

  abbrev pub error_of : Fallible AuthError A × S → Option AuthError × S
  error_of (ok a, s) = (none, s)
  error_of (err e, s) = (some e, s)

  -- `err := f(...)` and `_, err := f(...)`: the error alone.
  abbrev pub drop_value : Read S A → Write S
  drop_value read s = error_of (read s)

module _ {S : Type 0} where
  -- One step of a loop over the stores: the call, and the last error so far.
  abbrev call_one :
      (Store S → Write S) → Option (Store S) → Option AuthError × S → Option AuthError × S
  call_one fn none r = r
  call_one fn (some store) (e, s) = let (e', s') = fn store s in (last_error e e', s')

  -- `callAll`
  unfoldable pub call_all : (Store S → Write S) → FailoverStore S → Write S
  call_all fn f s = call_one fn f.fallback (call_one fn f.primary (none, s))

  abbrev if_security : (SecurityStateStore S → Write S) → Option (SecurityStateStore S) → Write S
  if_security fn none s = (none, s)
  if_security fn (some security) s = fn security s

  abbrev on_security : (SecurityStateStore S → Write S) → Store S → Write S
  on_security fn store s = if_security fn store.security s

  -- `callSecurityAll`
  unfoldable pub call_security_all : (SecurityStateStore S → Write S) → FailoverStore S → Write S
  unfolding call_all
  call_security_all fn f s = call_all (on_security fn) f s

  -- One step of `readBool`, behind which the loop goes on or returns.
  abbrev after_read :
      (Option AuthError → Read S Bool)
      → Option AuthError
      → Fallible AuthError Bool × S
      → Fallible AuthError Bool × S
  after_read next e (err e', s) = next (some e') s
  after_read next e (ok true, s) = (ok true, s)
  after_read next e (ok false, s) = next e s

  abbrev read_one :
      (Store S → Read S Bool)
      → Option (Store S)
      → (Option AuthError → Read S Bool)
      → Option AuthError
      → Read S Bool
  read_one fn none next e s = next e s
  read_one fn (some store) next e s = after_read next e (fn store s)

  abbrev not_found : Option AuthError → Read S Bool
  not_found none s = (ok false, s)
  not_found (some e) s = (err e, s)

  -- `readBool`
  unfoldable pub read_bool : (Store S → Read S Bool) → FailoverStore S → Read S Bool
  read_bool fn f s = read_one fn f.primary (read_one fn f.fallback not_found) none s

  unfoldable pub authoritative_token_store : FailoverStore S → Option (Store S)
  authoritative_token_store f = elim f.fallback [ none ↦ f.primary | some store ↦ some store ]

  abbrev with_pointer : Option (Store S) → Option (ℕ × SecurityStateStore S)
  with_pointer none = none
  with_pointer (some store) = elim store.security [
    | none ↦ none
    | some security ↦ some (store.pointer, security)
  ]

  unfoldable pub authoritative_security_store : FailoverStore S → Option (ℕ × SecurityStateStore S)
  authoritative_security_store f = elim (with_pointer f.fallback) [
    | none ↦ with_pointer f.primary
    | some store ↦ some store
  ]

  -- A call of another store than the authority, whose error is dropped.
  abbrev unless_authority : ℕ → (Store S → Write S) → Option (Store S) → S → S
  unless_authority authority fn none s = s
  unless_authority authority fn (some store) s =
      if store.pointer == authority then s else let (e, s') = fn store s in s'

  unfoldable pub best_effort_token : ℕ → (Store S → Write S) → FailoverStore S → S → S
  best_effort_token authority fn f s =
      unless_authority authority fn f.fallback (unless_authority authority fn f.primary s)

  unfoldable pub best_effort_security :
      ℕ → (SecurityStateStore S → Write S) → FailoverStore S → S → S
  unfolding best_effort_token
  best_effort_security authority fn f s = best_effort_token authority (on_security fn) f s

  unfoldable pub create_session : FailoverStore S → TokenSession → Write S
  unfolding call_all
  create_session f session = call_all (λ store. store.token.create_session session) f

  unfoldable pub get_session : FailoverStore S → String → Read S TokenSession
  unfolding read_value
  get_session f session_id =
      read_value (λ store. store.token.get_session session_id) session_not_found f

  unfoldable pub revoke_session : FailoverStore S → String → ℕ → Write S
  unfolding call_all
  revoke_session f session_id expires_at =
      call_all (λ store. store.token.revoke_session session_id expires_at) f

  unfoldable pub revoke_subject_sessions : FailoverStore S → String → ℕ → Write S
  unfolding call_all
  revoke_subject_sessions f subject expires_at =
      call_all (λ store. store.token.revoke_subject_sessions subject expires_at) f

  unfoldable pub is_session_revoked : FailoverStore S → String → Read S Bool
  unfolding read_bool
  is_session_revoked f session_id = read_bool (λ store. store.token.is_session_revoked session_id) f

  unfoldable pub revoke_token : FailoverStore S → String → ℕ → Write S
  unfolding call_all
  revoke_token f token_id expires_at =
      call_all (λ store. store.token.revoke_token token_id expires_at) f

  unfoldable pub is_token_revoked : FailoverStore S → String → Read S Bool
  unfolding read_bool
  is_token_revoked f token_id = read_bool (λ store. store.token.is_token_revoked token_id) f

  abbrev mirrored_token :
      ℕ → (Store S → Write S) → FailoverStore S → Option AuthError × S → Option AuthError × S
  mirrored_token authority fn f (some e, s) = (some e, s)
  mirrored_token authority fn f (none, s) = (none, best_effort_token authority fn f s)

  abbrev on_token_authority : (Store S → Write S) → FailoverStore S → Option (Store S) → Write S
  on_token_authority fn f none s = (none, s)
  on_token_authority fn f (some store) s = mirrored_token store.pointer fn f (fn store s)

  unfoldable pub store_refresh_token : FailoverStore S → RefreshTokenRecord → Write S
  unfolding call_all
  store_refresh_token f token = call_all (λ store. store.token.store_refresh_token token) f

  unfoldable pub get_refresh_token : FailoverStore S → String → Read S RefreshTokenRecord
  unfolding read_value
  get_refresh_token f token_id =
      read_value (λ store. store.token.get_refresh_token token_id) refresh_token_not_found f

  unfoldable pub consume_refresh_token : FailoverStore S → RefreshTokenRecord → Write S
  unfolding authoritative_token_store best_effort_token
  consume_refresh_token f token =
      on_token_authority (λ store. store.token.consume_refresh_token token) f
        (authoritative_token_store f)

  unfoldable pub rotate_refresh_token :
      FailoverStore S → RefreshTokenRecord → RefreshTokenRecord → Write S
  unfolding authoritative_token_store best_effort_token
  rotate_refresh_token f old_token new_token =
      on_token_authority (λ store. store.token.rotate_refresh_token old_token new_token) f
        (authoritative_token_store f)
