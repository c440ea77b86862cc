-- ===== src/Auth/Redis/Security.antt =====
-- internal/module/iam/infrastructure/redis/auth_state_store.go: failed logins, the states of OIDC and
-- claims in Redis.
pub mod Lockout
use kubeflare.Prelude.{
  ℕ, ◌+◌, ◌-◌, suc, Bool, ◌&&◌, Option, none, some, String, ◌<>◌, [], ◌∷◌, ltb, leb, ◌==◌,
  if◌then◌else◌, ℤ, pos, negsuc,
}
use kubeflare.Prelude.Fallible.{Fallible, ok, err}
use kubeflare.Auth.{
  AuthError, store_error, LoginFailure, SecurityStateStore, Write, Read, ◌>>=◌, ◌>>◌, perform,
  return, always,
}
use kubeflare.Auth.Redis.{Client, Env, AuthStateStore, ttl_until, with_client, or_missing}

unfoldable pub login_failure_key : String → String
login_failure_key key = "iam:login_failure:" <> key

unfoldable pub login_lock_key : String → String
login_lock_key key = "iam:login_lock:" <> key

unfoldable pub oidc_state_key : String → String
oidc_state_key state = "iam:oidc_state:" <> state

unfoldable pub once_key : String → String
once_key key = "iam:once:" <> key

abbrev no_failure : LoginFailure
no_failure = record { key = ""; count = 0; locked_until = 0; expires_at = 0 }

-- `if s.client == nil { return domain.LoginFailure{}, nil }`
abbrev or_no_failure :
    {S : Type 0} → (Client S → Read S LoginFailure) → AuthStateStore S → Read S LoginFailure
or_no_failure f store s = elim store.client [ none ↦ (ok no_failure, s) | some client ↦ f client s ]

abbrev oidc_unavailable : AuthError
oidc_unavailable = store_error "oidc state store is unavailable"

abbrev security_unavailable : AuthError
security_unavailable = store_error "security state store is unavailable"

-- The instant a time to live ends at: Redis answers -1 or -2 for a key that has none.
abbrev after : ℕ → ℤ → ℕ
after now (pos n) = now + n
after now (negsuc n) = now - suc n

abbrev failed : String → ℕ → ℕ → ℕ → LoginFailure
failed key count locked_until expires_at = record {
  key = key;
  count = count;
  locked_until = locked_until;
  expires_at = expires_at;
}

abbrev known_count :
    {S : Type 0} → Client S → Fallible AuthError ℕ × S → Fallible AuthError (Option ℕ) × S
known_count client (ok count, s) = (ok (some count), s)
known_count client (err e, s) = if client.is_nil e then (ok none, s) else (err e, s)

abbrev parsed_or : ℕ → Option ℕ → ℕ
parsed_or now none = now
parsed_or now (some locked_until) = locked_until

module _ {S : Type 0} (env : Env S) where
  -- The lifetime of the counter starts with the first failure.
  abbrev start_lifetime : Client S → String → ℕ → ℕ → Read S (Unit {0})
  start_lifetime client key expires_at count =
      if count == 1
      then (always (ttl_until env expires_at) >>= λ ttl.
          perform (client.expire_key (login_failure_key key) ttl))
      else return tt

  abbrev lock : Client S → String → ℕ → ℕ → ℕ → ℕ → Read S LoginFailure
  lock client key count expires_at lockout now = always (ttl_until env expires_at) >>= λ ttl.
      perform (client.set_key (login_lock_key key) (env.format_time (now + lockout)) ttl)
      >> return (failed key count (now + lockout) expires_at)

  abbrev counted : Client S → String → ℕ → ℕ → ℕ → ℕ → Read S LoginFailure
  counted client key expires_at lock_after lockout count =
      start_lifetime client key expires_at count
      >> (always env.now >>= λ now.
          if ltb 0 lock_after && leb lock_after count
          then always env.now >>= lock client key count expires_at lockout
          else return (failed key count now expires_at))

  unfoldable pub increment_login_failure :
      AuthStateStore S → String → ℕ → ℕ → ℕ → Read S LoginFailure
  unfolding login_failure_key login_lock_key
  increment_login_failure store key expires_at lock_after lockout =
      or_no_failure
        (λ client.
          client.incr (login_failure_key key) >>= counted client key expires_at lock_after lockout)
        store

  -- A lock that cannot be read is passed over.
  abbrev locked_at : ℕ → Fallible AuthError String × S → ℕ × S
  locked_at now (err e, s) = (now, s)
  locked_at now (ok value, s) = (parsed_or now (env.parse_time value), s)

  abbrev found_failure : Client S → String → Option ℕ → Read S LoginFailure
  found_failure client key none = return no_failure
  found_failure client key (some count) = client.ttl (login_failure_key key) >>= λ ttl.
      always env.now >>= λ now. always env.now >>= λ later.
      always (λ s. locked_at now (client.get (login_lock_key key) s)) >>= λ locked_until.
      return (failed key count locked_until (after later ttl))

  unfoldable pub get_login_failure : AuthStateStore S → String → Read S LoginFailure
  unfolding login_failure_key login_lock_key
  get_login_failure store key =
      or_no_failure
        (λ client.
          (λ s. known_count client (client.get_int (login_failure_key key) s))
          >>= found_failure client key)
        store

module _ {S : Type 0} where
  unfoldable pub clear_login_failure : AuthStateStore S → String → Write S
  unfolding login_failure_key login_lock_key
  clear_login_failure store key =
      with_client
        (λ client.
          client.del (login_failure_key key ∷ login_lock_key key ∷ []) >>= λ deleted. return tt)
        store

  unfoldable pub has_oidc_state : AuthStateStore S → String → Read S Bool
  unfolding oidc_state_key
  has_oidc_state store state =
      or_missing oidc_unavailable
        (λ client. client.exists (oidc_state_key state) >>= λ value. return (value == 1)) store

  unfoldable pub consume_oidc_state : AuthStateStore S → String → Read S Bool
  unfolding oidc_state_key
  consume_oidc_state store state =
      or_missing oidc_unavailable
        (λ client. client.del (oidc_state_key state ∷ []) >>= λ value. return (value == 1)) store

module _ {S : Type 0} (env : Env S) where
  unfoldable pub save_oidc_state : AuthStateStore S → String → ℕ → Write S
  unfolding oidc_state_key
  save_oidc_state store state expires_at =
      with_client
        (λ client. always (ttl_until env expires_at) >>= λ ttl.
          perform (client.set_key (oidc_state_key state) "1" ttl))
        store

  unfoldable pub claim_once : AuthStateStore S → String → ℕ → Read S Bool
  unfolding once_key
  claim_once store key expires_at =
      or_missing security_unavailable
        (λ client.
          always (ttl_until env expires_at) >>= λ ttl. client.set_nx (once_key key) "1" ttl)
        store

  abbrev pub security_store : AuthStateStore S → SecurityStateStore S
  security_store store = record {
    increment_login_failure = increment_login_failure env store;
    get_login_failure = get_login_failure env store;
    clear_login_failure = clear_login_failure store;
    save_oidc_state = save_oidc_state store;
    has_oidc_state = has_oidc_state store;
    consume_oidc_state = consume_oidc_state store;
    claim_once = claim_once store;
  }
