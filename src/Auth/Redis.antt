-- ===== src/Auth/Redis.antt =====
-- internal/module/iam/infrastructure/redis/auth_state_store.go: sessions and tokens in Redis. The client
-- of Redis, the JSON encoding and the clock are parameters; a duration is a number of nanoseconds.
pub mod Tokens
pub mod Security
use kubeflare.Prelude.{
  ℕ, ◌-◌, Bool, false, Option, none, some, String, ◌<>◌, List, [], ◌∷◌, leb, ltb, if◌then◌else◌, ℤ,
}
use kubeflare.Prelude.Fallible.{Fallible, ok, err}
use kubeflare.Prelude.Action.{pure}
use kubeflare.Auth.{
  AuthError, session_not_found, TokenSession, RefreshTokenRecord, Write, Read, ◌>>=◌, ◌>>◌, perform,
  return, always,
}
use kubeflare.Auth.Failover.{drop_value}

-- The commands that the code queues in a pipeline.
pub data Cmd : Type 0 where
  set : String → String → ℕ → Cmd
  sadd : String → String → Cmd
  expire : String → ℕ → Cmd

-- What the function that `Watch` runs may do; `exec` is `TxPipelined`.
pub record Tx (S : Type 0) : Type 0 where
  pub exists : String → Read S ℕ
  pub get : String → Read S String
  pub exec : List Cmd → Write S

-- `*goredis.Client`; `exec` is a `TxPipeline` with its `Exec`, `get_int` is `Get(...).Int()`, and
-- `is_nil` is `errors.Is(err, goredis.Nil)`.
pub record Client (S : Type 0) : Type 0 where
  pub get : String → Read S String
  pub get_int : String → Read S ℕ
  pub exists : String → Read S ℕ
  pub members : String → Read S (List String)
  pub set_key : String → String → ℕ → Write S
  pub set_nx : String → String → ℕ → Read S Bool
  pub incr : String → Read S ℕ
  pub expire_key : String → ℕ → Write S
  pub ttl : String → Read S ℤ
  pub del : List String → Read S ℕ
  pub exec : List Cmd → Write S
  pub watch : List String → (Tx S → Write S) → Write S
  pub is_nil : AuthError → Bool

-- The clock, `json.Marshal` and `json.Unmarshal`, and the text of an instant.
pub record Env (S : Type 0) : Type 0 where
  pub now : S → ℕ × S
  pub marshal_session : TokenSession → Fallible AuthError String
  pub unmarshal_session : String → Fallible AuthError TokenSession
  pub marshal_token : RefreshTokenRecord → Fallible AuthError String
  pub unmarshal_token : String → Fallible AuthError RefreshTokenRecord
  pub format_time : ℕ → String
  pub parse_time : String → Option ℕ

pub record AuthStateStore (S : Type 0) : Type 0 where
  pub client : Option (Client S)

unfoldable pub session_key : String → String
session_key session_id = "iam:session:" <> session_id

unfoldable pub subject_sessions_key : String → String
subject_sessions_key subject = "iam:subject:sessions:" <> subject

unfoldable pub subject_refresh_tokens_key : String → String
subject_refresh_tokens_key subject = "iam:subject:refresh_tokens:" <> subject

unfoldable pub revoked_session_key : String → String
revoked_session_key session_id = "iam:session:revoked:" <> session_id

unfoldable pub revoked_token_key : String → String
revoked_token_key token_id = "iam:token:revoked:" <> token_id

unfoldable pub refresh_token_key : String → String
refresh_token_key token_id = "iam:refresh:" <> token_id

abbrev second : ℕ
second = 1_000_000_000

-- What is left until an instant; what has passed lives a second longer.
unfoldable pub ttl_at : ℕ → ℕ → ℕ
ttl_at expires_at now = if leb expires_at now then second else expires_at - now

-- `if s.client == nil { return nil }`
abbrev with_client : {S : Type 0} → (Client S → Read S (Unit {0})) → AuthStateStore S → Write S
with_client f store s = elim store.client [
  | none ↦ (none, s)
  | some client ↦ drop_value (f client) s
]

-- `if s.client == nil { return ..., errors.New(...) }`
abbrev or_missing : {S A : Type 0} → AuthError → (Client S → Read S A) → AuthStateStore S → Read S A
or_missing e f store s = elim store.client [ none ↦ (err e, s) | some client ↦ f client s ]

abbrev is_present : {S : Type 0} → String → AuthStateStore S → Read S Bool
is_present key store s = elim store.client [
  | none ↦ (ok false, s)
  | some client ↦ (client.exists key >>= λ value. return (ltb 0 value)) s
]

module _ {S : Type 0} (env : Env S) where
  unfoldable pub ttl_until : ℕ → S → ℕ × S
  unfolding ttl_at
  ttl_until expires_at s = let (now, s') = env.now s in (ttl_at expires_at now, s')

  unfoldable pub create_session : AuthStateStore S → TokenSession → Write S
  unfolding ttl_until ttl_at session_key subject_sessions_key
  create_session store session =
      with_client
        (λ client. pure (env.marshal_session session) >>= λ payload.
          always (ttl_until session.expires_at) >>= λ ttl. perform (
            client.exec (
              set (session_key session.id) payload ttl
              ∷ sadd (subject_sessions_key session.subject) session.id
              ∷ expire (subject_sessions_key session.subject) ttl
              ∷ [])))
        store

  abbrev get_session_from : Client S → String → Read S TokenSession
  get_session_from client session_id =
      client.get (session_key session_id) >>= λ payload. pure (env.unmarshal_session payload)

  unfoldable pub get_session : AuthStateStore S → String → Read S TokenSession
  unfolding session_key
  get_session store session_id =
      or_missing session_not_found (λ client. get_session_from client session_id) store

  unfoldable pub revoke_session : AuthStateStore S → String → ℕ → Write S
  unfolding ttl_until ttl_at revoked_session_key
  revoke_session store session_id expires_at =
      with_client
        (λ client. always (ttl_until expires_at) >>= λ ttl.
          perform (client.set_key (revoked_session_key session_id) "1" ttl))
        store

  unfoldable pub is_session_revoked : AuthStateStore S → String → Read S Bool
  unfolding revoked_session_key
  is_session_revoked store session_id = is_present (revoked_session_key session_id) store

  unfoldable pub revoke_token : AuthStateStore S → String → ℕ → Write S
  unfolding ttl_until ttl_at revoked_token_key
  revoke_token store token_id expires_at =
      with_client
        (λ client. always (ttl_until expires_at) >>= λ ttl.
          perform (client.set_key (revoked_token_key token_id) "1" ttl))
        store

  unfoldable pub is_token_revoked : AuthStateStore S → String → Read S Bool
  unfolding revoked_token_key
  is_token_revoked store token_id = is_present (revoked_token_key token_id) store
