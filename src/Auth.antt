-- ===== src/Auth.antt =====
-- Sessions and tokens: the types of internal/shared/middleware/authn.go and of
-- internal/module/iam/domain/security.go, and the stores that keep them, as operations on the state
-- of the world. An instant is a number of nanoseconds.
pub mod Steps
pub mod Failover
pub mod Tokens
pub mod Redis
pub mod Access
use kubeflare.Prelude.{ℕ, Bool, true, false, Option, String}
use kubeflare.Prelude.Fallible.{Fallible, ok, err}
use kubeflare.Prelude.Action.{Action, fail}
pub use kubeflare.Prelude.Action.{◌>>=◌, ◌>>◌, then_read, perform, return, fail, always}

-- The errors of this code, and those of a store.
pub data AuthError : Type 0 where
  unauthorized : AuthError
  session_not_found : AuthError
  refresh_token_not_found : AuthError
  signing_key_is_empty : AuthError
  store_error : String → AuthError

pub record TokenSession : Type 0 where
  pub id : String
  pub subject : String
  pub expires_at : ℕ
  pub revoked_at : Option ℕ

pub record RefreshTokenRecord : Type 0 where
  pub id : String
  pub session_id : String
  pub subject : String
  pub expires_at : ℕ
  pub revoked_at : Option ℕ

pub record LoginFailure : Type 0 where
  pub key : String
  pub count : ℕ
  pub locked_until : ℕ
  pub expires_at : ℕ

-- An operation that returns `error`, and one that returns a value and an `error`.
abbrev pub Write : Type 0 → Type 0
Write S = S → Option AuthError × S

abbrev pub Read : Type 0 → Type 0 → Type 0
Read S A = Action S AuthError A

pub record TokenStateStore (S : Type 0) : Type 0 where
  pub create_session : TokenSession → Write S
  pub get_session : String → Read S TokenSession
  pub revoke_session : String → ℕ → Write S
  pub is_session_revoked : String → Read S Bool
  pub revoke_token : String → ℕ → Write S
  pub is_token_revoked : String → Read S Bool
  pub store_refresh_token : RefreshTokenRecord → Write S
  pub get_refresh_token : String → Read S RefreshTokenRecord
  pub consume_refresh_token : RefreshTokenRecord → Write S
  pub rotate_refresh_token : RefreshTokenRecord → RefreshTokenRecord → Write S
  pub revoke_subject_sessions : String → ℕ → Write S

pub record SecurityStateStore (S : Type 0) : Type 0 where
  pub increment_login_failure : String → ℕ → ℕ → ℕ → Read S LoginFailure
  pub get_login_failure : String → Read S LoginFailure
  pub clear_login_failure : String → Write S
  pub save_oidc_state : String → ℕ → Write S
  pub has_oidc_state : String → Read S Bool
  pub consume_oidc_state : String → Read S Bool
  pub claim_once : String → ℕ → Read S Bool

module _ {S A : Type 0} where
  -- `if b { return ..., ErrUnauthorized }`
  abbrev pub refuse_if : Bool → Read S A → Read S A
  refuse_if true next = fail unauthorized
  refuse_if false next = next

  abbrev pub hidden : Fallible AuthError A × S → Fallible AuthError A × S
  hidden (ok a, s) = (ok a, s)
  hidden (err e, s) = (err unauthorized, s)

  -- `if err != nil { return ..., ErrUnauthorized }`
  abbrev pub or_unauthorized : Read S A → Read S A
  or_unauthorized read s = hidden (read s)
