-- ===== src/Iam/Mfa.antt =====
-- internal/module/iam/application/service.go: setting up, confirming and dropping the second factor.
pub mod Guarded
use kubeflare.Prelude.{ℕ, Bool, true, false, Option, none, some, String, [], if◌then◌else◌, arith}
use kubeflare.Prelude.Fallible.{Fallible, err}
use kubeflare.Prelude.Text.{trim_space}
use kubeflare.Prelude.Dots.{is_empty}
use kubeflare.Prelude.Action.{Action, ◌>>=◌, return, always, pure, fail}
use kubeflare.Iam.{User, Errs, Libs, Service, unauthorized_because}
use kubeflare.Iam.Steps.{unless_invalid, find_user, saved}
use kubeflare.Iam.Gates.{encrypt_secret, decrypt_secret, validate_totp}

pub record EnableMfaResponse : Type 0 where
  pub secret : String
  pub otp_auth_url : String

pub record ConfirmMfaRequest : Type 0 where
  pub otp_code : String

pub record DisableMfaRequest : Type 0 where
  pub password : String
  pub otp_code : String

module _ {S : Type 0} (libs : Libs S) where
  abbrev pending_user : User → String → ℕ → User
  pending_user user encrypted now = record user {
    mfa_secret = encrypted;
    mfa_enabled = false;
    updated_at = now;
  }

  abbrev answer_with : String → String → User → Action S Errs EnableMfaResponse
  answer_with secret url stored = return (record { secret = secret; otp_auth_url = url })

  abbrev store_pending :
      Service S → User → String → String → String → Action S Errs EnableMfaResponse
  store_pending svc user secret url encrypted = always libs.now >>= λ now.
      saved libs svc (pending_user user encrypted now) >>= answer_with secret url

  abbrev with_key : Service S → User → String × String → Action S Errs EnableMfaResponse
  with_key svc user (secret, url) =
      pure (encrypt_secret svc secret) >>= store_pending svc user secret url

  abbrev new_key : Service S → User → Action S Errs EnableMfaResponse
  new_key svc user = libs.generate_key user.username >>= with_key svc user

  -- `EnableMFA`
  unfoldable pub enable_mfa : Service S → String → Action S Errs EnableMfaResponse
  unfolding find_user encrypt_secret saved
  enable_mfa svc subject = find_user libs svc subject >>= new_key svc

  abbrev if_valid : Action S Errs (Unit {0}) → Bool × S → Fallible Errs (Unit {0}) × S
  if_valid next (true, s) = next s
  if_valid next (false, s) = (err (unauthorized_because "invalid mfa code" []), s)

  -- A code for the secret; a blank secret takes none.
  abbrev code_checked :
      Service S → String → String → Action S Errs (Unit {0}) → String → Action S Errs (Unit {0})
  code_checked svc subject code next secret s =
      if is_empty (trim_space secret)
      then (err (unauthorized_because "invalid mfa code" []), s)
      else if_valid next (validate_totp libs svc subject secret code s)

  abbrev told : User → Action S Errs (Unit {0})
  told _ = return tt

  abbrev store_enabled : Service S → User → Action S Errs (Unit {0})
  store_enabled svc user = always libs.now >>= λ now.
      saved libs svc (record user { mfa_enabled = true; updated_at = now }) >>= told

  abbrev confirm_user : Service S → String → ConfirmMfaRequest → User → Action S Errs (Unit {0})
  confirm_user svc subject req user =
      pure (decrypt_secret svc user.mfa_secret)
      >>= code_checked svc subject req.otp_code (store_enabled svc user)

  -- `ConfirmMFA`; `invalid` is the answer of the validator.
  unfoldable pub confirm_mfa :
      Option Errs → Service S → String → ConfirmMfaRequest → Action S Errs (Unit {0})
  unfolding find_user decrypt_secret validate_totp saved trim_space
  confirm_mfa invalid svc subject req =
      unless_invalid invalid (find_user libs svc subject >>= confirm_user svc subject req)

  abbrev store_disabled : Service S → User → Action S Errs (Unit {0})
  store_disabled svc user = always libs.now >>= λ now.
      saved libs svc (record user { mfa_enabled = false; mfa_secret = ""; updated_at = now })
      >>= told

  abbrev if_password : Option Errs → Action S Errs (Unit {0}) → Action S Errs (Unit {0})
  if_password none next = next
  if_password (some e) next = fail (unauthorized_because "invalid password" e)

  abbrev disable_user : Service S → String → DisableMfaRequest → User → Action S Errs (Unit {0})
  disable_user svc subject req user =
      if_password (libs.compare_hash_and_password user.password req.password) (
        pure (decrypt_secret svc user.mfa_secret)
        >>= code_checked svc subject req.otp_code (store_disabled svc user))

  -- `DisableMFA`
  unfoldable pub disable_mfa :
      Option Errs → Service S → String → DisableMfaRequest → Action S Errs (Unit {0})
  unfolding find_user decrypt_secret validate_totp saved trim_space
  disable_mfa invalid svc subject req =
      unless_invalid invalid (find_user libs svc subject >>= disable_user svc subject req)
