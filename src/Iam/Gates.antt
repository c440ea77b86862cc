-- ===== src/Iam/Gates.antt =====
-- internal/module/iam/application/service.go: the state that guards a login. Failures are counted
-- for a user name and an address together and for a user name alone, a one-time password is claimed,
-- and the secrets are encrypted.
pub mod Replay
use kubeflare.Prelude.{
  ℕ, ◌+◌, Bool, true, false, Option, none, some, String, ◌<>◌, ◌∷◌, ◌||◌, if◌then◌else◌, leb, ltb,
  is_positive, pos_part,
}
use kubeflare.Prelude.Fallible.{Fallible, ok, err}
use kubeflare.Prelude.Text.{trim_space}
use kubeflare.Prelude.Dots.{is_empty}
use kubeflare.Prelude.Action.{◌>>=◌, ◌>>◌, return, always}
use kubeflare.Auth.{AuthError, LoginFailure, SecurityStateStore, Read}
use kubeflare.Errors.{app, code_internal}
use kubeflare.Iam.{Errs, Libs, Service, login_key, username_login_key}

abbrev no_failure : LoginFailure
no_failure = record { key = ""; count = 0; locked_until = 0; expires_at = 0 }

-- 2 * totpPeriodSeconds
abbrev claim_ttl : ℕ
claim_ttl = 60_000_000_000

unfoldable pub totp_key : String → String → String
totp_key subject code = "totp:" <> (subject <> (":" <> code))

unfoldable pub encrypt_secret : {S : Type 0} → Service S → String → Fallible Errs String
encrypt_secret svc value = elim svc.encryptor [
  | none ↦ ok value
  | some encryptor ↦ encryptor.encrypt value
]

unfoldable pub decrypt_secret : {S : Type 0} → Service S → String → Fallible Errs String
decrypt_secret svc value = elim svc.encryptor [
  | none ↦ ok value
  | some encryptor ↦ encryptor.decrypt value
]

module _ {S : Type 0} where
  unfoldable pub get_login_failure_by_key : Service S → String → Read S LoginFailure
  get_login_failure_by_key svc key s = elim svc.security [
    | none ↦ (ok no_failure, s)
    | some store ↦ store.get_login_failure key s
  ]

  unfoldable pub get_login_failure : Service S → String → String → Read S LoginFailure
  unfolding get_login_failure_by_key login_key
  get_login_failure svc username client_ip =
      get_login_failure_by_key svc (login_key username client_ip)

  abbrev reached : Service S → LoginFailure → Bool
  reached svc failure = leb (pos_part svc.policy.captcha_failure_trigger) failure.count

  unfoldable pub requires_captcha : Service S → String → String → Read S Bool
  unfolding get_login_failure get_login_failure_by_key username_login_key
  requires_captcha svc username client_ip =
      if is_positive svc.policy.captcha_failure_trigger
      then (get_login_failure svc username client_ip >>= λ failure.
          if reached svc failure
          then return true
          else (get_login_failure_by_key svc (username_login_key username) >>= λ user_failure.
              return (reached svc user_failure)))
      else return false

  abbrev forget : Option (SecurityStateStore S) → String → S → S
  forget none key s = s
  forget (some store) key s = let (e, s') = store.clear_login_failure key s in s'

  -- Both errors are dropped.
  unfoldable pub clear_login_failures : Service S → String → String → S → S
  unfolding login_key username_login_key
  clear_login_failures svc username client_ip s =
      forget svc.security (username_login_key username)
        (forget svc.security (login_key username client_ip) s)

module _ {S : Type 0} (libs : Libs S) where
  abbrev pub is_locked : ℕ → LoginFailure → Bool
  is_locked now failure = ltb now failure.locked_until

  -- Until when a login is locked.
  unfoldable pub login_lock : Service S → String → String → Read S (Option ℕ)
  unfolding get_login_failure get_login_failure_by_key username_login_key
  login_lock svc username client_ip = always libs.now >>= λ now.
      get_login_failure svc username client_ip >>= λ failure.
      if is_locked now failure
      then return (some failure.locked_until)
      else (get_login_failure_by_key svc (username_login_key username) >>= λ user_failure.
          return (if is_locked now user_failure then some user_failure.locked_until else none))

  abbrev increment_both : Service S → SecurityStateStore S → String → String → ℕ → Read S (Unit {0})
  increment_both svc store username client_ip lock_until =
      store.increment_login_failure (login_key username client_ip) lock_until
        (pos_part svc.policy.max_failed_attempts) (pos_part svc.policy.lockout_duration)
      >>= λ _.
          store.increment_login_failure (username_login_key username) lock_until
            (pos_part svc.policy.max_failed_attempts) (pos_part svc.policy.lockout_duration)
          >>= λ _. return tt

  unfoldable pub record_login_failure : Service S → String → String → Read S (Unit {0})
  unfolding login_key username_login_key
  record_login_failure svc username client_ip = elim svc.security [
    | none ↦ return tt
    | some store ↦ always libs.now >>= λ now.
        increment_both svc store username client_ip (now + pos_part svc.policy.lockout_duration)
  ]

  -- A claim that the store cannot decide counts as granted.
  abbrev claimed_or : Fallible AuthError Bool × S → Bool × S
  claimed_or (ok claimed, s) = (claimed, s)
  claimed_or (err e, s) = (true, s)

  abbrev claim_code : Option (SecurityStateStore S) → String → S → Bool × S
  claim_code none key s = (true, s)
  claim_code (some store) key s =
      let (now, s') = libs.now s in claimed_or (store.claim_once key (now + claim_ttl) s')

  abbrev claim_if : Service S → String → Bool × S → Bool × S
  claim_if svc key (false, s) = (false, s)
  claim_if svc key (true, s) = claim_code svc.security key s

  unfoldable pub validate_totp : Service S → String → String → String → S → Bool × S
  unfolding trim_space totp_key
  validate_totp svc subject secret code s =
      if is_empty (trim_space code) || is_empty (trim_space secret)
      then (false, s)
      else claim_if svc (totp_key subject (trim_space code))
          (libs.validate_code (trim_space code) secret s)

  unfoldable pub auth_state_unavailable : AuthError → Errs
  auth_state_unavailable e =
      app code_internal "authentication state is unavailable" 503 ∷ libs.links e
