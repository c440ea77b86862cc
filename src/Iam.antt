-- ===== src/Iam.antt =====
-- internal/module/iam/application: users and their logins. An error is a chain of links as in
-- internal/shared/errors. The libraries that the code calls are parameters, and so are the user
-- repository, the token issuer and the store of the security state: they act on the state of the
-- world. An instant is a number of nanoseconds.
mod Steps
pub mod Gates
pub mod Login
pub mod Session
pub mod Account
pub mod Mfa
use kubeflare.Prelude.{
  ℕ, ◌*◌, Bool, true, false, not, ◌&&◌, ◌||◌, Option, none, some, String, ◌<>◌, List, [], ◌∷◌,
  if◌then◌else◌, leb, ◌==◌, ℤ, pos, negsuc, is_positive, is_nonneg,
}
use kubeflare.Prelude.Fallible.{Fallible, ok, err}
use kubeflare.Prelude.Text.{trim_space}
use kubeflare.Prelude.Dots.{is_empty}
use kubeflare.Prelude.Numerals.{format_int, parse_int}
use kubeflare.Prelude.Action.{Action, fail}
use kubeflare.Auth.{AuthError, SecurityStateStore}
use kubeflare.Auth.Tokens.{TokenPair, TokenSubject}
use kubeflare.Errors.{Link, app, record_not_found, map_repository}
use Prim.Native.Char.{code}

pub record User : Type 0 where
  pub id : ℤ
  pub legacy_id : Option String
  pub username : String
  pub nickname : String
  pub password : String
  pub email : String
  pub phone : String
  pub avatar : String
  pub remarks : String
  pub status : ℤ
  pub mfa_enabled : Bool
  pub mfa_secret : String
  pub created_at : ℕ
  pub updated_at : ℕ
  pub deleted_at : Option ℕ

abbrev pub user_status_active : ℤ
user_status_active = pos 1

abbrev pub equal_int : ℤ → ℤ → Bool
equal_int (pos a) (pos b) = a == b
equal_int (negsuc a) (negsuc b) = a == b
equal_int _ _ = false

abbrev pub Errs : Type 0
Errs = List Link

-- What the service calls of `domain.Repository`.
pub record Repository (S : Type 0) : Type 0 where
  pub get : ℤ → Action S Errs User
  pub get_by_legacy_id : String → Action S Errs User
  pub get_by_username : String → Action S Errs User
  pub create : User → Action S Errs User
  pub update : User → Action S Errs User
  pub delete : ℤ → S → Option Errs × S

pub record TokenIssuer (S : Type 0) : Type 0 where
  pub issue_token_pair : String → Action S Errs TokenPair
  pub refresh_token : String → Action S Errs TokenPair
  pub refresh_token_subject : String → Action S Errs TokenSubject
  pub revoke_token : String → S → Option Errs × S
  pub revoke_session : String → S → Option Errs × S
  pub revoke_subject_sessions : String → S → Option Errs × S

pub record Encryptor : Type 0 where
  pub encrypt : String → Fallible Errs String
  pub decrypt : String → Fallible Errs String

pub record AuthPolicy : Type 0 where
  pub captcha_ttl : ℤ
  pub captcha_failure_trigger : ℤ
  pub max_failed_attempts : ℤ
  pub lockout_duration : ℤ

-- The clock, bcrypt, TOTP, the captcha library, the lower case of a text, the text of an instant, the
-- links of an error of a store, and the test of an error's text for "not found".
pub record Libs (S : Type 0) : Type 0 where
  pub now : S → ℕ × S
  pub compare_hash_and_password : String → String → Option Errs
  pub generate_from_password : String → Action S Errs String
  pub validate_code : String → String → S → Bool × S
  pub generate_key : String → Action S Errs (String × String)
  pub verify_string : String → String → S → Bool × S
  pub to_lower : String → String
  pub rfc3339 : ℕ → String
  pub links : AuthError → Errs
  pub says_not_found : Errs → Bool

pub record Service (S : Type 0) : Type 0 where
  pub repo : Repository S
  pub token_issuer : Option (TokenIssuer S)
  pub security : Option (SecurityStateStore S)
  pub encryptor : Option Encryptor
  pub policy : AuthPolicy

abbrev pub noop_encryptor : Encryptor
noop_encryptor = record { encrypt = λ value. ok value; decrypt = λ value. ok value }

abbrev minutes : ℕ → ℤ
minutes n = pos (n * 60 * 1_000_000_000)

unfoldable pub new_service : {S : Type 0} → Repository S → Option (TokenIssuer S) → Service S
new_service repo token_issuer = record {
  repo = repo;
  token_issuer = token_issuer;
  security = none;
  encryptor = some noop_encryptor;
  policy = record {
    captcha_ttl = minutes 5;
    captcha_failure_trigger = pos 3;
    max_failed_attempts = pos 5;
    lockout_duration = minutes 15;
  };
}

abbrev kept_unless : (ℤ → Bool) → ℤ → ℤ → ℤ
kept_unless test new old = if test new then new else old

unfoldable pub set_auth_policy : {S : Type 0} → AuthPolicy → Service S → Service S
set_auth_policy policy svc = record svc {
  policy = record {
    captcha_ttl = kept_unless is_positive policy.captcha_ttl svc.policy.captcha_ttl;
    captcha_failure_trigger =
        kept_unless is_nonneg policy.captcha_failure_trigger svc.policy.captcha_failure_trigger;
    max_failed_attempts =
        kept_unless is_nonneg policy.max_failed_attempts svc.policy.max_failed_attempts;
    lockout_duration = kept_unless is_positive policy.lockout_duration svc.policy.lockout_duration;
  };
}

unfoldable pub set_security_state_store :
    {S : Type 0} → Option (SecurityStateStore S) → Service S → Service S
set_security_state_store store svc = record svc { security = store }

unfoldable pub set_secret_encryptor : {S : Type 0} → Option Encryptor → Service S → Service S
set_secret_encryptor none svc = svc
set_secret_encryptor (some encryptor) svc = record svc { encryptor = some encryptor }

-- The codes of internal/shared/errors, and an `*AppError` in front of what it wraps.
abbrev pub code_unauthorized : ℕ
code_unauthorized = 30002

abbrev pub code_forbidden : ℕ
code_forbidden = 30003

abbrev pub unauthorized_because : String → Errs → Errs
unauthorized_because message cause = app code_unauthorized message 401 ∷ cause

abbrev pub forbidden_because : String → Errs
forbidden_because message = app code_forbidden message 403 ∷ []

abbrev pub bad_request : String → Errs
bad_request message = app 30001 message 400 ∷ []

abbrev name_char : ℕ → Bool
name_char c =
    (leb b'a' c && leb c b'z')
    || (leb b'A' c && leb c b'Z')
    || (leb b'0' c && leb c b'9')
    || c == b'.'
    || c == b'_'
    || c == b'-'

abbrev name_chars : String → Bool
name_chars String.[] = true
name_chars (String.◌∷◌ c s) = name_char (code c) && name_chars s

-- `usernamePattern.MatchString`
unfoldable pub matches_username : String → Bool
matches_username s = not (is_empty s) && name_chars s

unfoldable pub normalize_nickname : String → Fallible Errs String
unfolding trim_space
normalize_nickname value =
    if is_empty (trim_space value)
    then err (bad_request "nickname is required")
    else ok (trim_space value)

abbrev pub normalize_status : Option ℤ → ℤ → ℤ
normalize_status none fallback = fallback
normalize_status (some status) fallback = status

abbrev own_subject : User → Option String → String
own_subject user none = format_int user.id
own_subject user (some legacy) =
    if is_empty (trim_space legacy) then format_int user.id else trim_space legacy

unfoldable pub user_subject : User → String
unfolding format_int trim_space
user_subject user = own_subject user user.legacy_id

unfoldable pub login_key : String → String → String
unfolding trim_space
login_key username client_ip = username <> ("|" <> trim_space client_ip)

unfoldable pub username_login_key : String → String
username_login_key username = "user|" <> username

module _ {S : Type 0} (libs : Libs S) where
  unfoldable pub normalize_username : String → Fallible Errs String
  unfolding matches_username trim_space
  normalize_username value =
      let username = libs.to_lower (trim_space value) in
      if matches_username username
      then ok username
      else err (bad_request "username contains invalid characters")

  abbrev pub normalize_email : String → String
  normalize_email value = libs.to_lower (trim_space value)

  unfoldable pub map_error : Option Errs → Option Errs
  unfolding map_repository
  map_error e = map_repository libs.says_not_found e (record {
    not_found_code = 40101;
    not_found_message = "user not found";
    conflict_code = 40102;
    conflict_message = "username or email already exists";
  })

  abbrev is_exactly_record_not_found : Errs → Bool
  is_exactly_record_not_found (record_not_found ∷ []) = true
  is_exactly_record_not_found _ = false

  -- The user whose number is the reference, or whose legacy id it is, asked again.
  abbrev by_number : Service S → String → Option ℤ → Action S Errs User
  by_number svc reference none =
      if is_empty reference
      then fail (bad_request "invalid user id")
      else svc.repo.get_by_legacy_id reference
  by_number svc reference (some n) =
      if is_positive n
      then svc.repo.get n
      else if is_empty reference
      then fail (bad_request "invalid user id")
      else svc.repo.get_by_legacy_id reference

  abbrev by_legacy_id : Fallible Errs User × S → Action S Errs User → Fallible Errs User × S
  by_legacy_id (ok user, s) next = (ok user, s)
  by_legacy_id (err e, s) next =
      if is_exactly_record_not_found e || libs.says_not_found e then next s else (err e, s)

  unfoldable pub resolve_user : Service S → String → Action S Errs User
  unfolding trim_space parse_int
  resolve_user svc reference s =
      let trimmed = trim_space reference in
      if is_empty trimmed
      then by_number svc trimmed (parse_int trimmed) s
      else by_legacy_id (svc.repo.get_by_legacy_id trimmed s)
          (by_number svc trimmed (parse_int trimmed))
