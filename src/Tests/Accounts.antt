-- ===== src/Tests/Accounts.antt =====
-- The service of the users at concrete inputs. The world is one flag: whether the one-time password
-- was claimed. A password is its own hash, and the secret of a second factor is its only code.
mod Leaving
use kubeflare.Prelude.{
  ◌≡◌, ◌≢◌, refl, ap, Bool, true, false, Option, none, some, List, [], str_eq, arith, if◌then◌else◌,
  pos,
}
use kubeflare.Prelude.Fallible.{ok}
use kubeflare.Auth.{LoginFailure, SecurityStateStore}
use kubeflare.Auth.Failover.Once.{GrantsOnce}
use kubeflare.Auth.Tokens.{TokenPair, TokenSubject}
use kubeflare.Errors.{Link}
use kubeflare.Iam.{User, Repository, TokenIssuer, Libs, Service, AuthPolicy, noop_encryptor}
use kubeflare.Iam.Gates.{validate_totp, totp_key}
use kubeflare.Iam.Gates.Replay.{Decides, validate_totp-single}
use kubeflare.Iam.Login.{LoginRequest, login}
use kubeflare.Iam.Login.Granted.{Granted, login-Granted}
use kubeflare.Iam.Session.{refresh, Refreshed, refresh-Refreshed}
use kubeflare.Iam.Account.{UpdateCurrentPasswordRequest, update_current_password}
use kubeflare.Iam.Account.Password.{PasswordChanged, update_current_password-PasswordChanged}
use kubeflare.Iam.Mfa.{
  DisableMfaRequest, ConfirmMfaRequest, EnableMfaResponse, disable_mfa, confirm_mfa,
}
use kubeflare.Iam.Mfa.Guarded.{
  MfaDropped, MfaConfirmed, disable_mfa-MfaDropped, confirm_mfa-MfaConfirmed,
}

abbrev libs : Libs Bool
libs = record {
  now = λ s. (7, s);
  compare_hash_and_password = λ hash password. if str_eq hash password then none else some [];
  generate_from_password = λ password s. (ok password, s);
  validate_code = λ code secret s. (str_eq code secret, s);
  generate_key = λ name s. (ok ("123456", "otpauth://kubeflare"), s);
  verify_string = λ id code s. (true, s);
  to_lower = λ text. text;
  rfc3339 = λ at. "";
  links = λ e. [];
  says_not_found = λ e. false;
}

abbrev no_failure : LoginFailure
no_failure = record { key = ""; count = 0; locked_until = 0; expires_at = 0 }

abbrev security : SecurityStateStore Bool
security = record {
  increment_login_failure = λ key at after lockout s. (ok no_failure, s);
  get_login_failure = λ key s. (ok no_failure, s);
  clear_login_failure = λ key s. (none, s);
  save_oidc_state = λ key at s. (none, s);
  has_oidc_state = λ key s. (ok false, s);
  consume_oidc_state = λ key s. (ok false, s);
  claim_once = λ key at s. if s then (ok false, s) else (ok true, true);
}

abbrev pair : TokenPair
pair = record {
  access_token = "a";
  refresh_token = "r";
  token_type = "Bearer";
  expires_in = pos 60;
  refresh_token_expires_in = pos 600;
  session_id = "s";
}

abbrev subject : TokenSubject
subject = record { subject = "root"; session_id = "s"; expires_at = 600 }

abbrev issuer : TokenIssuer Bool
issuer = record {
  issue_token_pair = λ who s. (ok pair, s);
  refresh_token = λ token s. (ok pair, s);
  refresh_token_subject = λ token s. (ok subject, s);
  revoke_token = λ token s. (none, s);
  revoke_session = λ token s. (none, s);
  revoke_subject_sessions = λ token s. (none, s);
}

abbrev root : User
root = record {
  id = pos 1;
  legacy_id = some "root";
  username = "root";
  nickname = "Root";
  password = "secret";
  email = "";
  phone = "";
  avatar = "";
  remarks = "";
  status = pos 1;
  mfa_enabled = true;
  mfa_secret = "123456";
  created_at = 0;
  updated_at = 0;
  deleted_at = none;
}

abbrev repo : Repository Bool
repo = record {
  get = λ id s. (ok root, s);
  get_by_legacy_id = λ id s. (ok root, s);
  get_by_username = λ name s. (ok root, s);
  create = λ user s. (ok user, s);
  update = λ user s. (ok user, s);
  delete = λ id s. (none, s);
}

abbrev policy : AuthPolicy
policy = record {
  captcha_ttl = pos 300;
  captcha_failure_trigger = pos 3;
  max_failed_attempts = pos 5;
  lockout_duration = pos 900;
}

abbrev svc : Service Bool
svc = record {
  repo = repo;
  token_issuer = some issuer;
  security = some security;
  encryptor = some noop_encryptor;
  policy = policy;
}

abbrev request : LoginRequest
request = record {
  username = "root";
  password = "secret";
  captcha_id = "";
  captcha_code = "";
  otp_code = "123456";
}

abbrev valid : LoginRequest → Option (List Link)
valid req = none

login-Granted_example :
    (valid request ≡ none)
    × Granted libs svc request "10.0.0.1" false true (record { pair = pair; user = root })
unfolding login
login-Granted_example =
    login-Granted libs valid svc request "10.0.0.1" false true (record { pair = pair; user = root })
      refl

-- The wrong password, and a code that was used before.
login_wrong :
    (login libs valid svc (record request { password = "guess" }) "10.0.0.1" false).1 ≡ false
unfolding login
login_wrong = refl

once : GrantsOnce security (totp_key "root" "123456") (λ s. s ≡ true)
once = record {
  granted = λ at s s' h. ground (arith, ap (λ (a, b). a) h, ap (λ (a, b). b) h);
  refused = λ at s t known h. ground (arith, ap (λ (a, b). a) h);
}

decides : Decides libs security (totp_key "root" "123456") (λ s. s ≡ true)
decides = record {
  decided = λ at s t e h. ground (arith, ap (λ (a, b). a) h);
  clock = λ s s' n h known. ground (arith, ap (λ (a, b). b) h);
  tested = λ code secret s s' b h known. ground (arith, ap (λ (a, b). b) h);
}

validate_totp-single_example : validate_totp libs svc "root" "123456" "123456" true ≢ (true, true)
unfolding validate_totp
validate_totp-single_example =
    validate_totp-single libs svc security "root" "123456" (λ s. s ≡ true) refl once decides
      "123456" "123456" false true refl true true (λ known. known)

refresh-Refreshed_example :
    (◌≡◌ {A = Option (List Link)} none none)
    × Refreshed libs svc "r" false false (record { pair = pair; user = root })
unfolding refresh
refresh-Refreshed_example =
    refresh-Refreshed libs none svc "r" false false (record { pair = pair; user = root }) refl

abbrev change : UpdateCurrentPasswordRequest
change = record { old_password = "secret"; new_password = "better" }

update_current_password-PasswordChanged_example : PasswordChanged libs svc "root" change false false
unfolding update_current_password
update_current_password-PasswordChanged_example =
    update_current_password-PasswordChanged libs none svc "root" change false false refl

abbrev drop : DisableMfaRequest
drop = record { password = "secret"; otp_code = "123456" }

disable_mfa-MfaDropped_example : MfaDropped libs svc "root" drop false true
unfolding disable_mfa
disable_mfa-MfaDropped_example = disable_mfa-MfaDropped libs none svc "root" drop false true refl

abbrev confirm : ConfirmMfaRequest
confirm = record { otp_code = "123456" }

confirm_mfa-MfaConfirmed_example : MfaConfirmed libs svc "root" confirm false true
unfolding confirm_mfa
confirm_mfa-MfaConfirmed_example =
    confirm_mfa-MfaConfirmed libs none svc "root" confirm false true refl

abbrev set_up : EnableMfaResponse
set_up = record { secret = "123456"; otp_auth_url = "otpauth://kubeflare" }
