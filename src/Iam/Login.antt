-- ===== src/Iam/Login.antt =====
-- internal/module/iam/application/service.go: logging in, the refresh of a login, and logging out.
pub mod Granted
use kubeflare.Prelude.{
  ℕ, Bool, true, false, not, Option, none, some, String, ◌<>◌, [], if◌then◌else◌,
}
use kubeflare.Prelude.Fallible.{Fallible, ok, err}
use kubeflare.Prelude.Text.{trim_space}
use kubeflare.Prelude.Dots.{is_empty}
use kubeflare.Prelude.Action.{Action, ◌>>=◌, ◌>>◌, fail, pure}
use kubeflare.Auth.{AuthError, Read}
use kubeflare.Auth.Tokens.{TokenPair}
use kubeflare.Iam.{
  User, Errs, TokenIssuer, Libs, Service, user_status_active, equal_int, unauthorized_because,
  forbidden_because, user_subject, normalize_username,
}
use kubeflare.Iam.Gates.{
  requires_captcha, login_lock, record_login_failure, clear_login_failures, validate_totp,
  decrypt_secret, auth_state_unavailable,
}

pub record LoginRequest : Type 0 where
  pub username : String
  pub password : String
  pub captcha_id : String
  pub captcha_code : String
  pub otp_code : String

pub record LogoutRequest : Type 0 where
  pub refresh_token : String
  pub all_sessions : Bool

-- The response of a login that was granted.
pub record LoginResponse : Type 0 where
  pub pair : TokenPair
  pub user : User

-- What a refused login returns: the two flags of its response, and the error.
pub record Refusal : Type 0 where
  pub requires_captcha : Bool
  pub requires_mfa : Bool
  pub error : Errs

abbrev pub refusal : Errs → Refusal
refusal e = record { requires_captcha = false; requires_mfa = false; error = e }

module _ {S A : Type 0} where
  abbrev refused_with : (e : Type 0) → (e → Errs) → Fallible e A × S → Fallible Refusal A × S
  refused_with E f (ok a, s) = (ok a, s)
  refused_with E f (err e, s) = (err (refusal (f e)), s)

  -- `if err != nil { return LoginResponse{}, err }`
  abbrev pub plainly : Action S Errs A → Action S Refusal A
  plainly action s = refused_with Errs (λ e. e) (action s)

  abbrev pub accept : Option Errs → Action S Refusal A → Action S Refusal A
  accept none next = next
  accept (some e) next = fail (refusal e)

  abbrev pub forbidden_unless : Bool → String → Action S Refusal A → Action S Refusal A
  forbidden_unless true message next = next
  forbidden_unless false message next = fail (refusal (forbidden_because message))

  abbrev mfa_required : Action S Refusal A
  mfa_required = fail (record {
    requires_captcha = false;
    requires_mfa = true;
    error = unauthorized_because "mfa code is required" [];
  })

  abbrev unless_blank_code : Bool → Action S Refusal A → Action S Refusal A
  unless_blank_code true next = mfa_required
  unless_blank_code false next = next

module _ {S : Type 0} (libs : Libs S) where
  module _ {A : Type 0} where
    -- `if err != nil { return LoginResponse{}, authStateUnavailable(err) }`
    abbrev pub available : Read S A → Action S Refusal A
    available read s = refused_with AuthError (auth_state_unavailable libs) (read s)

  module _ {A : Type 0} where
    -- A failure that is counted before it is told.
    unfoldable pub refuse_counted : Service S → String → String → Errs → Action S Refusal A
    unfolding auth_state_unavailable record_login_failure
    refuse_counted svc username client_ip e =
        available (record_login_failure libs svc username client_ip) >>= λ _. fail (refusal e)

    abbrev captcha_answered : Action S Refusal A → Bool × S → Fallible Refusal A × S
    captcha_answered next (true, s) = next s
    captcha_answered next (false, s) = (
      err (record {
        requires_captcha = true;
        requires_mfa = false;
        error = unauthorized_because "captcha is required" [];
      }),
      s,
    )

    abbrev captcha_if : LoginRequest → Action S Refusal A → Bool → Action S Refusal A
    captcha_if req next false s = next s
    captcha_if req next true s =
        captcha_answered next (libs.verify_string req.captcha_id req.captcha_code s)

    abbrev unless_locked : Action S Refusal A → Option ℕ → Action S Refusal A
    unless_locked next none = next
    unless_locked next (some until) =
        fail (
          refusal
            (forbidden_because ("account is temporarily locked until " <> libs.rfc3339 until)))

    abbrev named :
        Service S
        → String
        → String
        → Fallible Errs User × S
        → (User → Action S Refusal A)
        → Fallible Refusal A × S
    named svc username client_ip (ok user, s) next = next user s
    named svc username client_ip (err e, s) next =
        refuse_counted svc username client_ip
          (unauthorized_because "invalid username or password" e) s

    abbrev matched :
        Service S → String → String → Option Errs → Action S Refusal A → Action S Refusal A
    matched svc username client_ip none next = next
    matched svc username client_ip (some e) next =
        refuse_counted svc username client_ip
          (unauthorized_because "invalid username or password" e)

    abbrev otp_valid :
        Service S → String → String → Action S Refusal A → Bool × S → Fallible Refusal A × S
    otp_valid svc username client_ip next (true, s) = next s
    otp_valid svc username client_ip next (false, s) =
        refuse_counted svc username client_ip (unauthorized_because "invalid mfa code" []) s

    abbrev with_secret :
        Service S
        → LoginRequest
        → String
        → String
        → User
        → Action S Refusal A
        → String
        → Action S Refusal A
    with_secret svc req username client_ip user next secret s =
        otp_valid svc username client_ip next
          (validate_totp libs svc (user_subject user) secret req.otp_code s)

    -- The second factor of a user who has one.
    unfoldable pub check_mfa :
        Service S → LoginRequest → String → String → User → Action S Refusal A → Action S Refusal A
    unfolding refuse_counted validate_totp decrypt_secret user_subject trim_space
    check_mfa svc req username client_ip user next =
        if user.mfa_enabled
        then forbidden_unless (not (is_empty (trim_space user.mfa_secret))) "mfa is not configured"
            (unless_blank_code (is_empty (trim_space req.otp_code)) (
              plainly (pure (decrypt_secret svc user.mfa_secret))
              >>= with_secret svc req username client_ip user next))
        else next

  abbrev logged_in : Service S → String → String → User → TokenPair → Action S Refusal LoginResponse
  logged_in svc username client_ip user pair s =
      (ok (record { pair = pair; user = user }), clear_login_failures svc username client_ip s)

  -- The tokens of a user who is let in; the failures counted so far are dropped.
  unfoldable pub let_in :
      Service S → TokenIssuer S → String → String → User → Action S Refusal LoginResponse
  unfolding clear_login_failures user_subject
  let_in svc issuer username client_ip user =
      plainly (issuer.issue_token_pair (user_subject user))
      >>= logged_in svc username client_ip user

  -- What is asked of the user that was found.
  unfoldable pub check_user :
      Service S
      → TokenIssuer S
      → LoginRequest
      → String
      → String
      → User
      → Action S Refusal LoginResponse
  unfolding check_mfa let_in refuse_counted trim_space
  check_user svc issuer req username client_ip user =
      forbidden_unless (equal_int user.status user_status_active) "user is disabled" (
        forbidden_unless (not (is_empty (trim_space user.password))) "password is not configured" (
          matched svc username client_ip (libs.compare_hash_and_password user.password req.password)
            (check_mfa svc req username client_ip user
              (let_in svc issuer username client_ip user))))

  abbrev with_user :
      Service S → TokenIssuer S → LoginRequest → String → String → Action S Refusal LoginResponse
  with_user svc issuer req client_ip username s =
      named svc username client_ip (svc.repo.get_by_username username s)
        (check_user svc issuer req username client_ip)

  abbrev unlocked :
      Service S → TokenIssuer S → LoginRequest → String → String → Action S Refusal LoginResponse
  unlocked svc issuer req client_ip username =
      available (login_lock libs svc username client_ip)
      >>= unless_locked (with_user svc issuer req client_ip username)

  -- The gates in front of the user: the captcha and the lock.
  unfoldable pub log_in :
      Service S → TokenIssuer S → LoginRequest → String → String → Action S Refusal LoginResponse
  unfolding requires_captcha login_lock auth_state_unavailable refuse_counted check_user
  log_in svc issuer req client_ip username =
      available (requires_captcha svc username client_ip)
      >>= captcha_if req (unlocked svc issuer req client_ip username)

  abbrev login_by :
      Option (TokenIssuer S) → Service S → LoginRequest → String → Action S Refusal LoginResponse
  login_by none svc req client_ip = fail (refusal (unauthorized_because "login is unavailable" []))
  login_by (some issuer) svc req client_ip =
      plainly (pure (normalize_username libs req.username)) >>= log_in svc issuer req client_ip

  -- `LoginWithOptions`; `invalid` is the answer of the validator to the request.
  unfoldable pub login :
      (LoginRequest → Option Errs)
      → Service S
      → LoginRequest
      → String
      → Action S Refusal LoginResponse
  unfolding log_in normalize_username
  login invalid svc req client_ip =
      accept (invalid req) (login_by svc.token_issuer svc req client_ip)
