-- ===== src/Iam/Login/Granted.antt =====
-- What a login that was granted went through, gate by gate.
use kubeflare.Prelude.{
  ◌≡◌, refl, ap, sym, subst, ◌⊎◌, inl, inr, Bool-cases, Bool, true, false, not, Option, none, some,
  String, ℕ, arith,
}
use kubeflare.Prelude.Fallible.{Fallible, ok, err, ok_inj}
use kubeflare.Prelude.Text.{trim_space}
use kubeflare.Prelude.Dots.{is_empty}
use kubeflare.Prelude.Action.{Action, pure, then_read-ok, error-not-ok, pure-ok}
use kubeflare.Auth.{AuthError}
use kubeflare.Auth.Tokens.{TokenPair}
use kubeflare.Iam.{
  User, Errs, TokenIssuer, Libs, Service, user_status_active, equal_int, user_subject,
  normalize_username,
}
use kubeflare.Iam.Gates.{
  requires_captcha, login_lock, clear_login_failures, validate_totp, decrypt_secret,
  auth_state_unavailable, record_login_failure,
}
use kubeflare.Iam.Login.{
  LoginRequest, LoginResponse, Refusal, refusal, accept, plainly, available, refused_with,
  refuse_counted, captcha_if, captcha_answered, unless_locked, named, forbidden_unless, matched,
  otp_valid, unless_blank_code, with_secret, logged_in, with_user, unlocked, check_mfa, let_in,
  check_user, log_in, login_by, login,
}

module _ {S A : Type 0} where
  refused_with-ok :
      (E : Type 0) (f : E → Errs) (r : Fallible E A × S) (a : A) (t : S)
      → refused_with E f r ≡ (ok a, t)
      → r ≡ (ok a, t)
  refused_with-ok E f (ok b, s) a t h =
      ground (arith, ok_inj (ap (λ (x, y). x) h), ap (λ (x, y). y) h)
  refused_with-ok E f (err e, s) a t h = error-not-ok _ a s t h

  accept-ok :
      (o : Option Errs) (next : Action S Refusal A) (s t : S) (a : A)
      → accept o next s ≡ (ok a, t)
      → (o ≡ none) × (next s ≡ (ok a, t))
  accept-ok none next s t a h = (refl, h)
  accept-ok (some e) next s t a h = error-not-ok _ a s t h

  forbidden_unless-ok :
      (b : Bool) (message : String) (next : Action S Refusal A) (s t : S) (a : A)
      → forbidden_unless b message next s ≡ (ok a, t)
      → (b ≡ true) × (next s ≡ (ok a, t))
  forbidden_unless-ok true message next s t a h = (refl, h)
  forbidden_unless-ok false message next s t a h = error-not-ok _ a s t h

  unless_blank_code-ok :
      (b : Bool) (next : Action S Refusal A) (s t : S) (a : A)
      → unless_blank_code b next s ≡ (ok a, t)
      → (b ≡ false) × (next s ≡ (ok a, t))
  unless_blank_code-ok true next s t a h = error-not-ok _ a s t h
  unless_blank_code-ok false next s t a h = (refl, h)

module _ {S : Type 0} (libs : Libs S) where
  module _ {A : Type 0} where
    -- A failure that is counted never lets anyone in.
    refuse_counted-not-ok :
        {B : Type 0} (svc : Service S) (username client_ip : String) (e : Errs) (s t : S) (a : A)
        → refuse_counted libs svc username client_ip e s ≡ (ok a, t)
        → B
    unfolding refuse_counted
    refuse_counted-not-ok svc username client_ip e s t a h =
        let (x, u, counted, rest) =
          then_read-ok (available libs (record_login_failure libs svc username client_ip) s)
            (λ _ v. (err (refusal e), v)) a t h in
        error-not-ok _ a u t rest

    captcha_if-ok :
        (req : LoginRequest) (next : Action S Refusal A) (b : Bool) (s t : S) (a : A)
        → captcha_if libs req next b s ≡ (ok a, t)
        → (u : S) × (((b ≡ false) × (u ≡ s))
            ⊎ (libs.verify_string req.captcha_id req.captcha_code s ≡ (true, u)))
          × (next u ≡ (ok a, t))
    captcha_if-ok req next false s t a h = (s, inl (refl, refl), h)
    captcha_if-ok req next true s t a h =
        answered (libs.verify_string req.captcha_id req.captcha_code s) refl h
      where
        answered :
            (r : Bool × S)
            → libs.verify_string req.captcha_id req.captcha_code s ≡ r
            → captcha_answered libs next r ≡ (ok a, t)
            → (u : S) × (((true ≡ false) × (u ≡ s))
                ⊎ (libs.verify_string req.captcha_id req.captcha_code s ≡ (true, u)))
              × (next u ≡ (ok a, t))
        answered (true, u) is h = (u, inr is, h)
        answered (false, u) is h = error-not-ok _ a u t h

    unless_locked-ok :
        (next : Action S Refusal A) (o : Option ℕ) (s t : S) (a : A)
        → unless_locked libs next o s ≡ (ok a, t)
        → (o ≡ none) × (next s ≡ (ok a, t))
    unless_locked-ok next none s t a h = (refl, h)
    unless_locked-ok next (some until) s t a h = error-not-ok _ a s t h

    named-ok :
        (svc : Service S) (username client_ip : String) (r : Fallible Errs User × S)
        (next : User → Action S Refusal A) (t : S) (a : A)
        → named libs svc username client_ip r next ≡ (ok a, t)
        → (user : User) × (u : S) × (r ≡ (ok user, u)) × (next user u ≡ (ok a, t))
    named-ok svc username client_ip (ok user, u) next t a h = (user, u, refl, h)
    named-ok svc username client_ip (err e, u) next t a h =
        refuse_counted-not-ok svc username client_ip _ u t a h

    matched-ok :
        (svc : Service S) (username client_ip : String) (o : Option Errs)
        (next : Action S Refusal A) (s t : S) (a : A)
        → matched libs svc username client_ip o next s ≡ (ok a, t)
        → (o ≡ none) × (next s ≡ (ok a, t))
    matched-ok svc username client_ip none next s t a h = (refl, h)
    matched-ok svc username client_ip (some e) next s t a h =
        refuse_counted-not-ok svc username client_ip _ s t a h

    otp_valid-ok :
        (svc : Service S) (username client_ip : String) (next : Action S Refusal A) (r : Bool × S)
        (t : S) (a : A)
        → otp_valid libs svc username client_ip next r ≡ (ok a, t)
        → (u : S) × (r ≡ (true, u)) × (next u ≡ (ok a, t))
    otp_valid-ok svc username client_ip next (true, u) t a h = (u, refl, h)
    otp_valid-ok svc username client_ip next (false, u) t a h =
        refuse_counted-not-ok svc username client_ip _ u t a h

  -- The second factor of a user: none is set up, or the code was valid for the decrypted secret.
  pub record SecondFactor (svc : Service S) (req : LoginRequest) (user : User) (s t : S)
      : Type 0 where
    pub secret : String
    pub decrypted : decrypt_secret svc user.mfa_secret ≡ ok secret
    pub valid : validate_totp libs svc (user_subject user) secret req.otp_code s ≡ (true, t)

  abbrev pub Passed : Service S → LoginRequest → User → S → S → Type 0
  Passed svc req user s t = ((user.mfa_enabled ≡ false) × (s ≡ t)) ⊎ SecondFactor svc req user s t

  check_mfa-ok :
      {A : Type 0} (svc : Service S) (req : LoginRequest) (username client_ip : String)
      (user : User) (next : Action S Refusal A) (s t : S) (a : A)
      → check_mfa libs svc req username client_ip user next s ≡ (ok a, t)
      → (u : S) × Passed svc req user s u × (next u ≡ (ok a, t))
  unfolding check_mfa
  check_mfa-ok svc req username client_ip user next s t a h = elim (Bool-cases user.mfa_enabled) [
    | inl e ↦
        let (there, h1) =
          forbidden_unless-ok (not (is_empty (trim_space user.mfa_secret))) _ _ s t a (rw e at h) in
        let (given, h2) = unless_blank_code-ok (is_empty (trim_space req.otp_code)) _ s t a h1 in
        let (secret, v, decrypted, h3) =
          then_read-ok (plainly (pure (decrypt_secret svc user.mfa_secret)) s)
            (with_secret libs svc req username client_ip user next) a t h2 in
        let (clear, same) =
          pure-ok (decrypt_secret svc user.mfa_secret) s v secret
            (refused_with-ok Errs (λ e. e) _ secret v decrypted) in
        let (u, valid, h4) = otp_valid-ok svc username client_ip next _ t a h3 in
        (
          u,
          inr (record {
            secret = secret;
            decrypted = clear;
            valid =
                subst
                  (λ x.
                    validate_totp libs svc (user_subject user) secret req.otp_code x ≡ (true, u))
                  (sym same) valid;
          }),
          h4,
        )
    | inr e ↦ (s, inl (e, refl), rw e at h)
  ]

  -- A login that was granted, state by state: the captcha was not asked for or was solved, neither
  -- the user name with its address nor the user name alone was locked, the user was found under the
  -- normalised name, was active, and had the password; the second factor passed, the issuer made the
  -- pair for the user's subject, and the failures were forgotten.
  pub record Granted (svc : Service S) (req : LoginRequest) (client_ip : String) (s t : S)
      (response : LoginResponse) : Type 0 where
    pub issuer : TokenIssuer S
    pub username : String
    pub user : User
    pub pair : TokenPair
    pub asked : Bool
    pub s1 : S
    pub s2 : S
    pub s3 : S
    pub s4 : S
    pub s5 : S
    pub s6 : S
    pub configured : svc.token_issuer ≡ some issuer
    pub normalized : normalize_username libs req.username ≡ ok username
    pub counted : requires_captcha svc username client_ip s ≡ (ok asked, s1)
    pub captcha :
        ((asked ≡ false) × (s2 ≡ s1))
        ⊎ (libs.verify_string req.captcha_id req.captcha_code s1 ≡ (true, s2))
    pub unlocked : login_lock libs svc username client_ip s2 ≡ (ok none, s3)
    pub found : svc.repo.get_by_username username s3 ≡ (ok user, s4)
    pub active : equal_int user.status user_status_active ≡ true
    pub password : libs.compare_hash_and_password user.password req.password ≡ none
    pub second_factor : Passed svc req user s4 s5
    pub issued : issuer.issue_token_pair (user_subject user) s5 ≡ (ok pair, s6)
    pub forgotten : clear_login_failures svc username client_ip s6 ≡ t
    pub returned : response ≡ record { pair = pair; user = user }

  -- The part of it that is about a user.
  record LetIn (svc : Service S) (issuer : TokenIssuer S) (req : LoginRequest)
      (username client_ip : String) (user : User) (s t : S) (response : LoginResponse)
      : Type 0 where
    pub v : S
    pub w : S
    pub pair : TokenPair
    pub active : equal_int user.status user_status_active ≡ true
    pub password : libs.compare_hash_and_password user.password req.password ≡ none
    pub second_factor : Passed svc req user s v
    pub issued : issuer.issue_token_pair (user_subject user) v ≡ (ok pair, w)
    pub forgotten : clear_login_failures svc username client_ip w ≡ t
    pub returned : response ≡ record { pair = pair; user = user }

  check_user-LetIn :
      (svc : Service S) (issuer : TokenIssuer S) (req : LoginRequest) (username client_ip : String)
      (user : User) (s t : S) (response : LoginResponse)
      → check_user libs svc issuer req username client_ip user s ≡ (ok response, t)
      → LetIn svc issuer req username client_ip user s t response
  unfolding check_user let_in
  check_user-LetIn svc issuer req username client_ip user s t response h =
      let (active, h1) =
        forbidden_unless-ok (equal_int user.status user_status_active) _ _ s t response h in
      let (set_up, h2) =
        forbidden_unless-ok (not (is_empty (trim_space user.password))) _ _ s t response h1 in
      let (password, h3) = matched-ok svc username client_ip _ _ s t response h2 in
      let (v, passed, h4) =
        check_mfa-ok svc req username client_ip user
          (let_in libs svc issuer username client_ip user) s t response h3 in
      let (pair, w, issued, h5) =
        then_read-ok (plainly (issuer.issue_token_pair (user_subject user)) v)
          (logged_in libs svc username client_ip user) response t h4 in
      let (same, forgotten) = pure-ok _ _ t response h5 in
      record {
        v = v;
        w = w;
        active = active;
        password = password;
        second_factor = passed;
        pair = pair;
        issued =
            refused_with-ok Errs (λ e. e) (issuer.issue_token_pair (user_subject user) v) pair w
              issued;
        forgotten = forgotten;
        returned = sym (ok_inj same);
      }

  log_in-Granted :
      (svc : Service S) (issuer : TokenIssuer S) (req : LoginRequest) (client_ip username : String)
      (s t : S) (response : LoginResponse)
      → svc.token_issuer ≡ some issuer
      → normalize_username libs req.username ≡ ok username
      → log_in libs svc issuer req client_ip username s ≡ (ok response, t)
      → Granted svc req client_ip s t response
  unfolding log_in
  log_in-Granted svc issuer req client_ip username s t response is name h =
      let (asked, s1, counted, h1) =
        then_read-ok (available libs (requires_captcha svc username client_ip) s)
          (captcha_if libs req (unlocked libs svc issuer req client_ip username)) response t h in
      let (s2, captcha, h2) =
        captcha_if-ok req (unlocked libs svc issuer req client_ip username) asked s1 t response
          h1 in
      let (lock, s3, free, h3) =
        then_read-ok (available libs (login_lock libs svc username client_ip) s2)
          (unless_locked libs (with_user libs svc issuer req client_ip username)) response t h2 in
      let (open_, h4) =
        unless_locked-ok (with_user libs svc issuer req client_ip username) lock s3 t response h3 in
      let (user, s4, found, h5) =
        named-ok svc username client_ip (svc.repo.get_by_username username s3)
          (check_user libs svc issuer req username client_ip) t response h4 in
      let inside = check_user-LetIn svc issuer req username client_ip user s4 t response h5 in
      record {
        issuer = issuer;
        username = username;
        asked = asked;
        s1 = s1;
        s2 = s2;
        s3 = s3;
        s4 = s4;
        s5 = inside.v;
        s6 = inside.w;
        configured = is;
        normalized = name;
        counted = refused_with-ok AuthError _ _ asked s1 counted;
        captcha = captcha;
        user = user;
        pair = inside.pair;
        unlocked =
            subst (λ o. login_lock libs svc username client_ip s2 ≡ (ok o, s3)) open_
              (refused_with-ok AuthError (auth_state_unavailable libs) _ lock s3 free);
        found = found;
        active = inside.active;
        password = inside.password;
        second_factor = inside.second_factor;
        issued = inside.issued;
        returned = inside.returned;
        forgotten = inside.forgotten;
      }

  login_by-Granted :
      (o : Option (TokenIssuer S)) (svc : Service S) (req : LoginRequest) (client_ip : String)
      (s t : S) (response : LoginResponse)
      → svc.token_issuer ≡ o
      → login_by libs o svc req client_ip s ≡ (ok response, t)
      → Granted svc req client_ip s t response
  login_by-Granted none svc req client_ip s t response is h = error-not-ok _ response s t h
  login_by-Granted (some issuer) svc req client_ip s t response is h =
      let (username, u, name, rest) =
        then_read-ok (plainly (pure (normalize_username libs req.username)) s)
          (log_in libs svc issuer req client_ip) response t h in
      let (normal, same) =
        pure-ok (normalize_username libs req.username) s u username
          (refused_with-ok Errs (λ e. e) _ username u name) in
      log_in-Granted svc issuer req client_ip username s t response is normal (
        subst (λ x. log_in libs svc issuer req client_ip username x ≡ (ok response, t)) (sym same)
          rest)

  -- A login is granted only behind every gate: the request was valid, the captcha was solved where
  -- it was asked for, no lock was in force, the user was active and had the password, and the second
  -- factor passed where the user has one.
  pub login-Granted :
      (invalid : LoginRequest → Option Errs) (svc : Service S) (req : LoginRequest)
      (client_ip : String) (s t : S) (response : LoginResponse)
      → login libs invalid svc req client_ip s ≡ (ok response, t)
      → (invalid req ≡ none) × Granted svc req client_ip s t response
  unfolding login
  login-Granted invalid svc req client_ip s t response h =
      let (valid, rest) = accept-ok (invalid req) _ s t response h in
      (valid, login_by-Granted svc.token_issuer svc req client_ip s t response refl rest)
