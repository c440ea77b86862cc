-- ===== src/Iam/Mfa/Guarded.antt =====
-- What changing the second factor of a user goes through.
use kubeflare.Prelude.{
  ◌≡◌, refl, ap, subst, sym, ℕ, Bool, true, false, Option, none, some, String, Bool-cases, inl, inr,
}
use kubeflare.Prelude.Fallible.{ok}
use kubeflare.Prelude.Text.{trim_space}
use kubeflare.Prelude.Dots.{is_empty}
use kubeflare.Prelude.Action.{Action, ◌>>=◌, pure, then_read-ok, error-not-ok, pure-ok}
use kubeflare.Iam.{User, Errs, Libs, Service, resolve_user}
use kubeflare.Iam.Steps.{find_user, saved, unless_invalid-ok, find_user-ok, saved-ok}
use kubeflare.Iam.Gates.{encrypt_secret, decrypt_secret, validate_totp}
use kubeflare.Iam.Mfa.{
  EnableMfaResponse, DisableMfaRequest, ConfirmMfaRequest, pending_user, if_valid, code_checked,
  told, store_enabled, confirm_user, confirm_mfa, store_disabled, if_password, disable_user,
  disable_mfa,
}

module _ {S : Type 0} (libs : Libs S) where
  code_checked-ok :
      (svc : Service S) (subject code : String) (next : Action S Errs (Unit {0})) (secret : String)
      (s t : S)
      → code_checked libs svc subject code next secret s ≡ (ok tt, t)
      → (u : S) × (validate_totp libs svc subject secret code s ≡ (true, u)) × (next u ≡ (ok tt, t))
  code_checked-ok svc subject code next secret s t h =
      elim (Bool-cases (is_empty (trim_space secret))) [
        | inl e ↦ error-not-ok _ tt s t (rw e at h)
        | inr e ↦ valid (validate_totp libs svc subject secret code s) refl (rw e at h)
      ]
    where
      valid :
          (r : Bool × S)
          → validate_totp libs svc subject secret code s ≡ r
          → if_valid libs next r ≡ (ok tt, t)
          → (u : S) × (validate_totp libs svc subject secret code s ≡ (true, u))
            × (next u ≡ (ok tt, t))
      valid (true, u) is h = (u, is, h)
      valid (false, u) is h = error-not-ok _ tt u t h

  if_password-ok :
      (o : Option Errs) (next : Action S Errs (Unit {0})) (s t : S)
      → if_password libs o next s ≡ (ok tt, t)
      → (o ≡ none) × (next s ≡ (ok tt, t))
  if_password-ok none next s t h = (refl, h)
  if_password-ok (some e) next s t h = error-not-ok _ tt s t h

  -- The end of each of the three: what was stored.
  stored-ok :
      (svc : Service S) (user : User) (s t : S)
      → (saved libs svc user >>= (told libs)) s ≡ (ok tt, t)
      → (stored : User) × (svc.repo.update user s ≡ (ok stored, t))
  stored-ok svc user s t h =
      let (stored, u, updated, same) = then_read-ok (saved libs svc user s) (told libs) tt t h in
      (
        stored,
        subst (λ x. svc.repo.update user s ≡ (ok stored, x)) (ap (λ (x, y). y) same)
            (saved-ok libs svc user stored s u updated),
      )

  -- A second factor that was dropped: whose it was, the password and the code that were given, and
  -- what was stored.
  pub record MfaDropped (svc : Service S) (subject : String) (req : DisableMfaRequest) (s t : S)
      : Type 0 where
    pub user : User
    pub stored : User
    pub secret : String
    pub now : ℕ
    pub s1 : S
    pub s2 : S
    pub s3 : S
    pub found : resolve_user libs svc subject s ≡ (ok user, s1)
    pub known : libs.compare_hash_and_password user.password req.password ≡ none
    pub decrypted : decrypt_secret svc user.mfa_secret ≡ ok secret
    pub valid : validate_totp libs svc subject secret req.otp_code s1 ≡ (true, s2)
    pub clock : libs.now s2 ≡ (now, s3)
    pub updated :
        svc.repo.update (record user { mfa_enabled = false; mfa_secret = ""; updated_at = now }) s3
        ≡ (ok stored, t)

  -- `DisableMFA` drops the second factor only behind the password and a valid code for its secret.
  pub disable_mfa-MfaDropped :
      (invalid : Option Errs) (svc : Service S) (subject : String) (req : DisableMfaRequest)
      (s t : S)
      → disable_mfa libs invalid svc subject req s ≡ (ok tt, t)
      → MfaDropped svc subject req s t
  unfolding disable_mfa
  disable_mfa-MfaDropped invalid svc subject req s t h =
      let (legal, h1) = unless_invalid-ok invalid _ s t tt h in
      let (user, s1, found, h2) =
        then_read-ok (find_user libs svc subject s) (disable_user libs svc subject req) tt t h1 in
      let (known, h3) =
        if_password-ok (libs.compare_hash_and_password user.password req.password) _ s1 t h2 in
      let (secret, v, decrypted, h4) =
        then_read-ok (pure (decrypt_secret svc user.mfa_secret) s1)
          (code_checked libs svc subject req.otp_code (store_disabled libs svc user)) tt t h3 in
      let (clear, same) = pure-ok (decrypt_secret svc user.mfa_secret) s1 v secret decrypted in
      let (s2, valid, h5) =
        code_checked-ok svc subject req.otp_code (store_disabled libs svc user) secret v t h4 in
      let (now, s3) = libs.now s2 in
      let (stored, updated) = stored-ok svc _ s3 t h5 in
      record {
        user = user;
        stored = stored;
        secret = secret;
        now = now;
        s1 = s1;
        s2 = s2;
        s3 = s3;
        found = find_user-ok libs svc subject s s1 user found;
        known = known;
        decrypted = clear;
        valid =
            subst (λ x. validate_totp libs svc subject secret req.otp_code x ≡ (true, s2))
              (sym same) valid;
        clock = refl;
        updated = updated;
      }

  -- A set-up of a second factor that went through: the user that was found, the key that was made, and
  -- what was stored, a user without a second factor.
  pub record MfaPending (svc : Service S) (subject : String) (s t : S)
      (response : EnableMfaResponse) : Type 0 where
    pub user : User
    pub stored : User
    pub encrypted : String
    pub now : ℕ
    pub s1 : S
    pub s2 : S
    pub s3 : S
    pub found : resolve_user libs svc subject s ≡ (ok user, s1)
    pub generated :
        libs.generate_key user.username s1 ≡ (ok (response.secret, response.otp_auth_url), s2)
    pub encrypts : encrypt_secret svc response.secret ≡ ok encrypted
    pub clock : libs.now s2 ≡ (now, s3)
    pub updated : svc.repo.update (pending_user libs user encrypted now) s3 ≡ (ok stored, t)

  -- A second factor that was confirmed: the code was valid for the decrypted secret.
  pub record MfaConfirmed (svc : Service S) (subject : String) (req : ConfirmMfaRequest) (s t : S)
      : Type 0 where
    pub user : User
    pub stored : User
    pub secret : String
    pub now : ℕ
    pub s1 : S
    pub s2 : S
    pub s3 : S
    pub found : resolve_user libs svc subject s ≡ (ok user, s1)
    pub decrypted : decrypt_secret svc user.mfa_secret ≡ ok secret
    pub valid : validate_totp libs svc subject secret req.otp_code s1 ≡ (true, s2)
    pub clock : libs.now s2 ≡ (now, s3)
    pub updated :
        svc.repo.update (record user { mfa_enabled = true; updated_at = now }) s3 ≡ (ok stored, t)

  -- A second factor is switched on only behind a valid code for the secret that was stored.
  pub confirm_mfa-MfaConfirmed :
      (invalid : Option Errs) (svc : Service S) (subject : String) (req : ConfirmMfaRequest)
      (s t : S)
      → confirm_mfa libs invalid svc subject req s ≡ (ok tt, t)
      → MfaConfirmed svc subject req s t
  unfolding confirm_mfa
  confirm_mfa-MfaConfirmed invalid svc subject req s t h =
      let (legal, h1) = unless_invalid-ok invalid _ s t tt h in
      let (user, s1, found, h2) =
        then_read-ok (find_user libs svc subject s) (confirm_user libs svc subject req) tt t h1 in
      let (secret, v, decrypted, h3) =
        then_read-ok (pure (decrypt_secret svc user.mfa_secret) s1)
          (code_checked libs svc subject req.otp_code (store_enabled libs svc user)) tt t h2 in
      let (clear, same) = pure-ok (decrypt_secret svc user.mfa_secret) s1 v secret decrypted in
      let (s2, valid, h4) =
        code_checked-ok svc subject req.otp_code (store_enabled libs svc user) secret v t h3 in
      let (now, s3) = libs.now s2 in
      let (stored, updated) = stored-ok svc _ s3 t h4 in
      record {
        user = user;
        stored = stored;
        secret = secret;
        now = now;
        s1 = s1;
        s2 = s2;
        s3 = s3;
        found = find_user-ok libs svc subject s s1 user found;
        decrypted = clear;
        valid =
            subst (λ x. validate_totp libs svc subject secret req.otp_code x ≡ (true, s2))
              (sym same) valid;
        clock = refl;
        updated = updated;
      }
