-- ===== src/Iam/Account/Password.antt =====
-- What a change of one's own password goes through.
use kubeflare.Prelude.{
  ◌≡◌, ◌≢◌, refl, ap, subst, true, not, Option, none, some, String, str_eq, eq_iff, arith, ℕ,
}
use kubeflare.Prelude.Fallible.{ok}
use kubeflare.Prelude.Text.{trim_space}
use kubeflare.Prelude.Dots.{is_empty}
use kubeflare.Prelude.Action.{Action, return, then_read-ok, error-not-ok}
use kubeflare.Iam.{User, Errs, Libs, Service, resolve_user}
use kubeflare.Iam.Steps.{
  is_active, find_user, saved, require-ok, unless_invalid-ok, find_user-ok, saved-ok,
}
use kubeflare.Iam.Account.{
  UpdateCurrentPasswordRequest, update_current_password, change_password, matching, store_password,
}

differ : (a b : String) → not (str_eq a b) ≡ true → a ≢ b
differ a b h e = ground (arith, eq_iff a b)

module _ {S : Type 0} (libs : Libs S) where
  matching-ok :
      (o : Option Errs) (next : Action S Errs (Unit {0})) (s t : S)
      → matching libs o next s ≡ (ok tt, t)
      → (o ≡ none) × (next s ≡ (ok tt, t))
  matching-ok none next s t h = (refl, h)
  matching-ok (some e) next s t h = error-not-ok _ tt s t h

  -- A change of the password that went through: who it was, that the old password was theirs and the
  -- new one is another, and what was stored.
  pub record PasswordChanged (svc : Service S) (subject : String)
      (req : UpdateCurrentPasswordRequest) (s t : S) : Type 0 where
    pub user : User
    pub stored : User
    pub hash : String
    pub now : ℕ
    pub s1 : S
    pub s2 : S
    pub s3 : S
    pub other : req.old_password ≢ req.new_password
    pub found : resolve_user libs svc subject s ≡ (ok user, s1)
    pub active : is_active user ≡ true
    pub known : libs.compare_hash_and_password user.password req.old_password ≡ none
    pub hashed : libs.generate_from_password req.new_password s1 ≡ (ok hash, s2)
    pub clock : libs.now s2 ≡ (now, s3)
    pub updated :
        svc.repo.update (record user { password = hash; updated_at = now }) s3 ≡ (ok stored, t)

  abbrev told : User → Action S Errs (Unit {0})
  told _ = return tt

  -- A user's own password changes only behind the old one: the user is active, gave the old password
  -- and another new one, and what is stored differs from what was found by the hash of the new
  -- password and the instant alone.
  pub update_current_password-PasswordChanged :
      (invalid : Option Errs) (svc : Service S) (subject : String)
      (req : UpdateCurrentPasswordRequest) (s t : S)
      → update_current_password libs invalid svc subject req s ≡ (ok tt, t)
      → PasswordChanged svc subject req s t
  unfolding update_current_password
  update_current_password-PasswordChanged invalid svc subject req s t h =
      let (valid, h1) = unless_invalid-ok invalid _ s t tt h in
      let (other, h2) = require-ok (not (str_eq req.old_password req.new_password)) _ _ s t tt h1 in
      let (user, s1, found, h3) =
        then_read-ok (find_user libs svc subject s) (change_password libs svc req) tt t h2 in
      let (active, h4) = require-ok (is_active user) _ _ s1 t tt h3 in
      let (set_up, h5) = require-ok (not (is_empty (trim_space user.password))) _ _ s1 t tt h4 in
      let (known, h6) =
        matching-ok (libs.compare_hash_and_password user.password req.old_password) _ s1 t h5 in
      let (hash, s2, hashed, h7) =
        then_read-ok (libs.generate_from_password req.new_password s1)
          (store_password libs svc user) tt t h6 in
      let (now, s3) = libs.now s2 in
      let changed : User = record user { password = hash; updated_at = now } in
      let (stored, s4, updated, h8) = then_read-ok (saved libs svc changed s3) told tt t h7 in
      record {
        user = user;
        stored = stored;
        hash = hash;
        now = now;
        s1 = s1;
        s2 = s2;
        s3 = s3;
        other = differ req.old_password req.new_password other;
        found = find_user-ok libs svc subject s s1 user found;
        active = active;
        known = known;
        hashed = hashed;
        clock = refl;
        updated =
            subst (λ x. svc.repo.update changed s3 ≡ (ok stored, x)) (ap (λ (x, y). y) h8)
              (saved-ok libs svc changed stored s3 s4 updated);
      }
