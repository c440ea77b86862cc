-- ===== src/Iam/Account.antt =====
-- internal/module/iam/application/service.go: the users as an administrator sees them, and a user's own
-- profile and password. `invalid` is the answer of the validator to a request.
pub mod Password
use kubeflare.Prelude.{ℕ, false, not, Option, none, some, String, ℤ, pos, if◌then◌else◌, str_eq}
use kubeflare.Prelude.Fallible.{Fallible, ok, err}
use kubeflare.Prelude.Text.{trim_space}
use kubeflare.Prelude.Dots.{is_empty}
use kubeflare.Prelude.Action.{Action, ◌>>=◌, return, always, pure, fail}
use kubeflare.Iam.{
  User, Errs, Libs, Service, user_status_active, normalize_username, normalize_nickname,
  normalize_email, normalize_status, unauthorized_because, forbidden_because, bad_request,
}
use kubeflare.Iam.Steps.{unless_invalid, require, find_user, saved, is_active, mapped}

pub record CreateUserRequest : Type 0 where
  pub username : String
  pub nickname : String
  pub password : String
  pub email : String
  pub phone : String
  pub avatar : String
  pub remarks : String
  pub status : Option ℤ

pub record UpdateUserRequest : Type 0 where
  pub username : String
  pub nickname : String
  pub password : String
  pub email : String
  pub phone : String
  pub avatar : String
  pub remarks : String
  pub status : Option ℤ

pub record UpdateCurrentUserRequest : Type 0 where
  pub nickname : String
  pub email : String
  pub phone : String
  pub avatar : String
  pub remarks : String

pub record UpdateCurrentPasswordRequest : Type 0 where
  pub old_password : String
  pub new_password : String

module _ {S : Type 0} (libs : Libs S) where
  -- The user that a request describes, who has no number yet.
  abbrev new_user : CreateUserRequest → String → String → String → ℕ → User
  new_user req username nickname password now = record {
    id = pos 0;
    legacy_id = none;
    username = username;
    nickname = nickname;
    password = password;
    email = normalize_email libs req.email;
    phone = trim_space req.phone;
    avatar = trim_space req.avatar;
    remarks = trim_space req.remarks;
    status = normalize_status req.status user_status_active;
    mfa_enabled = false;
    mfa_secret = "";
    created_at = now;
    updated_at = now;
    deleted_at = none;
  }

  -- `Create`
  unfoldable pub create : Option Errs → Service S → CreateUserRequest → Action S Errs User
  unfolding normalize_username normalize_nickname trim_space
  create invalid svc req = unless_invalid invalid (do
    username ← pure (normalize_username libs req.username)
    nickname ← pure (normalize_nickname req.nickname)
    password ← libs.generate_from_password req.password
    now ← always libs.now
    svc.repo.create (new_user req username nickname password now))

  abbrev edited : UpdateUserRequest → String → String → User → ℕ → User
  edited req username nickname existing now = record existing {
    username = username;
    nickname = nickname;
    email = normalize_email libs req.email;
    phone = trim_space req.phone;
    avatar = trim_space req.avatar;
    remarks = trim_space req.remarks;
    status = normalize_status req.status existing.status;
    updated_at = now;
  }

  -- A password that is blank is not changed.
  abbrev with_password : String → User → Action S Errs User
  with_password password user =
      if is_empty (trim_space password)
      then return user
      else (libs.generate_from_password password >>= λ hash.
          return (record user { password = hash }))

  -- `Update`
  unfoldable pub update : Option Errs → Service S → String → UpdateUserRequest → Action S Errs User
  unfolding find_user normalize_username normalize_nickname trim_space saved
  update invalid svc id req = unless_invalid invalid (do
    existing ← find_user libs svc id
    username ← pure (normalize_username libs req.username)
    nickname ← pure (normalize_nickname req.nickname)
    now ← always libs.now
    changed ← with_password req.password (edited req username nickname existing now)
    saved libs svc changed)

  abbrev gone : Option Errs × S → Fallible Errs (Unit {0}) × S
  gone (none, s) = (ok tt, s)
  gone (some e, s) = (err (mapped libs e), s)

  -- `Delete`
  unfoldable pub delete : Service S → String → Action S Errs (Unit {0})
  unfolding find_user
  delete svc id = find_user libs svc id >>= λ existing s. gone (svc.repo.delete existing.id s)

  -- `Get` and `GetCurrent`
  unfoldable pub get : Service S → String → Action S Errs User
  unfolding find_user
  get svc id = find_user libs svc id

  abbrev own_edited : UpdateCurrentUserRequest → String → User → ℕ → User
  own_edited req nickname existing now = record existing {
    nickname = nickname;
    email = normalize_email libs req.email;
    phone = trim_space req.phone;
    avatar = trim_space req.avatar;
    remarks = trim_space req.remarks;
    updated_at = now;
  }

  abbrev update_own : Service S → UpdateCurrentUserRequest → User → Action S Errs User
  update_own svc req existing =
      require (is_active existing) (forbidden_because "user is disabled") (do
        nickname ← pure (normalize_nickname req.nickname)
        now ← always libs.now
        saved libs svc (own_edited req nickname existing now))

  -- `UpdateCurrent`
  unfoldable pub update_current :
      Option Errs → Service S → String → UpdateCurrentUserRequest → Action S Errs User
  unfolding find_user normalize_nickname trim_space saved
  update_current invalid svc subject req =
      unless_invalid invalid (find_user libs svc subject >>= update_own svc req)

  abbrev store_password : Service S → User → String → Action S Errs (Unit {0})
  store_password svc existing hash = always libs.now >>= λ now.
      saved libs svc (record existing { password = hash; updated_at = now }) >>= λ _. return tt

  abbrev matching : Option Errs → Action S Errs (Unit {0}) → Action S Errs (Unit {0})
  matching none next = next
  matching (some e) next = fail (unauthorized_because "old password is incorrect" e)

  abbrev change_password :
      Service S → UpdateCurrentPasswordRequest → User → Action S Errs (Unit {0})
  change_password svc req existing =
      require (is_active existing) (forbidden_because "user is disabled") (
        require (not (is_empty (trim_space existing.password)))
          (forbidden_because "password is not configured")
          (matching (libs.compare_hash_and_password existing.password req.old_password)
            (libs.generate_from_password req.new_password >>= store_password svc existing)))

  -- `UpdateCurrentPassword`
  unfoldable pub update_current_password :
      Option Errs → Service S → String → UpdateCurrentPasswordRequest → Action S Errs (Unit {0})
  unfolding find_user saved trim_space
  update_current_password invalid svc subject req = unless_invalid invalid (
      require (not (str_eq req.old_password req.new_password))
        (bad_request "new password must be different from old password")
        (find_user libs svc subject >>= change_password svc req))
