-- ===== src/Iam/Steps.antt =====
-- internal/module/iam/application/service.go: what the operations on a user have in common, and what
-- the success of each such step says.
use kubeflare.Prelude.{◌≡◌, refl, Bool, true, false, Option, none, some, String}
use kubeflare.Prelude.Fallible.{Fallible, ok, err}
use kubeflare.Prelude.Action.{Action, fail, error-not-ok}
use kubeflare.Iam.{
  User, Errs, Libs, Service, user_status_active, equal_int, resolve_user, map_error,
}

abbrev pub is_active : User → Bool
is_active user = equal_int user.status user_status_active

module _ {S A : Type 0} where
  abbrev pub changed : (Errs → Errs) → Fallible Errs A × S → Fallible Errs A × S
  changed f (ok a, s) = (ok a, s)
  changed f (err e, s) = (err (f e), s)

  -- `if err != nil { return ..., f(err) }`
  abbrev pub on_error : (Errs → Errs) → Action S Errs A → Action S Errs A
  on_error f action s = changed f (action s)

  abbrev pub unless_invalid : Option Errs → Action S Errs A → Action S Errs A
  unless_invalid none next = next
  unless_invalid (some e) next = fail e

  abbrev pub require : Bool → Errs → Action S Errs A → Action S Errs A
  require true e next = next
  require false e next = fail e

  pub unless_invalid-ok :
      (o : Option Errs) (next : Action S Errs A) (s t : S) (a : A)
      → unless_invalid o next s ≡ (ok a, t)
      → (o ≡ none) × (next s ≡ (ok a, t))
  unless_invalid-ok none next s t a h = (refl, h)
  unless_invalid-ok (some e) next s t a h = error-not-ok e a s t h

  pub require-ok :
      (b : Bool) (e : Errs) (next : Action S Errs A) (s t : S) (a : A)
      → require b e next s ≡ (ok a, t)
      → (b ≡ true) × (next s ≡ (ok a, t))
  require-ok true e next s t a h = (refl, h)
  require-ok false e next s t a h = error-not-ok e a s t h

  pub changed-ok :
      (f : Errs → Errs) (r : Fallible Errs A × S) (t : S) (a : A)
      → changed f r ≡ (ok a, t)
      → r ≡ (ok a, t)
  changed-ok f (ok b, s) t a h = h
  changed-ok f (err e, s) t a h = error-not-ok (f e) a s t h

abbrev or_same : Option Errs → Errs → Errs
or_same none e = e
or_same (some e') e = e'

module _ {S : Type 0} (libs : Libs S) where
  -- `mapRepositoryError` of an error that is not nil.
  abbrev pub mapped : Errs → Errs
  mapped e = or_same (map_error libs (some e)) e

  -- `resolveUser`, and its error as the API tells it.
  unfoldable pub find_user : Service S → String → Action S Errs User
  unfolding resolve_user map_error
  find_user svc reference = on_error mapped (resolve_user libs svc reference)

  pub find_user-ok :
      (svc : Service S) (reference : String) (s t : S) (user : User)
      → find_user svc reference s ≡ (ok user, t)
      → resolve_user libs svc reference s ≡ (ok user, t)
  unfolding find_user
  find_user-ok svc reference s t user h =
      changed-ok mapped (resolve_user libs svc reference s) t user h

  -- `Update` of the repository.
  unfoldable pub saved : Service S → User → Action S Errs User
  unfolding map_error
  saved svc user = on_error mapped (svc.repo.update user)

  pub saved-ok :
      (svc : Service S) (user stored : User) (s t : S)
      → saved svc user s ≡ (ok stored, t)
      → svc.repo.update user s ≡ (ok stored, t)
  unfolding saved
  saved-ok svc user stored s t h = changed-ok mapped (svc.repo.update user s) t stored h
