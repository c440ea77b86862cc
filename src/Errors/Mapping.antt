-- ===== src/Errors/Mapping.antt =====
-- What the answers to the API are.
use kubeflare.Prelude.{
  ℕ, ◌≡◌, refl, ◌⊎◌, inl, inr, Bool, true, false, ◌||◌, Option, none, some, String, List, [], ◌∷◌,
  ◌++◌, arith, if◌then◌else◌,
}
use kubeflare.Prelude.Dots.{is_empty}
use kubeflare.Errors.{
  is_json_syntax, is_json_type, is_eof, is_deadline_exceeded, app_error, code_timeout,
  code_conflict, Link, app, AppError, from, find_app, find_validation, any_link,
  is_record_not_found, is_duplicated_key, as_error, RepositoryErrorOptions, code_internal,
  code_not_found, code_conflict, or_default, unapp, unrecognised,
}

find_app-append : (outer e : List Link) → find_app outer ≡ none → find_app (outer ++ e) ≡ find_app e
unfolding find_app
find_app-append [] e h = refl
find_app-append (app c m s ∷ outer) e h = ground arith
find_app-append (_ ∷ outer) e h = find_app-append outer e h

-- An error that is already an answer stays that answer, whatever else wraps it.
pub from-as_error :
    (outer : List Link) (a : AppError)
    → find_app outer ≡ none
    → from (some (outer ++ as_error a)) ≡ some a
unfolding from find_app
from-as_error outer a h = rw (find_app-append outer (as_error a) h) refl

-- An answer that keeps its error as the cause, has one of these statuses, and shows nothing of the
-- error when it is internal.
pub Presentable : List Link → AppError → Type 0
Presentable e a =
    (a.cause ≡ e)
    × ((a.status ≡ 400)
        ⊎ (a.status ≡ 404)
        ⊎ (a.status ≡ 409)
        ⊎ (a.status ≡ 504)
        ⊎ ((a.status ≡ 500) × (a.code ≡ code_internal) × (a.message ≡ "internal server error")))

if_both : (P : AppError → Type 0) (b : Bool) (x y : AppError) → P x → P y → P (if b then x else y)
if_both P true x y p q = p
if_both P false x y p q = q

bad_request-Presentable :
    (e : List Link) (code : ℕ) (message : String) → Presentable e (app_error code message 400 e)
unfolding Presentable
bad_request-Presentable e code message = (refl, inl refl)

recognised-Presentable :
    (e : List Link)
    → Presentable e (app_error code_timeout "request timed out" 504 e)
      × Presentable e (app_error code_not_found "resource not found" 404 e)
      × Presentable e (app_error code_conflict "resource already exists" 409 e)
      × Presentable e (app_error code_internal "internal server error" 500 e)
unfolding Presentable
recognised-Presentable e = (
  (refl, inr (inr (inr (inl refl)))),
  (refl, inr (inl refl)),
  (refl, inr (inr (inl refl))),
  (refl, inr (inr (inr (inr (refl, refl, refl))))),
)

unrecognised-Presentable : (e : List Link) → Presentable e (unrecognised e)
unrecognised-Presentable e =
    let (timeout, missing, conflict, internal) = recognised-Presentable e in
    if_both (Presentable e) (any_link is_json_syntax e) _ _ (bad_request-Presentable e _ _) (
      if_both (Presentable e) (any_link is_json_type e) _ _ (bad_request-Presentable e _ _) (
        if_both (Presentable e) (any_link is_eof e) _ _ (bad_request-Presentable e _ _) (
          if_both (Presentable e) (any_link is_deadline_exceeded e) _ _ timeout (
            if_both (Presentable e) (any_link is_record_not_found e) _ _ missing
              (if_both (Presentable e) (any_link is_duplicated_key e) _ _ conflict internal)))))

unapp-Presentable : (o : Option String) (e : List Link) → Presentable e (unapp o e)
unapp-Presentable (some text) e = bad_request-Presentable e _ text
unapp-Presentable none e = unrecognised-Presentable e

-- The answer to an error that is not one already keeps the error as its cause and has the status
-- 400, 404, 409, 504 or 500; with the last, its code and its message are fixed.
pub from-Presentable :
    (e : List Link)
    → find_app e ≡ none
    → (a : AppError) × (from (some e) ≡ some a) × Presentable e a
unfolding from
from-Presentable e h =
    (unapp (find_validation e) e, rw h refl, unapp-Presentable (find_validation e) e)

-- What the answer to an error of a repository says, by what is found in the error.
pub data RepositoryTold (says_not_found : List Link → Bool) (opts : RepositoryErrorOptions)
    (e : List Link) (a : AppError) : Type 0 where
  missing :
      (any_link is_record_not_found e || says_not_found e) ≡ true
      → a.status ≡ 404
      → a.code ≡ or_default opts.not_found_code code_not_found
      → a.message ≡ opts.not_found_message
      → RepositoryTold says_not_found opts e a
  conflicting :
      (any_link is_record_not_found e || says_not_found e) ≡ false
      → any_link is_duplicated_key e ≡ true
      → is_empty opts.conflict_message ≡ false
      → a.status ≡ 409
      → a.code ≡ or_default opts.conflict_code code_conflict
      → a.message ≡ opts.conflict_message
      → RepositoryTold says_not_found opts e a
  -- It is the API's answer to the error itself.
  other :
      (any_link is_record_not_found e || says_not_found e) ≡ false
      → (any_link is_duplicated_key e ≡ true → is_empty opts.conflict_message ≡ true)
      → from (some e) ≡ some a
      → Presentable e a
      → RepositoryTold says_not_found opts e a

pub record RepositoryAnswer (says_not_found : List Link → Bool) (opts : RepositoryErrorOptions)
    (e : List Link) (a : AppError) : Type 0 where
  pub cause : a.cause ≡ e
  pub told : RepositoryTold says_not_found opts e a

-- An answer that is given to the API wrapped stays that answer.
pub Stays : AppError → Type 0
Stays a = (outer : List Link) → find_app outer ≡ none → from (some (outer ++ as_error a)) ≡ some a
