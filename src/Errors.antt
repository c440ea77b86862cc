-- ===== src/Errors.antt =====
-- internal/shared/errors: how an error becomes the answer of the API. An error is the chain of links
-- that `errors.Is` and `errors.As` walk, the outermost first; a link is told apart as far as this code
-- tells it apart.
pub mod Mapping
use kubeflare.Prelude.{
  ℕ, Bool, true, false, ◌&&◌, ◌||◌, not, Option, none, some, String, List, [], ◌∷◌, if◌then◌else◌,
  ◌==◌,
}
use kubeflare.Prelude.Dots.{is_empty}

-- An `*AppError` is its code, its message and its status; what it wraps is the rest of the chain.
pub data Link : Type 0 where
  app : ℕ → String → ℕ → Link
  validation : String → Link
  json_syntax : Link
  json_type : Link
  eof : Link
  deadline_exceeded : Link
  record_not_found : Link
  duplicated_key : Link
  other : Link

pub record AppError : Type 0 where
  pub code : ℕ
  pub message : String
  pub status : ℕ
  pub cause : List Link

abbrev pub code_internal : ℕ
code_internal = 30000

abbrev pub code_bad_request : ℕ
code_bad_request = 30001

abbrev pub code_not_found : ℕ
code_not_found = 30004

abbrev pub code_conflict : ℕ
code_conflict = 30005

abbrev pub code_timeout : ℕ
code_timeout = 30006

abbrev app_error : ℕ → String → ℕ → List Link → AppError
app_error code message status cause = record {
  code = code;
  message = message;
  status = status;
  cause = cause;
}

-- `errors.As` to `*AppError`
unfoldable pub find_app : List Link → Option AppError
find_app [] = none
find_app (app code message status ∷ links) = some (app_error code message status links)
find_app (_ ∷ links) = find_app links

-- `errors.As` to `validator.ValidationErrors`, with its text.
unfoldable pub find_validation : List Link → Option String
find_validation [] = none
find_validation (validation text ∷ links) = some text
find_validation (_ ∷ links) = find_validation links

-- The tests of a link that `errors.Is` and `errors.As` make.
abbrev is_json_syntax : Link → Bool
is_json_syntax json_syntax = true
is_json_syntax _ = false

abbrev is_json_type : Link → Bool
is_json_type json_type = true
is_json_type _ = false

abbrev is_eof : Link → Bool
is_eof eof = true
is_eof _ = false

abbrev is_deadline_exceeded : Link → Bool
is_deadline_exceeded deadline_exceeded = true
is_deadline_exceeded _ = false

abbrev pub is_record_not_found : Link → Bool
is_record_not_found record_not_found = true
is_record_not_found _ = false

abbrev pub is_duplicated_key : Link → Bool
is_duplicated_key duplicated_key = true
is_duplicated_key _ = false

unfoldable pub any_link : (Link → Bool) → List Link → Bool
any_link p [] = false
any_link p (link ∷ links) = p link || any_link p links

abbrev unrecognised : List Link → AppError
unrecognised e =
    if any_link is_json_syntax e
    then app_error code_bad_request "invalid request body" 400 e
    else if any_link is_json_type e
    then app_error code_bad_request "invalid request body" 400 e
    else if any_link is_eof e
    then app_error code_bad_request "request body is required" 400 e
    else if any_link is_deadline_exceeded e
    then app_error code_timeout "request timed out" 504 e
    else if any_link is_record_not_found e
    then app_error code_not_found "resource not found" 404 e
    else if any_link is_duplicated_key e
    then app_error code_conflict "resource already exists" 409 e
    else app_error code_internal "internal server error" 500 e

abbrev unapp : Option String → List Link → AppError
unapp (some text) e = app_error code_bad_request text 400 e
unapp none e = unrecognised e

abbrev from_chain : Option AppError → List Link → AppError
from_chain (some a) e = a
from_chain none e = unapp (find_validation e) e

-- `From`
unfoldable pub from : Option (List Link) → Option AppError
unfolding find_app find_validation any_link
from none = none
from (some e) = some (from_chain (find_app e) e)

pub record RepositoryErrorOptions : Type 0 where
  pub not_found_code : ℕ
  pub not_found_message : String
  pub conflict_code : ℕ
  pub conflict_message : String

-- An `*AppError` as an error.
abbrev pub as_error : AppError → List Link
as_error a = app a.code a.message a.status ∷ a.cause

abbrev or_default : ℕ → ℕ → ℕ
or_default code fallback = if code == 0 then fallback else code

-- `MapRepository`; `says_not_found` is the test of the error's text for "not found".
unfoldable pub map_repository :
    (List Link → Bool) → Option (List Link) → RepositoryErrorOptions → Option (List Link)
unfolding any_link
map_repository says_not_found none opts = none
map_repository says_not_found (some e) opts =
    if any_link is_record_not_found e || says_not_found e
    then some (
        as_error
          (app_error (or_default opts.not_found_code code_not_found) opts.not_found_message 404 e))
    else if not (is_empty opts.conflict_message) && any_link is_duplicated_key e
    then some (
        as_error
          (app_error (or_default opts.conflict_code code_conflict) opts.conflict_message 409 e))
    else some e
