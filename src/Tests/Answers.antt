-- ===== src/Tests/Answers.antt =====
-- The answers of the API and the guards of a request at concrete inputs.
use kubeflare.Prelude.{refl, Bool, false, some, List}
use kubeflare.Prelude.Text.{trim_space}
use kubeflare.Prelude.Dots.{strip_prefix}
use kubeflare.Errors.{Link, RepositoryErrorOptions}
use kubeflare.Auth.Access.{Request, require_csrf, bearer_token, token_from_http_request}
use kubeflare.Auth.Access.Guards.{Passes, require_csrf-Passes}

abbrev no_text : List Link → Bool
no_text e = false

abbrev options : RepositoryErrorOptions
options = record {
  not_found_code = 40101;
  not_found_message = "user not found";
  conflict_code = 40102;
  conflict_message = "user exists";
}

abbrev post : Request
post = record {
  method = "POST";
  authorization = "";
  csrf_header = " t0ken ";
  access_cookie = some "session";
  csrf_cookie = some "t0ken";
}

require_csrf-Passes_example : Passes post "session"
unfolding require_csrf token_from_http_request bearer_token trim_space strip_prefix
require_csrf-Passes_example = require_csrf-Passes post "session" refl refl
