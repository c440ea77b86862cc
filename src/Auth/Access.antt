-- ===== src/Auth/Access.antt =====
-- internal/shared/middleware/authn.go: the revocation of sessions, the authenticator, and the tests
-- of a request for roles and for its CSRF token. A request is its method, its headers and its
-- cookies; a cookie that is missing is `none`.
pub mod Guards
use kubeflare.Prelude.{
  ℕ, ◌+◌, Bool, true, false, ◌&&◌, ◌||◌, not, Option, none, some, String, str_eq, ltb,
  if◌then◌else◌, List, [], ◌∷◌,
}
use kubeflare.Prelude.Fallible.{Fallible, ok, err}
use kubeflare.Prelude.Text.{trim_space}
use kubeflare.Prelude.Dots.{is_empty, strip_prefix}
use kubeflare.Auth.{
  AuthError, unauthorized, TokenSession, Read, TokenStateStore, ◌>>=◌, ◌>>◌, perform, return, fail,
  or_unauthorized, always,
}
use kubeflare.Auth.Tokens.{SignedTokenManager, Env, Principal, from_unix, verify_token, if_store}

module _ {S : Type 0} (env : Env S) where
  abbrev later_of : ℕ → Fallible AuthError TokenSession × S → Fallible AuthError ℕ × S
  later_of expires_at (err e, s) = (ok expires_at, s)
  later_of expires_at (ok session, s) =
      let (t, s') = env.now s in
      (ok (if ltb t session.expires_at then session.expires_at else expires_at), s')

  -- Until when a revocation of the session is kept: the session's own end, or a whole lifetime.
  abbrev pub revoked_until : SignedTokenManager S → TokenStateStore S → String → Read S ℕ
  revoked_until m store session_id =
      always env.now >>= λ t s. later_of (t + m.refresh_ttl) (store.get_session session_id s)

  unfoldable pub revoke_session : SignedTokenManager S → String → Read S (Unit {0})
  unfolding verify_token
  revoke_session m token = do
    payload ← or_unauthorized (verify_token env m token "")
    if_store env
        (λ store. revoked_until m store payload.session_id >>= λ expires_at.
          perform (store.revoke_session payload.session_id expires_at))
        m.store

  unfoldable pub revoke_subject_sessions : SignedTokenManager S → String → Read S (Unit {0})
  unfolding verify_token
  revoke_subject_sessions m token = do
    payload ← or_unauthorized (verify_token env m token "")
    if_store env
        (λ store. revoked_until m store payload.session_id >>= λ expires_at.
          perform (store.revoke_subject_sessions payload.subject expires_at))
        m.store

  -- `a.tokenManager` and `a.resolver`, which may be nil.
  pub record SignedTokenAuthenticator : Type 0 where
    pub token_manager : Option (SignedTokenManager S)
    pub resolver : Option (String → Read S Principal)

  abbrev expiring : Principal → ℕ → Principal
  expiring principal expires_at = record principal { expires_at = expires_at }

  abbrev authenticate_with :
      Option (SignedTokenManager S) → Option (String → Read S Principal) → String → Read S Principal
  authenticate_with none resolver token = fail unauthorized
  authenticate_with (some m) none token = fail unauthorized
  authenticate_with (some m) (some resolve) token = do
    payload ← or_unauthorized (verify_token env m token "access")
    principal ← or_unauthorized (resolve payload.subject)
    return (expiring principal (from_unix payload.expires_at))

  unfoldable pub authenticate : SignedTokenAuthenticator → String → Read S Principal
  unfolding verify_token
  authenticate a token = authenticate_with a.token_manager a.resolver token

-- `HasRole` of the roles of a principal.
unfoldable pub has_role : List String → String → Bool
has_role [] role = false
has_role (r ∷ roles) role = str_eq r role || has_role roles role

abbrev any_role : List String → List String → Bool
any_role own [] = false
any_role own (role ∷ roles) = has_role own role || any_role own roles

unfoldable pub principal_has_any_role : List String → List String → Bool
principal_has_any_role own [] = true
principal_has_any_role own (role ∷ roles) = any_role own (role ∷ roles)

abbrev non_empty : String → Option String
non_empty token = if is_empty token then none else some token

abbrev bearer_of : Option String → Option String
bearer_of none = none
bearer_of (some rest) = non_empty (trim_space rest)

unfoldable pub bearer_token : String → Option String
unfolding strip_prefix trim_space
bearer_token header = bearer_of (strip_prefix "Bearer " header)

-- The parts of a request that the guards read.
pub record Request : Type 0 where
  pub method : String
  pub authorization : String
  pub csrf_header : String
  pub access_cookie : Option String
  pub csrf_cookie : Option String

abbrev token_from_cookie : Option String → Option String
token_from_cookie none = none
token_from_cookie (some value) = non_empty (trim_space value)

abbrev token_from : Option String → Option String → Option String
token_from (some token) cookie = some token
token_from none cookie = token_from_cookie cookie

unfoldable pub token_from_http_request : Request → Option String
unfolding bearer_token trim_space
token_from_http_request r = token_from (bearer_token r.authorization) r.access_cookie

-- Whether `RequireCSRFHTTP` and `RequireCSRFGin` let a request pass.
abbrev is_safe_method : String → Bool
is_safe_method method = str_eq method "GET" || str_eq method "HEAD" || str_eq method "OPTIONS"

abbrev csrf_matches : String → Option String → Bool
csrf_matches header none = false
csrf_matches header (some cookie) =
    not (is_empty (trim_space header)) && str_eq (trim_space header) (trim_space cookie)

abbrev is_some {ℓ} : {A : Type ℓ} → Option A → Bool
is_some none = false
is_some (some a) = true

unfoldable pub require_csrf : Request → Bool
unfolding bearer_token trim_space
require_csrf r =
    is_safe_method r.method
    || is_some (bearer_token r.authorization)
    || not (is_some r.access_cookie)
    || csrf_matches r.csrf_header r.csrf_cookie
