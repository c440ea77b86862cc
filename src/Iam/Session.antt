-- ===== src/Iam/Session.antt =====
-- internal/module/iam/application/service.go: the refresh of a login, and logging out. The token issuer
-- is a parameter.
pub mod Ended
use kubeflare.Prelude.{
  ◌≡◌, refl, ◌⊎◌, inl, inr, Bool-cases, ap, true, Option, none, some, String, [], if◌then◌else◌,
  arith,
}
use kubeflare.Prelude.Fallible.{ok, ok_inj}
use kubeflare.Prelude.Text.{trim_space}
use kubeflare.Prelude.Dots.{is_empty, is_empty-eq}
use kubeflare.Prelude.Action.{Action, ◌>>=◌, return, fail, then_read-ok, error-not-ok, pure-ok}
use kubeflare.Auth.Tokens.{TokenPair, TokenSubject}
use kubeflare.Iam.{
  User, Errs, TokenIssuer, Libs, Service, unauthorized_because, forbidden_because, resolve_user,
}
use kubeflare.Iam.Steps.{
  on_error, unless_invalid, require, unless_invalid-ok, require-ok, changed-ok, find_user,
  find_user-ok, is_active,
}
use kubeflare.Iam.Login.{LoginResponse, LogoutRequest}

module _ {S : Type 0} (libs : Libs S) where
  abbrev with_pair : User → TokenPair → Action S Errs LoginResponse
  with_pair user pair = return (record { pair = pair; user = user })

  abbrev refresh_for : TokenIssuer S → String → User → Action S Errs LoginResponse
  refresh_for issuer token user = require (is_active user) (forbidden_because "user is disabled") (
      on_error (unauthorized_because "invalid refresh token") (issuer.refresh_token token)
      >>= with_pair user)

  abbrev refresh_subject :
      TokenIssuer S → Service S → String → TokenSubject → Action S Errs LoginResponse
  refresh_subject issuer svc token subject =
      find_user libs svc subject.subject >>= refresh_for issuer token

  abbrev refresh_by : Option (TokenIssuer S) → Service S → String → Action S Errs LoginResponse
  refresh_by none svc token = fail (unauthorized_because "refresh is unavailable" [])
  refresh_by (some issuer) svc token =
      on_error (unauthorized_because "invalid refresh token") (issuer.refresh_token_subject token)
      >>= refresh_subject issuer svc token

  -- `Refresh`; `invalid` is the answer of the validator.
  unfoldable pub refresh : Option Errs → Service S → String → Action S Errs LoginResponse
  unfolding find_user trim_space
  refresh invalid svc refresh_token =
      unless_invalid invalid (refresh_by svc.token_issuer svc (trim_space refresh_token))

  -- A refresh that was granted: the subject of the trimmed token is a user who is active, and the
  -- issuer took that token for a new pair behind these tests.
  pub record Refreshed (svc : Service S) (token : String) (s t : S) (response : LoginResponse)
      : Type 0 where
    pub issuer : TokenIssuer S
    pub subject : TokenSubject
    pub s1 : S
    pub s2 : S
    pub configured : svc.token_issuer ≡ some issuer
    pub known : issuer.refresh_token_subject (trim_space token) s ≡ (ok subject, s1)
    pub found : resolve_user libs svc subject.subject s1 ≡ (ok response.user, s2)
    pub active : is_active response.user ≡ true
    pub taken : issuer.refresh_token (trim_space token) s2 ≡ (ok response.pair, t)

  refresh_by-Refreshed :
      (o : Option (TokenIssuer S)) (svc : Service S) (token : String) (s t : S) (r : LoginResponse)
      → svc.token_issuer ≡ o
      → refresh_by o svc (trim_space token) s ≡ (ok r, t)
      → Refreshed svc token s t r
  refresh_by-Refreshed none svc token s t r is h = error-not-ok _ r s t h
  refresh_by-Refreshed (some issuer) svc token s t r is h =
      let trimmed = trim_space token in
      let (subject, s1, known, rest) =
        then_read-ok (on_error invalid_token (issuer.refresh_token_subject trimmed) s)
          (refresh_subject issuer svc trimmed) r t h in
      let (user, s2, found, rest2) =
        then_read-ok (find_user libs svc subject.subject s1) (refresh_for issuer trimmed) r t
          rest in
      let (active, rest3) = require-ok (is_active user) _ _ s2 t r rest2 in
      let (pair, s3, taken, rest4) =
        then_read-ok (on_error invalid_token (issuer.refresh_token trimmed) s2) (with_pair user) r t
          rest3 in
      let (same, there) = pure-ok _ s3 t r rest4 in
      record {
        issuer = issuer;
        subject = subject;
        s1 = s1;
        s2 = s2;
        configured = is;
        known = changed-ok invalid_token _ s1 subject known;
        found = rw (← ok_inj same) (find_user-ok libs svc subject.subject s1 s2 user found);
        active = rw (← ok_inj same) active;
        taken = rw (← ok_inj same, ← there) (changed-ok invalid_token _ s3 pair taken);
      }
    where
      invalid_token : Errs → Errs
      invalid_token = unauthorized_because "invalid refresh token"

  -- A refresh that is granted is for an active user that the subject of the token names, and it is
  -- the issuer's own refresh of the token that was asked about, after all tests.
  pub refresh-Refreshed :
      (invalid : Option Errs) (svc : Service S) (token : String) (s t : S)
      (response : LoginResponse)
      → refresh invalid svc token s ≡ (ok response, t)
      → (invalid ≡ none) × Refreshed svc token s t response
  unfolding refresh
  refresh-Refreshed invalid svc token s t response h =
      let (valid, rest) = unless_invalid-ok invalid _ s t response h in
      (valid, refresh_by-Refreshed svc.token_issuer svc token s t response refl rest)

abbrev first_non_blank : String → String → String
first_non_blank a b = if is_empty (trim_space a) then trim_space b else trim_space a

module _ {S : Type 0} where
  abbrev revoke_if : (String → S → Option Errs × S) → String → S → Option Errs × S
  revoke_if revoke token s = if is_empty (trim_space token) then (none, s) else revoke token s

  abbrev unless_failed : Option Errs × S → (S → Option Errs × S) → Option Errs × S
  unless_failed (some e, s) next = (some e, s)
  unless_failed (none, s) next = next s

  abbrev logout_by : Option (TokenIssuer S) → String → LogoutRequest → S → Option Errs × S
  logout_by none access_token req s = (none, s)
  logout_by (some issuer) access_token req s =
      if req.all_sessions
      then (if is_empty (first_non_blank access_token req.refresh_token)
          then (some (unauthorized_because "logout token is required" []), s)
          else issuer.revoke_subject_sessions (first_non_blank access_token req.refresh_token) s)
      else unless_failed (revoke_if issuer.revoke_session access_token s)
          (revoke_if issuer.revoke_token req.refresh_token)

  -- `Logout`
  unfoldable pub logout : Service S → String → LogoutRequest → S → Option Errs × S
  unfolding trim_space
  logout svc access_token req = logout_by svc.token_issuer access_token req

  pub revoke_if-done :
      (revoke : String → S → Option Errs × S) (token : String) (s t : S)
      → revoke_if revoke token s ≡ (none, t)
      → ((trim_space token ≡ "") × (s ≡ t)) ⊎ (revoke token s ≡ (none, t))
  revoke_if-done revoke token s t h = elim (Bool-cases (is_empty (trim_space token))) [
    | inl e ↦ inl (is_empty-eq (trim_space token) e, ap (λ (a, b). b) (rw e at h))
    | inr e ↦ inr (rw e at h)
  ]

  pub unless_failed-done :
      (r : Option Errs × S) (next : S → Option Errs × S) (t : S)
      → unless_failed r next ≡ (none, t)
      → (s : S) × (r ≡ (none, s)) × (next s ≡ (none, t))
  unless_failed-done (none, s) next t h = (s, refl, h)
  unless_failed-done (some e, s) next t h = ground (arith, ap (λ (a, b). a) h)
