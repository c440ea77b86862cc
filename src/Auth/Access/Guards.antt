-- ===== src/Auth/Access/Guards.antt =====
-- What the authenticator and the guards let pass.
use kubeflare.Prelude.{
  Bool, not, ◌||◌, ◌≡◌, refl, sym, ap, ◌∙◌, ◌⊎◌, inl, inr, ◌↔◌, true, false, Option, none, some,
  String, str_eq, eq_iff, arith, List, [], ◌∷◌, Bool-cases, subst, length,
}
use kubeflare.Prelude.Fallible.{ok, ok_inj}
use kubeflare.Prelude.Text.{trim_space}
use kubeflare.Prelude.Dots.{is_empty}
use kubeflare.Auth.{Read, ◌>>=◌, or_unauthorized, return}
use kubeflare.Auth.Steps.{then_read-ok, hidden-ok, error-not-ok}
use kubeflare.Auth.Tokens.{
  SignedTokenPayload, SignedTokenManager, Env, Principal, from_unix, verify_token,
}
use kubeflare.Auth.Tokens.Verify.{Verified, verify_token_lem}
use kubeflare.Auth.Access.{
  SignedTokenAuthenticator, authenticate, authenticate_with, expiring, has_role, any_role,
  principal_has_any_role, Request, bearer_token, require_csrf, is_safe_method, csrf_matches,
  token_from, token_from_http_request, is_some,
}

module _ {S : Type 0} (env : Env S) where
  -- The manager and the resolver, the payload that the token verifies to as an access token, and the
  -- principal that its subject resolves to, which ends when the token does.
  pub record Authenticated (a : SignedTokenAuthenticator env) (token : String) (s t : S)
      (principal : Principal) : Type 0 where
    pub manager : SignedTokenManager S
    pub has_manager : a.token_manager ≡ some manager
    pub resolve : String → Read S Principal
    pub has_resolver : a.resolver ≡ some resolve
    pub payload : SignedTokenPayload
    pub between : S
    pub verified : Verified env manager token "access" s between payload
    pub found : Principal
    pub resolved : resolve payload.subject between ≡ (ok found, t)
    pub subject : principal.subject ≡ found.subject
    pub roles : principal.roles ≡ found.roles
    pub expires_at : principal.expires_at ≡ from_unix payload.expires_at

  with-Authenticated :
      (a : SignedTokenAuthenticator env) (om : Option (SignedTokenManager S))
      (o : Option (String → Read S Principal)) (token : String) (s t : S) (p : Principal)
      → a.token_manager ≡ om
      → a.resolver ≡ o
      → authenticate_with env om o token s ≡ (ok p, t)
      → Authenticated a token s t p
  with-Authenticated a none o token s t p hm hr h = error-not-ok _ p s t h
  with-Authenticated a (some m) none token s t p hm hr h = error-not-ok _ p s t h
  with-Authenticated a (some m) (some resolve) token s t p hm hr h =
      let (payload, u, first, rest) =
        then_read-ok (or_unauthorized (verify_token env m token "access") s)
          (λ payload. or_unauthorized (resolve payload.subject) >>= λ principal.
            return (expiring env principal (from_unix payload.expires_at)))
          p t h in
      let (found, v, second, end) =
        then_read-ok (or_unauthorized (resolve payload.subject) u)
          (λ principal. return (expiring env principal (from_unix payload.expires_at))) p t rest in
      let same = ok_inj (ap (λ (r, x). r) end) in
      record {
        manager = m;
        has_manager = hm;
        resolve = resolve;
        has_resolver = hr;
        payload = payload;
        between = u;
        verified =
            (verify_token_lem env m token "access" s u payload).0 (hidden-ok _ payload u first);
        found = found;
        resolved = hidden-ok _ found v second ∙ ap (λ x. (ok found, x)) (ap (λ (r, x). x) end);
        subject = ap (λ x. x.subject) (sym same);
        roles = ap (λ x. x.roles) (sym same);
        expires_at = ap (λ x. x.expires_at) (sym same);
      }

  -- A request is authenticated only with a token that verifies as an access token; the principal is
  -- the one that its subject resolves to, and ends when the token does.
  pub authenticate-Authenticated :
      (a : SignedTokenAuthenticator env) (token : String) (s t : S) (p : Principal)
      → authenticate env a token s ≡ (ok p, t)
      → Authenticated a token s t p
  unfolding authenticate
  authenticate-Authenticated a token s t p h =
      with-Authenticated a a.token_manager a.resolver token s t p refl refl h

-- A text in a list of texts.
pub data In (x : String) : List String → Type 0 where
  here : {xs : List String} → In x (x ∷ xs)
  there : {y : String} {xs : List String} → In x xs → In x (y ∷ xs)

has_role-In : (roles : List String) (role : String) → has_role roles role ≡ true → In role roles
unfolding has_role
has_role-In [] role h = ground arith
has_role-In (r ∷ roles) role h = elim (Bool-cases (str_eq r role)) [
  | inl e ↦ subst (λ x. In role (x ∷ roles)) (ground (arith, eq_iff r role, e)) here
  | inr e ↦ there (has_role-In roles role (rw e at h))
]

In-has_role : (roles : List String) (role : String) → In role roles → has_role roles role ≡ true
unfolding has_role
In-has_role [] role i = elim i [ ]
In-has_role (r ∷ roles) role here = ground (arith, eq_iff r role)
In-has_role (r ∷ roles) role (there i) = ground (arith, In-has_role roles role i)

any_role-In :
    (own roles : List String)
    → any_role own roles ≡ true
    → (role : String) × In role own × In role roles
any_role-In own [] h = ground arith
any_role-In own (role ∷ roles) h = elim (Bool-cases (has_role own role)) [
  | inl e ↦ (role, has_role-In own role e, here)
  | inr e ↦ let (x, i, j) = any_role-In own roles (rw e at h) in (x, i, there j)
]

In-any_role :
    (own roles : List String) (role : String)
    → In role own
    → In role roles
    → any_role own roles ≡ true
In-any_role own [] role i j = elim j [ ]
In-any_role own (x ∷ roles) role i here = rw (In-has_role own role i) refl
In-any_role own (x ∷ roles) role i (there j) = ground (arith, In-any_role own roles role i j)

-- A principal passes the guard of some roles exactly when no role is asked for or it has one of them.
pub principal_has_any_role_lem :
    (own roles : List String)
    → (principal_has_any_role own roles ≡ true)
      ↔ ((roles ≡ []) ⊎ ((role : String) × In role own × In role roles))
unfolding principal_has_any_role
principal_has_any_role_lem own [] = (λ h. inl refl, λ h. refl)
principal_has_any_role_lem own (r ∷ roles) = (
  λ h. inr (any_role-In own (r ∷ roles) h),
  λ h. elim h [
    | inl e ↦ ground (arith, ap length e)
    | inr (x, i, j) ↦ In-any_role own (r ∷ roles) x i j
  ],
)

csrf_matches_lem :
    (header : String) (o : Option String)
    → csrf_matches header o ≡ true
    → (cookie : String) × (o ≡ some cookie)
      × (trim_space header ≡ trim_space cookie)
      × (is_empty (trim_space header) ≡ false)
csrf_matches_lem header none h = ground arith
csrf_matches_lem header (some cookie) h = (
  cookie,
  refl,
  ground (arith, h, eq_iff (trim_space header) (trim_space cookie)),
  ground (arith, h),
)

-- How a request that carries a token may pass the guard.
pub data Passes (r : Request) (token : String) : Type 0 where
  -- It changes nothing.
  safe : (r.method ≡ "GET") ⊎ (r.method ≡ "HEAD") ⊎ (r.method ≡ "OPTIONS") → Passes r token
  -- The token is the one of its Authorization header, which no browser sends by itself.
  borne : bearer_token r.authorization ≡ some token → Passes r token
  -- Its CSRF header is the CSRF cookie, both trimmed, and not blank.
  matched :
      (cookie : String)
      → r.csrf_cookie ≡ some cookie
      → trim_space r.csrf_header ≡ trim_space cookie
      → is_empty (trim_space r.csrf_header) ≡ false
      → Passes r token

safe_method-cases :
    (method : String)
    → is_safe_method method ≡ true
    → (method ≡ "GET") ⊎ (method ≡ "HEAD") ⊎ (method ≡ "OPTIONS")
safe_method-cases method h = elim (Bool-cases (str_eq method "GET")) [
  | inl e ↦ inl ((eq_iff method "GET").0 e)
  | inr e ↦ elim (Bool-cases (str_eq method "HEAD")) [
    | inl e' ↦ inr (inl ((eq_iff method "HEAD").0 e'))
    | inr e' ↦ inr (inr ((eq_iff method "OPTIONS").0 (rw (e, e') at h)))
  ]
]

or-cases : (a b c d : Bool) → (a || b || c || d) ≡ true → (a ≡ true) ⊎ ((b || (c || d)) ≡ true)
or-cases true b c d h = inl refl
or-cases false true c d h = inr refl
or-cases false false c d h = inr h

-- Behind the test of the method: by the bearer token and the cookie that carry the token.
unsafe_passes :
    (r : Request) (token : String) (bearer cookie : Option String)
    → bearer_token r.authorization ≡ bearer
    → r.access_cookie ≡ cookie
    → token_from bearer cookie ≡ some token
    → (is_some bearer || (not (is_some cookie) || csrf_matches r.csrf_header r.csrf_cookie)) ≡ true
    → Passes r token
unsafe_passes r token (some t) cookie bore kept carried h = borne (bore ∙ carried)
unsafe_passes r token none none bore kept carried h = ground (arith, carried)
unsafe_passes r token none (some value) bore kept carried h =
    let (c, is, same, filled) = csrf_matches_lem r.csrf_header r.csrf_cookie h in
    matched c is same filled

-- A request that the CSRF guard lets pass and from which a token is taken changes nothing, or bears that
-- token in its Authorization header, or has a CSRF header that is not blank and is the CSRF cookie, both
-- trimmed: no request that may change something passes by its access cookie alone.
pub require_csrf-Passes :
    (r : Request) (token : String)
    → require_csrf r ≡ true
    → token_from_http_request r ≡ some token
    → Passes r token
unfolding require_csrf token_from_http_request
require_csrf-Passes r token h carried =
    elim (or-cases (is_safe_method r.method) (is_some (bearer_token r.authorization))
      (not (is_some r.access_cookie)) (csrf_matches r.csrf_header r.csrf_cookie) h) [
        | inl e ↦ safe (safe_method-cases r.method e)
        | inr e ↦
            unsafe_passes r token (bearer_token r.authorization) r.access_cookie refl refl carried e
      ]
