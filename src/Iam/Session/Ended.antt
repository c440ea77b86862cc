-- ===== src/Iam/Session/Ended.antt =====
-- A login that was ended: the logout of internal/module/iam/application/service.go over the token
-- manager of internal/shared/middleware/authn.go, which is the service's issuer of tokens.
use kubeflare.Prelude.{
  ℕ, ◌≡◌, ◌≢◌, ap, sym, subst, inl, inr, ◌⊎◌, false, Option, none, some, String, arith,
}
use kubeflare.Prelude.Fallible.{Fallible, ok, err}
use kubeflare.Prelude.Text.{trim_space}
use kubeflare.Prelude.Dots.{is_empty}
use kubeflare.Prelude.Action.{written, perform, then_read-ok, error-not-ok}
use kubeflare.Auth.{AuthError, TokenStateStore, Read, ◌>>=◌, or_unauthorized}
use kubeflare.Auth.Steps.{hidden-ok}
use kubeflare.Auth.Failover.Revocation.{Leaves}
use kubeflare.Auth.Tokens.{
  SignedTokenPayload, SignedTokenManager, Env, verify_token, issue_token_pair, refresh_token,
  refresh_token_subject, if_store, from_unix,
}
use kubeflare.Auth.Tokens
use kubeflare.Auth.Tokens.Verify.{Standing, Verified, verify_token_lem}
use kubeflare.Auth.Tokens.Rotation.{Calm}
use kubeflare.Auth.Access
use kubeflare.Auth.Access.{revoked_until}
use kubeflare.Iam.{Errs, TokenIssuer, Service}
use kubeflare.Iam.Login.{LogoutRequest}
use kubeflare.Iam.Session.{revoke_if, revoke_if-done, unless_failed-done, logout}

module _ {S A : Type 0} (wrap : AuthError → Errs) where
  abbrev renamed : Fallible AuthError A × S → Fallible Errs A × S
  renamed (ok a, s) = (ok a, s)
  renamed (err e, s) = (err (wrap e), s)

  abbrev failure_of : Fallible AuthError A × S → Option Errs × S
  failure_of (ok a, s) = (none, s)
  failure_of (err e, s) = (some (wrap e), s)

-- The token manager as the service's issuer; `wrap` is what `errors.As` finds in an error of it.
abbrev pub issuer_of :
    {S : Type 0} → Env S → (AuthError → Errs) → SignedTokenManager S → TokenIssuer S
issuer_of env wrap m = record {
  issue_token_pair = λ subject s. renamed wrap (issue_token_pair env m subject s);
  refresh_token = λ token s. renamed wrap (refresh_token env m token s);
  refresh_token_subject = λ token s. renamed wrap (refresh_token_subject env m token s);
  revoke_token = λ token s. failure_of wrap (Tokens.revoke_token env m token s);
  revoke_session = λ token s. failure_of wrap (Access.revoke_session env m token s);
  revoke_subject_sessions =
      λ token s. failure_of wrap (Access.revoke_subject_sessions env m token s);
}

-- What a store promises of a session's end: once it recorded it, it never denies it.
pub record EndsSession {S : Type 0} (store : TokenStateStore S) (session_id : String)
    (Ended : S → Type 0) : Type 0 where
  pub recorded :
      (expires_at : ℕ) (s t : S)
      → store.revoke_session session_id expires_at s ≡ (none, t)
      → Ended t
  pub told : (s t : S) → Ended s → store.is_session_revoked session_id s ≢ (ok false, t)

failure_of-none :
    {S A : Type 0} (wrap : AuthError → Errs) (r : Fallible AuthError A × S) (t : S)
    → failure_of wrap r ≡ (none, t)
    → (a : A) × (r ≡ (ok a, t))
failure_of-none wrap (ok a, s) t h = (a, ap (λ (x, y). (ok a, y)) h)
failure_of-none wrap (err e, s) t h = ground (arith, ap (λ (x, y). x) h)

written-none :
    {S : Type 0} (r : Option AuthError × S) (a : Unit {0}) (t : S)
    → written r ≡ (ok a, t)
    → r ≡ (none, t)
written-none (none, s) a t h = ap (λ (e, x). (none, x)) h
written-none (some e, s) a t h = error-not-ok e a s t h

module _ {S : Type 0} (env : Env S) (m : SignedTokenManager S) (store : TokenStateStore S)
    (is : m.store ≡ some store) (Ended : String → S → Type 0)
    (law : (session_id : String) → EndsSession store session_id (Ended session_id)) where
  abbrev record_end : SignedTokenPayload → TokenStateStore S → Read S (Unit {0})
  record_end payload store = revoked_until env m store payload.session_id >>= λ expires_at.
      perform (store.revoke_session payload.session_id expires_at)

  -- A session that was revoked is that of a token that verified, and its end is recorded.
  revoke_session-Ended :
      (token : String) (s t : S) (a : Unit {0})
      → Access.revoke_session env m token s ≡ (ok a, t)
      → (payload : SignedTokenPayload) × (u : S) × Verified env m token "" s u payload
        × Ended payload.session_id t
  unfolding Access.revoke_session
  revoke_session-Ended token s t a h =
      let (payload, u, hidden, h1) =
        then_read-ok (or_unauthorized (verify_token env m token "") s)
          (λ payload. if_store env (record_end payload) m.store) a t h in
      let verified =
        (verify_token_lem env m token "" s u payload).0
          (hidden-ok (verify_token env m token "" s) payload u hidden) in
      let recording = subst (λ o. if_store env (record_end payload) o u ≡ (ok a, t)) is h1 in
      let (expires_at, v, until, h2) =
        then_read-ok (revoked_until env m store payload.session_id u)
          (λ expires_at. perform (store.revoke_session payload.session_id expires_at)) a t
          recording in
      (
        payload,
        u,
        verified,
        (law payload.session_id).recorded expires_at v t (written-none _ a t h2),
      )

  -- No token verifies whose session's end stands.
  Ended-refused :
      (token kind : String) (p : SignedTokenPayload) (s t : S)
      → Calm env store (Ended p.session_id)
      → Ended p.session_id s
      → verify_token env m token kind s ≢ (ok p, t)
  Ended-refused token kind p s t calm ended h =
      let v = (verify_token_lem env m token kind s t p).0 h in
      let (u, first, second) = subst (λ o. Standing env p o v.after t) is v.standing in
      (law p.session_id).told u t
        (calm.tokens p.id v.after u (ok false) first (calm.clock s v.after v.at v.clock ended))
        second

-- The refresh token of a logout that went through: blank, or a token that verified once the session
-- had ended, of another session, and that the store was told to revoke.
abbrev pub Elsewhere :
    {S : Type 0}
    → Env S
    → SignedTokenManager S
    → TokenStateStore S
    → String
    → SignedTokenPayload
    → S
    → S
    → Type 0
Elsewhere {S} env m store token payload u s' =
    ((trim_space token ≡ "") × (u ≡ s'))
    ⊎ ((p : SignedTokenPayload) × (t : S) × (verify_token env m token "" u ≡ (ok p, t))
        × (p.session_id ≢ payload.session_id)
        × (store.revoke_token p.id (from_unix p.expires_at) t ≡ (none, s')))

abbrev recording : {S : Type 0} → SignedTokenPayload → TokenStateStore S → Read S (Unit {0})
recording p store = perform (store.revoke_token p.id (from_unix p.expires_at))

token_revoked :
    {S : Type 0} (env : Env S) (m : SignedTokenManager S) (store : TokenStateStore S)
    → m.store ≡ some store
    → (token : String) (s t : S) (a : Unit {0}) → Tokens.revoke_token env m token s ≡ (ok a, t)
    → (p : SignedTokenPayload) × (u : S) × (verify_token env m token "" s ≡ (ok p, u))
      × (store.revoke_token p.id (from_unix p.expires_at) u ≡ (none, t))
unfolding Tokens.revoke_token
token_revoked env m store is token s t a h =
    let (p, u, hidden, rest) =
      then_read-ok (or_unauthorized (verify_token env m token "") s)
        (λ p. if_store env (recording p) m.store) a t h in
    (
      p,
      u,
      hidden-ok (verify_token env m token "" s) p u hidden,
      written-none _ a t (subst (λ o. if_store env (recording p) o u ≡ (ok a, t)) is rest),
    )

-- Over a store that never denies a session's end that it recorded, where the clock, the questions to the
-- store and the revocation of the request's refresh token leave that alone: a logout of one session with
-- an access token that is not blank, which returns no error, was made with a token that verified; no
-- token of that session, of whatever kind, verifies in any later state where the end still stands; and
-- its refresh token was blank, or of another session and revoked in the store, since that of the session
-- it ended is refused.
pub logout-verify_token :
    {S : Type 0} (env : Env S) (wrap : AuthError → Errs) (m : SignedTokenManager S)
    (store : TokenStateStore S) (svc : Service S) (Ended : String → S → Type 0)
    → m.store ≡ some store
    → svc.token_issuer ≡ some (issuer_of env wrap m)
    → ((session_id : String) → EndsSession store session_id (Ended session_id))
    → ((session_id : String) → Calm env store (Ended session_id))
    → (access_token : String) (req : LogoutRequest) (s s' : S)
    → ((session_id : String)
        → Leaves (Ended session_id) (Tokens.revoke_token env m req.refresh_token))
    → req.all_sessions ≡ false
    → is_empty (trim_space access_token) ≡ false
    → logout svc access_token req s ≡ (none, s')
    → (payload : SignedTokenPayload) × (u ended : S) × Verified env m access_token "" s u payload
      × Elsewhere env m store req.refresh_token payload ended s'
      × ((later t : S) (token kind : String) (p : SignedTokenPayload)
          → (Ended payload.session_id s' → Ended payload.session_id later)
          → p.session_id ≡ payload.session_id
          → verify_token env m token kind later ≢ (ok p, t))
unfolding logout trim_space
logout-verify_token {S = S} env wrap m store svc Ended is issues law calm access_token req s s'
      leaves one borne h =
    let issuer = issuer_of env wrap m in
    let (u, first, second) =
      unless_failed-done (revoke_if issuer.revoke_session access_token s)
        (revoke_if issuer.revoke_token req.refresh_token) s' (rw (issues, one) at h) in
    let (a, revoked) =
      failure_of-none wrap (Access.revoke_session env m access_token s) u (rw borne at first) in
    let (payload, v, verified, ended) =
      revoke_session-Ended env m store is Ended law access_token s u a revoked in
    let done = revoke_if-done issuer.revoke_token req.refresh_token u s' second in
    let stands = kept payload.session_id u ended done in
    (
      payload,
      v,
      u,
      verified,
      elsewhere payload u ended done,
      λ later t token kind p standing same.
          Ended-refused env m store is Ended law token kind p later t (calm p.session_id)
            (subst (λ i. Ended i later) (sym same) (standing stands)),
    )
  where
    kept :
        (i : String) (u : S)
        → Ended i u
        → ((trim_space req.refresh_token ≡ "") × (u ≡ s'))
          ⊎ (failure_of wrap (Tokens.revoke_token env m req.refresh_token u) ≡ (none, s'))
        → Ended i s'
    kept i u ended (inl (blank, same)) = subst (Ended i) same ended
    kept i u ended (inr called) =
        let (a, revoked) =
          failure_of-none wrap (Tokens.revoke_token env m req.refresh_token u) s' called in
        leaves i u s' (ok a) revoked ended

    elsewhere :
        (payload : SignedTokenPayload) (u : S)
        → Ended payload.session_id u
        → ((trim_space req.refresh_token ≡ "") × (u ≡ s'))
          ⊎ (failure_of wrap (Tokens.revoke_token env m req.refresh_token u) ≡ (none, s'))
        → Elsewhere env m store req.refresh_token payload u s'
    elsewhere payload u ended (inl unused) = inl unused
    elsewhere payload u ended (inr called) =
        let (a, revoked) =
          failure_of-none wrap (Tokens.revoke_token env m req.refresh_token u) s' called in
        let (p, t, took, told) = token_revoked env m store is req.refresh_token u s' a revoked in
        inr (
          p,
          t,
          took,
          λ same.
              Ended-refused env m store is Ended law req.refresh_token "" p u t (calm p.session_id)
                (subst (λ i. Ended i u) (sym same) ended) took,
          told,
        )
