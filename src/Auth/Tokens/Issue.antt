-- ===== src/Auth/Tokens/Issue.antt =====
-- An issued token passes the verification.
use kubeflare.Prelude.{
  ℕ, ◌≡◌, refl, sym, ap, ◌∙◌, ◌<◌, inl, inr, false, ◌||◌, some, String, ◌<>◌, Bool-cases,
}
use kubeflare.Prelude.Fallible.{Fallible, ok, err, ok_inj}
use kubeflare.Prelude.Dots.{has_dot, is_empty}
use kubeflare.Auth.{AuthError, return, then_read}
use kubeflare.Auth.Steps.{error-not-ok}
use kubeflare.Auth.Tokens.{
  SignedTokenPayload, SignedTokenManager, Env, unix, verify_token, issue_token, signed,
}
use kubeflare.Auth.Tokens.Verify.{Standing, verify_token_lem, both_plain}

module _ {S : Type 0} (env : Env S) where
  -- What the code relies on: a payload is decoded as it was encoded, and neither base64 nor the
  -- signature has a dot.
  pub record CodecLaws : Type 0 where
    pub decodes :
        (p : SignedTokenPayload) (head : String) → env.encode p ≡ ok head → env.decode head ≡ some p
    pub plain_head :
        (p : SignedTokenPayload) (head : String) → env.encode p ≡ ok head → has_dot head ≡ false
    pub plain_sign : (secret head : String) → has_dot (env.sign secret head) ≡ false

  -- What an issued token is.
  record Issued (m : SignedTokenManager S) (kind subject session_id token : String)
      (p : SignedTokenPayload) : Type 0 where
    head : String
    encodes : env.encode p ≡ ok head
    joined : token ≡ head <> ("." <> env.sign m.secret head)
    keyed : is_empty m.secret ≡ false
    own_kind : p.kind ≡ kind
    own_subject : p.subject ≡ subject
    own_session : p.session_id ≡ session_id

  encoded-Issued :
      (m : SignedTokenManager S) (kind subject session_id : String) (payload : SignedTokenPayload)
      (r : Fallible AuthError String) (s s' : S) (token : String) (p : SignedTokenPayload)
      → env.encode payload ≡ r
      → is_empty m.secret ≡ false
      → payload.kind ≡ kind
      → payload.subject ≡ subject
      → payload.session_id ≡ session_id
      → then_read (r, s) (λ head. return (signed env m payload head)) ≡ (ok (token, p), s')
      → Issued m kind subject session_id token p
  encoded-Issued m kind subject session_id payload (err e) s s' token p en keyed k n i h =
      error-not-ok e _ s s' h
  encoded-Issued m kind subject session_id payload (ok head) s s' token p en keyed k n i h =
      let made = ok_inj (ap (λ (r, x). r) h) in
      let same = ap (λ (x, y). y) made in
      record {
        head = head;
        encodes = ap env.encode (sym same) ∙ en;
        joined = sym (ap (λ (x, y). x) made);
        keyed = keyed;
        own_kind = ap (λ x. x.kind) (sym same) ∙ k;
        own_subject = ap (λ x. x.subject) (sym same) ∙ n;
        own_session = ap (λ x. x.session_id) (sym same) ∙ i;
      }

  issue_token-Issued :
      (m : SignedTokenManager S) (kind subject session_id : String) (ttl : ℕ) (s s' : S)
      (token : String) (p : SignedTokenPayload)
      → issue_token env m kind subject session_id ttl s ≡ (ok (token, p), s')
      → Issued m kind subject session_id token p
  unfolding issue_token
  issue_token-Issued m kind subject session_id ttl s s' token p h =
      elim (Bool-cases (is_empty m.secret)) [
        | inl e ↦ error-not-ok _ _ s s' (rw e at h)
        | inr e ↦
            encoded-Issued m kind subject session_id _ _ _ s' token p refl e refl refl refl
              (rw e at h)
      ]

  -- An issued token passes the verification for its kind and gives back its payload, in any later
  -- state whose clock is before its end and whose store, if any, denies that the token or its session
  -- is revoked; when its subject, its session and its random id are not empty.
  pub issue_token-verify_token :
      (m : SignedTokenManager S) (kind subject session_id : String) (ttl : ℕ) (s s' u t : S)
      (token : String) (p : SignedTokenPayload)
      → CodecLaws
      → issue_token env m kind subject session_id ttl s ≡ (ok (token, p), s')
      → is_empty subject || is_empty p.id || is_empty session_id ≡ false
      → unix ((env.now u).0) < p.expires_at
      → Standing env p m.store ((env.now u).1) t
      → verify_token env m token kind u ≡ (ok p, t)
  issue_token-verify_token m kind subject session_id ttl s s' u t token p laws h named fresh
        standing =
      let i = issue_token-Issued m kind subject session_id ttl s s' token p h in
      (verify_token_lem env m token kind u t p).1 (record {
        head = i.head;
        signed = i.joined;
        plain =
            both_plain i.head _ (laws.plain_head p i.head i.encodes)
              (laws.plain_sign m.secret i.head);
        decoded = laws.decodes p i.head i.encodes;
        keyed = i.keyed;
        kinded = inr i.own_kind;
        named = rw (i.own_subject, i.own_session) named;
        at = (env.now u).0;
        after = (env.now u).1;
        clock = refl;
        fresh = fresh;
        standing = standing;
      })
