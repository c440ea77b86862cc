-- ===== src/Auth/Tokens/Rotation.antt =====
-- A refresh token is good for one refresh: the token manager over a store that rotates a record once.
use kubeflare.Prelude.{
  ◌≡◌, ◌≢◌, refl, sym, ap, ◌∙◌, subst, inl, inr, Bool-cases, Option, none, some, String, ℕ, false,
}
use mathlib.Core.Option.{some_inj}
use kubeflare.Prelude.Fallible.{Fallible, ok, err}
use kubeflare.Prelude.Dots.{split_at_dot, split_at_dot-append, is_empty}
use kubeflare.Prelude.Action.{return, written, then_read, then_read-ok, error-not-ok}
use kubeflare.Auth.{AuthError, RefreshTokenRecord, TokenStateStore, Read, or_unauthorized, perform}
use kubeflare.Auth.Steps.{hidden-ok, or-false}
use kubeflare.Auth.Failover.Revocation.{Leaves}
use kubeflare.Auth.Failover.Once.{RotatesOnce}
use kubeflare.Auth.Tokens.{
  SignedTokenPayload, SignedTokenManager, TokenPair, Env, verify_token, issue_token, refresh_token,
  reissued, with_access, rotated, refresh_record, signed, if_store, pair_of,
}
use kubeflare.Auth.Tokens.Verify.{Standing, Verified, verify_token_lem}

module _ {S : Type 0} (env : Env S) where
  -- One token has one payload.
  same_payload :
      (m : SignedTokenManager S) (token kind : String) (s t s' t' : S) (p p' : SignedTokenPayload)
      → Verified env m token kind s t p
      → Verified env m token kind s' t' p'
      → p ≡ p'
  same_payload m token kind s t s' t' p p' v w =
      let (front, _) = or-false _ _ v.plain in
      let (front', _) = or-false _ _ w.plain in
      let both =
        sym (split_at_dot-append v.head (env.sign m.secret v.head) front)
        ∙ ap split_at_dot (sym v.signed ∙ w.signed)
        ∙ split_at_dot-append w.head (env.sign m.secret w.head) front' in
      let heads : v.head ≡ w.head = ap first (some_inj.0 both) in
      some_inj.0 (sym v.decoded ∙ ap env.decode heads ∙ w.decoded)
    where
      first : String × String → String
      first (a, b) = a

  -- What leaves a record of a token's end alone: the clock, the random ids and the questions to the
  -- store.
  pub record Calm (store : TokenStateStore S) (Known : S → Type 0) : Type 0 where
    pub clock : Leaves Known env.now
    pub ids : Leaves Known env.new_token_id
    pub tokens : (id : String) → Leaves Known (store.is_token_revoked id)
    pub sessions : (id : String) → Leaves Known (store.is_session_revoked id)

  module _ (store : TokenStateStore S) (Known : S → Type 0) (calm : Calm store Known) where
    verified-Known :
        (m : SignedTokenManager S) (token kind : String) (s t : S) (p : SignedTokenPayload)
        → m.store ≡ some store
        → Verified env m token kind s t p
        → Known s
        → Known t
    verified-Known m token kind s t p is v known =
        let (u, first, second) = subst (λ o. Standing env p o v.after t) is v.standing in
        calm.sessions p.session_id u t (ok false) second
          (calm.tokens p.id v.after u (ok false) first (calm.clock s v.after v.at v.clock known))

    encoded-Known :
        (m : SignedTokenManager S) (payload : SignedTokenPayload) (r : Fallible AuthError String)
        (s t : S) (a : String × SignedTokenPayload)
        → then_read (r, s) (λ head. return (signed env m payload head)) ≡ (ok a, t)
        → Known s
        → Known t
    encoded-Known m payload (ok head) s t a h known = subst Known (ap (λ (x, y). y) h) known
    encoded-Known m payload (err e) s t a h known = error-not-ok e a s t h

    issue_token-Known :
        (m : SignedTokenManager S) (kind subject session_id : String) (ttl : ℕ) (s t : S)
        (a : String × SignedTokenPayload)
        → issue_token env m kind subject session_id ttl s ≡ (ok a, t)
        → Known s
        → Known t
    unfolding issue_token
    issue_token-Known m kind subject session_id ttl s t a h known =
        elim (Bool-cases (is_empty m.secret)) [
          | inl e ↦ error-not-ok _ a s t (rw e at h)
          | inr e ↦
              let (id, u) = env.new_token_id s in
              let (at, v) = env.now u in
              encoded-Known m _ _ v t a (rw e at h)
                (calm.clock u v at refl (calm.ids s u id refl known))
        ]

  -- What a refresh that went through did: the token had a payload, and the store rotated its record.
  pub record Rotated (m : SignedTokenManager S) (store : TokenStateStore S) (token : String)
      (Known : RefreshTokenRecord → S → Type 0) (s t : S) : Type 0 where
    pub payload : SignedTokenPayload
    pub new : RefreshTokenRecord
    pub after : S
    pub before : S
    pub verified : Verified env m token "refresh" s after payload
    pub kept : (old : RefreshTokenRecord) → Known old s → Known old before
    pub rotation : store.rotate_refresh_token (refresh_record env payload) new before ≡ (none, t)

  written-ok :
      (r : Option AuthError × S) (next : Read S TokenPair) (pair : TokenPair) (t : S)
      → then_read (written r) (λ _. next) ≡ (ok pair, t)
      → (u : S) × (r ≡ (none, u)) × (next u ≡ (ok pair, t))
  written-ok (none, s) next pair t h = (s, refl, h)
  written-ok (some e, s) next pair t h = error-not-ok e pair s t h

  -- A refresh that succeeds has verified the token and rotated its record.
  refresh_token-Rotated :
      (m : SignedTokenManager S) (store : TokenStateStore S) (token : String)
      (Known : RefreshTokenRecord → S → Type 0) (s t : S) (pair : TokenPair)
      → m.store ≡ some store
      → ((old : RefreshTokenRecord) → Calm store (Known old))
      → refresh_token env m token s ≡ (ok pair, t)
      → Rotated m store token Known s t
  unfolding refresh_token
  refresh_token-Rotated m store token Known s t pair is calm h =
      let (payload, s1, hidden_verified, h1) =
        then_read-ok (or_unauthorized (verify_token env m token "refresh") s) (reissued env m) pair
          t h in
      let verified =
        (verify_token_lem env m token "refresh" s s1 payload).0
          (hidden-ok (verify_token env m token "refresh" s) payload s1 hidden_verified) in
      let (at, s2) = env.now s1 in
      let (access, s3, first, h2) =
        then_read-ok (issue_token env m "access" payload.subject payload.session_id m.access_ttl s2)
          (with_access env m payload at) pair t h1 in
      let (refresh, s4, second, h3) =
        then_read-ok
          (issue_token env m "refresh" payload.subject payload.session_id m.refresh_ttl s3)
          (rotated env m payload at access) pair t h2 in
      let h4 : then_read
            (if_store env
              (λ store. perform (
                store.rotate_refresh_token (refresh_record env payload)
                  (refresh_record env (refresh.1))))
              (some store) s4)
            (λ _. return (pair_of env at payload.session_id access refresh))
          ≡ (ok pair, t) =
        subst
          (λ o.
            then_read
              (if_store env
                (λ store. perform (
                  store.rotate_refresh_token (refresh_record env payload)
                    (refresh_record env (refresh.1))))
                o s4)
              (λ _. return (pair_of env at payload.session_id access refresh))
            ≡ (ok pair, t))
          is h3 in
      let (u, rotation, same) =
        written-ok
          (store.rotate_refresh_token (refresh_record env payload) (refresh_record env (refresh.1))
            s4)
          (return (pair_of env at payload.session_id access refresh)) pair t h4 in
      record {
        payload = payload;
        new = refresh_record env (refresh.1);
        after = s1;
        before = s4;
        verified = verified;
        kept = λ old known.
            issue_token-Known store (Known old) (calm old) m "refresh" payload.subject
              payload.session_id m.refresh_ttl s3 s4 refresh second
              (issue_token-Known store (Known old) (calm old) m "access" payload.subject
                payload.session_id m.access_ttl s2 s3 access first
                ((calm old).clock s1 s2 at refl (
                  verified-Known store (Known old) (calm old) m token "refresh" s s1 payload is
                    verified known)));
        rotation =
            subst
              (λ x.
                store.rotate_refresh_token (refresh_record env payload)
                  (refresh_record env (refresh.1)) s4
                ≡ (none, x))
              (ap (λ (a, b). b) same) rotation;
      }

  -- With a store that rotates a record once, where the clock, the random ids and the questions to the
  -- store leave the end of a record alone, a refresh token that was refreshed is never refreshed again,
  -- in whatever later state the ends of the records still stand.
  pub refresh_token-single :
      (m : SignedTokenManager S) (store : TokenStateStore S) (token : String)
      (Known : RefreshTokenRecord → S → Type 0)
      → m.store ≡ some store
      → ((old : RefreshTokenRecord) → RotatesOnce store old (Known old))
      → ((old : RefreshTokenRecord) → Calm store (Known old))
      → (s s' : S) (pair : TokenPair) → refresh_token env m token s ≡ (ok pair, s')
      → (later t : S) (pair' : TokenPair)
      → ((old : RefreshTokenRecord) → Known old s' → Known old later)
      → refresh_token env m token later ≢ (ok pair', t)
  refresh_token-single m store token Known is law calm s s' pair first later t pair' kept again =
      let one = refresh_token-Rotated m store token Known s s' pair is calm first in
      let two = refresh_token-Rotated m store token Known later t pair' is calm again in
      let same =
        same_payload m token "refresh" s one.after later two.after one.payload two.payload
          one.verified two.verified in
      let old = refresh_record env one.payload in
      let spent = (law old).rotated one.new one.before s' one.rotation in
      (law old).spent two.new two.before t (two.kept old (kept old spent)) (
        subst
          (λ p. store.rotate_refresh_token (refresh_record env p) two.new two.before ≡ (none, t))
          (sym same) two.rotation)
