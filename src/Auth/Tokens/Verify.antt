-- ===== src/Auth/Tokens/Verify.antt =====
-- Which tokens pass the verification, and that an issued one does.
use kubeflare.Prelude.{
  ℕ, ◌≡◌, refl, sym, ap, ◌∙◌, ◌<◌, ◌⊎◌, ◌↔◌, inl, inr, true, false, not, ◌&&◌, ◌||◌, Option, none,
  some, String, ◌<>◌, str_eq, eq_iff, arith, leb, Bool-cases,
}
use kubeflare.Prelude.Fallible.{ok}
use kubeflare.Prelude.Dots.{
  split_at_dot, has_dot, is_empty, split_at_dot-append, split_at_dot_sound,
}
use kubeflare.Auth.{TokenStateStore, ◌>>=◌, refuse_if, or_unauthorized, always, return}
use kubeflare.Auth.Steps.{refuse_if-ok, denied-ok, or-false, same-text, error-not-ok}
use kubeflare.Auth.Tokens.{
  SignedTokenPayload, SignedTokenManager, Env, unix, verify_token, not_revoked, verify_payload,
  verify_parts,
}

empty-text : (s : String) → is_empty s ≡ true → s ≡ ""
empty-text String.[] h = refl
empty-text (String.◌∷◌ c s) h = ground (arith, h)

kind_ok :
    (kind own : String)
    → not (is_empty kind) && not (str_eq own kind) ≡ false
    → (kind ≡ "") ⊎ (own ≡ kind)
kind_ok kind own h = elim (Bool-cases (is_empty kind)) [
  | inl e ↦ inl (empty-text kind e)
  | inr e ↦ inr (same-text own kind (rw e at h))
]

pub both_plain :
    (a b : String) → has_dot a ≡ false → has_dot b ≡ false → has_dot a || has_dot b ≡ false
both_plain a b h k = ground (arith, h, k)

signature_ok : (a : String) → has_dot a ≡ false → has_dot a || not (str_eq a a) ≡ false
signature_ok a h = ground (arith, h, eq_iff a a)

kind_passes :
    (kind own : String)
    → (kind ≡ "") ⊎ (own ≡ kind)
    → not (is_empty kind) && not (str_eq own kind) ≡ false
kind_passes kind own (inl e) = rw e refl
kind_passes kind own (inr e) = ground (arith, e, eq_iff own kind)

not_due : (a b : ℕ) → b < a → leb a b ≡ false
not_due a b h = ground (arith, h)

module _ {S : Type 0} (env : Env S) where
  -- Neither the token nor its session is revoked, where there is a store to ask.
  abbrev pub Standing : SignedTokenPayload → Option (TokenStateStore S) → S → S → Type 0
  Standing payload none s t = s ≡ t
  Standing payload (some store) s t =
      (u : S) × (store.is_token_revoked payload.id s ≡ (ok false, u))
      × (store.is_session_revoked payload.session_id u ≡ (ok false, t))

  -- What a payload that passes is.
  pub record Verified (m : SignedTokenManager S) (token kind : String) (s t : S)
      (payload : SignedTokenPayload) : Type 0 where
    pub head : String
    pub signed : token ≡ head <> ("." <> env.sign m.secret head)
    pub plain : has_dot head || has_dot (env.sign m.secret head) ≡ false
    pub decoded : env.decode head ≡ some payload
    pub keyed : is_empty m.secret ≡ false
    pub kinded : (kind ≡ "") ⊎ (payload.kind ≡ kind)
    pub named :
        is_empty payload.subject || is_empty payload.id || is_empty payload.session_id ≡ false
    pub at : ℕ
    pub after : S
    pub clock : env.now s ≡ (at, after)
    pub fresh : unix at < payload.expires_at
    pub standing : Standing payload m.store after t

  not_revoked-Standing :
      (payload p : SignedTokenPayload) (o : Option (TokenStateStore S)) (s t : S)
      → not_revoked env payload o s ≡ (ok p, t)
      → (payload ≡ p) × Standing payload o s t
  not_revoked-Standing payload p none s t h =
      (ground (arith, ap (λ (r, x). r) h), ap (λ (r, x). x) h)
  not_revoked-Standing payload p (some store) s t h =
      let (u, first, rest) =
        denied-ok (store.is_token_revoked payload.id s)
          (or_unauthorized (store.is_session_revoked payload.session_id) >>= λ x.
            refuse_if x (return payload))
          p t h in
      let (v, second, end) =
        denied-ok (store.is_session_revoked payload.session_id u) (return payload) p t rest in
      (
        ground (arith, ap (λ (r, x). r) end),
        (u, first, second ∙ ap (λ x. (ok false, x)) (ap (λ (r, x). x) end)),
      )

  verify_payload-Verified :
      (m : SignedTokenManager S) (token kind head : String) (o : Option SignedTokenPayload)
      (s t : S) (p : SignedTokenPayload)
      → is_empty m.secret ≡ false
      → has_dot head || has_dot (env.sign m.secret head) ≡ false
      → token ≡ head <> ("." <> env.sign m.secret head)
      → env.decode head ≡ o
      → verify_payload env m kind o s ≡ (ok p, t)
      → Verified m token kind s t p
  verify_payload-Verified m token kind head none s t p keyed plain signed decoded h =
      error-not-ok _ p s t h
  verify_payload-Verified m token kind head (some payload) s t p keyed plain signed decoded h =
      let (kinded, rest) =
        refuse_if-ok _
          (refuse_if
            (is_empty payload.subject || is_empty payload.id || is_empty payload.session_id)
            (always env.now >>= λ at.
              refuse_if (leb payload.expires_at (unix at)) (not_revoked env payload m.store)))
          s t p h in
      let (named, rest') =
        refuse_if-ok _
          (always env.now >>= λ at.
            refuse_if (leb payload.expires_at (unix at)) (not_revoked env payload m.store))
          s t p rest in
      let (fresh, rest'') =
        refuse_if-ok _ (not_revoked env payload m.store) ((env.now s).1) t p rest' in
      let (same, standing) = not_revoked-Standing payload p m.store ((env.now s).1) t rest'' in
      rw (← same) (record {
        head = head;
        signed = signed;
        plain = plain;
        decoded = decoded;
        keyed = keyed;
        kinded = kind_ok kind payload.kind kinded;
        named = named;
        at = (env.now s).0;
        after = (env.now s).1;
        clock = refl;
        fresh = ground (arith, fresh);
        standing = standing;
      })

  verify_parts-Verified :
      (m : SignedTokenManager S) (token kind : String) (o : Option (String × String)) (s t : S)
      (p : SignedTokenPayload)
      → is_empty m.secret ≡ false
      → split_at_dot token ≡ o
      → verify_parts env m kind o s ≡ (ok p, t)
      → Verified m token kind s t p
  verify_parts-Verified m token kind none s t p keyed split h = error-not-ok _ p s t h
  verify_parts-Verified m token kind (some (head, signature)) s t p keyed split h =
      let (checked, rest) = refuse_if-ok _ (verify_payload env m kind (env.decode head)) s t p h in
      let (whole, front) = split_at_dot_sound token head signature split in
      let (back, matches) = or-false _ _ checked in
      let same = same-text signature (env.sign m.secret head) matches in
      verify_payload-Verified m token kind head (env.decode head) s t p keyed
        (both_plain head _ front (ap has_dot (sym same) ∙ back))
        (whole ∙ ap (λ x. head <> ("." <> x)) same) refl rest

  verify_token-Verified :
      (m : SignedTokenManager S) (token kind : String) (s t : S) (p : SignedTokenPayload)
      → verify_token env m token kind s ≡ (ok p, t)
      → Verified m token kind s t p
  unfolding verify_token
  verify_token-Verified m token kind s t p h =
      let (keyed, rest) = refuse_if-ok _ (verify_parts env m kind (split_at_dot token)) s t p h in
      verify_parts-Verified m token kind (split_at_dot token) s t p keyed refl rest

  Standing-not_revoked :
      (payload : SignedTokenPayload) (o : Option (TokenStateStore S)) (s t : S)
      → Standing payload o s t
      → not_revoked env payload o s ≡ (ok payload, t)
  Standing-not_revoked payload none s t e = ap (λ x. (ok payload, x)) e
  Standing-not_revoked payload (some store) s t (u, first, second) = rw (first, second) refl

  Verified-verify_token :
      (m : SignedTokenManager S) (token kind : String) (s t : S) (p : SignedTokenPayload)
      → Verified m token kind s t p
      → verify_token env m token kind s ≡ (ok p, t)
  unfolding verify_token
  Verified-verify_token m token kind s t p v =
      let (front, back) = or-false _ _ v.plain in
      rw
        (
          v.keyed,
          v.signed,
          split_at_dot-append v.head (env.sign m.secret v.head) front,
          signature_ok (env.sign m.secret v.head) back,
          v.decoded,
          kind_passes kind p.kind v.kinded,
          v.named,
          v.clock,
          not_due p.expires_at (unix v.at) v.fresh,
        )
        (Standing-not_revoked p m.store v.after t v.standing)

  -- A token passes the verification exactly when it is a head that decodes to the payload, a dot and
  -- the head's signature; the signing key is there; the payload has the kind that is asked for, if
  -- any, and its names are not empty; it expires later than the clock shows; and the store, if any,
  -- denies that the token or its session is revoked.
  pub verify_token_lem :
      (m : SignedTokenManager S) (token kind : String) (s t : S) (p : SignedTokenPayload)
      → (verify_token env m token kind s ≡ (ok p, t)) ↔ Verified m token kind s t p
  verify_token_lem m token kind s t p =
      (verify_token-Verified m token kind s t p, Verified-verify_token m token kind s t p)
