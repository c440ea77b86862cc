-- ===== src/Auth/Failover/Once.antt =====
-- What may happen once only: the authority decides, and the other store follows.
use kubeflare.Prelude.{
  ℕ, ◌≡◌, refl, ap, ◌∙◌, sym, subst, ◌≢◌, inl, inr, Bool, true, false, Option, none, some, String,
  arith, Bool-cases, ◌==◌,
}
use kubeflare.Prelude.Fallible.{Fallible, ok, err}
use kubeflare.Auth.{AuthError, RefreshTokenRecord, SecurityStateStore, TokenStateStore, Read, Write}
use kubeflare.Auth.Failover.{
  Store, FailoverStore, rotate_refresh_token, authoritative_security_store,
  authoritative_token_store, best_effort_security, best_effort_token, unless_authority, on_security,
  if_security, drop_value, mirrored_token, error_of,
}
use kubeflare.Auth.Failover.Security.{claim_once, answered}
use kubeflare.Auth.Failover.Revocation.{Leaves}

pair_fst : {A B : Type 0} {a a' : A} {b b' : B} → ◌≡◌ {A = A × B} (a, b) (a', b') → a ≡ a'
pair_fst h = ap (λ (x, y). x) h

pair_snd : {A B : Type 0} {a a' : A} {b b' : B} → ◌≡◌ {A = A × B} (a, b) (a', b') → b ≡ b'
pair_snd h = ap (λ (x, y). y) h

module _ {S : Type 0} (Known : S → Type 0) where
  unless_authority-Known :
      (authority : ℕ) (fn : Store S → Write S) (o : Option (Store S)) (s : S)
      → ((store : Store S)
          → o ≡ some store
          → (store.pointer == authority) ≡ false
          → Leaves Known (fn store))
      → Known s
      → Known (unless_authority authority fn o s)
  unless_authority-Known authority fn none s leaves known = known
  unless_authority-Known authority fn (some store) s leaves known =
      elim (Bool-cases (store.pointer == authority)) [
        | inl same ↦ rw same known
        | inr other ↦ rw other (leaves store refl other s _ _ refl known)
      ]

  unless_authority_self :
      (fn : Store S → Write S) (store : Store S) (s : S)
      → unless_authority store.pointer fn (some store) s ≡ s
  unless_authority_self fn store s = ground arith

  best_effort_token-Known :
      (fn : Store S → Write S) (primary : Option (Store S)) (fallback : Store S) (s : S)
      → ((store : Store S) → primary ≡ some store → Leaves Known (fn store))
      → Known s
      → Known (
          best_effort_token fallback.pointer fn
            (record { primary = primary; fallback = some fallback })
            s)
  unfolding best_effort_token
  best_effort_token-Known fn primary fallback s leaves known =
      subst Known (sym (unless_authority_self fn fallback _)) (
        unless_authority-Known fallback.pointer fn primary s (λ store here other. leaves store here)
          known)

  mirrored_token-Known :
      (fn : Store S → Write S) (primary : Option (Store S)) (fallback : Store S)
      (r : Option AuthError × S) (t : S)
      → ((store : Store S) → primary ≡ some store → Leaves Known (fn store))
      → ((s : S) → r ≡ (none, s) → Known s)
      → mirrored_token fallback.pointer fn
          (record { primary = primary; fallback = some fallback })
          r
        ≡ (none, t)
      → Known t
  mirrored_token-Known fn primary fallback (some e, s) t leaves taken h = ground (arith, pair_fst h)
  mirrored_token-Known fn primary fallback (none, s) t leaves taken h =
      subst Known (pair_snd h) (best_effort_token-Known fn primary fallback s leaves (taken s refl))

  mirrored_token-none :
      (authority : ℕ) (fn : Store S → Write S) (f : FailoverStore S) (r : Option AuthError × S)
      (t : S)
      → mirrored_token authority fn f r ≡ (none, t)
      → (s : S) × (r ≡ (none, s))
  mirrored_token-none authority fn f (some e, s) t h = ground (arith, pair_fst h)
  mirrored_token-none authority fn f (none, s) t h = (s, refl)

  if_security-Leaves :
      (fn : SecurityStateStore S → Write S) (o : Option (SecurityStateStore S))
      → ((security : SecurityStateStore S) → o ≡ some security → Leaves Known (fn security))
      → Leaves Known (if_security fn o)
  if_security-Leaves fn none leaves s s' r called known = subst Known (pair_snd called) known
  if_security-Leaves fn (some security) leaves s s' r called known =
      leaves security refl s s' r called known

  error_of-result :
      {A : Type 0} (r : Fallible AuthError A × S) (e : Option AuthError) (s : S)
      → error_of r ≡ (e, s)
      → (a : Fallible AuthError A) × (r ≡ (a, s))
  error_of-result (ok a, s') e s h = (ok a, ap (λ x. (ok a, x)) (pair_snd h))
  error_of-result (err x, s') e s h = (err x, ap (λ y. (err x, y)) (pair_snd h))

  drop_value-Leaves :
      {A : Type 0} (read : Read S A) → Leaves Known read → Leaves Known (drop_value read)
  drop_value-Leaves read leaves s s' r called known =
      let (a, here) = error_of-result (read s) r s' called in leaves s s' a here known

  answered-Known :
      (fn : SecurityStateStore S → Read S Bool) (primary : Option (Store S)) (fallback : Store S)
      (r : Fallible AuthError Bool × S) (t : S)
      → ((store : Store S) (security : SecurityStateStore S)
          → primary ≡ some store
          → store.security ≡ some security
          → Leaves Known (fn security))
      → ((s : S) → r ≡ (ok true, s) → Known s)
      → answered fallback.pointer fn
          (record { primary = primary; fallback = some fallback })
          (λ claimed. claimed)
          r
        ≡ (ok true, t)
      → Known t
  unfolding best_effort_security
  answered-Known fn primary fallback (err e, s) t leaves taken h = ground (arith, pair_fst h)
  answered-Known fn primary fallback (ok false, s) t leaves taken h = ground (arith, pair_fst h)
  answered-Known fn primary fallback (ok true, s) t leaves taken h = subst Known (pair_snd h) (
      best_effort_token-Known (on_security (λ other. drop_value (fn other))) primary fallback s
        (λ store here.
          if_security-Leaves (λ other. drop_value (fn other)) store.security
            (λ security there. drop_value-Leaves (fn security) (leaves store security here there)))
        (taken s refl))

  answered-true :
      (authority : ℕ) (fn : SecurityStateStore S → Read S Bool) (f : FailoverStore S)
      (r : Fallible AuthError Bool × S) (t : S)
      → answered authority fn f (λ claimed. claimed) r ≡ (ok true, t)
      → (s : S) × (r ≡ (ok true, s))
  answered-true authority fn f (err e, s) t h = ground (arith, pair_fst h)
  answered-true authority fn f (ok false, s) t h = ground (arith, pair_fst h)
  answered-true authority fn f (ok true, s) t h = (s, refl)

-- What the authority promises of a key: once it granted it, it does not grant it again.
pub record GrantsOnce {S : Type 0} (store : SecurityStateStore S) (key : String)
    (Known : S → Type 0) : Type 0 where
  pub granted : (at : ℕ) (s s' : S) → store.claim_once key at s ≡ (ok true, s') → Known s'
  pub refused : (at : ℕ) (s t : S) → Known s → store.claim_once key at s ≢ (ok true, t)

authority_found :
    {S : Type 0} (primary : Option (Store S)) (fallback : Store S)
    (authority : SecurityStateStore S)
    → fallback.security ≡ some authority
    → authoritative_security_store (record { primary = primary; fallback = some fallback })
      ≡ some (fallback.pointer, authority)
unfolding authoritative_security_store
authority_found primary fallback authority is = ground arith

claim_once-answered :
    {S : Type 0} (primary : Option (Store S)) (fallback : Store S)
    (authority : SecurityStateStore S) (key : String) (at : ℕ) (s : S)
    → fallback.security ≡ some authority
    → claim_once (record { primary = primary; fallback = some fallback }) key at s
      ≡ answered fallback.pointer
          (λ store. store.claim_once key at)
          (record { primary = primary; fallback = some fallback })
          (λ claimed. claimed)
          (authority.claim_once key at s)
unfolding claim_once
claim_once-answered primary fallback authority key at s is =
    rw (authority_found primary fallback authority is) refl

-- Where the fallback grants a key once and the primary's claims leave that alone, the failover store
-- grants it once: behind a claim that was granted, no claim of the key is granted in any later state
-- in which what the fallback knows of the key still stands.
pub claim_once-single :
    {S : Type 0} (primary : Option (Store S)) (fallback : Store S)
    (authority : SecurityStateStore S) (key : String) (Known : S → Type 0)
    → fallback.security ≡ some authority
    → GrantsOnce authority key Known
    → ((store : Store S) (security : SecurityStateStore S) (at : ℕ)
        → primary ≡ some store
        → store.security ≡ some security
        → Leaves Known (security.claim_once key at))
    → (at at' : ℕ) (s s' later t : S)
    → claim_once (record { primary = primary; fallback = some fallback }) key at s ≡ (ok true, s')
    → (Known s' → Known later)
    → claim_once (record { primary = primary; fallback = some fallback }) key at' later
      ≢ (ok true, t)
claim_once-single primary fallback authority key Known is law leaves at at' s s' later t first kept
      again =
    let (u, twice) =
      answered-true Known _ _ _ _ t
        (sym (claim_once-answered primary fallback authority key at' later is) ∙ again) in
    law.refused at' later u
      (kept (
        answered-Known Known (λ store. store.claim_once key at) primary fallback
          (authority.claim_once key at s) s'
          (λ store security here there. leaves store security at here there)
          (λ v e. law.granted at s v e)
          (sym (claim_once-answered primary fallback authority key at s is) ∙ first)))
      twice

-- What the authority promises of a refresh token: once it was rotated, it is not rotated again.
pub record RotatesOnce {S : Type 0} (store : TokenStateStore S) (old : RefreshTokenRecord)
    (Known : S → Type 0) : Type 0 where
  pub rotated :
      (new : RefreshTokenRecord) (s s' : S)
      → store.rotate_refresh_token old new s ≡ (none, s')
      → Known s'
  pub spent :
      (new : RefreshTokenRecord) (s t : S)
      → Known s
      → store.rotate_refresh_token old new s ≢ (none, t)

module _ {S : Type 0} (primary : Option (Store S)) (fallback : Store S) (old : RefreshTokenRecord)
    (Known : S → Type 0) (law : RotatesOnce fallback.token old Known)
    (leaves : (store : Store S) (new : RefreshTokenRecord)
      → primary ≡ some store
      → Leaves Known (store.token.rotate_refresh_token old new)) where
  -- The failover store promises of a refresh token what its authority does.
  pub rotate_refresh_token-rotated :
      (new : RefreshTokenRecord) (s s' : S)
      → rotate_refresh_token (record { primary = primary; fallback = some fallback }) old new s
        ≡ (none, s')
      → Known s'
  unfolding rotate_refresh_token authoritative_token_store
  rotate_refresh_token-rotated new s s' h =
      mirrored_token-Known Known (λ store. store.token.rotate_refresh_token old new) primary
        fallback (fallback.token.rotate_refresh_token old new s) s'
        (λ store here. leaves store new here) (λ v e. law.rotated new s v e) h

  pub rotate_refresh_token-spent :
      (new : RefreshTokenRecord) (s t : S)
      → Known s
      → rotate_refresh_token (record { primary = primary; fallback = some fallback }) old new s
        ≢ (none, t)
  unfolding rotate_refresh_token authoritative_token_store
  rotate_refresh_token-spent new s t known again =
      let (u, twice) =
        mirrored_token-none Known fallback.pointer
          (λ store. store.token.rotate_refresh_token old new)
          (record { primary = primary; fallback = some fallback }) _ t again in
      law.spent new s u known twice

-- Where the fallback rotates a refresh token once and the primary's rotations leave that alone, the
-- failover store rotates it once: behind a rotation that went through, no rotation of it does in any
-- later state in which what the fallback knows of the token still stands.
pub rotate_refresh_token-single :
    {S : Type 0} (primary : Option (Store S)) (fallback : Store S) (old : RefreshTokenRecord)
    (Known : S → Type 0)
    → RotatesOnce fallback.token old Known
    → ((store : Store S) (new : RefreshTokenRecord)
        → primary ≡ some store
        → Leaves Known (store.token.rotate_refresh_token old new))
    → (new new' : RefreshTokenRecord) (s s' later t : S)
    → rotate_refresh_token (record { primary = primary; fallback = some fallback }) old new s
      ≡ (none, s')
    → (Known s' → Known later)
    → rotate_refresh_token (record { primary = primary; fallback = some fallback }) old new' later
      ≢ (none, t)
rotate_refresh_token-single primary fallback old Known law leaves new new' s s' later t first kept =
    rotate_refresh_token-spent primary fallback old Known law leaves new' later t
      (kept (rotate_refresh_token-rotated primary fallback old Known law leaves new s s' first))
