-- ===== src/Auth/Failover/Revocation.antt =====
-- Revocations: a write reaches both stores, and a read is negative only when every store says so.
use kubeflare.Prelude.{
  ℕ, ◌≡◌, refl, ap, subst, ◌≢◌, Bool, true, false, Option, none, some, String, arith,
}
use kubeflare.Prelude.Fallible.{Fallible, ok, err, err_no_ok}
use kubeflare.Auth.{AuthError, Read, Write}
use kubeflare.Auth.Failover.{
  Store, FailoverStore, call_all, read_bool, is_session_revoked, revoke_session, after_read,
  read_one, call_one, last_error, not_found,
}

last_error-none : (e e' : Option AuthError) → last_error e e' ≡ none → (e ≡ none) × (e' ≡ none)
last_error-none none none h = (refl, refl)
last_error-none (some x) none h = (h, refl)
last_error-none e (some x) h = ground arith

module _ {S : Type 0} where
  -- A store of which a call leaves what another one knows.
  abbrev pub Leaves : (Known : S → Type 0) {R : Type 0} → (S → R × S) → Type 0
  Leaves Known {R} call = (s s' : S) (r : R) → call s ≡ (r, s') → Known s → Known s'

  -- What a store promises of a session's revocation: once it recorded it, it never denies it.
  pub record Remembers (store : Store S) (session_id : String) (expires_at : ℕ) (Known : S → Type 0)
      : Type 0 where
    pub recorded :
        (s s' : S) → store.token.revoke_session session_id expires_at s ≡ (none, s') → Known s'
    pub told : (s t : S) → Known s → store.token.is_session_revoked session_id s ≢ (ok false, t)

  -- A store that is there answers false; one that is not leaves the state.
  abbrev pub SaysNo : (Store S → Read S Bool) → Option (Store S) → S → S → Type 0
  SaysNo fn none s s' = s ≡ s'
  SaysNo fn (some store) s s' = fn store s ≡ (ok false, s')

  -- Behind an error, the loop never ends with false.
  abbrev NeverFalse : (Option AuthError → Read S Bool) → Type 0
  NeverFalse next = (e : AuthError) (s t : S) → next (some e) s ≢ (ok false, t)

  error-not-false :
      (e : AuthError) (s t : S) → ◌≢◌ {A = Fallible AuthError Bool × S} (err e, s) (ok false, t)
  error-not-false e s t h = err_no_ok (ap (λ (r, x). r) h)

  after_read-false :
      (next : Option AuthError → Read S Bool) (e : Option AuthError)
      (r : Fallible AuthError Bool × S) (t : S)
      → NeverFalse next
      → after_read next e r ≡ (ok false, t)
      → (s' : S) × (r ≡ (ok false, s')) × (next e s' ≡ (ok false, t))
  after_read-false next e (err x, s) t never h = absurd (never x s t h)
  after_read-false next e (ok true, s) t never h = ground arith
  after_read-false next e (ok false, s) t never h = (s, refl, h)

  not_found-NeverFalse : NeverFalse (not_found {S = S})
  not_found-NeverFalse e s t h = error-not-false e s t h

  read_one-NeverFalse :
      (fn : Store S → Read S Bool) (o : Option (Store S)) (next : Option AuthError → Read S Bool)
      → NeverFalse next
      → NeverFalse (read_one fn o next)
  read_one-NeverFalse fn none next never e s t h = never e s t h
  read_one-NeverFalse fn (some store) next never e s t h =
      let (s', said, rest) = after_read-false next (some e) (fn store s) t never h in
      never e s' t rest

  read_one-false :
      (fn : Store S → Read S Bool) (o : Option (Store S)) (next : Option AuthError → Read S Bool)
      (s t : S)
      → NeverFalse next
      → read_one fn o next none s ≡ (ok false, t)
      → (s' : S) × SaysNo fn o s s' × (next none s' ≡ (ok false, t))
  read_one-false fn none next s t never h = (s, refl, h)
  read_one-false fn (some store) next s t never h =
      after_read-false next none (fn store s) t never h

  read_bool-false :
      (fn : Store S → Read S Bool) (f : FailoverStore S) (s t : S)
      → read_bool fn f s ≡ (ok false, t)
      → (s' : S) × SaysNo fn f.primary s s' × SaysNo fn f.fallback s' t
  unfolding read_bool
  read_bool-false fn f s t h =
      let (s1, first, rest) =
        read_one-false fn f.primary _ s t
          (read_one-NeverFalse fn f.fallback not_found not_found-NeverFalse) h in
      let (s2, second, end) =
        read_one-false fn f.fallback not_found s1 t not_found-NeverFalse rest in
      (s1, first, subst (λ x. SaysNo fn f.fallback s1 x) (ap (λ (r, x). x) end) second)

  -- A session passes for one that is not revoked only when every store that is there says so,
  -- without an error; the same holds of a token.
  pub is_session_revoked-SaysNo :
      (f : FailoverStore S) (session_id : String) (s t : S)
      → is_session_revoked f session_id s ≡ (ok false, t)
      → (s' : S) × SaysNo (λ store. store.token.is_session_revoked session_id) f.primary s s'
        × SaysNo (λ store. store.token.is_session_revoked session_id) f.fallback s' t
  unfolding is_session_revoked
  is_session_revoked-SaysNo f session_id s t h =
      read_bool-false (λ store. store.token.is_session_revoked session_id) f s t h

  -- `callAll` without an error: every call was without one.
  abbrev Wrote : (Store S → Write S) → Option (Store S) → S → S → Type 0
  Wrote fn none s s' = s ≡ s'
  Wrote fn (some store) s s' = fn store s ≡ (none, s')

  wrote_pair :
      (e : Option AuthError) (r : Option AuthError × S) (t : S)
      → ◌≡◌ {A = Option AuthError × S} (let (e', s') = r in (last_error e e', s')) (none, t)
      → (e ≡ none) × (r ≡ (none, t))
  wrote_pair e (e', s') t h =
      let (old, new) = last_error-none e e' (ap (λ (r, x). r) h) in
      (old, ground (arith, ap (λ (r, x). x) h))

  call_one-none :
      (fn : Store S → Write S) (o : Option (Store S)) (e : Option AuthError) (s t : S)
      → call_one fn o (e, s) ≡ (none, t)
      → (e ≡ none) × Wrote fn o s t
  call_one-none fn none e s t h = (ap (λ (r, x). r) h, ap (λ (r, x). x) h)
  call_one-none fn (some store) e s t h = wrote_pair e (fn store s) t h

  call_all-Wrote :
      (fn : Store S → Write S) (f : FailoverStore S) (s t : S)
      → call_all fn f s ≡ (none, t)
      → (s' : S) × Wrote fn f.primary s s' × Wrote fn f.fallback s' t
  unfolding call_all
  call_all-Wrote fn f s t h =
      let (clean, second) = call_one-none fn f.fallback _ _ t h in
      (_, (call_one-none fn f.primary none s _ (ground arith)).1, second)

  read_known :
      (Known : S → Type 0) (fn : Store S → Read S Bool) (o : Option (Store S))
      → ((store : Store S) → o ≡ some store → Leaves Known (fn store))
      → (s s' : S) → SaysNo fn o s s'
      → Known s
      → Known s'
  read_known Known fn none leaves s s' said known = subst Known said known
  read_known Known fn (some store) leaves s s' said known = leaves store refl s s' _ said known

  -- Where the fallback remembers what it recorded and reads of the primary leave that alone, a
  -- session whose revocation went through is reported as one that is not revoked in no later state in
  -- which the fallback's record still stands.
  pub revoke_session-is_session_revoked :
      (primary : Option (Store S)) (fallback : Store S) (session_id : String) (expires_at : ℕ)
      (Known : S → Type 0)
      → Remembers fallback session_id expires_at Known
      → ((store : Store S)
          → primary ≡ some store
          → Leaves Known (store.token.is_session_revoked session_id))
      → (s s' later t : S)
      → revoke_session
          (record { primary = primary; fallback = some fallback })
          session_id
          expires_at
          s
        ≡ (none, s')
      → (Known s' → Known later)
      → is_session_revoked (record { primary = primary; fallback = some fallback }) session_id later
        ≢ (ok false, t)
  unfolding revoke_session
  revoke_session-is_session_revoked primary fallback session_id expires_at Known memory leaves s s'
        later t wrote kept denied =
      let (u, first, second) =
        call_all-Wrote (λ store. store.token.revoke_session session_id expires_at)
          (record { primary = primary; fallback = some fallback }) s s' wrote in
      let (v, said, denied') =
        is_session_revoked-SaysNo (record { primary = primary; fallback = some fallback })
          session_id later t denied in
      memory.told v t
        (read_known Known (λ store. store.token.is_session_revoked session_id) primary leaves later
          v said (kept (memory.recorded u s' second)))
        denied'
