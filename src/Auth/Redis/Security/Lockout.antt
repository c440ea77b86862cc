-- ===== src/Auth/Redis/Security/Lockout.antt =====
-- A login that was locked is found locked, as long as the counter of its failures stands.
use kubeflare.Prelude.{
  ℕ, ◌+◌, ◌≡◌, refl, ap, ◌∙◌, sym, subst, ◌⊎◌, inl, inr, Bool, Bool-cases, true, ◌&&◌, Option, none,
  some, String, ltb, leb, arith,
}
use kubeflare.Prelude.Fallible.{Fallible, ok, err, ok_inj}
use kubeflare.Prelude.Action.{written, then_read, then_read-ok, error-not-ok}
use kubeflare.Auth.{AuthError, LoginFailure, return}
use kubeflare.Auth.Failover.Revocation.{Leaves}
use kubeflare.Auth.Redis.{Client, Env, AuthStateStore, ttl_until}
use kubeflare.Auth.Redis.Security.{
  login_failure_key, login_lock_key, increment_login_failure, get_login_failure, counted, lock,
  failed, start_lifetime, known_count, found_failure, locked_at, no_failure, parsed_or,
}

-- What Redis documents of SET and GET: an answer of a GET that comes is the value that stands. A GET may
-- fail, as over a network. Reads and the clock change no value.
pub record LockLaws {S : Type 0} (env : Env S) (client : Client S) (key : String)
    (Holds : String → S → Type 0) : Type 0 where
  pub stored :
      (value : String) (ttl : ℕ) (s t : S)
      → client.set_key (login_lock_key key) value ttl s ≡ (none, t)
      → Holds value t
  pub found :
      (value read : String) (s t : S)
      → Holds value s
      → client.get (login_lock_key key) s ≡ (ok read, t)
      → read ≡ value
  pub count_read : (value : String) → Leaves (Holds value) (client.get_int (login_failure_key key))
  pub ttl_read : (value : String) → Leaves (Holds value) (client.ttl (login_failure_key key))
  pub clock : (value : String) → Leaves (Holds value) env.now

written-ok :
    {S : Type 0} (r : Option AuthError × S) (t : S) → written r ≡ (ok tt, t) → r ≡ (none, t)
written-ok (none, s) t h = ap (λ (e, x). (none, x)) h
written-ok (some e, s) t h = error-not-ok e tt s t h

abbrev reached : ℕ → ℕ → Bool
reached lock_after count = ltb 0 lock_after && leb lock_after count

-- A reading of the lock that failed, which the code passes over: the login counts as locked until the
-- instant of the reading, which is not locked.
pub record PassedOver {S : Type 0} (env : Env S) (client : Client S) (key : String)
    (g : LoginFailure) (t : S) : Type 0 where
  pub before : S
  pub read : S
  pub asked : S
  pub again : ℕ
  pub error : AuthError
  pub clock : env.now before ≡ (g.locked_until, read)
  pub clock_again : env.now read ≡ (again, asked)
  pub failed_get : client.get (login_lock_key key) asked ≡ (err error, t)

module _ {S : Type 0} (env : Env S) (client : Client S) (key : String) (Holds : String → S → Type 0)
    (laws : LockLaws env client key Holds) where
  lock-Holds :
      (count expires_at lockout now : ℕ) (s t : S) (f : LoginFailure)
      → lock env client key count expires_at lockout now s ≡ (ok f, t)
      → Holds (env.format_time f.locked_until) t
  lock-Holds count expires_at lockout now s t f h =
      let (ttl, s1) = ttl_until env expires_at s in
      let (done, s2, e, h1) =
        then_read-ok
          (written (client.set_key (login_lock_key key) (env.format_time (now + lockout)) ttl s1))
          (λ _. return (failed key count (now + lockout) expires_at)) f t h in
      subst (λ g. Holds (env.format_time g.locked_until) t) (ok_inj (ap (λ (x, y). x) h1))
        (subst (Holds (env.format_time (now + lockout))) (ap (λ (x, y). y) h1)
          (laws.stored (env.format_time (now + lockout)) ttl s1 s2 (written-ok _ s2 e)))

  -- A failure that reached the limit has left the lock.
  counted-Holds :
      (expires_at lock_after lockout count : ℕ) (s t : S) (f : LoginFailure)
      → counted env client key expires_at lock_after lockout count s ≡ (ok f, t)
      → reached lock_after f.count ≡ true
      → Holds (env.format_time f.locked_until) t
  counted-Holds expires_at lock_after lockout count s t f h limit =
      let (done, s1, e, h1) =
        then_read-ok (start_lifetime env client key expires_at count s) _ f t h in
      let (now, s2) = env.now s1 in
      let (later, s3) = env.now s2 in
      elim (Bool-cases (reached lock_after count)) [
        | inl over ↦ lock-Holds count expires_at lockout later s3 t f (rw over at h1)
        | inr under ↦
            let same : failed key count now expires_at ≡ f =
              ok_inj (ap (λ (x, y). x) (rw under at h1)) in
            absurd (
              ground
                (arith, under, limit, ap (λ (g : LoginFailure). reached lock_after g.count) same))
      ]

  abbrev redis : AuthStateStore S
  redis = record { client = some client }

  -- The lock that was read, by the answer of the GET.
  locked_at-cases :
      (at now later : ℕ) (s s' u v t : S) (r : Fallible AuthError String) (g : LoginFailure)
      → env.parse_time (env.format_time at) ≡ some at
      → Holds (env.format_time at) u
      → env.now s ≡ (now, s')
      → env.now s' ≡ (later, u)
      → client.get (login_lock_key key) u ≡ (r, v)
      → (locked_at env now (r, v)).0 ≡ g.locked_until
      → (locked_at env now (r, v)).1 ≡ t
      → (g.locked_until ≡ at) ⊎ PassedOver env client key g t
  locked_at-cases at now later s s' u v t (ok value) g parsed holds clock again got same end = inl (
      sym same
      ∙ ap (λ x. parsed_or now (env.parse_time x))
          (laws.found (env.format_time at) value u v holds got)
      ∙ ap (parsed_or now) parsed)
  locked_at-cases at now later s s' u v t (err e) g parsed holds clock again got same end =
      inr (record {
        before = s;
        read = s';
        asked = u;
        again = later;
        error = e;
        clock = clock ∙ ap (λ n. (n, s')) same;
        clock_again = again;
        failed_get = got ∙ ap (λ x. (err e, x)) end;
      })

  found_failure-Holds :
      (at count : ℕ) (s t : S) (g : LoginFailure)
      → env.parse_time (env.format_time at) ≡ some at
      → Holds (env.format_time at) s
      → found_failure env client key (some count) s ≡ (ok g, t)
      → (g.locked_until ≡ at) ⊎ PassedOver env client key g t
  unfolding login_lock_key
  found_failure-Holds at count s t g parsed holds h =
      let (ttl, s1, e, h1) = then_read-ok (client.ttl (login_failure_key key) s) _ g t h in
      let (now, s2) = env.now s1 in
      let (later, s3) = env.now s2 in
      let (r, s4) = client.get (login_lock_key key) s3 in
      let standing =
        laws.clock _ s2 s3 later refl (
          laws.clock _ s1 s2 now refl (laws.ttl_read (env.format_time at) s s1 (ok ttl) e holds)) in
      locked_at-cases at now later s1 s2 s3 s4 t r g parsed standing refl refl refl
        (ap (λ (g : LoginFailure). g.locked_until) (ok_inj (ap (λ (x, y). x) h1)))
        (ap (λ (x, y). y) h1)

  known_count-cases :
      (r : Fallible AuthError ℕ × S) (t : S) (g : LoginFailure)
      → then_read (known_count client r) (found_failure env client key) ≡ (ok g, t)
      → ((e : AuthError) × (r ≡ (err e, t)) × (client.is_nil e ≡ true) × (g ≡ no_failure))
        ⊎ ((count : ℕ) × (u : S) × (r ≡ (ok count, u))
            × (found_failure env client key (some count) u ≡ (ok g, t)))
  known_count-cases (ok count, u) t g h = inr (count, u, refl, h)
  known_count-cases (err e, u) t g h = elim (Bool-cases (client.is_nil e)) [
    | inr lost ↦ error-not-ok e g u t (rw lost at h)
    | inl nil ↦
        let found = rw nil at h in
        inl (e, ap (λ (x, y). (err e, y)) found, nil, sym (ok_inj (ap (λ (x, y). x) found)))
  ]

  -- An increment that reached the limit has left the lock.
  increment-Holds :
      (expires_at lock_after lockout : ℕ) (s t : S) (f : LoginFailure)
      → increment_login_failure env redis key expires_at lock_after lockout s ≡ (ok f, t)
      → reached lock_after f.count ≡ true
      → Holds (env.format_time f.locked_until) t
  unfolding increment_login_failure
  increment-Holds expires_at lock_after lockout s t f h limit =
      let (count, s1, e, h1) =
        then_read-ok (client.incr (login_failure_key key) s)
          (counted env client key expires_at lock_after lockout) f t h in
      counted-Holds expires_at lock_after lockout count s1 t f h1 limit

-- Over a Redis that keeps its documented laws: where a failure reached the limit, its lock still
-- stands and the lock's instant is read back as it was written, a later reading of the failures that
-- returns no error says until when the login is locked, as that failure did; or it found no counter and
-- says that nothing failed; or its GET of the lock failed and it says the instant of its own clock.
pub increment-get :
    {S : Type 0} (env : Env S) (client : Client S) (key : String) (Holds : String → S → Type 0)
    → LockLaws env client key Holds
    → (expires_at lock_after lockout : ℕ) (s s' : S) (f : LoginFailure)
    → increment_login_failure env
        (record { client = some client })
        key
        expires_at
        lock_after
        lockout
        s
      ≡ (ok f, s')
    → reached lock_after f.count ≡ true
    → env.parse_time (env.format_time f.locked_until) ≡ some f.locked_until
    → (later t : S) (g : LoginFailure) → ((value : String) → Holds value s' → Holds value later)
    → get_login_failure env (record { client = some client }) key later ≡ (ok g, t)
    → (g.locked_until ≡ f.locked_until)
      ⊎ PassedOver env client key g t
      ⊎ ((e : AuthError) × (client.get_int (login_failure_key key) later ≡ (err e, t))
          × (client.is_nil e ≡ true)
          × (g ≡ no_failure))
unfolding get_login_failure
increment-get env client key Holds laws expires_at lock_after lockout s s' f first limit parsed
      later t g kept h =
    let lock = kept _ (
      increment-Holds env client key Holds laws expires_at lock_after lockout s s' f first limit) in
    elim (known_count-cases env client key Holds laws (client.get_int (login_failure_key key) later)
      t g h) [
        | inl absent ↦ inr (inr absent)
        | inr (count, u, e, here) ↦ found_or (
            found_failure-Holds env client key Holds laws f.locked_until count u t g parsed
              (laws.count_read _ later u (ok count) e lock) here)
      ]
  where
    found_or : {A B C : Type 0} → A ⊎ B → A ⊎ (B ⊎ C)
    found_or (inl a) = inl a
    found_or (inr b) = inr (inl b)
