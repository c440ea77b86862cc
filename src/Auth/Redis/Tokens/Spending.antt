-- ===== src/Auth/Redis/Tokens/Spending.antt =====
-- A refresh token in Redis is spent once: what rotates or consumes it puts its id among the revoked,
-- and refuses an id that is there.
use kubeflare.Prelude.{
  ℕ, ◌≡◌, ◌≢◌, refl, ap, ◌∙◌, subst, inl, inr, Bool, Bool-cases, true, false, ◌&&◌, Option, none,
  some, String, List, [], ◌∷◌, ltb, arith,
}
use kubeflare.Prelude.Fallible.{Fallible, ok, err}
use kubeflare.Prelude.Action.{written, then_read-ok, error-not-ok}
use kubeflare.Auth.{AuthError, RefreshTokenRecord, TokenStateStore, Write}
use kubeflare.Auth.Failover.{error_of}
use kubeflare.Auth.Failover.Revocation.{Leaves}
use kubeflare.Auth.Failover.Once.{RotatesOnce}
use kubeflare.Auth.Redis.{
  Cmd, set, sadd, expire, Tx, Client, Env, AuthStateStore, ttl_at, ttl_until, revoked_token_key,
  refresh_token_key,
}
use kubeflare.Auth.Redis.Tokens.{
  is_of, already_consumed, confirm, revoked_now, commit, exchange, rotate_live, rotate_unless,
  rotate_in, rotate_refresh_token, store_token_in, store_consumed, consume_in,
  consume_refresh_token, get_token_from, token_store,
}

abbrev pub every_positive : List Cmd → Bool
every_positive [] = true
every_positive (set key value ttl ∷ cmds) = ltb 0 ttl && every_positive cmds
every_positive (sadd key member ∷ cmds) = every_positive cmds
every_positive (expire key ttl ∷ cmds) = ltb 0 ttl && every_positive cmds

ttl_at-positive : (expires_at now : ℕ) → ltb 0 (ttl_at expires_at now) ≡ true
unfolding ttl_at
ttl_at-positive expires_at now = ground arith

-- What Redis documents of the commands in a transaction: EXISTS counts a key that is there, and a key
-- that is SET with a time to live is there behind EXEC.
pub record TxLaws {S : Type 0} (tx : Tx S) (Has : String → S → Type 0) : Type 0 where
  pub counted :
      (key : String) (s t : S) (n : ℕ) → Has key s → tx.exists key s ≡ (ok n, t) → ltb 0 n ≡ true
  pub executed :
      (key value : String) (ttl : ℕ) (rest : List Cmd) (s t : S)
      → ltb 0 ttl ≡ true
      → every_positive rest ≡ true
      → tx.exec (set key value ttl ∷ rest) s ≡ (none, t)
      → Has key t

-- A `Watch` that returns no error has run its function, on a connection that sees the keys.
pub record Watched {S : Type 0} (Has : String → S → Type 0) (body : Tx S → Write S) (s t : S)
    : Type 0 where
  pub tx : Tx S
  pub start : S
  pub laws : TxLaws tx Has
  pub kept : (key : String) → Has key s → Has key start
  pub ran : body tx start ≡ (none, t)

-- What Redis documents of the other commands, while no key expires.
pub record RedisLaws {S : Type 0} (client : Client S) (Has : String → S → Type 0) : Type 0 where
  pub watched :
      (keys : List String) (body : Tx S → Write S) (s t : S)
      → client.watch keys body s ≡ (none, t)
      → Watched Has body s t
  pub claimed :
      (key value : String) (ttl : ℕ) (s t : S)
      → ltb 0 ttl ≡ true
      → client.set_nx key value ttl s ≡ (ok true, t)
      → Has key t
  pub taken :
      (key value : String) (ttl : ℕ) (s t : S)
      → Has key s
      → client.set_nx key value ttl s ≢ (ok true, t)
  pub read : (key other : String) → Leaves (Has key) (client.get other)
  pub queued :
      (key : String) (cmds : List Cmd)
      → every_positive cmds ≡ true
      → Leaves (Has key) (client.exec cmds)

module _ {S : Type 0} where
  error_of-none :
      (r : Fallible AuthError (Unit {0}) × S) (t : S) → error_of r ≡ (none, t) → r ≡ (ok tt, t)
  error_of-none (ok a, s) t h = ap (λ (e, x). (ok tt, x)) h
  error_of-none (err e, s) t h = ground (arith, ap (λ (x, y). x) h)

  written-none : (r : Option AuthError × S) (t : S) → written r ≡ (ok tt, t) → r ≡ (none, t)
  written-none (none, s) t h = ap (λ (e, x). (none, x)) h
  written-none (some e, s) t h = error-not-ok e tt s t h

module _ {S : Type 0} (env : Env S) (tx : Tx S) (Has : String → S → Type 0) (laws : TxLaws tx Has)
    (old new : RefreshTokenRecord) where
  commit-Has :
      (revoked_payload new_payload : String) (s t : S)
      → commit env tx old new revoked_payload new_payload s ≡ (none, t)
      → Has (revoked_token_key old.id) t
  unfolding ttl_until
  commit-Has revoked_payload new_payload s t h =
      let (now, s1) = env.now s in
      let (twice, s2) = env.now s1 in
      let (third, s3) = env.now s2 in
      let (fourth, s4) = env.now s3 in
      laws.executed (revoked_token_key old.id) "1" (ttl_at old.expires_at now) _ s4 t
        (ttl_at-positive old.expires_at now)
        (rw
          (
            ttl_at-positive old.expires_at twice,
            ttl_at-positive new.expires_at third,
            ttl_at-positive new.expires_at fourth,
          )
          refl)
        h

  exchange-Has :
      (revoked : RefreshTokenRecord) (s t : S)
      → exchange env tx old new revoked s ≡ (ok tt, t)
      → Has (revoked_token_key old.id) t
  exchange-Has revoked s t h =
      let (first, s1, e1, h1) = then_read-ok (env.marshal_token revoked, s) _ tt t h in
      let (last, s2, e2, h2) = then_read-ok (env.marshal_token new, s1) _ tt t h1 in
      commit-Has first last s2 t (written-none (commit env tx old new first last s2) t h2)

  rotate_live-Has :
      (s t : S) → rotate_live env tx old new s ≡ (ok tt, t) → Has (revoked_token_key old.id) t
  rotate_live-Has s t h =
      let (payload, s1, e1, h1) = then_read-ok (tx.get (refresh_token_key old.id) s) _ tt t h in
      let (found, s2, e2, h2) = then_read-ok (env.unmarshal_token payload, s1) _ tt t h1 in
      let (done, s3, e3, h3) = then_read-ok (confirm env found old s2) _ tt t h2 in
      let (revoked, s4, e4, h4) =
        then_read-ok (revoked_now env found s3) (exchange env tx old new) tt t h3 in
      exchange-Has revoked s4 t h4

  rotate_unless-Has :
      (exists : ℕ) (s t : S)
      → rotate_unless env tx old new exists s ≡ (ok tt, t)
      → (ltb 0 exists ≡ false) × Has (revoked_token_key old.id) t
  rotate_unless-Has exists s t h = elim (Bool-cases (ltb 0 exists)) [
    | inl there ↦ error-not-ok _ tt s t (rw there at h)
    | inr free ↦ (free, rotate_live-Has s t (rw free at h))
  ]

  -- A rotation that goes through found no revocation of the token and leaves one.
  rotate_in-Has :
      (s t : S)
      → rotate_in env old new tx s ≡ (none, t)
      → (n : ℕ) × (u : S) × (tx.exists (revoked_token_key old.id) s ≡ (ok n, u))
        × (ltb 0 n ≡ false)
        × Has (revoked_token_key old.id) t
  unfolding rotate_in
  rotate_in-Has s t h =
      let (n, u, e, h1) =
        then_read-ok (tx.exists (revoked_token_key old.id) s) (rotate_unless env tx old new) tt t
          (error_of-none _ t h) in
      let (free, has) = rotate_unless-Has n u t h1 in (n, u, e, free, has)

-- What a store promises of a refresh token: once it was rotated or consumed, neither goes through again.
pub record SpendsOnce {S : Type 0} (store : TokenStateStore S) (old : RefreshTokenRecord)
    (Spent : S → Type 0) : Type 0 where
  pub rotated :
      (new : RefreshTokenRecord) (s t : S)
      → store.rotate_refresh_token old new s ≡ (none, t)
      → Spent t
  pub consumed : (s t : S) → store.consume_refresh_token old s ≡ (none, t) → Spent t
  pub not_rotated :
      (new : RefreshTokenRecord) (s t : S)
      → Spent s
      → store.rotate_refresh_token old new s ≢ (none, t)
  pub not_consumed : (s t : S) → Spent s → store.consume_refresh_token old s ≢ (none, t)

pub SpendsOnce-RotatesOnce :
    {S : Type 0} (store : TokenStateStore S) (old : RefreshTokenRecord) (Spent : S → Type 0)
    → SpendsOnce store old Spent
    → RotatesOnce store old Spent
SpendsOnce-RotatesOnce store old Spent once = record {
  rotated = once.rotated;
  spent = once.not_rotated;
}

module _ {S : Type 0} (env : Env S) (client : Client S) (Has : String → S → Type 0)
    (laws : RedisLaws client Has) (old : RefreshTokenRecord) where
  abbrev redis : AuthStateStore S
  redis = record { client = some client }

  rotated-Has :
      (new : RefreshTokenRecord) (s t : S)
      → rotate_refresh_token env redis old new s ≡ (none, t)
      → Has (revoked_token_key old.id) t
  unfolding rotate_refresh_token
  rotated-Has new s t h =
      let watch = laws.watched _ (rotate_in env old new) s t h in
      let (n, u, e, free, has) =
        rotate_in-Has env watch.tx Has watch.laws old new watch.start t watch.ran in
      has

  rotated-refused :
      (new : RefreshTokenRecord) (s t : S)
      → Has (revoked_token_key old.id) s
      → rotate_refresh_token env redis old new s ≢ (none, t)
  unfolding rotate_refresh_token
  rotated-refused new s t has h =
      let watch = laws.watched _ (rotate_in env old new) s t h in
      let (n, u, e, free, has') =
        rotate_in-Has env watch.tx Has watch.laws old new watch.start t watch.ran in
      ground (
        arith,
        free,
        watch.laws.counted (revoked_token_key old.id) watch.start u n
            (watch.kept (revoked_token_key old.id) has) e,
      )

  module _ (clock : Leaves (Has (revoked_token_key old.id)) env.now) where
    store_token-kept :
        (token : RefreshTokenRecord) (s t : S)
        → store_token_in env client token s ≡ (ok tt, t)
        → Has (revoked_token_key old.id) s
        → Has (revoked_token_key old.id) t
    unfolding ttl_until
    store_token-kept token s t h has =
        let (payload, s1, e1, h1) = then_read-ok (env.marshal_token token, s) _ tt t h in
        let (now, s2) = env.now s1 in
        laws.queued (revoked_token_key old.id) _ (rw (ttl_at-positive token.expires_at now) refl) s2
          t none (written-none _ t h1)
          (clock s1 s2 now refl (subst (Has (revoked_token_key old.id)) (ap (λ (x, y). y) e1) has))

    confirm-kept :
        (found token : RefreshTokenRecord) (s t : S)
        → confirm env found token s ≡ (ok tt, t)
        → Has (revoked_token_key old.id) s
        → Has (revoked_token_key old.id) t
    confirm-kept found token s t h has = elim (Bool-cases (is_of found token)) [
      | inr other ↦ error-not-ok _ tt s t (rw other at h)
      | inl same ↦
          let (now, s1) = env.now s in
          elim (Bool-cases (ltb now found.expires_at)) [
            | inr late ↦ error-not-ok _ tt s1 t (rw (same, late) at h)
            | inl live ↦
                subst (Has (revoked_token_key old.id)) (ap (λ (x, y). y) (rw (same, live) at h))
                  (clock s s1 now refl has)
          ]
    ]

    store_consumed-kept :
        (s t : S)
        → store_consumed env client old s ≡ (ok tt, t)
        → Has (revoked_token_key old.id) s
        → Has (revoked_token_key old.id) t
    store_consumed-kept s t h has =
        let (found, s1, e1, h1) = then_read-ok (get_token_from env client old.id s) _ tt t h in
        let (payload, s2, e2, h2) =
          then_read-ok (client.get (refresh_token_key old.id) s) _ found s1 e1 in
        let (done, s3, e3, h3) = then_read-ok (confirm env found old s1) _ tt t h1 in
        let (now, s4) = env.now s3 in
        let read =
          laws.read (revoked_token_key old.id) (refresh_token_key old.id) s s2 (ok payload) e2
            has in
        let decoded = subst (Has (revoked_token_key old.id)) (ap (λ (x, y). y) h2) read in
        store_token-kept _ s4 t h3 (clock s3 s4 now refl (confirm-kept found old s1 s3 e3 decoded))

    consume_in-Has :
        (ttl : ℕ) (s t : S)
        → ltb 0 ttl ≡ true
        → consume_in env client old ttl s ≡ (ok tt, t)
        → Has (revoked_token_key old.id) t
    consume_in-Has ttl s t positive h =
        let (locked, s1, e, h1) =
          then_read-ok (client.set_nx (revoked_token_key old.id) "1" ttl s) _ tt t h in
        elim (Bool-cases locked) [
          | inr taken ↦ error-not-ok _ tt s1 t (rw taken at h1)
          | inl free ↦ store_consumed-kept s1 t (rw free at h1) (
              laws.claimed (revoked_token_key old.id) "1" ttl s s1 positive
                (e ∙ ap (λ b. (ok b, s1)) free))
        ]

    consume_in-refused :
        (ttl : ℕ) (s t : S)
        → Has (revoked_token_key old.id) s
        → consume_in env client old ttl s ≢ (ok tt, t)
    consume_in-refused ttl s t has h =
        let (locked, s1, e, h1) =
          then_read-ok (client.set_nx (revoked_token_key old.id) "1" ttl s) _ tt t h in
        elim (Bool-cases locked) [
          | inr taken ↦ error-not-ok already_consumed tt s1 t (rw taken at h1)
          | inl free ↦
              laws.taken (revoked_token_key old.id) "1" ttl s s1 has (e ∙ ap (λ b. (ok b, s1)) free)
        ]

    consumed-Has :
        (s t : S)
        → consume_refresh_token env redis old s ≡ (none, t)
        → Has (revoked_token_key old.id) t
    unfolding consume_refresh_token ttl_until
    consumed-Has s t h =
        let (now, s1) = env.now s in
        consume_in-Has (ttl_at old.expires_at now) s1 t (ttl_at-positive old.expires_at now)
          (error_of-none _ t h)

    consumed-refused :
        (s t : S)
        → Has (revoked_token_key old.id) s
        → consume_refresh_token env redis old s ≢ (none, t)
    unfolding consume_refresh_token ttl_until
    consumed-refused s t has h =
        let (now, s1) = env.now s in
        consume_in-refused (ttl_at old.expires_at now) s1 t (clock s s1 now refl has)
          (error_of-none _ t h)

-- Over a Redis that keeps its documented laws, and while the clock expires no key, a refresh token that
-- was rotated or consumed is neither rotated nor consumed again: its key among the revoked stands.
pub token_store-SpendsOnce :
    {S : Type 0} (env : Env S) (client : Client S) (Has : String → S → Type 0)
    → RedisLaws client Has
    → (old : RefreshTokenRecord) → Leaves (Has (revoked_token_key old.id)) env.now
    → SpendsOnce
        (token_store env (record { client = some client }))
        old
        (Has (revoked_token_key old.id))
token_store-SpendsOnce env client Has laws old clock = record {
  rotated = rotated-Has env client Has laws old;
  consumed = consumed-Has env client Has laws old clock;
  not_rotated = rotated-refused env client Has laws old;
  not_consumed = consumed-refused env client Has laws old clock;
}
