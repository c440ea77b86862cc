-- ===== src/Auth/Redis/Tokens.antt =====
-- internal/module/iam/infrastructure/redis/auth_state_store.go: refresh tokens in Redis, how one is
-- consumed or rotated, and how all of a subject are revoked.
pub mod Spending
use kubeflare.Prelude.{
  ℕ, Bool, true, false, ◌&&◌, Option, none, some, String, List, [], ◌∷◌, ◌++◌, str_eq, ltb,
  if◌then◌else◌,
}
use kubeflare.Prelude.Fallible.{Fallible, ok, err}
use kubeflare.Prelude.Action.{pure}
use kubeflare.Auth.{
  AuthError, refresh_token_not_found, store_error, TokenSession, RefreshTokenRecord, Write, Read,
  TokenStateStore, ◌>>=◌, ◌>>◌, perform, return, fail, always,
}
use kubeflare.Auth.Failover.{drop_value}
use kubeflare.Auth.Redis.{
  Cmd, set, sadd, expire, Tx, Client, Env, AuthStateStore, session_key, subject_sessions_key,
  subject_refresh_tokens_key, revoked_session_key, revoked_token_key, refresh_token_key, ttl_at,
  ttl_until, with_client, or_missing, get_session_from, create_session, get_session, revoke_session,
  is_session_revoked, revoke_token, is_token_revoked,
}

abbrev already_consumed : AuthError
already_consumed = store_error "refresh token already consumed"

abbrev is_none : {A : Type 0} → Option A → Bool
is_none none = true
is_none (some a) = false

abbrev is_of : RefreshTokenRecord → RefreshTokenRecord → Bool
is_of found token =
    is_none found.revoked_at
    && (str_eq found.subject token.subject && str_eq found.session_id token.session_id)

module _ {S : Type 0} (env : Env S) where
  abbrev get_token_from : Client S → String → Read S RefreshTokenRecord
  get_token_from client token_id =
      client.get (refresh_token_key token_id) >>= λ payload. pure (env.unmarshal_token payload)

  unfoldable pub get_refresh_token : AuthStateStore S → String → Read S RefreshTokenRecord
  unfolding refresh_token_key
  get_refresh_token store token_id =
      or_missing refresh_token_not_found (λ client. get_token_from client token_id) store

  abbrev token_commands : RefreshTokenRecord → String → ℕ → List Cmd
  token_commands token payload ttl =
      set (refresh_token_key token.id) payload ttl
      ∷ sadd (subject_refresh_tokens_key token.subject) token.id
      ∷ expire (subject_refresh_tokens_key token.subject) ttl
      ∷ []

  abbrev store_token_in : Client S → RefreshTokenRecord → Read S (Unit {0})
  store_token_in client token = pure (env.marshal_token token) >>= λ payload.
      always (ttl_until env token.expires_at) >>= λ ttl.
      perform (client.exec (token_commands token payload ttl))

  unfoldable pub store_refresh_token : AuthStateStore S → RefreshTokenRecord → Write S
  unfolding ttl_until ttl_at refresh_token_key subject_refresh_tokens_key
  store_refresh_token store token = with_client (λ client. store_token_in client token) store

  abbrev confirm : RefreshTokenRecord → RefreshTokenRecord → Read S (Unit {0})
  confirm found token =
      if is_of found token
      then (always env.now >>= λ now.
          if ltb now found.expires_at then return tt else fail refresh_token_not_found)
      else fail refresh_token_not_found

  abbrev revoked_now : RefreshTokenRecord → Read S RefreshTokenRecord
  revoked_now found = always env.now >>= λ now. return (record {
    id = found.id;
    session_id = found.session_id;
    subject = found.subject;
    expires_at = found.expires_at;
    revoked_at = some now;
  })

  -- Behind `SetNX`, which took the token's place among the revoked.
  abbrev store_consumed : Client S → RefreshTokenRecord → Read S (Unit {0})
  store_consumed client token = get_token_from client token.id >>= λ found.
      confirm found token >> (revoked_now found >>= store_token_in client)

  abbrev consume_in : Client S → RefreshTokenRecord → ℕ → Read S (Unit {0})
  consume_in client token ttl = client.set_nx (revoked_token_key token.id) "1" ttl >>= λ locked.
      if locked then store_consumed client token else fail already_consumed

  unfoldable pub consume_refresh_token : AuthStateStore S → RefreshTokenRecord → Write S
  unfolding ttl_until ttl_at revoked_token_key refresh_token_key subject_refresh_tokens_key
  consume_refresh_token store token =
      with_client (λ client. always (ttl_until env token.expires_at) >>= consume_in client token)
        store

  abbrev rotation_commands :
      RefreshTokenRecord → RefreshTokenRecord → String → String → ℕ → ℕ → ℕ → ℕ → List Cmd
  rotation_commands old new revoked_payload new_payload a b c d =
      set (revoked_token_key old.id) "1" a
      ∷ set (refresh_token_key old.id) revoked_payload b
      ∷ set (refresh_token_key new.id) new_payload c
      ∷ sadd (subject_refresh_tokens_key new.subject) new.id
      ∷ expire (subject_refresh_tokens_key new.subject) d
      ∷ []

  -- `TxPipelined`: each command's time to live is computed as it is queued.
  abbrev commit : Tx S → RefreshTokenRecord → RefreshTokenRecord → String → String → Write S
  commit tx old new revoked_payload new_payload s =
      let (a, s1) = ttl_until env old.expires_at s in
      let (b, s2) = ttl_until env old.expires_at s1 in
      let (c, s3) = ttl_until env new.expires_at s2 in
      let (d, s4) = ttl_until env new.expires_at s3 in
      tx.exec (rotation_commands old new revoked_payload new_payload a b c d) s4

  abbrev exchange :
      Tx S → RefreshTokenRecord → RefreshTokenRecord → RefreshTokenRecord → Read S (Unit {0})
  exchange tx old new revoked = pure (env.marshal_token revoked) >>= λ revoked_payload.
      pure (env.marshal_token new) >>= λ new_payload.
      perform (commit tx old new revoked_payload new_payload)

  abbrev rotate_found :
      Tx S → RefreshTokenRecord → RefreshTokenRecord → RefreshTokenRecord → Read S (Unit {0})
  rotate_found tx old new found = confirm found old >> (revoked_now found >>= exchange tx old new)

  abbrev rotate_live : Tx S → RefreshTokenRecord → RefreshTokenRecord → Read S (Unit {0})
  rotate_live tx old new = tx.get (refresh_token_key old.id) >>= λ payload.
      pure (env.unmarshal_token payload) >>= rotate_found tx old new

  abbrev rotate_unless : Tx S → RefreshTokenRecord → RefreshTokenRecord → ℕ → Read S (Unit {0})
  rotate_unless tx old new exists =
      if ltb 0 exists then fail already_consumed else rotate_live tx old new

  -- The function that `Watch` runs.
  unfoldable pub rotate_in : RefreshTokenRecord → RefreshTokenRecord → Tx S → Write S
  unfolding ttl_until ttl_at revoked_token_key refresh_token_key subject_refresh_tokens_key
  rotate_in old new tx =
      drop_value (tx.exists (revoked_token_key old.id) >>= rotate_unless tx old new)

  unfoldable pub rotate_refresh_token :
      AuthStateStore S → RefreshTokenRecord → RefreshTokenRecord → Write S
  unfolding rotate_in ttl_until ttl_at revoked_token_key refresh_token_key
      subject_refresh_tokens_key
  rotate_refresh_token store old new s = elim store.client [
    | none ↦ (none, s)
    | some client ↦
        client.watch (refresh_token_key old.id ∷ revoked_token_key old.id ∷ []) (rotate_in old new)
          s
  ]

  abbrev later_of : ℕ → TokenSession → ℕ → ℕ
  later_of expires_at session now =
      if ltb now session.expires_at then session.expires_at else expires_at

  -- Until when a session of the subject is revoked: `time.Now` is read when the session is found.
  abbrev session_end : ℕ → Fallible AuthError TokenSession × S → ℕ × S
  session_end expires_at (err e, s) = (expires_at, s)
  session_end expires_at (ok session, s) =
      let (now, s') = env.now s in (later_of expires_at session now, s')

  abbrev revoke_one : Client S → ℕ → String → S → Cmd × S
  revoke_one client expires_at session_id s =
      let (session_expires_at, s1) =
        session_end expires_at (get_session_from env client session_id s) in
      let (ttl, s2) = ttl_until env session_expires_at s1 in
      (set (revoked_session_key session_id) "1" ttl, s2)

  unfoldable session_commands : Client S → ℕ → List String → S → List Cmd × S
  unfolding ttl_until ttl_at session_key revoked_session_key
  session_commands client expires_at [] s = ([], s)
  session_commands client expires_at (session_id ∷ rest) s =
      let (cmd, s1) = revoke_one client expires_at session_id s in
      let (cmds, s2) = session_commands client expires_at rest s1 in (cmd ∷ cmds, s2)

  abbrev revocation : String → RefreshTokenRecord → String → Read S (List Cmd)
  revocation token_id token payload = always (ttl_until env token.expires_at) >>= λ a.
      always (ttl_until env token.expires_at) >>= λ b.
      return
        (set (revoked_token_key token_id) "1" a ∷ set (refresh_token_key token_id) payload b ∷ [])

  -- A token that cannot be read is passed over.
  abbrev revoke_found :
      String → Fallible AuthError RefreshTokenRecord × S → Fallible AuthError (List Cmd) × S
  revoke_found token_id (err e, s) = (ok [], s)
  revoke_found token_id (ok found, s) =
      (revoked_now found >>= λ token.
      pure (env.marshal_token token) >>= λ payload. revocation token_id token payload)
        s

  unfoldable token_revocations : Client S → List String → Read S (List Cmd)
  unfolding ttl_until ttl_at refresh_token_key revoked_token_key
  token_revocations client [] = return []
  token_revocations client (token_id ∷ rest) =
      let later = token_revocations client rest in
      (λ s. revoke_found token_id (get_token_from client token_id s)) >>= λ cmds.
      later >>= λ others. return (cmds ++ others)

  abbrev queue_all : Client S → ℕ → List String → List String → Read S (Unit {0})
  queue_all client expires_at session_ids token_ids =
      always (session_commands client expires_at session_ids) >>= λ sessions.
      token_revocations client token_ids >>= λ tokens. perform (client.exec (sessions ++ tokens))

  unfoldable pub revoke_subject_sessions : AuthStateStore S → String → ℕ → Write S
  unfolding session_commands token_revocations subject_sessions_key subject_refresh_tokens_key
  revoke_subject_sessions store subject expires_at =
      with_client
        (λ client. client.members (subject_sessions_key subject) >>= λ session_ids.
          client.members (subject_refresh_tokens_key subject) >>= λ token_ids.
          queue_all client expires_at session_ids token_ids)
        store

  -- The store as the other parts see it.
  abbrev pub token_store : AuthStateStore S → TokenStateStore S
  token_store store = record {
    create_session = create_session env store;
    get_session = get_session env store;
    revoke_session = revoke_session env store;
    is_session_revoked = is_session_revoked env store;
    revoke_token = revoke_token env store;
    is_token_revoked = is_token_revoked env store;
    store_refresh_token = store_refresh_token store;
    get_refresh_token = get_refresh_token store;
    consume_refresh_token = consume_refresh_token store;
    rotate_refresh_token = rotate_refresh_token store;
    revoke_subject_sessions = revoke_subject_sessions store;
  }
