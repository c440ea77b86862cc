-- ===== src/Auth/Tokens.antt =====
-- internal/shared/middleware/authn.go: the signed tokens. The codec of a payload, the signature, the
-- clock and the source of random ids are parameters; the clock gives nanoseconds since 1970, and the
-- instants in a payload are seconds since then.
pub mod Verify
pub mod Issue
pub mod Rotation
use kubeflare.Prelude.{
  ℕ, ◌+◌, ◌-◌, ◌*◌, ◌/◌, not, ◌&&◌, ◌||◌, Option, none, some, String, ◌<>◌, str_eq, leb, ◌==◌,
  if◌then◌else◌, ℤ, pos, negsuc, positive_or, List,
}
use kubeflare.Prelude.Fallible.{Fallible}
use kubeflare.Prelude.Text.{trim_space}
use kubeflare.Prelude.Dots.{split_at_dot, has_dot, is_empty}
use kubeflare.Auth.{
  AuthError, unauthorized, signing_key_is_empty, TokenSession, RefreshTokenRecord, Read,
  TokenStateStore, ◌>>=◌, ◌>>◌, perform, return, always, fail, refuse_if, or_unauthorized,
}

pub record SignedTokenPayload : Type 0 where
  pub kind : String
  pub subject : String
  pub id : String
  pub session_id : String
  pub expires_at : ℕ

pub record TokenPair : Type 0 where
  pub access_token : String
  pub refresh_token : String
  pub token_type : String
  pub expires_in : ℤ
  pub refresh_token_expires_in : ℤ
  pub session_id : String

pub record TokenSubject : Type 0 where
  pub subject : String
  pub session_id : String
  pub expires_at : ℕ

pub record Principal : Type 0 where
  pub subject : String
  pub roles : List String
  pub expires_at : ℕ

-- HMAC, JSON and base64, the clock and the random ids, on the state of the world.
pub record Env (S : Type 0) : Type 0 where
  pub sign : String → String → String
  pub encode : SignedTokenPayload → Fallible AuthError String
  pub decode : String → Option SignedTokenPayload
  pub now : S → ℕ × S
  pub new_token_id : S → String × S

pub record SignedTokenManager (S : Type 0) : Type 0 where
  pub secret : String
  pub access_ttl : ℕ
  pub refresh_ttl : ℕ
  pub store : Option (TokenStateStore S)

abbrev second : ℕ
second = 1_000_000_000

abbrev hour : ℕ
hour = 3_600 * second

-- `t.Unix()` and `time.Unix(t, 0)`
abbrev pub unix : ℕ → ℕ
unix t = t / second

abbrev pub from_unix : ℕ → ℕ
from_unix t = t * second

-- `a - b` of two int64.
abbrev minus : ℕ → ℕ → ℤ
minus a b = if leb b a then pos (a - b) else negsuc (b - (a + 1))

unfoldable pub new_signed_token_manager_with_options :
    {S : Type 0} → String → ℤ → ℤ → Option (TokenStateStore S) → SignedTokenManager S
unfolding trim_space
new_signed_token_manager_with_options secret access_ttl refresh_ttl store = record {
  secret = trim_space secret;
  access_ttl = positive_or (24 * hour) access_ttl;
  refresh_ttl = positive_or (7 * 24 * hour) refresh_ttl;
  store = store;
}

module _ {S : Type 0} (env : Env S) where
  abbrev encoded : Fallible AuthError String → Read S String
  encoded r s = (r, s)

  abbrev signed : SignedTokenManager S → SignedTokenPayload → String → String × SignedTokenPayload
  signed m payload head = (head <> ("." <> env.sign m.secret head), payload)

  abbrev payload_of : String → String → String → ℕ → ℕ → String → SignedTokenPayload
  payload_of kind subject session_id ttl t id = record {
    kind = kind;
    subject = subject;
    id = id;
    session_id = session_id;
    expires_at = unix (t + ttl);
  }

  unfoldable pub issue_token :
      SignedTokenManager S → String → String → String → ℕ → Read S (String × SignedTokenPayload)
  issue_token m kind subject session_id ttl =
      if is_empty m.secret then fail signing_key_is_empty else do
        id ← always env.new_token_id
        t ← always env.now
        let payload =
            payload_of kind subject session_id (if ttl == 0 then m.access_ttl else ttl) t id
        head ← encoded (env.encode payload)
        return (signed m payload head)

  -- The store's answers: an error, or a revocation, is no authorization.
  abbrev not_revoked : SignedTokenPayload → Option (TokenStateStore S) → Read S SignedTokenPayload
  not_revoked payload none = return payload
  not_revoked payload (some store) = do
    revoked ← or_unauthorized (store.is_token_revoked payload.id)
    refuse_if revoked (
        or_unauthorized (store.is_session_revoked payload.session_id) >>= λ session_revoked.
        refuse_if session_revoked (return payload))

  abbrev verify_payload :
      SignedTokenManager S → String → Option SignedTokenPayload → Read S SignedTokenPayload
  verify_payload m kind none = fail unauthorized
  verify_payload m kind (some payload) =
      refuse_if (not (is_empty kind) && not (str_eq payload.kind kind)) (
        refuse_if (is_empty payload.subject || is_empty payload.id || is_empty payload.session_id)
          do
            t ← always env.now
            refuse_if (leb payload.expires_at (unix t)) (not_revoked payload m.store))

  abbrev verify_parts :
      SignedTokenManager S → String → Option (String × String) → Read S SignedTokenPayload
  verify_parts m kind none = fail unauthorized
  verify_parts m kind (some (head, signature)) =
      refuse_if (has_dot signature || not (str_eq signature (env.sign m.secret head)))
        (verify_payload m kind (env.decode head))

  unfoldable pub verify_token : SignedTokenManager S → String → String → Read S SignedTokenPayload
  unfolding split_at_dot has_dot
  verify_token m token kind =
      refuse_if (is_empty m.secret) (verify_parts m kind (split_at_dot token))

  abbrev pair_of :
      ℕ → String → String × SignedTokenPayload → String × SignedTokenPayload → TokenPair
  pair_of t session_id (access_token, access) (refresh_token, refresh) = record {
    access_token = access_token;
    refresh_token = refresh_token;
    token_type = "Bearer";
    expires_in = minus access.expires_at (unix t);
    refresh_token_expires_in = minus refresh.expires_at (unix t);
    session_id = session_id;
  }

  -- `if m.store != nil { ... }`
  abbrev pub if_store :
      (TokenStateStore S → Read S (Unit {0})) → Option (TokenStateStore S) → Read S (Unit {0})
  if_store f none = return tt
  if_store f (some store) = f store

  abbrev refresh_record : SignedTokenPayload → RefreshTokenRecord
  refresh_record payload = record {
    id = payload.id;
    session_id = payload.session_id;
    subject = payload.subject;
    expires_at = from_unix payload.expires_at;
    revoked_at = none;
  }

  abbrev new_session : String → String → ℕ → TokenSession
  new_session id subject expires_at = record {
    id = id;
    subject = subject;
    expires_at = expires_at;
    revoked_at = none;
  }

  unfoldable pub issue_token_pair : SignedTokenManager S → String → Read S TokenPair
  unfolding issue_token
  issue_token_pair m subject = do
    session_id ← always env.new_token_id
    t ← always env.now
    if_store
        (λ store.
          perform (store.create_session (new_session session_id subject (t + m.refresh_ttl))))
        m.store
    access ← issue_token m "access" subject session_id m.access_ttl
    refresh ← issue_token m "refresh" subject session_id m.refresh_ttl
    if_store (λ store. perform (store.store_refresh_token (refresh_record (refresh.1)))) m.store
    return (pair_of t session_id access refresh)

  abbrev rotated :
      SignedTokenManager S
      → SignedTokenPayload
      → ℕ
      → String × SignedTokenPayload
      → String × SignedTokenPayload
      → Read S TokenPair
  rotated m payload t access refresh =
      if_store
        (λ store.
          perform
            (store.rotate_refresh_token (refresh_record payload) (refresh_record (refresh.1))))
        m.store
      >> return (pair_of t payload.session_id access refresh)

  abbrev with_access :
      SignedTokenManager S → SignedTokenPayload → ℕ → String × SignedTokenPayload → Read S TokenPair
  with_access m payload t access =
      issue_token m "refresh" payload.subject payload.session_id m.refresh_ttl
      >>= rotated m payload t access

  abbrev reissued : SignedTokenManager S → SignedTokenPayload → Read S TokenPair
  reissued m payload = always env.now >>= λ t.
      issue_token m "access" payload.subject payload.session_id m.access_ttl
      >>= with_access m payload t

  unfoldable pub refresh_token : SignedTokenManager S → String → Read S TokenPair
  unfolding verify_token issue_token
  refresh_token m token = or_unauthorized (verify_token m token "refresh") >>= reissued m

  unfoldable pub refresh_token_subject : SignedTokenManager S → String → Read S TokenSubject
  unfolding verify_token
  refresh_token_subject m token = do
    payload ← or_unauthorized (verify_token m token "refresh")
    return (record {
      subject = payload.subject;
      session_id = payload.session_id;
      expires_at = from_unix payload.expires_at;
    })

  unfoldable pub revoke_token : SignedTokenManager S → String → Read S (Unit {0})
  unfolding verify_token
  revoke_token m token = do
    payload ← or_unauthorized (verify_token m token "")
    if_store (λ store. perform (store.revoke_token payload.id (from_unix payload.expires_at)))
        m.store
