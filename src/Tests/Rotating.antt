-- ===== src/Tests/Rotating.antt =====
-- A refresh token that is used twice, at concrete inputs: the store is one flag, which the rotation
-- raises; the codec writes a payload's kind; and the clock stands still.
use kubeflare.Prelude.{
  ◌≡◌, ◌≢◌, refl, ap, subst, Bool, true, false, none, some, String, arith, if◌then◌else◌, pos,
}
use kubeflare.Prelude.Fallible.{ok, err}
use kubeflare.Prelude.Dots.{has_dot, split_at_dot}
use kubeflare.Auth.{
  session_not_found, refresh_token_not_found, store_error, TokenStateStore, RefreshTokenRecord,
  Write,
}
use kubeflare.Auth.Tokens.{
  SignedTokenPayload, SignedTokenManager, TokenPair, Env, verify_token, issue_token, refresh_token,
}
use kubeflare.Auth.Failover.Once.{RotatesOnce}
use kubeflare.Auth.Tokens.Rotation.{Calm, refresh_token-single}

abbrev payload_of : String → SignedTokenPayload
payload_of kind = record {
  kind = kind;
  subject = "alice";
  id = "id";
  session_id = "s";
  expires_at = 8;
}

abbrev env : Env Bool
env = record {
  sign = λ secret head. "signature";
  encode = λ p. ok p.kind;
  decode = λ head. some (payload_of head);
  now = λ s. (5_000_000_000, s);
  new_token_id = λ s. ("id", s);
}

abbrev raise : Write Bool
raise s = if s then (some (store_error "spent"), s) else (none, true)

abbrev store : TokenStateStore Bool
store = record {
  create_session = λ session s. (none, s);
  get_session = λ id s. (err session_not_found, s);
  revoke_session = λ id at s. (none, s);
  is_session_revoked = λ id s. (ok false, s);
  revoke_token = λ id at s. (none, s);
  is_token_revoked = λ id s. (ok false, s);
  store_refresh_token = λ token s. (none, s);
  get_refresh_token = λ id s. (err refresh_token_not_found, s);
  consume_refresh_token = λ token. raise;
  rotate_refresh_token = λ old new. raise;
  revoke_subject_sessions = λ subject at s. (none, s);
}

abbrev manager : SignedTokenManager Bool
manager = record {
  secret = "key";
  access_ttl = 3_000_000_000;
  refresh_ttl = 9_000_000_000;
  store = some store;
}

abbrev pair : TokenPair
pair = record {
  access_token = "access.signature";
  refresh_token = "refresh.signature";
  token_type = "Bearer";
  expires_in = pos 3;
  refresh_token_expires_in = pos 9;
  session_id = "s";
}

abbrev Known : RefreshTokenRecord → Bool → Type 0
Known old s = s ≡ true

raised : (s s' : Bool) → raise s ≡ (none, s') → s' ≡ true
raised true s' h = ground (arith, ap (λ (r, x). r) h)
raised false s' h = subst (λ x. x ≡ true) (ap (λ (r, x). x) h) refl

rotates : (old : RefreshTokenRecord) → RotatesOnce store old (Known old)
rotates old = record {
  rotated = λ new s s' h. raised s s' h;
  spent = λ new s t known h. ground (arith, ap (λ (r, x). r) (rw known at h));
}

same_state :
    {A : Type 0} (a b : A) (s t : Bool) → ◌≡◌ {A = A × Bool} (a, s) (b, t) → s ≡ true → t ≡ true
same_state a b s t h known = subst (λ x. x ≡ true) (ap (λ (r, x). x) h) known

calm : (old : RefreshTokenRecord) → Calm env store (Known old)
calm old = record {
  clock = λ s t r h known. same_state 5_000_000_000 r s t h known;
  ids = λ s t r h known. same_state "id" r s t h known;
  tokens = λ id s t r h known. same_state (ok false) r s t h known;
  sessions = λ id s t r h known. same_state (ok false) r s t h known;
}

refresh_token-single_example : refresh_token env manager "refresh.signature" true ≢ (ok pair, true)
unfolding refresh_token verify_token issue_token split_at_dot has_dot
refresh_token-single_example =
    refresh_token-single env manager store "refresh.signature" Known refl rotates calm false true
      pair refl true true pair (λ old known. known)
