-- ===== src/Tests/Accounts/Leaving.antt =====
-- A logout at concrete inputs. The token manager is the issuer, over a store that is one flag, which
-- the end of a session raises.
use kubeflare.Prelude.{
  ◌≡◌, ◌≢◌, refl, ap, subst, Bool, true, false, none, some, String, List, [], arith,
}
use kubeflare.Prelude.Fallible.{ok, err}
use kubeflare.Prelude.Dots.{split_at_dot, has_dot}
use kubeflare.Prelude.Text.{trim_space}
use kubeflare.Auth.{
  AuthError, TokenStateStore, session_not_found, refresh_token_not_found, unauthorized,
}
use kubeflare.Auth.Tokens.{SignedTokenPayload, SignedTokenManager, Env, verify_token, revoke_token}
use kubeflare.Auth.Tokens.Verify.{Verified}
use kubeflare.Auth.Tokens.Rotation.{Calm}
use kubeflare.Auth.Access.{revoke_session}
use kubeflare.Auth.Failover.Revocation.{Leaves}
use kubeflare.Errors.{Link}
use kubeflare.Iam.Login.{LogoutRequest}
use kubeflare.Iam.Session.{logout}
use kubeflare.Iam.Session.Ended.{issuer_of, EndsSession, Elsewhere, logout-verify_token}
use kubeflare.Tests.Accounts.{svc}

abbrev store : TokenStateStore Bool
store = record {
  create_session = λ session s. (none, s);
  get_session = λ id s. (err session_not_found, s);
  revoke_session = λ id at s. (none, true);
  is_session_revoked = λ id s. (ok s, s);
  revoke_token = λ id at s. (none, s);
  is_token_revoked = λ id s. (ok false, s);
  store_refresh_token = λ token s. (none, s);
  get_refresh_token = λ id s. (err refresh_token_not_found, s);
  consume_refresh_token = λ token s. (none, s);
  rotate_refresh_token = λ old new s. (none, s);
  revoke_subject_sessions = λ subject at s. (none, true);
}

abbrev payload : SignedTokenPayload
payload = record { kind = "access"; subject = "root"; id = "id"; session_id = "s"; expires_at = 8 }

abbrev tokens : Env Bool
tokens = record {
  sign = λ secret head. "signature";
  encode = λ p. ok p.kind;
  decode = λ head. some payload;
  now = λ s. (5_000_000_000, s);
  new_token_id = λ s. ("id", s);
}

abbrev manager : SignedTokenManager Bool
manager = record {
  secret = "key";
  access_ttl = 3_000_000_000;
  refresh_ttl = 9_000_000_000;
  store = some store;
}

abbrev wrap : AuthError → List Link
wrap e = []

abbrev Ended : String → Bool → Type 0
Ended id s = s ≡ true

ends : (id : String) → EndsSession store id (Ended id)
ends id = record {
  recorded = λ at s t h. ground (arith, ap (λ (a, b). b) h);
  told = λ s t ended h. ground (arith, ended, ap (λ (a, b). a) h);
}

same_flag :
    {A : Type 0} (a b : A) (s t : Bool) → ◌≡◌ {A = A × Bool} (a, s) (b, t) → s ≡ true → t ≡ true
same_flag a b s t h ended = subst (λ x. x ≡ true) (ap (λ (r, x). x) h) ended

calm : (id : String) → Calm tokens store (Ended id)
calm id = record {
  clock = λ s t r h ended. same_flag 5_000_000_000 r s t h ended;
  ids = λ s t r h ended. same_flag "id" r s t h ended;
  tokens = λ id s t r h ended. same_flag (ok false) r s t h ended;
  sessions = λ id s t r h ended. same_flag (ok s) r s t h ended;
}

abbrev leave : LogoutRequest
leave = record { refresh_token = ""; all_sessions = false }

no_token : (id : String) → Leaves (Ended id) (revoke_token tokens manager "")
unfolding revoke_token verify_token split_at_dot has_dot
no_token id s t r h ended = same_flag (err unauthorized) r s t h ended

logout-verify_token_example :
    (p : SignedTokenPayload) × (u ended : Bool) × Verified tokens manager "access.signature" ""
      false u p
    × Elsewhere tokens manager store "" p ended true
    × ((later t : Bool) (token kind : String) (q : SignedTokenPayload)
        → (Ended p.session_id true → Ended p.session_id later)
        → q.session_id ≡ p.session_id
        → verify_token tokens manager token kind later ≢ (ok q, t))
unfolding logout revoke_session verify_token split_at_dot has_dot trim_space
logout-verify_token_example =
    logout-verify_token tokens wrap manager store
      (record svc { token_issuer = some (issuer_of tokens wrap manager) }) Ended refl refl ends calm
      "access.signature" leave false true no_token refl refl refl
