-- ===== src/Tests/Tokens.antt =====
-- The signed tokens at concrete inputs, with a codec for the one payload that is issued, a signature
-- that is the key, and a clock that stands still.
use kubeflare.Prelude.{
  ◌≡◌, refl, ap, ◌↔◌, Bool, true, false, ◌&&◌, none, some, String, str_eq, eq_iff, arith, ◌==◌, [],
  ◌∷◌, subst,
}
use kubeflare.Prelude.Fallible.{Fallible, ok, err, ok_inj}
use kubeflare.Prelude.Dots.{has_dot, split_at_dot}
use kubeflare.Auth.{AuthError, unauthorized}
use kubeflare.Auth.Tokens.{
  SignedTokenPayload, SignedTokenManager, Env, Principal, verify_token, issue_token,
}
use kubeflare.Auth.Tokens.Verify.{Verified, verify_token_lem}
use kubeflare.Auth.Tokens.Issue.{CodecLaws, issue_token-verify_token}
use kubeflare.Auth.Access.{SignedTokenAuthenticator, authenticate}
use kubeflare.Auth.Access.Guards.{Authenticated, authenticate-Authenticated}

abbrev payload : SignedTokenPayload
payload = record { kind = "access"; subject = "alice"; id = "id"; session_id = "s"; expires_at = 8 }

abbrev is_payload : SignedTokenPayload → Bool
is_payload p =
    str_eq p.kind "access"
    && (str_eq p.subject "alice"
        && (str_eq p.id "id" && (str_eq p.session_id "s" && p.expires_at == 8)))

abbrev encode_if : Bool → Fallible AuthError String
encode_if true = ok "body"
encode_if false = err unauthorized

abbrev env : Env Bool
env = record {
  sign = λ secret head. "signature";
  encode = λ p. encode_if (is_payload p);
  decode = λ head. some payload;
  now = λ s. (5_000_000_000, s);
  new_token_id = λ s. ("id", s);
}

abbrev manager : SignedTokenManager Bool
manager = record {
  secret = "key";
  access_ttl = 3_000_000_000;
  refresh_ttl = 9_000_000_000;
  store = none;
}

encode_if-ok : (b : Bool) (head : String) → encode_if b ≡ ok head → b ≡ true
encode_if-ok true head h = refl
encode_if-ok false head h = ground arith

is_payload-path : (p : SignedTokenPayload) → is_payload p ≡ true → payload ≡ p
is_payload-path p h = ground (
  arith,
  h,
  eq_iff p.kind "access",
  eq_iff p.subject "alice",
  eq_iff p.id "id",
  eq_iff p.session_id "s",
)

plain_body : (b : Bool) (head : String) → encode_if b ≡ ok head → has_dot head ≡ false
unfolding has_dot
plain_body true head h = subst (λ x. has_dot x ≡ false) (ok_inj h) refl
plain_body false head h = ground arith

laws : CodecLaws env
unfolding has_dot
laws = record {
  decodes = λ p head h. ap some (is_payload-path p (encode_if-ok (is_payload p) head h));
  plain_head = λ p head h. plain_body (is_payload p) head h;
  plain_sign = λ secret head. refl;
}

issue_token-verify_token_example :
    verify_token env manager "body.signature" "access" true ≡ (ok payload, true)
unfolding issue_token
issue_token-verify_token_example =
    issue_token-verify_token env manager "access" "alice" "s" 0 false false true true
      "body.signature" payload laws refl refl (omega arith) refl

verify_token_lem_example :
    (verify_token env manager "body.signature" "access" true ≡ (ok payload, true))
    ↔ Verified env manager "body.signature" "access" true true payload
verify_token_lem_example = verify_token_lem env manager "body.signature" "access" true true payload

abbrev authenticator : SignedTokenAuthenticator env
authenticator = record {
  token_manager = some manager;
  resolver =
      some
        (λ subject s. (ok (record { subject = subject; roles = "admin" ∷ []; expires_at = 0 }), s));
}

abbrev alice : Principal
alice = record { subject = "alice"; roles = "admin" ∷ []; expires_at = 8_000_000_000 }

authenticate-Authenticated_example :
    Authenticated env authenticator "body.signature" true true alice
unfolding authenticate verify_token split_at_dot has_dot
authenticate-Authenticated_example =
    authenticate-Authenticated env authenticator "body.signature" true true alice refl
