-- ===== src/Tests/Stores.antt =====
-- The two stores behind the failover store at concrete inputs: each remembers one revocation, one
-- rotation and one claim, as a flag.
use kubeflare.Prelude.{
  ℕ, ◌≡◌, ◌≢◌, refl, ap, ◌∙◌, subst, Bool, true, false, Option, none, some, String, arith,
  if◌then◌else◌,
}
use kubeflare.Prelude.Fallible.{Fallible, ok, err}
use kubeflare.Auth.{
  AuthError, session_not_found, refresh_token_not_found, store_error, TokenStateStore,
  SecurityStateStore, RefreshTokenRecord, LoginFailure, Read, Write,
}
use kubeflare.Auth.Failover.{
  Store, FailoverStore, revoke_session, is_session_revoked, call_all, rotate_refresh_token,
  authoritative_security_store, authoritative_token_store, best_effort_security, best_effort_token,
}
use kubeflare.Auth.Failover.Security.{claim_once}
use kubeflare.Auth.Failover.Revocation.{Leaves, Remembers, revoke_session-is_session_revoked}
use kubeflare.Auth.Failover.Once.{
  GrantsOnce, RotatesOnce, claim_once-single, rotate_refresh_token-single,
}

abbrev Flags : Type 0
Flags = Bool × Bool

abbrev first : Flags → Bool
first (a, b) = a

abbrev second : Flags → Bool
second (a, b) = b

abbrev set_first : Flags → Flags
set_first (a, b) = (true, b)

abbrev set_second : Flags → Flags
set_second (a, b) = (a, true)

abbrev once : (Flags → Bool) → (Flags → Flags) → Write Flags
once get put s = if get s then (some (store_error "spent"), s) else (none, put s)

abbrev granted_once : (Flags → Bool) → (Flags → Flags) → Read Flags Bool
granted_once get put s = if get s then (ok false, s) else (ok true, put s)

abbrev no_failure : LoginFailure
no_failure = record { key = ""; count = 0; locked_until = 0; expires_at = 0 }

abbrev tokens_of : (Flags → Bool) → (Flags → Flags) → TokenStateStore Flags
tokens_of get put = record {
  create_session = λ session s. (none, s);
  get_session = λ id s. (err session_not_found, s);
  revoke_session = λ id at s. (none, put s);
  is_session_revoked = λ id s. (ok (get s), s);
  revoke_token = λ id at s. (none, put s);
  is_token_revoked = λ id s. (ok (get s), s);
  store_refresh_token = λ token s. (none, s);
  get_refresh_token = λ id s. (err refresh_token_not_found, s);
  consume_refresh_token = λ token. once get put;
  rotate_refresh_token = λ old new. once get put;
  revoke_subject_sessions = λ subject at s. (none, put s);
}

abbrev security_of : (Flags → Bool) → (Flags → Flags) → SecurityStateStore Flags
security_of get put = record {
  increment_login_failure = λ key at limit lockout s. (ok no_failure, s);
  get_login_failure = λ key s. (ok no_failure, s);
  clear_login_failure = λ key s. (none, s);
  save_oidc_state = λ state at s. (none, s);
  has_oidc_state = λ state s. (ok false, s);
  consume_oidc_state = λ state. granted_once get put;
  claim_once = λ key at. granted_once get put;
}

abbrev store_of : ℕ → (Flags → Bool) → (Flags → Flags) → Store Flags
store_of pointer get put = record {
  pointer = pointer;
  token = tokens_of get put;
  security = some (security_of get put);
}

abbrev primary : Store Flags
primary = store_of 1 first set_first

abbrev fallback : Store Flags
fallback = store_of 2 second set_second

abbrev both : FailoverStore Flags
both = record { primary = some primary; fallback = some fallback }

abbrev Known : Flags → Type 0
Known s = second s ≡ true

some_inj : {A : Type 0} {a b : A} → some a ≡ some b → a ≡ b
some_inj h = ground arith

remembers : Remembers fallback "s" 9 Known
remembers = record {
  recorded = λ s s' h. subst Known (ap (λ (r, x). x) h) refl;
  told = λ s t known h. ground (arith, known, ap (λ (r, x). r) h);
}

Leaves-reads :
    (store : Store Flags)
    → some primary ≡ some store
    → Leaves Known (store.token.is_session_revoked "s")
Leaves-reads store here =
    subst (λ x. Leaves Known (x.token.is_session_revoked "s")) (some_inj here)
      (λ s s' r h known. subst Known (ap (λ (r, x). x) h) known)

revoke_session-is_session_revoked_example :
    is_session_revoked both "s" (true, true) ≢ (ok false, (true, true))
unfolding revoke_session call_all
revoke_session-is_session_revoked_example =
    revoke_session-is_session_revoked (some primary) fallback "s" 9 Known remembers Leaves-reads
      (false, false) (true, true) (true, true) (true, true) refl (λ known. known)

put_known :
    (b : Bool) (s s' : Flags)
    → second s ≡ b
    → granted_once second set_second s ≡ (ok true, s')
    → Known s'
put_known true s s' e h = ground (arith, ap (λ (r, x). r) (rw e at h))
put_known false s s' e h = subst Known (ap (λ (r, x). x) (rw e at h)) refl

grants : GrantsOnce (security_of second set_second) "k" Known
grants = record {
  granted = λ at s s' h. put_known (second s) s s' refl h;
  refused = λ at s t known h. ground (arith, ap (λ (r, x). r) (rw known at h));
}

leaves_first :
    (b : Bool) (s s' : Flags) (r : Fallible AuthError Bool)
    → first s ≡ b
    → granted_once first set_first s ≡ (r, s')
    → Known s
    → Known s'
leaves_first true s s' r e h known = subst Known (ap (λ (q, x). x) (rw e at h)) known
leaves_first false s s' r e h known = subst Known (ap (λ (q, x). x) (rw e at h)) known

Leaves-claims :
    (store : Store Flags) (security : SecurityStateStore Flags) (at : ℕ)
    → some primary ≡ some store
    → store.security ≡ some security
    → Leaves Known (security.claim_once "k" at)
Leaves-claims store security at here there =
    subst (λ x. Leaves Known (x.claim_once "k" at))
      (some_inj (ap (λ x. x.security) (some_inj here) ∙ there))
      (λ s s' r h known. leaves_first (first s) s s' r refl h known)

claim_once-single_example : claim_once both "k" 7 (true, true) ≢ (ok true, (true, true))
unfolding claim_once authoritative_security_store best_effort_security best_effort_token
claim_once-single_example =
    claim_once-single (some primary) fallback (security_of second set_second) "k" Known refl grants
      Leaves-claims 5 7 (false, false) (true, true) (true, true) (true, true) refl (λ known. known)

abbrev token_of : String → RefreshTokenRecord
token_of id = record {
  id = id;
  session_id = "s";
  subject = "alice";
  expires_at = 9;
  revoked_at = none;
}

rotated_known :
    (b : Bool) (s s' : Flags) → second s ≡ b → once second set_second s ≡ (none, s') → Known s'
rotated_known true s s' e h = ground (arith, ap (λ (r, x). r) (rw e at h))
rotated_known false s s' e h = subst Known (ap (λ (r, x). x) (rw e at h)) refl

rotates : RotatesOnce fallback.token (token_of "a") Known
rotates = record {
  rotated = λ new s s' h. rotated_known (second s) s s' refl h;
  spent = λ new s t known h. ground (arith, ap (λ (r, x). r) (rw known at h));
}

leaves_once :
    (b : Bool) (s s' : Flags) (r : Option AuthError)
    → first s ≡ b
    → once first set_first s ≡ (r, s')
    → Known s
    → Known s'
leaves_once true s s' r e h known = subst Known (ap (λ (q, x). x) (rw e at h)) known
leaves_once false s s' r e h known = subst Known (ap (λ (q, x). x) (rw e at h)) known

Leaves-rotations :
    (store : Store Flags) (new : RefreshTokenRecord)
    → some primary ≡ some store
    → Leaves Known (store.token.rotate_refresh_token (token_of "a") new)
Leaves-rotations store new here =
    subst (λ x. Leaves Known (x.token.rotate_refresh_token (token_of "a") new)) (some_inj here)
      (λ s s' r h known. leaves_once (first s) s s' r refl h known)

rotate_refresh_token-single_example :
    rotate_refresh_token both (token_of "a") (token_of "c") (true, true) ≢ (none, (true, true))
unfolding rotate_refresh_token authoritative_token_store best_effort_token
rotate_refresh_token-single_example =
    rotate_refresh_token-single (some primary) fallback (token_of "a") Known rotates
      Leaves-rotations (token_of "b") (token_of "c") (false, false) (true, true) (true, true)
      (true, true) refl (λ known. known)
