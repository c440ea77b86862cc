-- ===== src/Tests/Keys.antt =====
-- Redis at concrete inputs: a map of texts, in which nothing expires, and a clock that stands still.
use kubeflare.Prelude.{
  ℕ, ◌≡◌, refl, ap, ◌∙◌, sym, subst, ◌⊎◌, Bool, true, false, Option, none, some, String, List, [],
  ◌∷◌, str_eq, eq_iff, if◌then◌else◌, pos, arith,
}
use kubeflare.Prelude.Fallible.{Fallible, ok, err, ok_inj}
use kubeflare.Prelude.Dict.{lookup, insert, delete, lookup-insert}
use kubeflare.Auth.{AuthError, unauthorized, store_error, RefreshTokenRecord, LoginFailure}
use kubeflare.Auth.Redis.{Cmd, set, sadd, expire, Tx, Client, Env, revoked_token_key, ttl_until}
use kubeflare.Auth.Redis.Tokens.{token_store}
use kubeflare.Auth.Redis.Tokens.Spending.{SpendsOnce, TxLaws, RedisLaws, token_store-SpendsOnce}
use kubeflare.Auth.Redis.Security.{
  increment_login_failure, get_login_failure, login_failure_key, login_lock_key,
}
use kubeflare.Auth.Redis.Security.Lockout.{LockLaws, PassedOver, increment-get}

abbrev Keys : Type 0
Keys = List (String × String)

abbrev nil : AuthError
nil = store_error "redis: nil"

abbrev value_or_nil : Option String → Fallible AuthError String
value_or_nil none = err nil
value_or_nil (some value) = ok value

abbrev number_or_nil : Option String → Fallible AuthError ℕ
number_or_nil none = err nil
number_or_nil (some value) = ok 3

abbrev is_some : {A : Type 0} → Option A → Bool
is_some none = false
is_some (some a) = true

abbrev has : String → Keys → Bool
has key s = is_some (lookup key s)

abbrev put : List Cmd → Keys → Keys
put [] s = s
put (set key value ttl ∷ cmds) s = put cmds (insert key value s)
put (sadd key member ∷ cmds) s = put cmds s
put (expire key ttl ∷ cmds) s = put cmds s

abbrev tx : Tx Keys
tx = record {
  exists = λ key s. (ok (if has key s then 1 else 0), s);
  get = λ key s. (value_or_nil (lookup key s), s);
  exec = λ cmds s. (none, put cmds s);
}

abbrev client : Client Keys
client = record {
  get = λ key s. (value_or_nil (lookup key s), s);
  get_int = λ key s. (number_or_nil (lookup key s), s);
  exists = λ key s. (ok (if has key s then 1 else 0), s);
  members = λ key s. (ok [], s);
  set_key = λ key value ttl s. (none, insert key value s);
  set_nx = λ key value ttl s. if has key s then (ok false, s) else (ok true, insert key value s);
  incr = λ key s. (ok 3, insert key "3" s);
  expire_key = λ key ttl s. (none, s);
  ttl = λ key s. (ok (pos 60), s);
  del = λ keys s. (ok 1, s);
  exec = λ cmds s. (none, put cmds s);
  watch = λ keys body s. body tx s;
  is_nil = λ e. true;
}

abbrev token : RefreshTokenRecord
token = record { id = "a"; session_id = "s"; subject = "alice"; expires_at = 9; revoked_at = none }

abbrev env : Env Keys
env = record {
  now = λ s. (5, s);
  marshal_session = λ session. ok session.id;
  unmarshal_session = λ payload. err unauthorized;
  marshal_token = λ token. ok token.id;
  unmarshal_token = λ payload. ok token;
  format_time = λ at. "the end";
  parse_time = λ value. some 905;
}

abbrev Has : String → Keys → Type 0
Has key s = has key s ≡ true

Has-insert : (key other value : String) (s : Keys) → Has key s → Has key (insert other value s)
Has-insert key other value s h = rw (lookup-insert other key value s) (kept (str_eq other key))
  where
    kept : (b : Bool) → is_some (if b then some value else lookup key s) ≡ true
    kept true = refl
    kept false = h

Has-inserted : (key value : String) (s : Keys) → Has key (insert key value s)
Has-inserted key value s = rw (lookup-insert key key value s) (ground (arith, eq_iff key key))

Has-put : (key : String) (cmds : List Cmd) (s : Keys) → Has key s → Has key (put cmds s)
Has-put key [] s h = h
Has-put key (set other value ttl ∷ cmds) s h =
    Has-put key cmds (insert other value s) (Has-insert key other value s h)
Has-put key (sadd other member ∷ cmds) s h = Has-put key cmds s h
Has-put key (expire other ttl ∷ cmds) s h = Has-put key cmds s h

moved :
    {A : Type 0} (a b : A) (P : Keys → Type 0) (s t : Keys)
    → ◌≡◌ {A = A × Keys} (a, s) (b, t)
    → P s
    → P t
moved a b P s t h p = subst P (ap (λ (x, y). y) h) p

tx_laws : TxLaws tx Has
tx_laws = record {
  counted = λ key s t n there h. ground (arith, there, ap (λ (x, y). x) (rw there at h));
  executed = λ key value ttl rest s t positive others h.
      moved none none (Has key) (put rest (insert key value s)) t h
        (Has-put key rest (insert key value s) (Has-inserted key value s));
}

claimed-Has :
    (b : Bool) (key value : String) (s t : Keys)
    → ◌≡◌ {A = Fallible AuthError Bool × Keys}
        (if b then (ok false, s) else (ok true, insert key value s))
        (ok true, t)
    → Has key t
claimed-Has true key value s t h = ground (arith, ap (λ (x, y). x) h)
claimed-Has false key value s t h =
    moved (ok true) (ok true) (Has key) (insert key value s) t h (Has-inserted key value s)

redis_laws : RedisLaws client Has
redis_laws = record {
  watched = λ keys body s t h. record {
    tx = tx;
    start = s;
    laws = tx_laws;
    kept = λ key there. there;
    ran = h;
  };
  claimed = λ key value ttl s t positive h. claimed-Has (has key s) key value s t h;
  taken = λ key value ttl s t there h. ground (arith, ap (λ (x, y). x) (rw there at h));
  read = λ key other s t r h there. moved (value_or_nil (lookup other s)) r (Has key) s t h there;
  queued = λ key cmds positive s t r h there.
      moved none r (Has key) (put cmds s) t h (Has-put key cmds s there);
}

token_store-SpendsOnce_example :
    SpendsOnce
      (token_store env (record { client = some client }))
      token
      (Has (revoked_token_key "a"))
token_store-SpendsOnce_example =
    token_store-SpendsOnce env client Has redis_laws token
      (λ s t r h there. moved 5 r (Has (revoked_token_key "a")) s t h there)

abbrev Holds : String → Keys → Type 0
Holds value s = lookup (login_lock_key "alice") s ≡ some value

lookup-inserted : (key value : String) (s : Keys) → lookup key (insert key value s) ≡ some value
lookup-inserted key value s = rw (lookup-insert key key value s) (ground (arith, eq_iff key key))

lock_laws : LockLaws env client "alice" Holds
lock_laws = record {
  stored = λ value ttl s t h.
      moved none none (Holds value) (insert (login_lock_key "alice") value s) t h
        (lookup-inserted (login_lock_key "alice") value s);
  found = λ value read s t there h. ok_inj (sym (ap (λ (x, y). x) h) ∙ ap value_or_nil there);
  count_read = λ value s t r h there.
      moved (number_or_nil (lookup (login_failure_key "alice") s)) r (Holds value) s t h there;
  ttl_read = λ value s t r h there. moved (ok (pos 60)) r (Holds value) s t h there;
  clock = λ value s t r h there. moved 5 r (Holds value) s t h there;
}

abbrev locked : LoginFailure
locked = record { key = "alice"; count = 3; locked_until = 905; expires_at = 900 }

abbrev keys : Keys
keys = ("iam:login_lock:alice", "the end") ∷ ("iam:login_failure:alice", "3") ∷ []

abbrev seen : LoginFailure
seen = record { key = "alice"; count = 3; locked_until = 905; expires_at = 65 }

increment-get_example :
    (seen.locked_until ≡ locked.locked_until)
    ⊎ PassedOver env client "alice" seen keys
    ⊎ ((e : AuthError) × (client.get_int (login_failure_key "alice") keys ≡ (err e, keys))
        × (client.is_nil e ≡ true)
        × (seen ≡ record { key = ""; count = 0; locked_until = 0; expires_at = 0 }))
unfolding increment_login_failure get_login_failure login_failure_key login_lock_key lookup insert
    delete ttl_until
increment-get_example =
    increment-get env client "alice" Holds lock_laws 900 3 900 [] keys locked refl refl refl keys
      keys seen (λ value there. there) refl
