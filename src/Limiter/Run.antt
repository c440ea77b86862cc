-- ===== src/Limiter/Run.antt =====
-- internal/module/agent/application/internal/runlimit/limiter.go: the limiter of agent runs, a
-- global counter and a semaphore by subject. Its calls are taken without interruption.
use kubeflare.Prelude.{◌+◌, ◌≡◌, String, Option, none, some, arith, eq_iff, ℤ}
use kubeflare.Prelude.Dict.{insert, lookup-insert, lookup-delete}
use kubeflare.Limiter.{KeyedSemaphore, new_keyed_semaphore, Handle}
use kubeflare.Limiter
use kubeflare.Limiter.Counter.{Counter, new_counter, Token}
use kubeflare.Limiter.Counter

pub record RunLimiter : Type 0 where
  pub per_user : KeyedSemaphore
  pub global : Counter

unfoldable pub new : ℤ → ℤ → RunLimiter
new per_user global = record {
  per_user = new_keyed_semaphore per_user;
  global = new_counter global;
}

-- The second step of `acquire`, with the global slot taken: on a refusal it is given back.
abbrev acquire_user :
    RunLimiter → Token → KeyedSemaphore × Option Handle → RunLimiter × Option (Handle × Token)
acquire_user l t (users, none) =
    (record { per_user = users; global = (Counter.call t l.global).1 }, none)
acquire_user l t (users, some h) = (record l { per_user = users }, some (h, t))

abbrev acquire_global :
    RunLimiter → String → Counter × Option Token → RunLimiter × Option (Handle × Token)
acquire_global l subject (global, none) = (record l { global = global }, none)
acquire_global l subject (global, some t) =
    acquire_user (record l { global = global }) t (Limiter.acquire l.per_user subject)

unfoldable pub acquire : RunLimiter → String → RunLimiter × Option (Handle × Token)
acquire l subject = acquire_global l subject (Counter.acquire l.global)

-- A call of the closure: the user's slot first, then the global one.
unfoldable pub call : Handle × Token → RunLimiter → (Handle × Token) × RunLimiter
call (h, t) l =
    let (h', users) = Limiter.call h l.per_user in
    let (t', global) = Counter.call t l.global in
    ((h', t'), record { per_user = users; global = global })

-- A run that is refused, by either limit, takes no slot: the limiter is as it was.
pub refused_unchanged :
    (l : RunLimiter) (subject : String) → (acquire l subject).1 ≡ none → (acquire l subject).0 ≡ l
unfolding acquire Counter.acquire Counter.call Limiter.acquire
refused_unchanged l subject refused = ground arith

-- Calling the closure of a granted run gives both slots back: every key counts what it did before,
-- and so does the global counter. Calling it again changes nothing.
pub granted_released :
    (l : RunLimiter) (subject : String) (handle : Handle × Token)
    → (acquire l subject).1 ≡ some handle
    → let first = call handle (acquire l subject).0 in
      ((k : String) → Limiter.count first.1.per_user k ≡ Limiter.count l.per_user k)
      × (first.1.global ≡ l.global)
      × (call first.0 first.1 ≡ first)
unfolding acquire call Counter.acquire Counter.call Limiter.acquire Limiter.call
granted_released l subject handle granted = (
  λ k. ground (
    arith,
    lookup-insert subject k (Limiter.count l.per_user subject)
        (insert subject (Limiter.count l.per_user subject + 1) l.per_user.counts),
    lookup-insert subject subject (Limiter.count l.per_user subject + 1) l.per_user.counts,
    lookup-insert subject k (Limiter.count l.per_user subject + 1) l.per_user.counts,
    lookup-delete subject k
        (insert subject (Limiter.count l.per_user subject + 1) l.per_user.counts),
    eq_iff subject subject,
    eq_iff subject k,
  ),
  ground arith,
  ground arith,
)
