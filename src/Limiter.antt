-- ===== src/Limiter.antt =====
-- internal/shared/limiter/limiter.go: the keyed semaphore. The mutex makes each method one step, so
-- a method is a function on the state. Its children are the global counter (Limiter/Counter.antt),
-- the proofs about the semaphore (Limiter/Slots.antt) and the pair of both (Limiter/Run.antt).
pub mod Slots
pub mod Counter
pub mod Run
use kubeflare.Prelude.{
  ℕ, ◌+◌, ◌-◌, String, Bool, true, false, ◌||◌, Option, none, some, List, [], leb, ◌==◌, str_eq,
  if◌then◌else◌, ℤ, pos_part,
}
use kubeflare.Prelude.Dict.{lookup, insert, delete}

-- `max` is never negative: the constructor raises it to 0.
pub record KeyedSemaphore : Type 0 where
  pub max : ℕ
  pub counts : List (String × ℕ)

unfoldable pub new_keyed_semaphore : ℤ → KeyedSemaphore
new_keyed_semaphore max = record { max = pos_part max; counts = [] }

-- The closure that `Acquire` returns: `func() {}`, or one that gives back a slot of a key under a
-- `sync.Once`. The flag tells that the `Once` has run.
pub data Handle : Type 0 where
  noop : Handle
  slot : String → Bool → Handle

abbrev or_zero : Option ℕ → ℕ
or_zero none = 0
or_zero (some n) = n

-- `s.counts[key]`, 0 for a key that is not there.
unfoldable pub count : KeyedSemaphore → String → ℕ
count s key = or_zero (lookup key s.counts)

-- On a receiver that is not nil; no handle means `(nil, false)`.
unfoldable pub acquire : KeyedSemaphore → String → KeyedSemaphore × Option Handle
unfolding count
acquire s key =
    if s.max == 0 || str_eq key ""
    then (s, some noop)
    else if leb s.max (count s key)
    then (s, none)
    else (record s { counts = insert key (count s key + 1) s.counts }, some (slot key false))

-- `Acquire` on a receiver that may be nil.
unfoldable pub acquire_ref : Option KeyedSemaphore → String → Option KeyedSemaphore × Option Handle
unfolding acquire
acquire_ref none key = (none, some noop)
acquire_ref (some s) key = let (s', handle) = acquire s key in (some s', handle)

unfoldable pub release : String → KeyedSemaphore → KeyedSemaphore
unfolding count
release key s =
    if leb (count s key) 1
    then record s { counts = delete key s.counts }
    else record s { counts = insert key (count s key - 1) s.counts }

-- A call of the closure.
unfoldable pub call : Handle → KeyedSemaphore → Handle × KeyedSemaphore
unfolding release
call noop s = (noop, s)
call (slot key true) s = (slot key true, s)
call (slot key false) s = (slot key true, release key s)
