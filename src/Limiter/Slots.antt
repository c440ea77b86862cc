-- ===== src/Limiter/Slots.antt =====
-- The keyed semaphore against the handles that it has given out, over any sequence of calls.
use kubeflare.Prelude.{
  ℕ, zero, suc, ◌+◌, ◌≤◌, ◌≡◌, refl, ap, ◌∙◌, String, Bool, true, false, Option, none, some, List,
  [], ◌∷◌, arith, str_eq, eq_iff, ℤ, pos_part, subst, ltb, if◌then◌else◌, ◌<◌,
}
use kubeflare.Prelude.Dict.{lookup, insert, lookup-insert, lookup-delete}
use kubeflare.Limiter.{
  KeyedSemaphore, new_keyed_semaphore, Handle, noop, slot, count, acquire, release, call,
}

-- A semaphore and all the handles that it has given out, the newest first.
pub record World : Type 0 where
  pub sem : KeyedSemaphore
  pub handles : List Handle

-- A caller acquires a key, or calls the i-th handle, perhaps not for the first time.
pub data Event : Type 0 where
  acquires : String → Event
  calls : ℕ → Event

abbrev granted : Option Handle → List Handle → List Handle
granted none hs = hs
granted (some h) hs = h ∷ hs

unfoldable pub call_at : ℕ → List Handle → KeyedSemaphore → List Handle × KeyedSemaphore
call_at i [] s = ([], s)
call_at zero (h ∷ hs) s = let (h', s') = call h s in (h' ∷ hs, s')
call_at (suc i) (h ∷ hs) s = let (hs', s') = call_at i hs s in (h ∷ hs', s')

unfoldable pub step : World → Event → World
step w (acquires key) =
    let (s', h) = acquire w.sem key in record { sem = s'; handles = granted h w.handles }
step w (calls i) = let (hs', s') = call_at i w.handles w.sem in record { sem = s'; handles = hs' }

unfoldable pub run : World → List Event → World
run w [] = w
run w (e ∷ es) = run (step w e) es

abbrev pub start : ℤ → World
start max = record { sem = new_keyed_semaphore max; handles = [] }

abbrev one : Bool → ℕ
one true = 1
one false = 0

abbrev held : String → Handle → ℕ
held k noop = 0
held k (slot j true) = 0
held k (slot j false) = one (str_eq j k)

-- The slots of a key that are held: handles whose `Once` has not run.
unfoldable pub live : String → List Handle → ℕ
live k [] = 0
live k (h ∷ hs) = held k h + live k hs

-- What the map holds for a key with so many slots: nothing for 0.
abbrev entry : ℕ → Option ℕ
entry zero = none
entry (suc n) = some (suc n)

pub record Inv (w : World) : Type 0 where
  pub exact : (k : String) → lookup k w.sem.counts ≡ entry (live k w.handles)
  pub bounded : (k : String) → live k w.handles ≤ w.sem.max

count-eq-live : (w : World) → Inv w → (k : String) → count w.sem k ≡ live k w.handles
unfolding count
count-eq-live w v k = ground (arith, v.exact k)

entry-suc : (n : ℕ) → entry (n + 1) ≡ some (n + 1)
entry-suc n = ground arith

acquire_new :
    (w : World) (key k : String)
    → Inv w
    → lookup k (insert key (count w.sem key + 1) w.sem.counts)
      ≡ entry (live k (slot key false ∷ w.handles))
unfolding live
acquire_new w key k v =
    rw lookup-insert (
      ground
        (arith, count-eq-live w v key, v.exact k, eq_iff key k, entry-suc (live key w.handles)))

acquire-Inv : (w : World) (key : String) → Inv w → Inv (step w (acquires key))
unfolding step acquire live
acquire-Inv w key v = record {
  exact = λ k. ground (arith, acquire_new w key k v, v.exact k);
  bounded = λ k. ground (arith, count-eq-live w v key, v.bounded k, eq_iff key k);
}

release_old :
    (s : KeyedSemaphore) (key k : String) (n m : ℕ)
    → lookup key s.counts ≡ entry (suc n)
    → lookup k s.counts ≡ entry (one (str_eq key k) + m)
    → lookup k (release key s).counts ≡ entry m
unfolding release
release_old s key k n m h hk =
    ground
      (arith, lookup-insert key k n s.counts, lookup-delete key k s.counts, eq_iff key k, h, hk)

max-release : (key : String) (s : KeyedSemaphore) → (release key s).max ≡ s.max
unfolding release
max-release key s = ground arith

-- What a call of a handle keeps, beside the slots `others` that other handles hold.
record Kept (others : String → ℕ) (s : KeyedSemaphore) (hs hs' : List Handle) (s' : KeyedSemaphore)
    : Type 0 where
  exact : (k : String) → lookup k s'.counts ≡ entry (others k + live k hs')
  fewer : (k : String) → live k hs' ≤ live k hs
  same_max : s'.max ≡ s.max

call_at-Kept :
    (others : String → ℕ) (i : ℕ) (hs : List Handle) (s : KeyedSemaphore)
    → ((k : String) → lookup k s.counts ≡ entry (others k + live k hs))
    → Kept others s hs (call_at i hs s).0 (call_at i hs s).1
unfolding call_at live call
call_at-Kept others i [] s h = record { exact = h; fewer = λ k. omega arith; same_max = refl }
call_at-Kept others zero (noop ∷ hs) s h = record {
  exact = h;
  fewer = λ k. omega arith;
  same_max = refl;
}
call_at-Kept others zero (slot j true ∷ hs) s h = record {
  exact = h;
  fewer = λ k. omega arith;
  same_max = refl;
}
call_at-Kept others zero (slot j false ∷ hs) s h = record {
  exact = λ k.
      release_old s j k (others j + live j hs) (others k + (0 + live k hs))
        (h j ∙ ap entry {y = suc (others j + live j hs)} (ground (arith, eq_iff j j)))
        (h k ∙ ap entry (omega arith));
  fewer = λ k. omega arith;
  same_max = max-release j s;
}
call_at-Kept others (suc i) (x ∷ hs) s h =
    let rest =
      call_at-Kept (λ k. others k + held k x) i hs s (λ k. rw (h k) (ap entry (omega arith))) in
    record {
      exact = λ k. rest.exact k ∙ ap entry (omega arith);
      fewer = λ k. omega (arith, rest.fewer k);
      same_max = rest.same_max;
    }

step-Inv : (w : World) (e : Event) → Inv w → Inv (step w e)
step-Inv w (acquires key) v = acquire-Inv w key v
step-Inv w (calls i) v =
    let kept = call_at-Kept (λ k. 0) i w.handles w.sem (λ k. v.exact k ∙ ap entry (omega arith)) in
    unfold step in
    record {
      exact = λ k. kept.exact k ∙ ap entry (omega arith);
      bounded = λ k. omega (arith, kept.fewer k, kept.same_max, v.bounded k);
    }

run-Inv : (w : World) (es : List Event) → Inv w → Inv (run w es)
unfolding run
run-Inv w [] v = v
run-Inv w (e ∷ es) v = run-Inv (step w e) es (step-Inv w e v)

start-Inv : (max : ℤ) → Inv (start max)
unfolding new_keyed_semaphore lookup live
start-Inv max = record { exact = λ k. refl; bounded = λ k. omega arith }

max-step : (w : World) (e : Event) → Inv w → (step w e).sem.max ≡ w.sem.max
max-step w (acquires key) v = unfold step acquire in ground arith
max-step w (calls i) v =
    let kept = call_at-Kept (λ k. 0) i w.handles w.sem (λ k. v.exact k ∙ ap entry (omega arith)) in
    unfold step in kept.same_max

max-run : (w : World) (es : List Event) → Inv w → (run w es).sem.max ≡ w.sem.max
unfolding run
max-run w [] v = refl
max-run w (e ∷ es) v = max-run (step w e) es (step-Inv w e v) ∙ max-step w e v

-- Whatever the calls, made in whatever order, with handles called any number of times: the counter
-- of a key is the number of its handles that were never called, and never above the limit.
pub count_exact :
    (max : ℤ) (es : List Event) (k : String)
    → let w = run (start max) es in
      (count w.sem k ≡ live k w.handles) × (live k w.handles ≤ pos_part max)
count_exact max es k =
    let v = run-Inv (start max) es (start-Inv max) in
    (
      count-eq-live (run (start max) es) v k,
      subst (λ m. live k (run (start max) es).handles ≤ m)
          (max-run (start max) es (start-Inv max) ∙ unfold new_keyed_semaphore in refl)
          (v.bounded k),
    )

empty_of_lookup : (m : List (String × ℕ)) → ((k : String) → lookup k m ≡ none) → m ≡ []
unfolding lookup
empty_of_lookup [] h = refl
empty_of_lookup ((k, n) ∷ m) h = ground (arith, h k, eq_iff k k)

-- Once every handle has been called, the map is empty: no key is left behind, however many keys
-- were used.
pub idle_empty :
    (max : ℤ) (es : List Event)
    → ((k : String) → live k (run (start max) es).handles ≡ 0)
    → (run (start max) es).sem.counts ≡ []
idle_empty max es idle =
    empty_of_lookup (run (start max) es).sem.counts
      λ k. (run-Inv (start max) es (start-Inv max)).exact k ∙ ap entry (idle k)

-- Below the limit a key is granted, at the limit it is refused, and a refusal changes nothing.
pub acquire_decides :
    (max : ℤ) (es : List Event) (k : String)
    → str_eq k "" ≡ false
    → 0 < pos_part max
    → let w = run (start max) es in
      acquire w.sem k ≡ (
        if ltb (live k w.handles) (pos_part max)
        then (
          record w.sem { counts = insert k (live k w.handles + 1) w.sem.counts },
          some (slot k false),
        )
        else (w.sem, none))
unfolding acquire
acquire_decides max es k named limited =
    let w = run (start max) es in
    let v = run-Inv (start max) es (start-Inv max) in
    let same : w.sem.max ≡ pos_part max =
      max-run (start max) es (start-Inv max) ∙ unfold new_keyed_semaphore in refl in
    ground (arith, count-eq-live w v k, same)

-- A refusal leaves the semaphore as it was.
pub acquire_refused :
    (s : KeyedSemaphore) (key : String) → (acquire s key).1 ≡ none → (acquire s key).0 ≡ s
unfolding acquire
acquire_refused s key e = ground arith

-- Calling a new handle takes back what its acquisition did.
pub acquire-call :
    (s : KeyedSemaphore) (key k : String) (h : Handle)
    → (acquire s key).1 ≡ some h
    → count (call h (acquire s key).0).1 k ≡ count s k
unfolding acquire call
acquire-call s key k h e =
    let grown = insert key (count s key + 1) s.counts in
    ground (
      arith,
      lookup-insert key k (count s key) grown,
      lookup-insert key key (count s key + 1) s.counts,
      lookup-insert key k (count s key + 1) s.counts,
      lookup-delete key k grown,
      eq_iff key key,
      eq_iff key k,
    )
