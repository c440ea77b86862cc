-- ===== src/Limiter/Counter.antt =====
-- internal/shared/limiter/limiter.go: the global counter, which works without a lock. Each atomic
-- addition is a step of its own, so calls of several goroutines interleave between the addition and
-- the one that takes it back. `used` stays far below 2^63.
use kubeflare.Prelude.{
  ℕ, zero, suc, ◌+◌, ◌-◌, ◌≤◌, ◌<◌, ◌≡◌, ◌∙◌, refl, Bool, true, false, Option, none, some, List, [],
  ◌∷◌, arith, ltb, ◌==◌, if◌then◌else◌, ℤ, pos_part,
}

pub record Counter : Type 0 where
  pub max : ℕ
  pub used : ℕ

unfoldable pub new_counter : ℤ → Counter
new_counter max = record { max = pos_part max; used = 0 }

-- The closure that `Acquire` returns: `func() {}`, or one that takes the addition back once.
pub data Token : Type 0 where
  unlimited : Token
  token : Bool → Token

-- `atomic.AddInt64(&c.used, 1)` and the same with -1.
unfoldable pub add : Counter → Counter
add c = record c { used = c.used + 1 }

unfoldable pub undo : Counter → Counter
undo c = record c { used = c.used - 1 }

-- A call that no other goroutine interrupts.
unfoldable pub acquire : Counter → Counter × Option Token
unfolding add undo
acquire c =
    if c.max == 0
    then (c, some unlimited)
    else if ltb c.max (add c).used
    then (undo (add c), none)
    else (add c, some (token false))

unfoldable pub call : Token → Counter → Token × Counter
unfolding undo
call unlimited c = (unlimited, c)
call (token true) c = (token true, c)
call (token false) c = (token true, undo c)

-- The counter with the goroutines that use it: those that hold a slot, those whose addition passed
-- the limit and is not yet taken back, and those that were let through without a limit.
pub record Shared : Type 0 where
  pub counter : Counter
  pub holders : ℕ
  pub pending : ℕ
  pub unlimited_holders : ℕ

-- The atomic steps of the goroutines. A call enters, which without a limit lets it through at once
-- and else is its addition; it takes an addition back that passed the limit; or it releases what it
-- was granted, with a limit or without.
pub data Atom : Type 0 where
  enters takes_back leaves leaves_unlimited : Atom

take_back : ℕ → Shared → Shared
unfolding undo
take_back zero s = s
take_back (suc p) s = record s { counter = undo s.counter; pending = p }

leave : ℕ → Shared → Shared
unfolding undo
leave zero s = s
leave (suc h) s = record s { counter = undo s.counter; holders = h }

-- The first step of `Acquire`, with its guard `c.max <= 0`.
pub enter : Shared → Shared
unfolding add
enter s =
    if s.counter.max == 0
    then record s { unlimited_holders = s.unlimited_holders + 1 }
    else if ltb s.counter.max (add s.counter).used
    then record s { counter = add s.counter; pending = s.pending + 1 }
    else record s { counter = add s.counter; holders = s.holders + 1 }

pub step : Shared → Atom → Shared
unfolding enter take_back leave
step s enters = enter s
step s takes_back = take_back s.pending s
step s leaves = leave s.holders s
step s leaves_unlimited = record s { unlimited_holders = s.unlimited_holders - 1 }

pub run : Shared → List Atom → Shared
run s [] = s
run s (a ∷ as_) = run (step s a) as_

abbrev pub start : ℤ → Shared
start max = record { counter = new_counter max; holders = 0; pending = 0; unlimited_holders = 0 }

pub record Inv (max : ℕ) (s : Shared) : Type 0 where
  pub limit : s.counter.max ≡ max
  pub balanced : s.counter.used ≡ s.holders + s.pending
  pub bounded : s.holders ≤ max
  pub limited : 0 < max → s.unlimited_holders ≡ 0
  pub untouched : max ≡ 0 → s.counter.used ≡ 0

step-Inv : (max : ℕ) (s : Shared) (a : Atom) → Inv max s → Inv max (step s a)
unfolding step
step-Inv max s enters v = ground (arith, v.limited, v.untouched)
step-Inv max s takes_back v = ground (arith, v.limited, v.untouched)
step-Inv max s leaves v = ground (arith, v.limited, v.untouched)
step-Inv max s leaves_unlimited v = ground (arith, v.limited, v.untouched)

run-Inv : (max : ℕ) (s : Shared) (as_ : List Atom) → Inv max s → Inv max (run s as_)
unfolding run
run-Inv max s [] v = v
run-Inv max s (a ∷ as_) v = run-Inv max (step s a) as_ (step-Inv max s a v)

-- However the atomic steps of the goroutines interleave, the counter is the number of the goroutines
-- that hold a slot plus that of the additions still to be taken back. Under a limit above 0 no more
-- goroutines hold a slot than the limit, and none is let through without one; without a limit, which a
-- limit of 0 or less means, the counter stays 0, no addition waits to be taken back, and a call that
-- enters is let through.
pub holders_bounded :
    (max : ℤ) (as_ : List Atom)
    → let s = run (start max) as_ in
      (s.counter.used ≡ s.holders + s.pending)
      × (0 < pos_part max → (s.holders ≤ pos_part max) × (s.unlimited_holders ≡ 0))
      × (pos_part max ≡ 0
          → (s.counter.used ≡ 0)
            × (s.pending ≡ 0)
            × ((enter s).unlimited_holders ≡ s.unlimited_holders + 1))
unfolding enter
holders_bounded max as_ =
    let s = run (start max) as_ in
    let v = run-Inv (pos_part max) (start max) as_ (unfold new_counter in ground arith) in
    (
      v.balanced,
      λ h. (v.bounded, v.limited h),
      λ h.
          let idle = v.untouched h in
          (
            idle,
            omega (arith, idle, v.balanced),
            rw (unlimited_max s.counter.max (v.limit ∙ h)) refl,
          ),
    )
  where
    unlimited_max : (n : ℕ) → n ≡ 0 → (n == 0) ≡ true
    unlimited_max n h = ground (arith, h)
