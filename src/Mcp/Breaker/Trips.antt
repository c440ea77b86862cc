-- ===== src/Mcp/Breaker/Trips.antt =====
-- When a breaker opens, and how it lets one trial through.
use kubeflare.Prelude.{
  get_elem?, Option, none, some, Bool-cases, inl, inr, ◌-◌, ℕ, suc, ◌+◌, ◌≤◌, ◌<◌, ◌≡◌, refl, Bool,
  true, false, List, [], ◌∷◌, arith, leb, length, All,
}
use kubeflare.Mcp.Breaker.{CircuitBreaker, closed, opened, half_open, allow, record_result}

-- Failures reported one after the other, at these times.
pub fail_all : CircuitBreaker → List ℕ → CircuitBreaker
fail_all b [] = b
fail_all b (t ∷ ts) = fail_all (record_result t false b) ts

-- The breaker after `n` failures, if `at` is the time of the one that makes `threshold` in a row.
abbrev pub tripped : CircuitBreaker → ℕ → Option ℕ → CircuitBreaker
tripped b n none = record b { consecutive_err = b.consecutive_err + n }
tripped b n (some at) = record b { consecutive_err = b.threshold; state = opened; opened_at = at }

fail_all-opened : (b : CircuitBreaker) (ts : List ℕ) → b.state ≡ opened → fail_all b ts ≡ b
unfolding fail_all record_result
fail_all-opened b [] h = refl
fail_all-opened b (t ∷ ts) h = ground (arith, fail_all-opened b ts h)

-- A closed breaker below its threshold that is told of failures opens at the one that makes
-- `threshold` in a row, with its time, and ignores those that come later; if there are not that many
-- it counts them and stays closed.
pub fail_all-trips :
    (b : CircuitBreaker) (ts : List ℕ)
    → b.state ≡ closed
    → b.consecutive_err < b.threshold
    → fail_all b ts ≡ tripped b (length ts) (get_elem? ts (b.threshold - b.consecutive_err - 1))
unfolding fail_all record_result
fail_all-trips b [] h below = ground arith
fail_all-trips b (t ∷ ts) h below = elim (Bool-cases (leb b.threshold (b.consecutive_err + 1))) [
  | inl trips ↦
      let last : b.threshold - b.consecutive_err - 1 ≡ 0 = ground arith in
      rw last (
        ground (
          arith,
          fail_all-opened
              (record b { consecutive_err = b.consecutive_err + 1; state = opened; opened_at = t })
              ts,
        ))
  | inr holds ↦
      let more : b.threshold - b.consecutive_err - 1
          ≡ suc (b.threshold - (b.consecutive_err + 1) - 1) =
        ground arith in
      rw more
        (ground (arith, fail_all-trips (record b { consecutive_err = b.consecutive_err + 1 }) ts))
]

-- Calls that ask one after the other, at these times, with the answers.
pub allow_all : CircuitBreaker → List ℕ → CircuitBreaker × List Bool
allow_all b [] = (b, [])
allow_all b (t ∷ ts) =
    let (b', answer) = allow t b in let (b'', answers) = allow_all b' ts in (b'', answer ∷ answers)

abbrev pub all_refused : List ℕ → List Bool
all_refused [] = []
all_refused (t ∷ ts) = false ∷ all_refused ts

allow_all-half_open :
    (b : CircuitBreaker) (ts : List ℕ)
    → b.state ≡ half_open
    → b.half_open_in_flight ≡ true
    → allow_all b ts ≡ (b, all_refused ts)
unfolding allow_all allow
allow_all-half_open b [] h f = refl
allow_all-half_open b (t ∷ ts) h f = ground (arith, allow_all-half_open b ts h f)

-- While it cools down an open breaker refuses every call and stays as it is.
pub cooling_refuses :
    (b : CircuitBreaker) (ts : List ℕ)
    → b.state ≡ opened
    → All (λ t. t < b.opened_at + b.cooldown) ts
    → allow_all b ts ≡ (b, all_refused ts)
unfolding allow_all allow
cooling_refuses b [] h early = refl
cooling_refuses b (t ∷ ts) h early = ground (arith, cooling_refuses b ts h early.1)

-- When the cooldown is over, of the calls that ask before a result is reported the first is let
-- through, as the trial, and all others are refused.
pub one_trial :
    (b : CircuitBreaker) (t : ℕ) (ts : List ℕ)
    → b.state ≡ opened
    → b.opened_at + b.cooldown ≤ t
    → (allow_all b (t ∷ ts)).1 ≡ true ∷ all_refused ts
unfolding allow_all allow
one_trial b t ts h late =
    ground
      (arith, allow_all-half_open (record b { state = half_open; half_open_in_flight = true }) ts)
