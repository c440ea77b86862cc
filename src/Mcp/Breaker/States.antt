-- ===== src/Mcp/Breaker/States.antt =====
-- What holds of a breaker after any calls, in any order and at any times.
use kubeflare.Prelude.{ℕ, ◌<◌, ◌≡◌, ◌⊎◌, ◌↔◌, Bool, true, false, List, [], ◌∷◌, arith, ℤ}
use kubeflare.Mcp.Breaker.{
  closed, opened, half_open, CircuitBreaker, new_circuit_breaker, allow, record_result, is_open,
}

pub data Call : Type 0 where
  allows : ℕ → Call
  records : ℕ → Bool → Call

pub step : CircuitBreaker → Call → CircuitBreaker
step b (allows now) = (allow now b).0
step b (records now success) = record_result now success b

pub run : CircuitBreaker → List Call → CircuitBreaker
run b [] = b
run b (c ∷ cs) = run (step b c) cs

-- A breaker that is closed has failed less than `threshold` times in a row, and the flag of a trial in
-- flight is up exactly while it is half open.
pub record Inv (b : CircuitBreaker) : Type 0 where
  pub armed : 0 < b.threshold
  pub cooling : 0 < b.cooldown
  pub below : b.state ≡ closed → b.consecutive_err < b.threshold
  pub trial : b.half_open_in_flight ≡ true → b.state ≡ half_open
  pub probing : b.state ≡ half_open → b.half_open_in_flight ≡ true

new-Inv : (threshold cooldown : ℤ) → Inv (new_circuit_breaker threshold cooldown)
unfolding new_circuit_breaker
new-Inv threshold cooldown = ground arith

step-Inv : (b : CircuitBreaker) (c : Call) → Inv b → Inv (step b c)
unfolding step allow record_result
step-Inv b (allows now) v = ground arith
step-Inv b (records now success) v = ground arith

run-Inv : (b : CircuitBreaker) (cs : List Call) → Inv b → Inv (run b cs)
unfolding run
run-Inv b [] v = v
run-Inv b (c ∷ cs) v = run-Inv (step b c) cs (step-Inv b c v)

-- A breaker that keeps the invariant lets a call through exactly when it is closed, or when it is
-- open and `isOpen` is false, that is, the cooldown is over. So a half-open one lets none through.
pub allow_decides :
    (b : CircuitBreaker) (now : ℕ)
    → Inv b
    → ((allow now b).1 ≡ true)
      ↔ ((b.state ≡ closed) ⊎ ((b.state ≡ opened) × (is_open now b ≡ false)))
unfolding allow is_open
allow_decides b now v = (ground arith, ground arith)

-- After any calls, in any order and at any times, a breaker made by the constructor has a threshold and
-- a cooldown above 0, is closed only below the threshold and has its flag of a trial in flight up exactly
-- while it is half open; and it lets the next call through exactly when it is closed, or open with the
-- cooldown over, so never while it is half open.
pub reached-Inv :
    (threshold cooldown : ℤ) (cs : List Call)
    → let b = run (new_circuit_breaker threshold cooldown) cs in
      Inv b
      × ((now : ℕ)
          → ((allow now b).1 ≡ true)
            ↔ ((b.state ≡ closed) ⊎ ((b.state ≡ opened) × (is_open now b ≡ false))))
reached-Inv threshold cooldown cs =
    let b = run (new_circuit_breaker threshold cooldown) cs in
    let inv = run-Inv (new_circuit_breaker threshold cooldown) cs (new-Inv threshold cooldown) in
    (inv, λ now. allow_decides b now inv)
