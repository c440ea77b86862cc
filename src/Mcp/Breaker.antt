-- ===== src/Mcp/Breaker.antt =====
-- internal/module/agent/infrastructure/mcp/breaker.go: the circuit breaker of one server. The mutex
-- makes each method one step. Times and durations are nanoseconds; the clock is an argument of each
-- call, and `now.Sub(openedAt) < cooldown` is `now < openedAt + cooldown`.
pub mod States
pub mod Trips
use kubeflare.Prelude.{ℕ, ◌+◌, ◌*◌, Bool, true, false, ltb, leb, if◌then◌else◌, ℤ, positive_or}

-- `opened` is `breakerOpen`.
pub data BreakerState : Type 0 where
  closed opened half_open : BreakerState

-- The constructor leaves `threshold` and `cooldown` positive, and `consecutive_err` only grows
-- from 0. A breaker that never opened has the zero time.
pub record CircuitBreaker : Type 0 where
  pub threshold : ℕ
  pub cooldown : ℕ
  pub state : BreakerState
  pub consecutive_err : ℕ
  pub opened_at : ℕ
  pub half_open_in_flight : Bool

abbrev pub second : ℕ
second = 1_000_000_000

abbrev pub default_breaker_threshold : ℕ
default_breaker_threshold = 5

abbrev pub default_breaker_cooldown : ℕ
default_breaker_cooldown = 30 * second

unfoldable pub new_circuit_breaker : ℤ → ℤ → CircuitBreaker
new_circuit_breaker threshold cooldown = record {
  threshold = positive_or default_breaker_threshold threshold;
  cooldown = positive_or default_breaker_cooldown cooldown;
  state = closed;
  consecutive_err = 0;
  opened_at = 0;
  half_open_in_flight = false;
}

abbrev allow_in : BreakerState → ℕ → CircuitBreaker → CircuitBreaker × Bool
allow_in closed now b = (b, true)
allow_in opened now b =
    if ltb now (b.opened_at + b.cooldown)
    then (b, false)
    else (record b { state = half_open; half_open_in_flight = true }, true)
allow_in half_open now b =
    if b.half_open_in_flight then (b, false) else (record b { half_open_in_flight = true }, true)

unfoldable pub allow : ℕ → CircuitBreaker → CircuitBreaker × Bool
allow now b = allow_in b.state now b

abbrev record_in : BreakerState → ℕ → Bool → CircuitBreaker → CircuitBreaker
record_in half_open now true b = record b {
  half_open_in_flight = false;
  state = closed;
  consecutive_err = 0;
}
record_in half_open now false b = record b {
  half_open_in_flight = false;
  state = opened;
  opened_at = now;
}
record_in closed now true b = record b { consecutive_err = 0 }
record_in closed now false b =
    let failed = record b { consecutive_err = b.consecutive_err + 1 } in
    if leb b.threshold failed.consecutive_err
    then record failed { state = opened; opened_at = now }
    else failed
record_in opened now success b = b

-- `record(success)`, with what the clock says.
unfoldable pub record_result : ℕ → Bool → CircuitBreaker → CircuitBreaker
record_result now success b = record_in b.state now success b

abbrev open_in : BreakerState → ℕ → CircuitBreaker → Bool
open_in opened now b = ltb now (b.opened_at + b.cooldown)
open_in closed now b = false
open_in half_open now b = false

unfoldable pub is_open : ℕ → CircuitBreaker → Bool
is_open now b = open_in b.state now b
