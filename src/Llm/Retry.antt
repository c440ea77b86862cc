-- ===== src/Llm/Retry.antt =====
-- internal/platform/llm/retry.go: the decorator that tries again. Durations are positive int64
-- nanoseconds, and doubling one wraps around.
pub mod Delay
pub mod Attempts
use kubeflare.Prelude.{
  ℕ, zero, suc, ◌+◌, ◌*◌, ◌%◌, ◌^◌, Bool, not, ◌&&◌, ◌||◌, Option, none, some, ltb, leb, ◌==◌,
  if◌then◌else◌, ℤ, pos, negsuc, positive_or,
}
use kubeflare.Prelude.Fallible.{Fallible, ok, err}
use kubeflare.Llm.{LlmError, is_retryable}

abbrev pub millisecond : ℕ
millisecond = 1_000_000

abbrev pub default_retry_backoff : ℕ
default_retry_backoff = 500 * millisecond

abbrev pub max_retry_backoff : ℕ
max_retry_backoff = 10_000 * millisecond

-- `newRetryingClient`: the backoff that a client is made with.
unfoldable pub retry_backoff : ℤ → ℕ
retry_backoff backoff = positive_or default_retry_backoff backoff

-- `delay *= 2`, as the bit pattern of an int64, and `delay >= maxRetryBackoff` of such a pattern.
abbrev double : ℕ → ℕ
double delay = (delay * 2) % 2 ^ 64

abbrev at_least_max : ℕ → Bool
at_least_max delay = ltb delay (2 ^ 63) && leb max_retry_backoff delay

unfoldable pub double_loop : ℕ → ℕ → ℕ
double_loop zero delay = if ltb max_retry_backoff delay then max_retry_backoff else delay
double_loop (suc i) delay =
    let rest = double_loop i (double delay) in
    if at_least_max (double delay) then max_retry_backoff else rest

unfoldable pub backoff_delay : ℕ → ℕ → ℕ
unfolding double_loop
backoff_delay base attempt = double_loop attempt base

-- The number of rounds of `for attempt := 0; attempt <= max; attempt++`.
unfoldable pub rounds : ℤ → ℕ
rounds (pos max) = suc max
rounds (negsuc n) = 0

-- The world's state, the zero response, a call of the base client, and `sleepWithContext`, which
-- gives an error when the context is cancelled.
module _ {S A : Type 0} (zero_value : A) (base : S → Fallible LlmError A × S)
    (sleep : ℕ → S → Option LlmError × S) where
  abbrev after_sleep : (S → Fallible LlmError A × S) → Option LlmError × S → Fallible LlmError A × S
  after_sleep again (some e, s) = (err e, s)
  after_sleep again (none, s) = again s

  abbrev after_call :
      ℕ → ℕ → ℕ → (S → Fallible LlmError A × S) → Fallible LlmError A × S → Fallible LlmError A × S
  after_call left attempt backoff again (ok response, s) = (ok response, s)
  after_call left attempt backoff again (err e, s) =
      if not (is_retryable e) || left == 0
      then (err e, s)
      else after_sleep again (sleep (backoff_delay backoff attempt) s)

  -- The rounds that are left; behind the last one the code returns its zero response.
  unfoldable pub attempts : ℕ → ℕ → ℕ → S → Fallible LlmError A × S
  attempts zero attempt backoff s = (ok zero_value, s)
  attempts (suc left) attempt backoff s =
      after_call left attempt backoff (attempts left (attempt + 1) backoff) (base s)

  -- `Generate`, and `Stream`.
  unfoldable pub generate : ℤ → ℕ → S → Fallible LlmError A × S
  unfolding attempts rounds
  generate max backoff s = attempts (rounds max) 0 backoff s
