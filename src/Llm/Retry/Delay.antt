-- ===== src/Llm/Retry/Delay.antt =====
-- The delays between two attempts.
use Prim.Native.Nat.{min}
use native.Mathlib.Nat.{pow-suc}
use kubeflare.Prelude.{ℕ, zero, suc, ◌*◌, ◌^◌, ◌≤◌, ◌<◌, ◌≡◌, arith}
use kubeflare.Llm.Retry.{max_retry_backoff, double_loop, backoff_delay}

one-le-pow : (i : ℕ) → 1 ≤ 2 ^ i
one-le-pow zero = omega arith
one-le-pow (suc i) = rw (pow-suc 2 i) (omega (arith, one-le-pow i))

regroup : (delay i : ℕ) → delay * 2 ^ suc i ≡ (delay * 2) * 2 ^ i
regroup delay i = rw (pow-suc 2 i) (omega arith)

le-mul_pow : (n i : ℕ) → n ≤ n * 2 ^ i
le-mul_pow n i = grind (arith, one-le-pow i)

double_loop-min :
    (i delay : ℕ) → delay < 2 ^ 62 → double_loop i delay ≡ min (delay * 2 ^ i) max_retry_backoff
unfolding double_loop
double_loop-min zero delay h = ground arith
double_loop-min (suc i) delay h =
    rw (regroup delay i) (ground (arith, le-mul_pow (delay * 2) i, double_loop-min i (delay * 2)))

-- The delay before the next attempt is the base doubled for each attempt before it, and at most
-- `maxRetryBackoff`; no doubling wraps around, for a base of less than 2^62 nanoseconds.
pub backoff_delay-min :
    (base attempt : ℕ)
    → base < 2 ^ 62
    → backoff_delay base attempt ≡ min (base * 2 ^ attempt) max_retry_backoff
unfolding backoff_delay
backoff_delay-min base attempt h = double_loop-min attempt base h
