-- ===== src/Llm/Retry/Attempts.antt =====
-- What the retrying client returns, and how many times it calls its base client.
use kubeflare.Prelude.{
  ℕ, zero, suc, ◌+◌, ◌≡◌, refl, ◌⊎◌, inl, inr, true, false, Option, none, some, arith, ◌==◌, subst,
  Bool-cases, pos,
}
use kubeflare.Prelude.Fallible.{Fallible, ok, err}
use kubeflare.Llm.{LlmError, is_retryable}
use kubeflare.Llm.Retry.{backoff_delay, attempts, generate, after_sleep, after_call}

suc-==-zero : (n : ℕ) → (suc n == 0) ≡ false
suc-==-zero n = ground arith

module _ {S A : Type 0} (zero_value : A) (base : S → Fallible LlmError A × S)
    (sleep : ℕ → S → Option LlmError × S) (backoff : ℕ) where
  -- So many calls, from this attempt on, failed in a way that is worth a new try, and the sleep
  -- behind each was not cut short.
  pub data Failed : ℕ → ℕ → S → S → Type 0 where
    begun : {attempt : ℕ} {s : S} → Failed 0 attempt s s
    again :
        {n attempt : ℕ} {s s' s'' t : S} {e : LlmError}
        → base s ≡ (err e, s')
        → is_retryable e ≡ true
        → sleep (backoff_delay backoff attempt) s' ≡ (none, s'')
        → Failed n (attempt + 1) s'' t
        → Failed (suc n) attempt s t

  -- How the call in this state ends the loop, where `left` more calls would be allowed and this is
  -- the `attempt`-th.
  pub data Ended (left attempt : ℕ) (t : S) : Fallible LlmError A × S → Type 0 where
    success : {a : A} {t' : S} → base t ≡ (ok a, t') → Ended left attempt t (ok a, t')
    final :
        {e : LlmError} {t' : S}
        → base t ≡ (err e, t')
        → (is_retryable e ≡ false) ⊎ (left ≡ 0)
        → Ended left attempt t (err e, t')
    interrupted :
        {e x : LlmError} {t' t'' : S}
        → base t ≡ (err e, t')
        → sleep (backoff_delay backoff attempt) t' ≡ (some x, t'')
        → Ended left attempt t (err x, t'')

  -- The failures, the state behind them, the calls still allowed then, and the end.
  pub record Outcome (left attempt : ℕ) (s : S) (r : Fallible LlmError A × S) : Type 0 where
    pub failures : ℕ
    pub at : S
    pub failed : Failed failures attempt s at
    pub spare : ℕ
    pub number : ℕ
    pub spent : spare + failures ≡ left
    pub counted : number ≡ attempt + failures
    pub ended : Ended spare number at r

  ends_now :
      (left attempt : ℕ) (s : S) (r : Fallible LlmError A × S)
      → Ended left attempt s r
      → Outcome left attempt s r
  ends_now left attempt s r e = record {
    failures = 0;
    at = s;
    failed = begun;
    spare = left;
    number = attempt;
    spent = omega arith;
    counted = omega arith;
    ended = e;
  }

  fails_once :
      (left attempt : ℕ) (s s' s'' : S) (e : LlmError) (r : Fallible LlmError A × S)
      → base s ≡ (err e, s')
      → is_retryable e ≡ true
      → sleep (backoff_delay backoff attempt) s' ≡ (none, s'')
      → Outcome left (attempt + 1) s'' r
      → Outcome (suc left) attempt s r
  fails_once left attempt s s' s'' e r called retry slept o = record {
    failures = suc o.failures;
    at = o.at;
    failed = again called retry slept o.failed;
    spare = o.spare;
    number = o.number;
    spent = omega (arith, o.spent);
    counted = omega (arith, o.counted);
    ended = o.ended;
  }

  -- The loop from this attempt on, with `left` calls allowed behind this one.
  abbrev loop : ℕ → ℕ → S → Fallible LlmError A × S
  loop left attempt s = attempts zero_value base sleep left attempt backoff s

  slept-Outcome :
      (left attempt : ℕ) (s s' : S) (e : LlmError) (r : Option LlmError × S)
      → base s ≡ (err e, s')
      → is_retryable e ≡ true
      → sleep (backoff_delay backoff attempt) s' ≡ r
      → ((t : S) → Outcome left (attempt + 1) t (loop (suc left) (attempt + 1) t))
      → Outcome
          (suc left)
          attempt
          s
          (after_sleep zero_value base sleep (loop (suc left) (attempt + 1)) r)
  slept-Outcome left attempt s s' e (some x, s'') called retry slept ih =
      ends_now (suc left) attempt s _ (interrupted called slept)
  slept-Outcome left attempt s s' e (none, s'') called retry slept ih =
      fails_once left attempt s s' s'' e _ called retry slept (ih s'')

  abbrev then_loop : ℕ → ℕ → Fallible LlmError A × S → Fallible LlmError A × S
  then_loop left attempt r =
      after_call zero_value base sleep left attempt backoff (loop left (attempt + 1)) r

  called-Outcome :
      (left attempt : ℕ) (s : S) (r : Fallible LlmError A × S)
      → base s ≡ r
      → ((k : ℕ)
          → left ≡ suc k
          → (t : S) → Outcome k (attempt + 1) t (loop (suc k) (attempt + 1) t))
      → Outcome left attempt s (then_loop left attempt r)
  called-Outcome left attempt s (ok a, s') called ih = ends_now left attempt s _ (success called)
  called-Outcome zero attempt s (err e, s') called ih = elim (Bool-cases (is_retryable e)) [
    | inl retry ↦ rw retry (ends_now 0 attempt s _ (final called (inr refl)))
    | inr over ↦ rw over (ends_now 0 attempt s _ (final called (inr refl)))
  ]
  called-Outcome (suc left) attempt s (err e, s') called ih = elim (Bool-cases (is_retryable e)) [
    | inl retry ↦
        rw (retry, suc-==-zero left)
          (slept-Outcome left attempt s s' e _ called retry refl (ih left refl))
    | inr over ↦ rw over (ends_now (suc left) attempt s _ (final called (inl over)))
  ]

  from_pred :
      (left attempt : ℕ)
      → ((t : S) → Outcome left attempt t (loop (suc left) attempt t))
      → (k : ℕ) → suc left ≡ suc k
      → (t : S) → Outcome k attempt t (loop (suc k) attempt t)
  from_pred left attempt ih k e t =
      subst (λ j. Outcome j attempt t (loop (suc j) attempt t)) (omega arith) (ih t)

  one_round :
      (left attempt : ℕ) (s : S)
      → ((k : ℕ)
          → left ≡ suc k
          → (t : S) → Outcome k (attempt + 1) t (loop (suc k) (attempt + 1) t))
      → Outcome left attempt s (loop (suc left) attempt s)
  unfolding attempts
  one_round left attempt s ih = called-Outcome left attempt s (base s) refl ih

  attempts-Outcome : (left attempt : ℕ) (s : S) → Outcome left attempt s (loop (suc left) attempt s)
  attempts-Outcome zero attempt s = one_round 0 attempt s (λ k e. absurd (omega arith))
  attempts-Outcome (suc left) attempt s =
      one_round (suc left) attempt s
        (from_pred left (attempt + 1) (attempts-Outcome left (attempt + 1)))

  -- With at most `max` more tries the client makes at least one call and at most `max + 1`. All but
  -- the last failed in a way that is worth a new try; the last succeeded, or failed in a way that is
  -- not, or was the `max + 1`-st, or the sleep behind it was cut short; and the client returns that
  -- response or error.
  pub generate-Outcome :
      (max : ℕ) (s : S) → Outcome max 0 s (generate zero_value base sleep (pos max) backoff s)
  unfolding generate
  generate-Outcome max s = attempts-Outcome max 0 s
