-- ===== src/Mcp/Supervise/Backoff.antt =====
-- How long the goroutine sleeps.
use kubeflare.Prelude.{
  ◌⊎◌, ◌∙◌, ap, sym, ◌&&◌, ◌||◌, Option, ℕ, zero, suc, ◌*◌, ◌^◌, ◌≤◌, ◌≡◌, refl, Bool, true, false,
  List, [], ◌∷◌, ◌++◌, arith, All, length, leb, Bool-cases, inl, inr,
}
use mathlib.Core.List.{append-nil, append_assoc}
use native.Mathlib.Nat.{pow-suc}
use Prim.Native.Nat.{min}
use kubeflare.Mcp.Manager.{ManagedServer, Metrics}
use kubeflare.Mcp.Supervise.{
  reconnect_base_backoff, reconnect_max_backoff, min_server_uptime, next_backoff, Connect,
  dial_failed, list_failed, listed, Round, Supervisor, start_supervisor, round, supervise,
  run_health_loop,
}

abbrev pub InRange : ℕ → Type 0
InRange t = (reconnect_base_backoff ≤ t) × (t ≤ reconnect_max_backoff)

All-append : {A : Type 0} (P : A → Type 0) (xs ys : List A) → All P xs → All P ys → All P (xs ++ ys)
All-append P [] ys h k = k
All-append P (x ∷ xs) ys h k = (h.0, All-append P xs ys h.1 k)

pub record Paced (s : Supervisor) : Type 0 where
  pub current : InRange s.backoff
  pub past : All InRange s.sleeps

-- A round sleeps once, for the backoff, or not at all.
round_sleeps :
    (r : Round) (s : Supervisor)
    → ((round r s).sleeps ≡ s.sleeps) ⊎ ((round r s).sleeps ≡ s.sleeps ++ s.backoff ∷ [])
unfolding round
round_sleeps r s = ground arith

round-Paced : (r : Round) (s : Supervisor) → Paced s → Paced (round r s)
round-Paced r s p = record {
  current = unfold round in ground (arith, p.current);
  past = elim (round_sleeps r s) [
    | inl e ↦ rw e p.past
    | inr e ↦ rw e (All-append InRange s.sleeps (s.backoff ∷ []) p.past (p.current, tt))
  ];
}

pub supervise_over :
    (r : Round) (rs : List Round) (s : Supervisor)
    → (s.returned || s.waiting) ≡ true
    → supervise (r ∷ rs) s ≡ s
unfolding supervise
supervise_over r rs s e = ground arith

pub supervise_on :
    (r : Round) (rs : List Round) (s : Supervisor)
    → (s.returned || s.waiting) ≡ false
    → supervise (r ∷ rs) s ≡ supervise rs (round r s)
unfolding supervise
supervise_on r rs s e = ground arith

supervise-Paced : (rs : List Round) (s : Supervisor) → Paced s → Paced (supervise rs s)
supervise-Paced [] s p = unfold supervise in p
supervise-Paced (r ∷ rs) s p = elim (Bool-cases (s.returned || s.waiting)) [
  | inl over ↦ rw (supervise_over r rs s over) p
  | inr on ↦ rw (supervise_on r rs s on) (supervise-Paced rs (round r s) (round-Paced r s p))
]

-- Whatever happens to the connections, every sleep between two attempts lasts at least the base
-- backoff and at most the greatest one.
pub sleeps_bounded :
    (rs : List Round) (server : ManagedServer) (metrics : Option Metrics)
    → All InRange (supervise rs (start_supervisor server metrics)).sleeps
sleeps_bounded rs server metrics =
    (supervise-Paced rs (start_supervisor server metrics)
      (unfold start_supervisor in record { current = (omega arith, omega arith); past = tt })).past

abbrev pub connects : Connect → Bool
connects dial_failed = false
connects (list_failed client) = false
connects (listed client remote) = true

-- A round that ends in a failure, or in a connection whose health loop returned and that did not live
-- long enough, without the context being cancelled.
abbrev pub Fails : Round → Type 0
Fails r =
    (r.cancelled_before ≡ false)
    × (r.cancelled_after ≡ false)
    × (r.awake ≡ true)
    × (run_health_loop r.probes ≡ true)
    × ((connects r.connect && leb min_server_uptime r.uptime) ≡ false)

-- The n-th delay of an exponential backoff.
abbrev pub delay : ℕ → ℕ
delay n = min (reconnect_base_backoff * 2 ^ n) reconnect_max_backoff

pub delays : ℕ → ℕ → List ℕ
delays n zero = []
delays n (suc k) = delay n ∷ delays (suc n) k

next_backoff-delay : (n : ℕ) → next_backoff (delay n) ≡ delay (suc n)
unfolding next_backoff
next_backoff-delay n = ground (arith, pow-suc 2 n)

round-Fails :
    (r : Round) (s : Supervisor)
    → Fails r
    → (s.returned || s.waiting) ≡ false
    → ((round r s).backoff ≡ next_backoff s.backoff)
      × ((round r s).sleeps ≡ s.sleeps ++ s.backoff ∷ [])
      × (((round r s).returned || (round r s).waiting) ≡ false)
unfolding round
round-Fails r s f on = (ground arith, ground arith, ground arith)

supervise-Fails :
    (n : ℕ) (rs : List Round) (s : Supervisor)
    → All Fails rs
    → (s.returned || s.waiting) ≡ false
    → s.backoff ≡ delay n
    → (supervise rs s).sleeps ≡ s.sleeps ++ delays n (length rs)
supervise-Fails n [] s fs on at = unfold supervise delays in sym (append-nil s.sleeps)
supervise-Fails n (r ∷ rs) s fs on at =
    let (backoff, sleeps, awake) = round-Fails r s fs.0 on in
    rw (supervise_on r rs s on) (
      supervise-Fails (suc n) rs (round r s) fs.1 awake
        (backoff ∙ ap next_backoff at ∙ next_backoff-delay n)
      ∙ ap (λ l. l ++ delays (suc n) (length rs)) (sleeps ∙ ap (λ b. s.sleeps ++ b ∷ []) at)
      ∙ unfold delays in append_assoc s.sleeps (delay n ∷ []) (delays (suc n) (length rs)))

-- As long as no connection lives long enough, the sleeps are exactly those of an exponential
-- backoff: the base doubled each time, up to the greatest.
pub failing_sleeps :
    (rs : List Round) (server : ManagedServer) (metrics : Option Metrics)
    → All Fails rs
    → (supervise rs (start_supervisor server metrics)).sleeps ≡ delays 0 (length rs)
failing_sleeps rs server metrics fs =
    supervise-Fails 0 rs (start_supervisor server metrics) fs (unfold start_supervisor in refl)
      (unfold start_supervisor in refl)
    ∙ unfold start_supervisor in refl
