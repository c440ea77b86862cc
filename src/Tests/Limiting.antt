-- ===== src/Tests/Limiting.antt =====
-- The limiters and the circuit breaker at concrete inputs.
use kubeflare.Prelude.{
  ℕ, true, ◌↔◌, ◌⊎◌, ◌<◌, pos_part, ◌+◌, ◌≤◌, ◌≡◌, false, List, [], ◌∷◌, arith, pos,
}
use kubeflare.Limiter
use kubeflare.Limiter.Slots
use kubeflare.Limiter.Slots.{count_exact, acquires, calls}
use kubeflare.Limiter.Counter
use kubeflare.Limiter.Counter.{Counter, Atom, enters, takes_back, leaves, holders_bounded}
use kubeflare.Mcp.Breaker.{CircuitBreaker, new_circuit_breaker, closed, opened, allow, is_open}
use kubeflare.Mcp.Breaker.States
use kubeflare.Mcp.Breaker.States.{reached-Inv, allows, records}

-- Two callers of a key with one slot, the first of which calls its handle twice.
abbrev events : List Slots.Event
events = acquires "alice" ∷ acquires "alice" ∷ acquires "bob" ∷ calls 1 ∷ calls 1 ∷ []

abbrev after_events : Slots.World
after_events = Slots.run (Slots.start (pos 1)) events

count_exact_example :
    (Limiter.count after_events.sem "bob" ≡ Slots.live "bob" after_events.handles)
    × (Slots.live "bob" after_events.handles ≤ 1)
count_exact_example = count_exact (pos 1) events "bob"

abbrev atoms : List Atom
atoms = enters ∷ enters ∷ takes_back ∷ enters ∷ leaves ∷ []

abbrev after_atoms : Counter.Shared
after_atoms = Counter.run (Counter.start (pos 1)) atoms

holders_bounded_example :
    (after_atoms.counter.used ≡ after_atoms.holders + after_atoms.pending)
    × (0 < pos_part (pos 1)
        → (after_atoms.holders ≤ pos_part (pos 1)) × (after_atoms.unlimited_holders ≡ 0))
    × (pos_part (pos 1) ≡ 0
        → (after_atoms.counter.used ≡ 0)
          × (after_atoms.pending ≡ 0)
          × ((Counter.enter after_atoms).unlimited_holders ≡ after_atoms.unlimited_holders + 1))
holders_bounded_example = holders_bounded (pos 1) atoms

abbrev breaker_calls : List States.Call
breaker_calls = records 1 false ∷ records 2 false ∷ allows 50 ∷ []

abbrev breaker : CircuitBreaker
breaker = States.run (new_circuit_breaker (pos 2) (pos 10)) breaker_calls

reached-Inv_example :
    States.Inv breaker
    × ((now : ℕ)
        → ((allow now breaker).1 ≡ true)
          ↔ ((breaker.state ≡ closed) ⊎ ((breaker.state ≡ opened) × (is_open now breaker ≡ false))))
reached-Inv_example = reached-Inv (pos 2) (pos 10) breaker_calls

abbrev tripped_at_2 : CircuitBreaker
tripped_at_2 = record {
  threshold = 2;
  cooldown = 10;
  state = opened;
  consecutive_err = 2;
  opened_at = 2;
  half_open_in_flight = false;
}

tripped-Inv : States.Inv tripped_at_2
tripped-Inv = ground arith

abbrev fresh : CircuitBreaker
fresh = record {
  threshold = 2;
  cooldown = 10;
  state = closed;
  consecutive_err = 0;
  opened_at = 0;
  half_open_in_flight = false;
}
