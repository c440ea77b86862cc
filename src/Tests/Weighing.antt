-- ===== src/Tests/Weighing.antt =====
-- A ledger at concrete inputs, with confidences in percent and texts that are in lower case.
use kubeflare.Prelude.{ℕ, ◌≡◌, false, ltb, ◌==◌, some, [], ◌∷◌}
use kubeflare.Ledger.{Libs, LedgerUpdate, seed_ledger}
use kubeflare.Ledger.Seeding.{Seeded, seed_ledger-Seeded}
use kubeflare.Ledger.Updates.{apply_ledger_updates}
use kubeflare.Ledger.Updates.Tracking.{Tracked, apply_ledger_updates-Tracked}

abbrev percent : Libs ℕ
percent = record {
  zero = 0;
  one = 100;
  seed = 50;
  less = ltb;
  same = λ a b. a == b;
  lower = λ text. text;
}

seed_ledger-Seeded_example :
    Seeded percent (seed_ledger percent ("disk  full" ∷ "" ∷ []) ("disk full" ∷ "node down" ∷ []))
seed_ledger-Seeded_example =
    seed_ledger-Seeded percent ("disk  full" ∷ "" ∷ []) ("disk full" ∷ "node down" ∷ [])

abbrev update : LedgerUpdate ℕ
update = record {
  id = " H1 ";
  status = "excluded";
  confidence = some 120;
  evidence = "E1" ∷ "E1" ∷ [];
}

apply_ledger_updates-Tracked_example :
    Tracked
      (seed_ledger percent ("disk full" ∷ []) [])
      ((apply_ledger_updates percent (seed_ledger percent ("disk full" ∷ []) []) (update ∷ [])).0)
    × ((apply_ledger_updates percent (seed_ledger percent ("disk full" ∷ []) []) (update ∷ [])).1
          ≡ false
        → (apply_ledger_updates percent (seed_ledger percent ("disk full" ∷ []) []) (update ∷ [])).0
          ≡ seed_ledger percent ("disk full" ∷ []) [])
apply_ledger_updates-Tracked_example =
    apply_ledger_updates-Tracked percent (seed_ledger percent ("disk full" ∷ []) []) (update ∷ [])
