-- ===== src/Ledger/Updates.antt =====
-- internal/module/agent/application/internal/core/hypothesis.go: what a reassessment changes in the ledger.
pub mod Tracking
use kubeflare.Prelude.{
  ℕ, suc, Bool, true, false, not, ◌&&◌, ◌||◌, Option, none, some, String, List, [], ◌∷◌, ◌++◌,
  str_eq, leb, length, get_elem?, set, arith, if◌then◌else◌,
}
use kubeflare.Prelude.Dots.{is_empty}
use kubeflare.Prelude.Text.{trim_space}
use kubeflare.Ledger.{
  Libs, HypothesisItem, LedgerUpdate, member, normalize_hypothesis_status, clamp_confidence,
  max_ledger_evidence_refs,
}

abbrev marked : List String → List String
marked [] = []
marked (ref ∷ refs) = let rest = marked refs in if is_empty ref then rest else ref ∷ rest

-- The loop over the new references: `seen`, `out` and `added`; a full list ends it.
unfoldable pub merge_from : List String → List String → List String → Bool → List String × Bool
unfolding trim_space
merge_from [] seen out added = (out, added)
merge_from (incoming ∷ rest) seen out added =
    let ref = trim_space incoming in
    elim (is_empty ref || member ref seen) [
      | true ↦ merge_from rest seen out added
      | false ↦ elim (leb max_ledger_evidence_refs (length out)) [
        | true ↦ (out, added)
        | false ↦ merge_from rest (ref ∷ seen) (out ++ (ref ∷ [])) true
      ]
    ]

unfoldable pub merge_evidence_refs : List String → List String → Option (List String)
unfolding merge_from
merge_evidence_refs existing incoming =
    let (out, added) = merge_from incoming (marked existing) (marked existing) false in
    if added then some out else none

module _ {F : Type 0} where
  -- The last position of an id, as the loop leaves it in the index.
  unfoldable pub index_of : String → List (HypothesisItem F) → Option ℕ
  index_of id [] = none
  index_of id (item ∷ ledger) = elim (index_of id ledger) [
    | some n ↦ some (suc n)
    | none ↦ if str_eq item.id id then some 0 else none
  ]

  abbrev with_status : String → HypothesisItem F → HypothesisItem F × Bool
  with_status status item =
      if not (is_empty status) && not (str_eq status item.status)
      then (
        record {
          id = item.id;
          text = item.text;
          status = status;
          confidence = item.confidence;
          evidence = item.evidence;
        },
        true,
      )
      else (item, false)

  abbrev with_evidence : Option (List String) → HypothesisItem F × Bool → HypothesisItem F × Bool
  with_evidence none (item, changed) = (item, changed)
  with_evidence (some merged) (item, changed) = (
    record {
      id = item.id;
      text = item.text;
      status = item.status;
      confidence = item.confidence;
      evidence = merged;
    },
    true,
  )

module _ {F : Type 0} (libs : Libs F) where
  abbrev with_confidence : Option F → HypothesisItem F × Bool → HypothesisItem F × Bool
  with_confidence none (item, changed) = (item, changed)
  with_confidence (some value) (item, changed) =
      let confidence = clamp_confidence libs value in
      if libs.same confidence item.confidence then (item, changed) else (
        record {
          id = item.id;
          text = item.text;
          status = item.status;
          confidence = confidence;
          evidence = item.evidence;
        },
        true,
      )

  -- One update of the item that it names.
  unfoldable pub update_item : LedgerUpdate F → HypothesisItem F → HypothesisItem F × Bool
  unfolding normalize_hypothesis_status merge_evidence_refs clamp_confidence
  update_item update item = with_evidence (merge_evidence_refs item.evidence update.evidence) (
      with_confidence update.confidence
        (with_status (normalize_hypothesis_status libs update.status) item))

  abbrev put_item :
      List (HypothesisItem F) → ℕ → Bool → HypothesisItem F × Bool → List (HypothesisItem F) × Bool
  put_item ledger pos changed (item, touched) = (set ledger pos item, changed || touched)

  abbrev update_at :
      LedgerUpdate F
      → List (HypothesisItem F)
      → Bool
      → ℕ
      → Option (HypothesisItem F)
      → List (HypothesisItem F) × Bool
  update_at update ledger changed pos none = (ledger, changed)
  update_at update ledger changed pos (some item) =
      put_item ledger pos changed (update_item update item)

  abbrev update_found :
      LedgerUpdate F → List (HypothesisItem F) → Bool → Option ℕ → List (HypothesisItem F) × Bool
  update_found update ledger changed none = (ledger, changed)
  update_found update ledger changed (some pos) =
      update_at update ledger changed pos (get_elem? ledger pos)

  -- The loop over the updates. The ids in the ledger do not change, so the index stays right.
  unfoldable pub apply_from :
      List (LedgerUpdate F) → List (HypothesisItem F) → Bool → List (HypothesisItem F) × Bool
  unfolding index_of update_item trim_space
  apply_from [] ledger changed = (ledger, changed)
  apply_from (update ∷ updates) ledger changed =
      let (ledger', changed') =
        update_found update ledger changed (index_of (trim_space update.id) ledger) in
      apply_from updates ledger' changed'

  -- The ledger behind the updates, and whether anything changed.
  unfoldable pub apply_ledger_updates :
      List (HypothesisItem F) → List (LedgerUpdate F) → List (HypothesisItem F) × Bool
  unfolding apply_from
  apply_ledger_updates ledger updates = apply_from updates ledger false
