-- ===== src/Ledger/Updates/Tracking.antt =====
-- What a reassessment leaves alone in the ledger.
use kubeflare.Prelude.{
  ℕ, zero, suc, ◌≡◌, refl, ap, ◌∙◌, sym, subst, ◌≤◌, inl, inr, Bool-cases, Bool, true, false, not,
  ◌&&◌, ◌||◌, Option, none, some, String, List, [], ◌∷◌, ◌++◌, str_eq, leb, length, length-append,
  length-set, get_elem?, set, arith,
}
use mathlib.Core.Option.{some_inj}
use kubeflare.Prelude.Dots.{is_empty}
use kubeflare.Prelude.Text.{trim_space}
use kubeflare.Ledger.{
  Libs, HypothesisItem, LedgerUpdate, member, normalize_hypothesis_status, clamp_confidence,
  max_ledger_evidence_refs,
}
use kubeflare.Ledger.Updates.{
  marked, merge_from, merge_evidence_refs, index_of, with_status, with_evidence, with_confidence,
  update_item, update_at, update_found, apply_from, apply_ledger_updates,
}

abbrev Few : List String → Type 0
Few refs = length refs ≤ max_ledger_evidence_refs

marked-few : (refs : List String) → length (marked refs) ≤ length refs
marked-few [] = omega arith
marked-few (ref ∷ refs) = ground (arith, marked-few refs)

merge_from-Few :
    (incoming seen out : List String) (added : Bool)
    → Few out
    → Few ((merge_from incoming seen out added).0)
unfolding merge_from
merge_from-Few [] seen out added few = few
merge_from-Few (ref ∷ rest) seen out added few =
    elim (Bool-cases (is_empty (trim_space ref) || member (trim_space ref) seen)) [
      | inl skipped ↦ rw (skipped, merge_from) (merge_from-Few rest seen out added few)
      | inr new ↦ elim (Bool-cases (leb max_ledger_evidence_refs (length out))) [
        | inl full ↦ rw (new, full, merge_from) few
        | inr room ↦
            rw (new, room, merge_from)
              (merge_from-Few rest (trim_space ref ∷ seen) (out ++ (trim_space ref ∷ [])) true
                (ground (arith, room, length-append out (trim_space ref ∷ []))))
      ]
    ]

merge_evidence_refs-Few :
    (existing incoming merged : List String)
    → Few existing
    → merge_evidence_refs existing incoming ≡ some merged
    → Few merged
unfolding merge_evidence_refs
merge_evidence_refs-Few existing incoming merged few h =
    let (out, added) = merge_from incoming (marked existing) (marked existing) false in
    let bounded =
      merge_from-Few incoming (marked existing) (marked existing) false
        (ground (arith, marked-few existing, few)) in
    elim (Bool-cases added) [
      | inl grown ↦ subst Few (some_inj.0 (rw grown at h)) bounded
      | inr idle ↦ ground (arith, rw idle at h)
    ]

module _ {F : Type 0} where
  -- What one item keeps: its id and its text, and that its evidence is short.
  pub record Kept (before after : HypothesisItem F) : Type 0 where
    pub id : after.id ≡ before.id
    pub text : after.text ≡ before.text
    pub few : Few before.evidence → Few after.evidence

  Kept-refl : (item : HypothesisItem F) → Kept item item
  Kept-refl item = record { id = refl; text = refl; few = λ h. h }

  Kept-trans : (a b c : HypothesisItem F) → Kept a b → Kept b c → Kept a c
  Kept-trans a b c f g = record {
    id = g.id ∙ f.id;
    text = g.text ∙ f.text;
    few = λ h. g.few (f.few h);
  }

  -- An item that is said not to have changed has not.
  record Stepped (before : HypothesisItem F) (r : HypothesisItem F × Bool) : Type 0 where
    kept : Kept before (r.0)
    evidence : (r.0).evidence ≡ before.evidence
    quiet : r.1 ≡ false → r.0 ≡ before

  -- A ledger whose items are those it had, in their order.
  pub record Tracked (before after : List (HypothesisItem F)) : Type 0 where
    pub as_long : length after ≡ length before
    pub items :
        (i : ℕ) (b : HypothesisItem F)
        → get_elem? after i ≡ some b
        → (a : HypothesisItem F) × (get_elem? before i ≡ some a) × Kept a b

  with_status-Stepped :
      (status : String) (item : HypothesisItem F) → Stepped item (with_status status item)
  with_status-Stepped status item =
      elim (Bool-cases (not (is_empty status) && not (str_eq status item.status))) [
        | inl other ↦ rw other (record {
          kept = record { id = refl; text = refl; few = λ h. h };
          evidence = refl;
          quiet = λ h. ground (arith, h);
        })
        | inr same ↦ rw same (record { kept = Kept-refl item; evidence = refl; quiet = λ h. refl })
      ]

  set-Tracked :
      (ledger : List (HypothesisItem F)) (pos : ℕ) (item item' : HypothesisItem F)
      → get_elem? ledger pos ≡ some item
      → Kept item item'
      → (i : ℕ) (b : HypothesisItem F) → get_elem? (set ledger pos item') i ≡ some b
      → (a : HypothesisItem F) × (get_elem? ledger i ≡ some a) × Kept a b
  set-Tracked [] pos item item' found kept i b h = ground (arith, found)
  set-Tracked (x ∷ xs) zero item item' found kept zero b h =
      (item, found, subst (λ y. Kept item y) (some_inj.0 h) kept)
  set-Tracked (x ∷ xs) zero item item' found kept (suc i) b h = (b, h, Kept-refl b)
  set-Tracked (x ∷ xs) (suc pos) item item' found kept zero b h = (b, h, Kept-refl b)
  set-Tracked (x ∷ xs) (suc pos) item item' found kept (suc i) b h =
      set-Tracked xs pos item item' found kept i b h

  set_same :
      (ledger : List (HypothesisItem F)) (pos : ℕ) (item : HypothesisItem F)
      → get_elem? ledger pos ≡ some item
      → set ledger pos item ≡ ledger
  set_same [] pos item found = refl
  set_same (x ∷ xs) zero item found = ap (λ y. y ∷ xs) (sym (some_inj.0 found))
  set_same (x ∷ xs) (suc pos) item found = ap (λ ys. x ∷ ys) (set_same xs pos item found)

  Tracked-refl : (ledger : List (HypothesisItem F)) → Tracked ledger ledger
  Tracked-refl ledger = record { as_long = refl; items = λ i b h. (b, h, Kept-refl b) }

  Tracked-trans : (a b c : List (HypothesisItem F)) → Tracked a b → Tracked b c → Tracked a c
  Tracked-trans a b c f g = record {
    as_long = g.as_long ∙ f.as_long;
    items = λ i z h.
        let (y, found, kept) = g.items i z h in
        let (x, there, kept') = f.items i y found in (x, there, Kept-trans x y z kept' kept);
  }

module _ {F : Type 0} (libs : Libs F) where
  with_confidence-Stepped :
      (value : Option F) (item : HypothesisItem F) (r : HypothesisItem F × Bool)
      → Stepped item r
      → Stepped item (with_confidence libs value r)
  with_confidence-Stepped none item (x, changed) step = step
  with_confidence-Stepped (some value) item (x, changed) step =
      elim (Bool-cases (libs.same (clamp_confidence libs value) x.confidence)) [
        | inl equal ↦ rw equal step
        | inr moved ↦ rw moved (record {
          kept = record { id = step.kept.id; text = step.kept.text; few = step.kept.few };
          evidence = step.evidence;
          quiet = λ h. ground (arith, h);
        })
      ]

  -- One update keeps an item's id and text and a short evidence short, and says when it changed it.
  update_item-Kept :
      (update : LedgerUpdate F) (item : HypothesisItem F)
      → Kept item ((update_item libs update item).0)
        × ((update_item libs update item).1 ≡ false → (update_item libs update item).0 ≡ item)
  unfolding update_item
  update_item-Kept update item =
      let r =
        with_confidence libs update.confidence
          (with_status (normalize_hypothesis_status libs update.status) item) in
      merged (merge_evidence_refs item.evidence update.evidence) refl r (
        with_confidence-Stepped update.confidence item
          (with_status (normalize_hypothesis_status libs update.status) item)
          (with_status-Stepped (normalize_hypothesis_status libs update.status) item))
    where
      merged :
          (o : Option (List String))
          → merge_evidence_refs item.evidence update.evidence ≡ o
          → (r : HypothesisItem F × Bool) → Stepped item r
          → Kept item ((with_evidence o r).0)
            × ((with_evidence o r).1 ≡ false → (with_evidence o r).0 ≡ item)
      merged none e (x, changed) step = (step.kept, step.quiet)
      merged (some refs) e (x, changed) step = (
        record {
          id = step.kept.id;
          text = step.kept.text;
          few = λ h. merge_evidence_refs-Few item.evidence update.evidence refs h e;
        },
        λ h. ground (arith, h),
      )

  update_at-Tracked :
      (update : LedgerUpdate F) (ledger : List (HypothesisItem F)) (changed : Bool) (pos : ℕ)
      (o : Option (HypothesisItem F))
      → get_elem? ledger pos ≡ o
      → Tracked ledger ((update_at libs update ledger changed pos o).0)
        × ((update_at libs update ledger changed pos o).1 ≡ false
            → (changed ≡ false) × ((update_at libs update ledger changed pos o).0 ≡ ledger))
  update_at-Tracked update ledger changed pos none e = (Tracked-refl ledger, λ h. (h, refl))
  update_at-Tracked update ledger changed pos (some item) e =
      let (kept, quiet) = update_item-Kept update item in
      let (item', touched) = update_item libs update item in
      (
        record {
          as_long = length-set ledger pos item';
          items = set-Tracked ledger pos item item' e kept;
        },
        λ h. (
          ground (arith, h),
          ap (λ x. set ledger pos x) (quiet (ground (arith, h))) ∙ set_same ledger pos item e,
        ),
      )

  update_found-Tracked :
      (update : LedgerUpdate F) (ledger : List (HypothesisItem F)) (changed : Bool) (o : Option ℕ)
      → Tracked ledger ((update_found libs update ledger changed o).0)
        × ((update_found libs update ledger changed o).1 ≡ false
            → (changed ≡ false) × ((update_found libs update ledger changed o).0 ≡ ledger))
  update_found-Tracked update ledger changed none = (Tracked-refl ledger, λ h. (h, refl))
  update_found-Tracked update ledger changed (some pos) =
      update_at-Tracked update ledger changed pos (get_elem? ledger pos) refl

  apply_from-Tracked :
      (updates : List (LedgerUpdate F)) (ledger : List (HypothesisItem F)) (changed : Bool)
      → Tracked ledger ((apply_from libs updates ledger changed).0)
        × ((apply_from libs updates ledger changed).1 ≡ false
            → (changed ≡ false) × ((apply_from libs updates ledger changed).0 ≡ ledger))
  unfolding apply_from
  apply_from-Tracked [] ledger changed = (Tracked-refl ledger, λ h. (h, refl))
  apply_from-Tracked (update ∷ updates) ledger changed =
      let o = index_of (trim_space update.id) ledger in
      let (tracked, quiet) = update_found-Tracked update ledger changed o in
      let (ledger', changed') = update_found libs update ledger changed o in
      let (tracked', quiet') = apply_from-Tracked updates ledger' changed' in
      (
        Tracked-trans ledger ledger' _ tracked tracked',
        λ h.
            let (still, same') = quiet' h in
            let (before, same) = quiet still in (before, same' ∙ same),
      )

-- Whatever updates a reassessment gives, the ledger keeps its hypotheses in their order with their ids
-- and texts, no evidence grows beyond four references that was within, and a ledger that is said not to
-- have changed is the one that was there.
pub apply_ledger_updates-Tracked :
    {F : Type 0} (libs : Libs F) (ledger : List (HypothesisItem F))
    (updates : List (LedgerUpdate F))
    → Tracked ledger ((apply_ledger_updates libs ledger updates).0)
      × ((apply_ledger_updates libs ledger updates).1 ≡ false
          → (apply_ledger_updates libs ledger updates).0 ≡ ledger)
unfolding apply_ledger_updates
apply_ledger_updates-Tracked libs ledger updates =
    let (tracked, quiet) = apply_from-Tracked libs updates ledger false in
    (tracked, λ h. let (before, same) = quiet h in same)
