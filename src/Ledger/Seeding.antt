-- ===== src/Ledger/Seeding.antt =====
-- How a ledger is seeded: few hypotheses, in order, no two of which say the same.
use kubeflare.Prelude.{
  ℕ, zero, suc, ◌≡◌, refl, ap, ◌∙◌, sym, subst, ◌≤◌, ◌⊎◌, inl, inr, Bool-cases, Bool, true, false,
  ◌||◌, some, String, List, [], ◌∷◌, ◌++◌, eq_iff, leb, length, length-append, get_elem?, arith,
}
use mathlib.Core.Option.{some_inj}
use kubeflare.Prelude.Dots.{is_empty}
use kubeflare.Ledger.{
  Libs, HypothesisItem, max_ledger_hypotheses, pending, member, seed_item, one_line,
  new_hypothesis_id, add, add_all, seed_ledger,
}

module _ {A : Type 0} where
  get_elem?-snoc :
      (xs : List A) (x : A) (i : ℕ) (a : A)
      → get_elem? (xs ++ (x ∷ [])) i ≡ some a
      → (get_elem? xs i ≡ some a) ⊎ ((i ≡ length xs) × (x ≡ a))
  get_elem?-snoc [] x zero a h = inr (refl, some_inj.0 h)
  get_elem?-snoc [] x (suc i) a h = ground (arith, h)
  get_elem?-snoc (y ∷ xs) x zero a h = inl h
  get_elem?-snoc (y ∷ xs) x (suc i) a h = elim (get_elem?-snoc xs x i a h) [
    | inl found ↦ inl found
    | inr (last, same) ↦ inr (ap suc last, same)
  ]

or-falses : (a b c : Bool) → (a || b || c) ≡ false → (a ≡ false) × (b ≡ false) × (c ≡ false)
or-falses a b c h = (ground (arith, h), ground (arith, h), ground (arith, h))

module _ {F : Type 0} (libs : Libs F) where
  -- What a hypothesis is like that was only seeded.
  pub record Fresh (index : ℕ) (item : HypothesisItem F) : Type 0 where
    pub numbered : item.id ≡ new_hypothesis_id index
    pub undecided : item.status ≡ pending
    pub neutral : item.confidence ≡ libs.seed
    pub unsupported : item.evidence ≡ []
    pub worded : is_empty item.text ≡ false

  pub record Seeded (ledger : List (HypothesisItem F)) : Type 0 where
    pub few : length ledger ≤ max_ledger_hypotheses
    pub fresh : (i : ℕ) (item : HypothesisItem F) → get_elem? ledger i ≡ some item → Fresh i item
    pub distinct :
        (i j : ℕ) (a b : HypothesisItem F)
        → get_elem? ledger i ≡ some a
        → get_elem? ledger j ≡ some b
        → libs.lower a.text ≡ libs.lower b.text
        → i ≡ j

  record Inv (ledger : List (HypothesisItem F)) (seen : List String) : Type 0 where
    seeded : Seeded ledger
    marked :
        (i : ℕ) (item : HypothesisItem F)
        → get_elem? ledger i ≡ some item
        → member (libs.lower item.text) seen ≡ true

  new_key :
      (key text : String) (seen : List String)
      → member key seen ≡ false
      → member text seen ≡ true
      → text ≡ key
      → {A : Type 0} → A
  new_key key text seen free taken same =
      absurd (ground (arith, free, subst (λ k. member k seen ≡ true) same taken))

  snoc-Inv :
      (ledger : List (HypothesisItem F)) (seen : List String) (line : String)
      → is_empty line ≡ false
      → member (libs.lower line) seen ≡ false
      → leb max_ledger_hypotheses (length ledger) ≡ false
      → Inv ledger seen
      → Inv (ledger ++ (seed_item libs (length ledger) line ∷ [])) (libs.lower line ∷ seen)
  snoc-Inv ledger seen line worded free room inv = record {
    seeded = record {
      few =
          subst (λ n. n ≤ max_ledger_hypotheses)
            (sym (length-append ledger (seed_item libs (length ledger) line ∷ [])))
            (ground (arith, room));
      fresh = λ i item h.
          elim (get_elem?-snoc ledger (seed_item libs (length ledger) line) i item h) [
            | inl found ↦ inv.seeded.fresh i item found
            | inr (last, same) ↦
                subst (λ x. Fresh i x) same
                  (subst (λ n. Fresh n (seed_item libs (length ledger) line)) (sym last)
                    (record {
                      numbered = refl;
                      undecided = refl;
                      neutral = refl;
                      unsupported = refl;
                      worded = worded;
                    }))
          ];
      distinct = λ i j a b first second same.
          elim (get_elem?-snoc ledger (seed_item libs (length ledger) line) i a first) [
            | inl left ↦
                elim (get_elem?-snoc ledger (seed_item libs (length ledger) line) j b second) [
                  | inl right ↦ inv.seeded.distinct i j a b left right same
                  | inr (at, is) ↦
                      new_key (libs.lower line) (libs.lower a.text) seen free (inv.marked i a left)
                        (same ∙ sym (ap (λ (x : HypothesisItem F). libs.lower x.text) is))
                ]
            | inr (at, is) ↦
                elim (get_elem?-snoc ledger (seed_item libs (length ledger) line) j b second) [
                  | inl right ↦
                      new_key (libs.lower line) (libs.lower b.text) seen free (inv.marked j b right)
                        (sym same ∙ sym (ap (λ (x : HypothesisItem F). libs.lower x.text) is))
                  | inr (at', is') ↦ at ∙ sym at'
                ]
          ];
    };
    marked = λ i item h.
        elim (get_elem?-snoc ledger (seed_item libs (length ledger) line) i item h) [
          | inl found ↦ ground (arith, inv.marked i item found)
          | inr (last, same) ↦
              subst
                (λ (x : HypothesisItem F).
                  member (libs.lower x.text) (libs.lower line ∷ seen) ≡ true)
                same (ground (arith, eq_iff (libs.lower line) (libs.lower line)))
        ];
  }

  add-Inv :
      (text : String) (ledger : List (HypothesisItem F)) (seen : List String)
      → Inv ledger seen
      → let (ledger', seen') = add libs text (ledger, seen) in Inv ledger' seen'
  unfolding add
  add-Inv text ledger seen inv =
      let line = one_line text in
      elim (Bool-cases (
        is_empty line
        || member (libs.lower line) seen
        || leb max_ledger_hypotheses (length ledger))) [
          | inl skipped ↦ rw skipped inv
          | inr added ↦
              let (worded, free, room) =
                or-falses (is_empty line) (member (libs.lower line) seen)
                  (leb max_ledger_hypotheses (length ledger)) added in
              rw added (snoc-Inv ledger seen line worded free room inv)
        ]

  add_all-Inv :
      (texts : List String) (ledger : List (HypothesisItem F)) (seen : List String)
      → Inv ledger seen
      → let (ledger', seen') = add_all libs texts (ledger, seen) in Inv ledger' seen'
  unfolding add_all
  add_all-Inv [] ledger seen inv = inv
  add_all-Inv (text ∷ texts) ledger seen inv =
      let (ledger', seen') = add libs text (ledger, seen) in
      add_all-Inv texts ledger' seen' (add-Inv text ledger seen inv)

  empty-Inv : Inv [] []
  empty-Inv = record {
    seeded = record {
      few = omega arith;
      fresh = λ i item h. ground (arith, h);
      distinct = λ i j a b h. ground (arith, h);
    };
    marked = λ i item h. ground (arith, h);
  }

  -- Whatever the plan and the playbook give, a ledger has at most five hypotheses, numbered in order,
  -- none of them empty or decided, all of the neutral confidence and without evidence, and no two
  -- have one wording in lower case.
  pub seed_ledger-Seeded : (plan playbook : List String) → Seeded (seed_ledger libs plan playbook)
  unfolding seed_ledger
  seed_ledger-Seeded plan playbook =
      let (ledger, seen) = add_all libs plan ([], []) in
      (add_all-Inv playbook ledger seen (add_all-Inv plan [] [] empty-Inv)).seeded
