-- ===== src/Vector/Matching.antt =====
-- What removing the matching items does to the snapshot of the cache.
use kubeflare.Prelude.{
  ℕ, zero, suc, ◌+◌, ◌≤◌, ◌<◌, ◌≡◌, refl, ap, sym, ◌∙◌, Bool, true, false, some, List, [], ◌∷◌,
  arith, if◌then◌else◌, Bool-cases, inl, inr, length, get_elem?,
}
use kubeflare.Vector.{
  Entry, BoundedCache, entries_from, snapshot, remove_at_pos, remove_matching_below,
  remove_matching,
}
use kubeflare.Vector.Newest.{Inv}
use kubeflare.Vector.Snapshot.{
  remove_nth, at, entries, remove_at_pos-Inv, remove_at_pos-snapshot, size-remove_at_pos,
}

-- The entries without those that match, and how many match.
pub reject : {T F : Type 0} → (T → Bool) → List (Entry T F) → List (Entry T F)
reject pred [] = []
reject pred (e ∷ es) = let rest = reject pred es in if pred e.item then rest else e ∷ rest

pub count_matching : {T F : Type 0} → (T → Bool) → List (Entry T F) → ℕ
count_matching pred [] = 0
count_matching pred (e ∷ es) =
    let rest = count_matching pred es in if pred e.item then suc rest else rest

-- The same for the first entries alone.
reject_below : {T F : Type 0} → (T → Bool) → ℕ → List (Entry T F) → List (Entry T F)
reject_below pred zero es = es
reject_below pred (suc n) [] = []
reject_below pred (suc n) (e ∷ es) =
    let rest = reject_below pred n es in if pred e.item then rest else e ∷ rest

count_below : {T F : Type 0} → (T → Bool) → ℕ → List (Entry T F) → ℕ
count_below pred zero es = 0
count_below pred (suc n) [] = 0
count_below pred (suc n) (e ∷ es) =
    let rest = count_below pred n es in if pred e.item then suc rest else rest

some_inj : {A : Type 0} {a b : A} → some a ≡ some b → a ≡ b
some_inj h = ground arith

module _ {T F : Type 0} (pred : T → Bool) where
  below_all :
      (es : List (Entry T F))
      → (reject_below pred (length es) es ≡ reject pred es)
        × (count_below pred (length es) es ≡ count_matching pred es)
  unfolding reject reject_below count_below count_matching
  below_all [] = (refl, refl)
  below_all (e ∷ es) = (ground (arith, (below_all es).0), ground (arith, (below_all es).1))

  below-match :
      (n : ℕ) (es : List (Entry T F)) (e : Entry T F)
      → get_elem? es n ≡ some e
      → pred e.item ≡ true
      → (reject_below pred (suc n) es ≡ reject_below pred n (remove_nth n es))
        × (count_below pred (suc n) es ≡ suc (count_below pred n (remove_nth n es)))
  unfolding reject_below count_below remove_nth
  below-match n [] e h m = ground arith
  below-match zero (x ∷ es) e h m =
      let same : pred x.item ≡ true = ap (λ y. pred y.item) (some_inj h) ∙ m in rw same (refl, refl)
  below-match (suc n) (x ∷ es) e h m =
      let (r, k) = below-match n es e h m in (ground (arith, r), ground (arith, k))

  below-keep :
      (n : ℕ) (es : List (Entry T F)) (e : Entry T F)
      → get_elem? es n ≡ some e
      → pred e.item ≡ false
      → (reject_below pred (suc n) es ≡ reject_below pred n es)
        × (count_below pred (suc n) es ≡ count_below pred n es)
  unfolding reject_below count_below
  below-keep n [] e h m = ground arith
  below-keep zero (x ∷ es) e h m =
      let same : pred x.item ≡ false = ap (λ y. pred y.item) (some_inj h) ∙ m in
      rw same (refl, refl)
  below-keep (suc n) (x ∷ es) e h m =
      let (r, k) = below-keep n es e h m in (ground (arith, r), ground (arith, k))

module _ {T F : Type 0} (zero_item : T) (pred : T → Bool) where
  get_elem?-entries :
      (n off i : ℕ) (c : BoundedCache T F)
      → i < n
      → get_elem? (entries zero_item n off c) i ≡ some (at zero_item c (off + i))
  unfolding entries_from
  get_elem?-entries zero off i c h = absurd (omega (arith, h))
  get_elem?-entries (suc n) off zero c h =
      ap (λ j. some (at zero_item c j)) {x = off} {y = off + 0} (omega arith)
  get_elem?-entries (suc n) off (suc i) c h =
      get_elem?-entries n (off + 1) i c (omega (arith, h))
      ∙ ap (λ j. some (at zero_item c j)) {x = off + 1 + i} {y = off + suc i} (omega arith)

  length-entries : (n off : ℕ) (c : BoundedCache T F) → length (entries zero_item n off c) ≡ n
  unfolding entries_from
  length-entries zero off c = refl
  length-entries (suc n) off c = ap suc (length-entries n (off + 1) c)

  abbrev loop : ℕ → BoundedCache T F → ℕ → BoundedCache T F × ℕ
  loop n c removed = remove_matching_below zero_item pred n c removed

  abbrev Rejects : ℕ → BoundedCache T F → ℕ → BoundedCache T F × ℕ → Type 0
  Rejects n c removed r =
      Inv (r.0)
      × (snapshot zero_item (r.0) ≡ reject_below pred n (snapshot zero_item c))
      × (r.1 ≡ removed + count_below pred n (snapshot zero_item c))

  found_at :
      (c : BoundedCache T F) (pos : ℕ)
      → pos < c.size
      → get_elem? (snapshot zero_item c) pos ≡ some (at zero_item c pos)
  unfolding snapshot
  found_at c pos h =
      get_elem?-entries c.size 0 pos c h
      ∙ ap (λ j. some (at zero_item c j)) {x = 0 + pos} {y = pos} (omega arith)

  loop_step :
      (pos : ℕ) (c : BoundedCache T F) (removed : ℕ) (b : Bool)
      → pred (at zero_item c pos).item ≡ b
      → loop (suc pos) c removed
        ≡ loop pos
            (if b then remove_at_pos zero_item pos c else c)
            (if b then removed + 1 else removed)
  unfolding remove_matching_below
  loop_step pos c removed b e =
      ap
        (λ x.
          loop pos (if x then remove_at_pos zero_item pos c else c)
            (if x then removed + 1 else removed))
        e

  loop-Rejects :
      (n : ℕ) (c : BoundedCache T F) (removed : ℕ)
      → Inv c
      → n ≤ c.size
      → Rejects n c removed (loop n c removed)
  loop-Rejects zero c removed v h =
      unfold remove_matching_below reject_below count_below in (v, refl, omega arith)
  loop-Rejects (suc pos) c removed v h = elim (Bool-cases (pred (at zero_item c pos).item)) [
    | inl matches ↦
        let (rejected, counted) =
          below-match pred pos (snapshot zero_item c) _ (found_at c pos h) matches in
        let gone = remove_at_pos-snapshot zero_item pos c v h in
        let (w, left, total) =
          loop-Rejects pos (remove_at_pos zero_item pos c) (removed + 1)
            (remove_at_pos-Inv zero_item pos c v)
            (omega (arith, h, size-remove_at_pos zero_item pos c)) in
        rw (loop_step pos c removed true matches) (
          w,
          left ∙ ap (reject_below pred pos) gone ∙ sym rejected,
          omega (arith, total, counted, ap (count_below pred pos) gone),
        )
    | inr keeps ↦
        let (rejected, counted) =
          below-keep pred pos (snapshot zero_item c) _ (found_at c pos h) keeps in
        let (w, left, total) = loop-Rejects pos c removed v (omega (arith, h)) in
        rw (loop_step pos c removed false keeps)
          (w, left ∙ sym rejected, omega (arith, total, counted))
  ]

  -- `RemoveMatching` leaves the entries of the snapshot that do not match, in their order, returns how
  -- many matched, and keeps the cache well formed.
  pub remove_matching-snapshot :
      (c : BoundedCache T F)
      → Inv c
      → Inv ((remove_matching zero_item pred c).0)
        × (snapshot zero_item ((remove_matching zero_item pred c).0)
            ≡ reject pred (snapshot zero_item c))
        × ((remove_matching zero_item pred c).1 ≡ count_matching pred (snapshot zero_item c))
  unfolding remove_matching
  remove_matching-snapshot c v =
      let (w, left, total) = loop-Rejects c.size c 0 v (omega arith) in
      let (all, number) = below_all pred (snapshot zero_item c) in
      let size : length (snapshot zero_item c) ≡ c.size =
        unfold snapshot in length-entries c.size 0 c in
      (
        w,
        left ∙ ap (λ n. reject_below pred n (snapshot zero_item c)) (sym size) ∙ all,
        omega (arith, total, number, ap (λ n. count_below pred n (snapshot zero_item c)) size),
      )
