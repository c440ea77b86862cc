-- ===== src/Vector/Adding.antt =====
-- What adding an item does to the snapshot of the cache.
use kubeflare.Prelude.{
  ℕ, zero, suc, ◌+◌, ◌≤◌, ◌<◌, ◌≡◌, ◌⊎◌, refl, ap, sym, ◌∙◌, false, String, List, [], ◌∷◌, arith,
  ◌==◌, str_eq, if◌then◌else◌, Bool-cases, inl, inr, take, length-set,
}
use kubeflare.Vector.{
  Entry, BoundedCache, prepend, remove_at_pos, remove_key_from, entries_from, snapshot,
}
use kubeflare.Vector.Ring.{next_head, mod-next_head}
use kubeflare.Vector.Newest.{Inv}
use kubeflare.Vector.Snapshot.{remove_nth, at, entries, remove_at_pos-Inv, remove_at_pos-snapshot}

-- The entries without the first one of this key.
unfoldable pub remove_key : {T F : Type 0} → String → List (Entry T F) → List (Entry T F)
remove_key key [] = []
remove_key key (e ∷ es) = let rest = remove_key key es in if str_eq e.key key then es else e ∷ rest

next_head_lt : (capacity head : ℕ) → head < capacity → next_head capacity head < capacity
unfolding next_head
next_head_lt capacity head h = ground (arith, h)

module _ {T F : Type 0} (zero_item : T) where
  -- What the search for a key from one position on comes to.
  unfoldable pub Searched : String → ℕ → ℕ → BoundedCache T F → Type 0
  Searched key left pos c =
      ((remove_key_from zero_item key left pos c ≡ c)
        × (remove_key key (entries zero_item left pos c) ≡ entries zero_item left pos c))
      ⊎ ((k : ℕ) × (k < left)
          × (remove_key_from zero_item key left pos c ≡ remove_at_pos zero_item (pos + k) c)
          × (remove_key key (entries zero_item left pos c)
              ≡ remove_nth k (entries zero_item left pos c)))

  pub remove_key_from-Searched :
      (key : String) (left pos : ℕ) (c : BoundedCache T F) → Searched key left pos c
  unfolding Searched remove_key_from remove_key entries_from remove_nth
  remove_key_from-Searched key zero pos c = inl (refl, refl)
  remove_key_from-Searched key (suc left) pos c =
      elim (Bool-cases (str_eq (at zero_item c pos).key key)) [
        | inl e ↦ inr (
          0,
          omega arith,
          rw e (ap (λ n. remove_at_pos zero_item n c) {x = pos} {y = pos + 0} (omega arith)),
          rw e refl,
        )
        | inr e ↦ elim (remove_key_from-Searched key left (pos + 1) c) [
          | inl (same, kept) ↦ inl (rw e same, rw e (ap (λ es. at zero_item c pos ∷ es) kept))
          | inr (k, small, removed, gone) ↦ inr (
            suc k,
            omega (arith, small),
            rw e (
                removed
                ∙ ap (λ n. remove_at_pos zero_item n c) {x = pos + 1 + k} {y = pos + suc k}
                    (omega arith)),
            rw e (ap (λ es. at zero_item c pos ∷ es) gone),
          )
        ]
      ]

  pub remove_key_from-snapshot :
      (key : String) (c : BoundedCache T F)
      → Inv c
      → Searched key c.size 0 c
      → Inv (remove_key_from zero_item key c.size 0 c)
        × (snapshot zero_item (remove_key_from zero_item key c.size 0 c)
            ≡ remove_key key (snapshot zero_item c))
  unfolding Searched snapshot
  remove_key_from-snapshot key c v (inl (same, kept)) =
      (rw same v, ap (snapshot zero_item) same ∙ sym kept)
  remove_key_from-snapshot key c v (inr (k, small, removed, gone)) = (
    rw removed (remove_at_pos-Inv zero_item (0 + k) c v),
    ap (snapshot zero_item) removed
        ∙ remove_at_pos-snapshot zero_item (0 + k) c v (omega (arith, small))
        ∙ ap (λ n. remove_nth n (snapshot zero_item c)) {x = 0 + k} {y = k} (omega arith)
        ∙ sym gone,
  )

  pub take-entries_short :
      (k n off : ℕ) (c : BoundedCache T F)
      → k ≤ n
      → take k (entries zero_item n off c) ≡ entries zero_item k off c
  unfolding entries_from
  take-entries_short zero n off c h = refl
  take-entries_short (suc k) zero off c h = absurd (omega (arith, h))
  take-entries_short (suc k) (suc n) off c h =
      ap (λ es. at zero_item c off ∷ es) (take-entries_short k n (off + 1) c (omega (arith, h)))

  pub take-entries_whole :
      (k n off : ℕ) (c : BoundedCache T F)
      → n ≤ k
      → take k (entries zero_item n off c) ≡ entries zero_item n off c
  unfolding entries_from
  take-entries_whole zero zero off c h = refl
  take-entries_whole zero (suc n) off c h = absurd (omega (arith, h))
  take-entries_whole (suc k) zero off c h = refl
  take-entries_whole (suc k) (suc n) off c h =
      ap (λ es. at zero_item c off ∷ es) (take-entries_whole k n (off + 1) c (omega (arith, h)))

  pub head-prepend_lt :
      (e : Entry T F) (c : BoundedCache T F) → Inv c → (prepend zero_item e c).head < c.capacity
  unfolding prepend
  head-prepend_lt e c v = elim (Bool-cases (c.size == 0)) [
    | inl empty ↦ rw empty (omega (arith, v.inside))
    | inr more ↦
        rw (more, mod-next_head c.capacity c.head v.inside)
          (next_head_lt c.capacity c.head v.inside)
  ]

  pub head-prepend :
      (e : Entry T F) (c : BoundedCache T F)
      → Inv c
      → 0 < c.size
      → (prepend zero_item e c).head ≡ next_head c.capacity c.head
  unfolding prepend
  head-prepend e c v h =
      let more : (c.size == 0) ≡ false = ground (arith, h) in
      rw more (mod-next_head c.capacity c.head v.inside)

  pub prepend-Inv : (e : Entry T F) (c : BoundedCache T F) → Inv c → Inv (prepend zero_item e c)
  unfolding prepend
  prepend-Inv e c v = record {
    full = length-set c.buf _ e ∙ v.full;
    inside = unfold prepend in head-prepend_lt e c v;
    fits = ground (arith, v.fits);
  }
