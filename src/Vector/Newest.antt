-- ===== src/Vector/Newest.antt =====
-- The ring buffer against the list of its entries from the newest to the oldest.
use kubeflare.Prelude.{
  ℕ, zero, suc, ◌+◌, ◌≤◌, ◌<◌, ◌≡◌, ◌≢◌, refl, ap, sym, ◌∙◌, subst, arith, ltb, leb, ◌==◌,
  if◌then◌else◌, Bool-cases, inl, inr, length, set, length-set, get_elem?-set_self,
  get_elem?-set_ne,
}
use kubeflare.Vector.{Entry, BoundedCache, index_at, entry_at, shift, or_zero_entry}
use kubeflare.Vector.Ring.{slot_of, ring_index-slot_of, slot_of-lt, slot_of-injective}

module _ {T F : Type 0} where
  -- The buffer is as long as the capacity, the head is a slot of it, and no more entries than slots.
  pub record Inv (c : BoundedCache T F) : Type 0 where
    pub full : length c.buf ≡ c.capacity
    pub inside : c.head < c.capacity
    pub fits : c.size ≤ c.capacity

shifted :
    {A : Type 0} (cur left i : ℕ) (x y z : A)
    → (i ≡ cur → z ≡ x)
    → (if leb (cur + 1) i
        then (if ltb i (cur + 1 + left)
            then (if i + 1 == cur then z else x)
            else (if i == cur then z else y))
        else (if i == cur then z else y))
      ≡ (if leb cur i then (if ltb i (cur + suc left) then x else y) else y)
shifted cur left i x y z h = ground (arith, h)

module _ {T F : Type 0} (zero_item : T) where
  -- The buffer with another entry at a position.
  abbrev pub put : BoundedCache T F → ℕ → Entry T F → BoundedCache T F
  put c j e = record c { buf = set c.buf (index_at c j) e }

  abbrev slot : BoundedCache T F → ℕ → ℕ
  slot c i = slot_of c.capacity c.head i

  pub index_at-slot :
      (c : BoundedCache T F) (i : ℕ) → Inv c → i < c.capacity → index_at c i ≡ slot c i
  unfolding index_at
  index_at-slot c i v h = ring_index-slot_of c.capacity c.head i v.inside h

  pub put-Inv : (c : BoundedCache T F) (j : ℕ) (e : Entry T F) → Inv c → Inv (put c j e)
  put-Inv c j e v = record {
    full = length-set c.buf (index_at c j) e ∙ v.full;
    inside = v.inside;
    fits = v.fits;
  }

  pub entry_at-put_self :
      (c : BoundedCache T F) (j : ℕ) (e : Entry T F)
      → Inv c
      → j < c.capacity
      → entry_at zero_item (put c j e) j ≡ e
  unfolding entry_at
  entry_at-put_self c j e v h =
      let slot_in : index_at c j < length c.buf =
        rw (index_at-slot c j v h, v.full) (slot_of-lt c.capacity c.head j v.inside h) in
      ap (or_zero_entry zero_item) (get_elem?-set_self c.buf (index_at c j) e slot_in)

  pub entry_at-put_ne :
      (c : BoundedCache T F) (i j : ℕ) (e : Entry T F)
      → Inv c
      → i < c.capacity
      → j < c.capacity
      → i ≢ j
      → entry_at zero_item (put c j e) i ≡ entry_at zero_item c i
  unfolding entry_at
  entry_at-put_ne c i j e v h k ne = ap (or_zero_entry zero_item) (
      get_elem?-set_ne c.buf (index_at c j) (index_at c i) e (λ same. ne (
        sym (
          slot_of-injective c.capacity c.head j i v.inside k h
            (sym (index_at-slot c j v k) ∙ same ∙ index_at-slot c i v h)))))

  pub entry_at-put :
      (c : BoundedCache T F) (i j : ℕ) (e : Entry T F)
      → Inv c
      → i < c.capacity
      → j < c.capacity
      → entry_at zero_item (put c j e) i ≡ (if i == j then e else entry_at zero_item c i)
  entry_at-put c i j e v h k = elim (Bool-cases (i == j)) [
    | inl same ↦
        let eq : i ≡ j = ground (arith, same) in
        rw same
          (subst (λ x. entry_at zero_item (put c j e) x ≡ e) (sym eq) (entry_at-put_self c j e v k))
    | inr other ↦ rw other (entry_at-put_ne c i j e v h k (ground (arith, other)))
  ]

  -- What the loop of `removeAtPosLocked` does: the entries from one position on move up by one.
  pub shift-Inv : (left cur : ℕ) (c : BoundedCache T F) → Inv c → Inv (shift zero_item left cur c)
  unfolding shift
  shift-Inv zero cur c v = v
  shift-Inv (suc left) cur c v =
      shift-Inv left (cur + 1) _ (put-Inv c cur (entry_at zero_item c (cur + 1)) v)

  pub shift_same :
      (left cur : ℕ) (c : BoundedCache T F)
      → ((shift zero_item left cur c).head ≡ c.head)
        × ((shift zero_item left cur c).size ≡ c.size)
        × ((shift zero_item left cur c).capacity ≡ c.capacity)
        × ((shift zero_item left cur c).key_of ≡ c.key_of)
  unfolding shift
  shift_same zero cur c = (refl, refl, refl, refl)
  shift_same (suc left) cur c =
      shift_same left (cur + 1) (put c cur (entry_at zero_item c (cur + 1)))

  pub entry_at-shift :
      (left cur : ℕ) (c : BoundedCache T F) (i : ℕ)
      → Inv c
      → i + 1 < c.capacity
      → cur + left < c.capacity
      → entry_at zero_item (shift zero_item left cur c) i ≡ (
          if leb cur i
          then (if ltb i (cur + left) then entry_at zero_item c (i + 1) else entry_at zero_item c i)
          else entry_at zero_item c i)
  unfolding shift
  entry_at-shift zero cur c i v h k = ground arith
  entry_at-shift (suc left) cur c i v h k =
      let below : cur < c.capacity = omega (arith, k) in
      rw
        (
          entry_at-shift left (cur + 1) (put c cur (entry_at zero_item c (cur + 1))) i
              (put-Inv c cur (entry_at zero_item c (cur + 1)) v) h (omega (arith, k)),
          entry_at-put c i cur (entry_at zero_item c (cur + 1)) v (omega (arith, h)) below,
          entry_at-put c (i + 1) cur (entry_at zero_item c (cur + 1)) v h below,
        )
        (shifted cur left i _ _ _ (λ e. ap (λ x. entry_at zero_item c (x + 1)) (sym e)))
