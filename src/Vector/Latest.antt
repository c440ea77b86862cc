-- ===== src/Vector/Latest.antt =====
-- The cache holds the latest items: what `Add` makes of the snapshot.
use kubeflare.Prelude.{
  ℕ, zero, suc, ◌+◌, ◌-◌, ◌<◌, ◌≡◌, ◌≢◌, refl, ap, sym, ◌∙◌, subst, String, List, ◌∷◌, arith, ltb,
  if◌then◌else◌, Bool-cases, inl, inr, get_elem?, take, get_elem?-set_self, get_elem?-set_ne,
}
use mathlib.Core.Path.{ap₂}
use kubeflare.Prelude.Dots.{is_empty}
use kubeflare.Vector.{
  Entry, BoundedCache, index_at, entry_at, prepend, remove_by_key, remove_key_from, remove_at_pos,
  add, entries_from, snapshot, key_with, or_zero_entry,
}
use kubeflare.Vector.Ring.{slot_of, slot_of-injective, slot_of-next_head}
use kubeflare.Vector.Newest.{Inv, index_at-slot, shift_same}
use kubeflare.Vector.Snapshot.{at, entries, entries_same}
use kubeflare.Vector.Adding.{
  Searched, remove_key, remove_key_from-Searched, remove_key_from-snapshot, take-entries_short,
  take-entries_whole, head-prepend_lt, head-prepend, prepend-Inv,
}

slot_of-zero : (capacity head : ℕ) → slot_of capacity head 0 ≡ head
slot_of-zero capacity head = ground arith

take-cons :
    {A : Type 0} (n : ℕ) (x : A) (xs : List A) → 0 < n → take n (x ∷ xs) ≡ x ∷ take (n - 1) xs
take-cons zero x xs h = absurd (omega (arith, h))
take-cons (suc n) x xs h = ap (λ k. x ∷ take k xs) {x = n} {y = suc n - 1} (omega arith)

module _ {T F : Type 0} (zero_item : T) where
  abbrev with_front : Entry T F → BoundedCache T F → BoundedCache T F
  with_front e c = prepend zero_item e c

  index_at-front :
      (e : Entry T F) (c : BoundedCache T F)
      → Inv c
      → index_at (with_front e c) 0 ≡ (with_front e c).head
  index_at-front e c v =
      let w = prepend-Inv zero_item e c v in
      index_at-slot zero_item (with_front e c) 0 w (omega (arith, w.inside))
      ∙ slot_of-zero (with_front e c).capacity (with_front e c).head

  at-front : (e : Entry T F) (c : BoundedCache T F) → Inv c → at zero_item (with_front e c) 0 ≡ e
  unfolding entry_at
  at-front e c v = rw (index_at-front e c v) (
      unfold prepend in
      ap (or_zero_entry zero_item) (
        get_elem?-set_self c.buf _ e
          (subst (λ n. (with_front e c).head < n) (sym v.full) (head-prepend_lt zero_item e c v))))

  index_at-behind :
      (e : Entry T F) (c : BoundedCache T F) (i : ℕ)
      → Inv c
      → i < c.size
      → i + 1 < c.capacity
      → index_at (with_front e c) (i + 1) ≡ index_at c i
  unfolding prepend
  index_at-behind e c i v h k =
      index_at-slot zero_item (with_front e c) (i + 1) (prepend-Inv zero_item e c v) k
      ∙ ap (λ x. slot_of c.capacity x (i + 1)) (head-prepend zero_item e c v (omega (arith, h)))
      ∙ slot_of-next_head c.capacity c.head i v.inside k
      ∙ sym (index_at-slot zero_item c i v (omega (arith, k)))

  behind_elsewhere :
      (e : Entry T F) (c : BoundedCache T F) (i : ℕ)
      → Inv c
      → i + 1 < c.capacity
      → (with_front e c).head ≢ index_at (with_front e c) (i + 1)
  unfolding prepend
  behind_elsewhere e c i v k same =
      let w = prepend-Inv zero_item e c v in
      let apart : 0 ≡ i + 1 =
        slot_of-injective c.capacity (with_front e c).head 0 (i + 1) w.inside (omega (arith, k)) k (
          slot_of-zero c.capacity (with_front e c).head
          ∙ same
          ∙ index_at-slot zero_item (with_front e c) (i + 1) w k) in
      omega (arith, apart)

  at-behind :
      (e : Entry T F) (c : BoundedCache T F) (i : ℕ)
      → Inv c
      → i < c.size
      → i + 1 < c.capacity
      → at zero_item (with_front e c) (i + 1) ≡ at zero_item c i
  unfolding entry_at prepend
  at-behind e c i v h k =
      ap (or_zero_entry zero_item) (
        get_elem?-set_ne c.buf _ (index_at (with_front e c) (i + 1)) e (behind_elsewhere e c i v k))
      ∙ ap (λ n. or_zero_entry zero_item (get_elem? c.buf n)) (index_at-behind e c i v h k)

  -- How many entries stand behind the new one.
  abbrev behind : BoundedCache T F → ℕ
  behind c = if ltb c.size c.capacity then c.size else c.size - 1

  size-prepend :
      (e : Entry T F) (c : BoundedCache T F) → Inv c → (with_front e c).size ≡ suc (behind c)
  unfolding prepend
  size-prepend e c v = ground (arith, v.fits, v.inside)

  behind_bound :
      (c : BoundedCache T F) (i : ℕ) → Inv c → i < behind c → (i < c.size) × (i + 1 < c.capacity)
  behind_bound c i v h = (ground (arith, h), ground (arith, h, v.fits))

  take-behind :
      (c : BoundedCache T F)
      → Inv c
      → take (c.capacity - 1) (snapshot zero_item c) ≡ entries zero_item (behind c) 0 c
  unfolding snapshot
  take-behind c v = elim (Bool-cases (ltb c.size c.capacity)) [
    | inl room ↦
        rw room (take-entries_whole zero_item (c.capacity - 1) c.size 0 c (ground (arith, room)))
    | inr full ↦
        let same : c.capacity - 1 ≡ c.size - 1 = ground (arith, full, v.fits) in
        rw (full, same) (take-entries_short zero_item (c.size - 1) c.size 0 c (omega arith))
  ]

  prepend-snapshot :
      (e : Entry T F) (c : BoundedCache T F)
      → Inv c
      → snapshot zero_item (with_front e c) ≡ take c.capacity (e ∷ snapshot zero_item c)
  unfolding snapshot entries_from
  prepend-snapshot e c v =
      ap (λ n. entries zero_item n 0 (with_front e c)) (size-prepend e c v)
      ∙ ap₂ (λ x xs. x ∷ xs) (at-front e c v)
          (entries_same zero_item (behind c) 1 0 (with_front e c) c (λ i h.
            let (small, fits) = behind_bound c i v h in
            ap (at zero_item (with_front e c)) {x = 1 + i} {y = i + 1} (omega arith)
            ∙ at-behind e c i v small fits
            ∙ ap (at zero_item c) {x = i} {y = 0 + i} (omega arith)))
      ∙ sym (
          take-cons c.capacity e (snapshot zero_item c) (omega (arith, v.inside))
          ∙ ap (λ xs. e ∷ xs) (take-behind c v))

  Searched-capacity :
      (key : String) (left : ℕ) (c : BoundedCache T F)
      → Searched zero_item key left 0 c
      → ((remove_key_from zero_item key left 0 c).capacity ≡ c.capacity)
        × ((remove_key_from zero_item key left 0 c).key_of ≡ c.key_of)
  unfolding Searched remove_at_pos
  Searched-capacity key left c (inl (same, kept)) =
      (ap (λ d. d.capacity) same, ap (λ d. d.key_of) same)
  Searched-capacity key left c (inr (k, small, removed, gone)) =
      let (heads, sizes, caps, keys) = shift_same zero_item (c.size - 1 - (0 + k)) (0 + k) c in
      (ap (λ d. d.capacity) removed ∙ caps, ap (λ d. d.key_of) removed ∙ keys)

  -- What `removeByKeyLocked` leaves, for a key that may be empty.
  record Removed (key : String) (c d : BoundedCache T F) : Type 0 where
    sound : Inv d
    left :
        snapshot zero_item d
        ≡ (if is_empty key then snapshot zero_item c else remove_key key (snapshot zero_item c))
    same_capacity : d.capacity ≡ c.capacity
    same_keys : d.key_of ≡ c.key_of

  remove_by_key-Removed :
      (key : String) (c : BoundedCache T F) → Inv c → Removed key c (remove_by_key zero_item key c)
  unfolding remove_by_key
  remove_by_key-Removed key c v = elim (Bool-cases (is_empty key)) [
    | inl none_given ↦
        rw none_given
          (record { sound = v; left = rw none_given refl; same_capacity = refl; same_keys = refl })
    | inr given ↦
        let found = remove_key_from-Searched zero_item key c.size 0 c in
        let (sound, left) = remove_key_from-snapshot zero_item key c v found in
        let (capacity, keys) = Searched-capacity key c.size c found in
        rw given (record {
          sound = sound;
          left = rw given left;
          same_capacity = capacity;
          same_keys = keys;
        })
  ]

  -- `Add` of an item puts it in front of the snapshot, without the newest entry of its key if it has
  -- one, and drops the oldest entry if there is one too many; and the cache stays well formed.
  pub add-snapshot :
      (item : T) (vector : List F) (c : BoundedCache T F)
      → Inv c
      → Inv (add zero_item item vector c)
        × (snapshot zero_item (add zero_item item vector c)
            ≡ take c.capacity (
                record { item = item; vector = vector; key = key_with c.key_of item }
                ∷ (if is_empty (key_with c.key_of item)
                    then snapshot zero_item c
                    else remove_key (key_with c.key_of item) (snapshot zero_item c))))
  unfolding add
  add-snapshot item vector c v =
      let r = remove_by_key-Removed (key_with c.key_of item) c v in
      let e : Entry T F = record { item = item; vector = vector; key = key_with c.key_of item } in
      let d = remove_by_key zero_item (key_with c.key_of item) c in
      (
        prepend-Inv zero_item e d r.sound,
        prepend-snapshot e d r.sound ∙ ap₂ (λ n es. take n (e ∷ es)) r.same_capacity r.left,
      )

  pub add-same :
      (item : T) (vector : List F) (c : BoundedCache T F)
      → Inv c
      → ((add zero_item item vector c).capacity ≡ c.capacity)
        × ((add zero_item item vector c).key_of ≡ c.key_of)
  unfolding add prepend
  add-same item vector c v =
      let r = remove_by_key-Removed (key_with c.key_of item) c v in (r.same_capacity, r.same_keys)
