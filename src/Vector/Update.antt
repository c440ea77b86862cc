-- ===== src/Vector/Update.antt =====
-- internal/module/agent/application/internal/vector/cache.go: `UpdateVector`, which fills in the embedding
-- of an item that is found by its id.
use kubeflare.Prelude.{
  ℕ, zero, suc, ◌+◌, ◌≤◌, ◌<◌, ◌≡◌, refl, ap, ◌∙◌, Bool-cases, inl, inr, Option, none, some, String,
  List, [], ◌∷◌, arith, ◌||◌, str_eq, if◌then◌else◌, true, false, Bool,
}
use mathlib.Core.Path.{ap₂}
use kubeflare.Prelude.Dots.{is_empty}
use kubeflare.Vector.{Entry, BoundedCache, entry_at, entries_from, snapshot}
use kubeflare.Vector.Newest.{Inv, put, entry_at-put_ne, entry_at-put_self}
use kubeflare.Vector.Snapshot.{at, entries, entries_same}

module _ {F : Type 0} where
  abbrev is_nil : List F → Bool
  is_nil [] = true
  is_nil (x ∷ xs) = false

module _ {T F : Type 0} where
  abbrev with_vector : List F → Entry T F → Entry T F
  with_vector vector e = record e { vector = vector }

  -- The list of entries with the vector of the first one of an id.
  pub update_first : (T → String) → String → List F → List (Entry T F) → List (Entry T F)
  update_first id_of id vector [] = []
  update_first id_of id vector (e ∷ es) =
      let rest = update_first id_of id vector es in
      if str_eq (id_of e.item) id then with_vector vector e ∷ es else e ∷ rest

module _ {T F : Type 0} (zero_item : T) where
  -- The loop of `UpdateVector`, with the rounds left.
  unfoldable pub update_from :
      (T → String) → String → List F → ℕ → ℕ → BoundedCache T F → BoundedCache T F
  unfolding entry_at
  update_from id_of id vector zero pos c = c
  update_from id_of id vector (suc left) pos c =
      let rest = update_from id_of id vector left (pos + 1) c in
      if str_eq (id_of (entry_at zero_item c pos).item) id
      then put zero_item c pos (with_vector vector (entry_at zero_item c pos))
      else rest

  abbrev update_by : Option (T → String) → String → List F → BoundedCache T F → BoundedCache T F
  update_by none id vector c = c
  update_by (some id_of) id vector c =
      if is_empty id || is_nil vector then c else update_from id_of id vector c.size 0 c

  -- `UpdateVector`
  unfoldable pub update_vector : String → List F → BoundedCache T F → BoundedCache T F
  unfolding update_from
  update_vector id vector c = update_by c.id_of id vector c

  module _ (id_of : T → String) (id : String) (vector : List F) where
    -- The positions in front of the loop keep their entries.
    update_from-before :
        (left pos i : ℕ) (c : BoundedCache T F)
        → Inv c
        → pos + left ≤ c.capacity
        → i < pos
        → at zero_item (update_from id_of id vector left pos c) i ≡ at zero_item c i
    unfolding update_from
    update_from-before zero pos i c v h k = refl
    update_from-before (suc left) pos i c v h k =
        elim (Bool-cases (str_eq (id_of (entry_at zero_item c pos).item) id)) [
          | inl e ↦ rw e (
              entry_at-put_ne zero_item c i pos (with_vector vector (entry_at zero_item c pos)) v
                (omega (arith, h, k)) (omega (arith, h)) (λ same. omega (arith, same, k)))
          | inr e ↦
              rw e (update_from-before left (pos + 1) i c v (omega (arith, h)) (omega (arith, k)))
        ]

    update_from-entries :
        (left pos : ℕ) (c : BoundedCache T F)
        → Inv c
        → pos + left ≤ c.capacity
        → entries zero_item left pos (update_from id_of id vector left pos c)
          ≡ update_first id_of id vector (entries zero_item left pos c)
    unfolding update_from update_first entries_from
    update_from-entries zero pos c v h = refl
    update_from-entries (suc left) pos c v h =
        elim (Bool-cases (str_eq (id_of (entry_at zero_item c pos).item) id)) [
          | inl e ↦ rw e (
              ap₂ (λ x xs. x ∷ xs)
                (entry_at-put_self zero_item c pos (with_vector vector (entry_at zero_item c pos)) v
                  (omega (arith, h)))
                (entries_same zero_item left (pos + 1) (pos + 1)
                  (put zero_item c pos (with_vector vector (entry_at zero_item c pos))) c
                  (λ i k.
                    entry_at-put_ne zero_item c (pos + 1 + i) pos
                      (with_vector vector (entry_at zero_item c pos)) v (omega (arith, h, k))
                      (omega (arith, h)) (λ same. omega (arith, same)))))
          | inr e ↦ rw e (
              ap₂ (λ x xs. x ∷ xs)
                (update_from-before left (pos + 1) pos c v (omega (arith, h)) (omega arith))
                (update_from-entries left (pos + 1) c v (omega (arith, h))))
        ]

    update_from-size :
        (left pos : ℕ) (c : BoundedCache T F)
        → (update_from id_of id vector left pos c).size ≡ c.size
    unfolding update_from
    update_from-size zero pos c = refl
    update_from-size (suc left) pos c =
        elim (Bool-cases (str_eq (id_of (entry_at zero_item c pos).item) id)) [
          | inl e ↦ rw e refl
          | inr e ↦ rw e (update_from-size left (pos + 1) c)
        ]

  -- An update of a cache that has ids, by an id and a vector that are not empty, gives the newest entry
  -- of that id its vector, and leaves the rest of the snapshot and its order alone.
  pub update_vector-snapshot :
      (id_of : T → String) (id : String) (vector : List F) (c : BoundedCache T F)
      → Inv c
      → c.id_of ≡ some id_of
      → (is_empty id || is_nil vector) ≡ false
      → snapshot zero_item (update_vector id vector c)
        ≡ update_first id_of id vector (snapshot zero_item c)
  unfolding update_vector snapshot
  update_vector-snapshot id_of id vector c v is given =
      ap (λ o. snapshot zero_item (update_by o id vector c)) is
      ∙ ap (λ b. snapshot zero_item (if b then c else update_from id_of id vector c.size 0 c)) given
      ∙ ap (λ n. entries zero_item n 0 (update_from id_of id vector c.size 0 c))
          (update_from-size id_of id vector c.size 0 c)
      ∙ update_from-entries id_of id vector c.size 0 c v (omega (arith, v.fits))
