-- ===== src/Vector/Filled.antt =====
-- The cache after any additions, against a list that is kept from the newest item to the oldest.
use kubeflare.Prelude.{
  ℕ, zero, suc, ◌<◌, ◌≡◌, refl, ap, ◌∙◌, Option, String, List, [], ◌∷◌, arith, if◌then◌else◌, take,
  ℤ, pos, negsuc, positive_or, length-replicate,
}
use mathlib.Core.Path.{ap₂}
use kubeflare.Prelude.Dots.{is_empty}
use kubeflare.Vector.{Entry, BoundedCache, add, entries_from, new_bounded_cache, snapshot, key_with}
use kubeflare.Vector.Newest.{Inv}
use kubeflare.Vector.Adding.{remove_key}
use kubeflare.Vector.Latest.{add-snapshot, add-same}

positive_or-positive : (n : ℤ) → 0 < positive_or 1 n
positive_or-positive (pos zero) = omega arith
positive_or-positive (pos (suc n)) = omega arith
positive_or-positive (negsuc n) = omega arith

module _ {T F : Type 0} where
  -- One addition, and all of them, on a list of bounded length.
  abbrev pub latest_add : ℕ → Option (T → String) → T → List F → List (Entry T F) → List (Entry T F)
  latest_add capacity key_of item vector es = take capacity (
      record { item = item; vector = vector; key = key_with key_of item }
      ∷ (if is_empty (key_with key_of item) then es else remove_key (key_with key_of item) es))

  pub latest_all : ℕ → Option (T → String) → List (T × List F) → List (Entry T F) → List (Entry T F)
  latest_all capacity key_of [] es = es
  latest_all capacity key_of ((item, vector) ∷ items) es =
      latest_all capacity key_of items (latest_add capacity key_of item vector es)

module _ {T F : Type 0} (zero_item : T) where
  -- Items with their vectors, added one after the other.
  pub add_all : List (T × List F) → BoundedCache T F → BoundedCache T F
  add_all [] c = c
  add_all ((item, vector) ∷ items) c = add_all items (add zero_item item vector c)

  add_all-snapshot :
      (items : List (T × List F)) (c : BoundedCache T F) (capacity : ℕ)
      (key_of : Option (T → String))
      → Inv c
      → c.capacity ≡ capacity
      → c.key_of ≡ key_of
      → snapshot zero_item (add_all items c)
        ≡ latest_all capacity key_of items (snapshot zero_item c)
  unfolding add_all latest_all
  add_all-snapshot [] c capacity key_of v same keys = refl
  add_all-snapshot ((item, vector) ∷ items) c capacity key_of v same keys =
      let (sound, after) = add-snapshot zero_item item vector c v in
      let (capacity_kept, keys_kept) = add-same zero_item item vector c v in
      add_all-snapshot items (add zero_item item vector c) capacity key_of sound
        (capacity_kept ∙ same) (keys_kept ∙ keys)
      ∙ ap (latest_all capacity key_of items)
          (after ∙ ap₂ (λ n k. latest_add n k item vector (snapshot zero_item c)) same keys)

  new-Inv :
      (capacity : ℤ) (key_of id_of : Option (T → String))
      → Inv (new_bounded_cache {F = F} zero_item capacity key_of id_of)
  unfolding new_bounded_cache
  new-Inv capacity key_of id_of = record {
    full = length-replicate (positive_or 1 capacity) _;
    inside = positive_or-positive capacity;
    fits = omega arith;
  }

  -- After any additions to a new cache its snapshot is the list that keeps the latest items: each
  -- addition in front, in place of the newest entry of its key if it has one, and the oldest entry
  -- dropped beyond the capacity, which is 1 if it was given as 0 or less.
  pub filled-snapshot :
      (capacity : ℤ) (key_of id_of : Option (T → String)) (items : List (T × List F))
      → snapshot zero_item (add_all items (new_bounded_cache zero_item capacity key_of id_of))
        ≡ latest_all (positive_or 1 capacity) key_of items []
  filled-snapshot capacity key_of id_of items =
      add_all-snapshot items (new_bounded_cache zero_item capacity key_of id_of)
        (positive_or 1 capacity) key_of (new-Inv capacity key_of id_of)
        (unfold new_bounded_cache in refl) (unfold new_bounded_cache in refl)
      ∙ (unfold new_bounded_cache snapshot entries_from in refl)
