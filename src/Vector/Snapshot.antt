-- ===== src/Vector/Snapshot.antt =====
-- What the operations of the cache do to its snapshot.
use kubeflare.Prelude.{
  ℕ, zero, suc, ◌+◌, ◌-◌, ◌≤◌, ◌<◌, ◌≡◌, refl, ap, ◌∙◌, true, List, [], ◌∷◌, arith, ltb, leb,
  length-set,
}
use mathlib.Core.Path.{ap₂}
use kubeflare.Vector.{
  Entry, BoundedCache, index_at, entry_at, shift, remove_at_pos, entries_from, snapshot, zero_entry,
}
use kubeflare.Vector.Newest.{Inv, shift-Inv, shift_same, entry_at-shift, entry_at-put_ne}

-- A list without its entry at a place.
unfoldable pub remove_nth : {A : Type 0} → ℕ → List A → List A
remove_nth n [] = []
remove_nth zero (x ∷ xs) = xs
remove_nth (suc n) (x ∷ xs) = x ∷ remove_nth n xs

module _ {T F : Type 0} (zero_item : T) where
  abbrev pub at : BoundedCache T F → ℕ → Entry T F
  at c i = entry_at zero_item c i

  abbrev pub entries : ℕ → ℕ → BoundedCache T F → List (Entry T F)
  entries n off c = entries_from zero_item n off c

  pub entries_same :
      (n off off' : ℕ) (c c' : BoundedCache T F)
      → ((i : ℕ) → i < n → at c (off + i) ≡ at c' (off' + i))
      → entries n off c ≡ entries n off' c'
  unfolding entries_from
  entries_same zero off off' c c' h = refl
  entries_same (suc n) off off' c c' h =
      ap₂ (λ x xs. x ∷ xs)
        (ap (at c) {y = off + 0} (omega arith)
          ∙ h 0 (omega arith)
          ∙ ap (at c') {y = off'} (omega arith))
        (entries_same n (off + 1) (off' + 1) c c' (λ i k.
          ap (at c) {y = off + suc i} (omega arith)
          ∙ h (suc i) (omega (arith, k))
          ∙ ap (at c') {y = off' + 1 + i} (omega arith)))

  entries-remove_nth :
      (n pos off : ℕ) (c c' : BoundedCache T F)
      → pos < suc n
      → ((i : ℕ) → i < pos → at c' (off + i) ≡ at c (off + i))
      → ((i : ℕ) → pos ≤ i → i < n → at c' (off + i) ≡ at c (off + i + 1))
      → entries n off c' ≡ remove_nth pos (entries (suc n) off c)
  unfolding entries_from remove_nth
  entries-remove_nth n zero off c c' p before after =
      entries_same n off (off + 1) c' c (λ i k.
        after i (omega arith) k ∙ ap (at c) {x = off + i + 1} {y = off + 1 + i} (omega arith))
  entries-remove_nth zero (suc pos) off c c' p before after = absurd (omega (arith, p))
  entries-remove_nth (suc n) (suc pos) off c c' p before after =
      ap₂ (λ x xs. x ∷ xs)
        (ap (at c') {y = off + 0} (omega arith)
          ∙ before 0 (omega arith)
          ∙ ap (at c) {y = off} (omega arith))
        (entries-remove_nth n pos (off + 1) c c' (omega (arith, p))
          (λ i k.
            ap (at c') {y = off + suc i} (omega arith)
            ∙ before (suc i) (omega (arith, k))
            ∙ ap (at c) {y = off + 1 + i} (omega arith))
          (λ i l k.
            ap (at c') {y = off + suc i} (omega arith)
            ∙ after (suc i) (omega (arith, l)) (omega (arith, k))
            ∙ ap (at c) {x = off + suc i + 1} {y = off + 1 + i + 1} (omega arith)))

  -- The cache behind the loop that moves the entries up, for a position of an entry.
  abbrev moved : ℕ → BoundedCache T F → BoundedCache T F
  moved pos c = shift zero_item (c.size - 1 - pos) pos c

  pub remove_at_pos-Inv :
      (pos : ℕ) (c : BoundedCache T F) → Inv c → Inv (remove_at_pos zero_item pos c)
  unfolding remove_at_pos
  remove_at_pos-Inv pos c v =
      let w = shift-Inv zero_item (c.size - 1 - pos) pos c v in
      record {
        full = length-set (moved pos c).buf _ (zero_entry zero_item) ∙ w.full;
        inside = w.inside;
        fits = omega (arith, w.fits);
      }

  at-remove_at_pos :
      (pos : ℕ) (c : BoundedCache T F) (i : ℕ)
      → Inv c
      → pos < c.size
      → i + 1 < c.size
      → at (remove_at_pos zero_item pos c) i ≡ at (moved pos c) i
  unfolding remove_at_pos entry_at index_at
  at-remove_at_pos pos c i v p h =
      let (heads, sizes, caps, keys) = shift_same zero_item (c.size - 1 - pos) pos c in
      entry_at-put_ne zero_item (moved pos c) i ((moved pos c).size - 1) (zero_entry zero_item)
        (shift-Inv zero_item (c.size - 1 - pos) pos c v) (omega (arith, h, v.fits, caps))
        (omega (arith, h, v.fits, caps, sizes)) (λ e. omega (arith, e, h, sizes))

  pub size-remove_at_pos :
      (pos : ℕ) (c : BoundedCache T F) → (remove_at_pos zero_item pos c).size ≡ c.size - 1
  unfolding remove_at_pos
  size-remove_at_pos pos c =
      let (heads, sizes, caps, keys) = shift_same zero_item (c.size - 1 - pos) pos c in
      omega (arith, sizes)

  at-moved_before :
      (pos : ℕ) (c : BoundedCache T F) (i : ℕ)
      → Inv c
      → pos < c.size
      → i < pos
      → at (remove_at_pos zero_item pos c) i ≡ at c i
  at-moved_before pos c i v p h =
      at-remove_at_pos pos c i v p (omega (arith, p, h))
      ∙ entry_at-shift zero_item (c.size - 1 - pos) pos c i v (omega (arith, p, h, v.fits))
          (omega (arith, p, v.fits))
      ∙ ground (arith, h)

  at-moved_after :
      (pos : ℕ) (c : BoundedCache T F) (i : ℕ)
      → Inv c
      → pos < c.size
      → pos ≤ i
      → i < c.size - 1
      → at (remove_at_pos zero_item pos c) i ≡ at c (i + 1)
  at-moved_after pos c i v p h k =
      let early : leb pos i ≡ true = ground (arith, h) in
      let late : ltb i (pos + (c.size - 1 - pos)) ≡ true = ground (arith, k, p) in
      at-remove_at_pos pos c i v p (omega (arith, k))
      ∙ entry_at-shift zero_item (c.size - 1 - pos) pos c i v (omega (arith, k, v.fits))
          (omega (arith, p, v.fits))
      ∙ rw (early, late) refl

  pub remove_at_pos-snapshot :
      (pos : ℕ) (c : BoundedCache T F)
      → Inv c
      → pos < c.size
      → snapshot zero_item (remove_at_pos zero_item pos c) ≡ remove_nth pos (snapshot zero_item c)
  unfolding snapshot
  remove_at_pos-snapshot pos c v p =
      ap (λ n. entries n 0 (remove_at_pos zero_item pos c)) (size-remove_at_pos pos c)
      ∙ entries-remove_nth (c.size - 1) pos 0 c (remove_at_pos zero_item pos c) (omega (arith, p))
          (λ i h.
            ap (at (remove_at_pos zero_item pos c)) {y = i} (omega arith)
            ∙ at-moved_before pos c i v p h
            ∙ ap (at c) {y = 0 + i} (omega arith))
          (λ i h k.
            ap (at (remove_at_pos zero_item pos c)) {y = i} (omega arith)
            ∙ at-moved_after pos c i v p h k
            ∙ ap (at c) {x = i + 1} {y = 0 + i + 1} (omega arith))
      ∙ ap (λ n. remove_nth pos (entries n 0 c)) {x = suc (c.size - 1)} {y = c.size}
          (omega (arith, p))
