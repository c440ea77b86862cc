-- ===== src/Vector.antt =====
-- internal/module/agent/application/internal/vector/cache.go: the bounded cache of items and their
-- embeddings, a ring buffer that is read from the newest item to the oldest. The lock makes each
-- method one step. `zero_item` is the zero value of an item; a component of a vector is a parameter.
pub mod Ring
pub mod Newest
pub mod Snapshot
pub mod Adding
pub mod Latest
pub mod Filled
pub mod Matching
pub mod Replace
pub mod Update
use kubeflare.Prelude.{
  ℕ, zero, suc, ◌+◌, ◌-◌, ◌%◌, Bool, Option, none, some, String, List, [], ◌∷◌, ltb, leb, ◌==◌,
  str_eq, if◌then◌else◌, ℤ, positive_or, get_elem?, set, replicate,
}
use kubeflare.Prelude.Dots.{is_empty}

pub record Entry (T F : Type 0) : Type 0 where
  pub item : T
  pub vector : List F
  pub key : String

pub record BoundedCache (T F : Type 0) : Type 0 where
  pub buf : List (Entry T F)
  pub head : ℕ
  pub size : ℕ
  pub capacity : ℕ
  pub key_of : Option (T → String)
  pub id_of : Option (T → String)

-- `idx := head - pos; idx %= capacity; if idx < 0 { idx += capacity }`; the remainder of a negative
-- number is not positive.
abbrev from_end : ℕ → ℕ → ℕ
from_end capacity r = if r == 0 then 0 else capacity - r

unfoldable pub ring_index : ℕ → ℕ → ℕ → ℕ
ring_index capacity head pos =
    if leb pos head then (head - pos) % capacity else from_end capacity ((pos - head) % capacity)

module _ {T F : Type 0} where
  unfoldable pub index_at : BoundedCache T F → ℕ → ℕ
  unfolding ring_index
  index_at c pos = ring_index c.capacity c.head pos

module _ {T : Type 0} where
  abbrev pub key_with : Option (T → String) → T → String
  key_with none item = ""
  key_with (some f) item = f item

module _ {T F : Type 0} (zero_item : T) where
  abbrev pub zero_entry : Entry T F
  zero_entry = record { item = zero_item; vector = []; key = "" }

  abbrev or_zero_entry : Option (Entry T F) → Entry T F
  or_zero_entry none = zero_entry
  or_zero_entry (some e) = e

  -- `c.buf[c.indexAt(pos)]`
  unfoldable pub entry_at : BoundedCache T F → ℕ → Entry T F
  unfolding index_at
  entry_at c pos = or_zero_entry (get_elem? c.buf (index_at c pos))

  unfoldable pub new_bounded_cache :
      ℤ → Option (T → String) → Option (T → String) → BoundedCache T F
  new_bounded_cache capacity key_of id_of = record {
    buf = replicate (positive_or 1 capacity) zero_entry;
    head = 0;
    size = 0;
    capacity = positive_or 1 capacity;
    key_of = key_of;
    id_of = id_of;
  }

  unfoldable pub prepend : Entry T F → BoundedCache T F → BoundedCache T F
  prepend e c =
      let head = if c.size == 0 then 0 else (c.head + 1) % c.capacity in
      record c {
        head = head;
        buf = set c.buf head e;
        size = if ltb c.size c.capacity then c.size + 1 else c.size;
      }

  -- The loop `for cur := pos; cur < size-1; cur++`, with the rounds left.
  unfoldable pub shift : ℕ → ℕ → BoundedCache T F → BoundedCache T F
  unfolding entry_at index_at
  shift zero cur c = c
  shift (suc left) cur c =
      shift left (cur + 1) (record c { buf = set c.buf (index_at c cur) (entry_at c (cur + 1)) })

  abbrev clear_oldest : BoundedCache T F → BoundedCache T F
  clear_oldest c = record c {
    buf = set c.buf (index_at c (c.size - 1)) zero_entry;
    size = c.size - 1;
  }

  unfoldable pub remove_at_pos : ℕ → BoundedCache T F → BoundedCache T F
  unfolding shift index_at
  remove_at_pos pos c = clear_oldest (shift (c.size - 1 - pos) pos c)

  -- The loop of `removeByKeyLocked`, with the rounds left.
  unfoldable pub remove_key_from : String → ℕ → ℕ → BoundedCache T F → BoundedCache T F
  unfolding entry_at remove_at_pos
  remove_key_from key zero pos c = c
  remove_key_from key (suc left) pos c =
      let rest = remove_key_from key left (pos + 1) c in
      if str_eq (entry_at c pos).key key then remove_at_pos pos c else rest

  unfoldable pub remove_by_key : String → BoundedCache T F → BoundedCache T F
  unfolding remove_key_from
  remove_by_key key c = if is_empty key then c else remove_key_from key c.size 0 c

  unfoldable pub add : T → List F → BoundedCache T F → BoundedCache T F
  unfolding remove_by_key prepend
  add item vector c =
      let key = key_with c.key_of item in
      prepend (record { item = item; vector = vector; key = key }) (remove_by_key key c)

  -- The loop of `Snapshot`, with the rounds left.
  unfoldable pub entries_from : ℕ → ℕ → BoundedCache T F → List (Entry T F)
  unfolding entry_at
  entries_from zero pos c = []
  entries_from (suc left) pos c = entry_at c pos ∷ entries_from left (pos + 1) c

  unfoldable pub snapshot : BoundedCache T F → List (Entry T F)
  unfolding entries_from
  snapshot c = entries_from c.size 0 c

  -- The loop of `RemoveMatching`, for the positions below one, with the count so far.
  unfoldable pub remove_matching_below :
      (T → Bool) → ℕ → BoundedCache T F → ℕ → BoundedCache T F × ℕ
  unfolding entry_at remove_at_pos
  remove_matching_below pred zero c removed = (c, removed)
  remove_matching_below pred (suc pos) c removed =
      let matches = pred (entry_at c pos).item in
      remove_matching_below pred pos (if matches then remove_at_pos pos c else c)
        (if matches then removed + 1 else removed)

  -- `RemoveMatching`, of a predicate that is not nil.
  unfoldable pub remove_matching : (T → Bool) → BoundedCache T F → BoundedCache T F × ℕ
  unfolding remove_matching_below
  remove_matching pred c = remove_matching_below pred c.size c 0
