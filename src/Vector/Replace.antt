-- ===== src/Vector/Replace.antt =====
-- internal/module/agent/application/internal/vector/cache.go: `Replace`, which fills the cache anew from
-- the newest entry to the oldest.
use kubeflare.Prelude.{
  ◌+◌, Bool, false, not, ◌&&◌, ◌||◌, Option, none, some, String, List, [], ◌∷◌, leb, ◌==◌, str_eq,
  if◌then◌else◌, set, replicate,
}
use kubeflare.Prelude.Dots.{is_empty}
use kubeflare.Vector.{Entry, BoundedCache, index_at, zero_entry}

abbrev has_key : String → List String → Bool
has_key key [] = false
has_key key (k ∷ seen) = str_eq k key || has_key key seen

module _ {T F : Type 0} where
  abbrev as_only : Entry T F → BoundedCache T F → BoundedCache T F
  as_only e c = record c { head = 0; buf = set c.buf 0 e; size = 1 }

  abbrev behind : Entry T F → BoundedCache T F → BoundedCache T F
  behind e c = record c { buf = set c.buf (index_at c c.size) e; size = c.size + 1 }

  unfoldable pub append_oldest : Entry T F → BoundedCache T F → BoundedCache T F
  unfolding index_at
  append_oldest e c = if c.size == 0 then as_only e c else behind e c

  -- The entry with its key computed again, where the cache has keys.
  abbrev keyed : Option (T → String) → Entry T F → Entry T F
  keyed none e = e
  keyed (some f) e = record e { key = f e.item }

module _ {T : Type 0} where
  abbrev is_dup : Option (T → String) → String → List String → Bool
  is_dup none key seen = false
  is_dup (some f) key seen = not (is_empty key) && has_key key seen

  abbrev seen_also : Option (T → String) → String → List String → List String
  seen_also none key seen = seen
  seen_also (some f) key seen = if is_empty key then seen else key ∷ seen

module _ {T F : Type 0} where
  -- The loop of `Replace`, with the keys seen so far.
  unfoldable pub replace_from : List (Entry T F) → List String → BoundedCache T F → BoundedCache T F
  unfolding append_oldest
  replace_from [] seen c = c
  replace_from (entry ∷ es) seen c =
      let e = keyed c.key_of entry in
      let dup = is_dup c.key_of e.key seen in
      let rest =
        replace_from es (if dup then seen else seen_also c.key_of e.key seen)
          (if dup then c else append_oldest e c) in
      if leb c.capacity c.size then c else rest

  -- The list that a replacement means: the first entry of each key, a blank key being no key.
  pub first_of_each : Option (T → String) → List String → List (Entry T F) → List (Entry T F)
  first_of_each key_of seen [] = []
  first_of_each key_of seen (entry ∷ es) =
      let e = keyed key_of entry in
      let dup = is_dup key_of e.key seen in
      let rest = first_of_each key_of (if dup then seen else seen_also key_of e.key seen) es in
      if dup then rest else e ∷ rest

module _ {T F : Type 0} (zero_item : T) where
  -- `Replace`
  unfoldable pub replace : List (Entry T F) → BoundedCache T F → BoundedCache T F
  unfolding replace_from
  replace es c =
      replace_from es []
        (record c { buf = replicate c.capacity (zero_entry zero_item); head = 0; size = 0 })
