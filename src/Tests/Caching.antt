-- ===== src/Tests/Caching.antt =====
-- The bounded cache at concrete inputs: items are their own keys.
use kubeflare.Prelude.{ℕ, ◌≡◌, refl, none, some, String, List, [], ◌∷◌, arith, pos}
use kubeflare.Vector.{Entry, BoundedCache, new_bounded_cache, snapshot}
use kubeflare.Vector.{remove_matching}
use kubeflare.Vector.Matching.{reject, count_matching, remove_matching-snapshot}
use kubeflare.Prelude.{Bool, str_eq}
use kubeflare.Vector.Newest.{Inv}
use kubeflare.Vector.Filled.{add_all, latest_all, filled-snapshot}
use kubeflare.Vector.Replace.{replace}
use kubeflare.Vector.Update.{update_vector, update_first, update_vector-snapshot}

abbrev items : List (String × List ℕ)
items = ("a", 1 ∷ []) ∷ ("b", 2 ∷ []) ∷ ("a", 3 ∷ []) ∷ ("c", 4 ∷ []) ∷ []

filled-snapshot_example :
    snapshot "" (add_all "" items (new_bounded_cache "" (pos 2) (some (λ x. x)) none))
    ≡ latest_all 2 (some (λ x. x)) items []
filled-snapshot_example = filled-snapshot "" (pos 2) (some (λ x. x)) none items

abbrev entry : String → Entry String ℕ
entry item = record { item = item; vector = []; key = item }

-- A full cache whose newest entry is in the last slot.
abbrev cache : BoundedCache String ℕ
cache = record {
  buf = entry "a" ∷ entry "b" ∷ [];
  head = 1;
  size = 2;
  capacity = 2;
  key_of = some (λ x. x);
  id_of = none;
}

cache-Inv : Inv cache
cache-Inv = record { full = refl; inside = omega arith; fits = omega arith }

abbrev is_a : String → Bool
is_a item = str_eq item "a"

remove_matching-snapshot_example :
    Inv ((remove_matching "" is_a cache).0)
    × (snapshot "" ((remove_matching "" is_a cache).0) ≡ reject is_a (snapshot "" cache))
    × ((remove_matching "" is_a cache).1 ≡ count_matching is_a (snapshot "" cache))
remove_matching-snapshot_example = remove_matching-snapshot "" is_a cache cache-Inv

-- The same cache with items that are their own ids.
abbrev known : BoundedCache String ℕ
known = record cache { id_of = some (λ x. x) }

update_vector-snapshot_example :
    snapshot "" (update_vector "" "a" (7 ∷ []) known)
    ≡ update_first (λ x. x) "a" (7 ∷ []) (snapshot "" known)
update_vector-snapshot_example =
    update_vector-snapshot "" (λ x. x) "a" (7 ∷ []) known
      (record { full = refl; inside = omega arith; fits = omega arith }) refl refl

abbrev replaced : BoundedCache String ℕ
replaced = replace "" (entry "c" ∷ entry "c" ∷ entry "d" ∷ entry "e" ∷ []) cache
