-- ===== src/Prelude/Numerals.antt =====
-- Go's `strconv.FormatInt(n, 10)` and `strconv.ParseInt(s, 10, 64)`.
use Prim.Native.Char.{code}
use Prim.Native.Nat.{ℕ, zero, suc, ◌+◌, ◌-◌, ◌*◌, ◌/◌, ◌%◌, ◌^◌}
use Prim.Native.String.{String, ◌++◌ as ◌<>◌}
use mathlib.Core.Path.{◌≡◌, refl}
use mathlib.Core.Bool.{◌&&◌}
use mathlib.Core.Option.{Option, none, some}
use kubeflare.Prelude.Tests.{ltb, leb, ◌==◌, if◌then◌else◌}
use mathlib.Core.List.{List, [], ◌∷◌}
use kubeflare.Prelude.Lists.{get_elem?}
use kubeflare.Prelude.Int.{ℤ, pos, negsuc}

abbrev digits : List String
digits = "0" ∷ "1" ∷ "2" ∷ "3" ∷ "4" ∷ "5" ∷ "6" ∷ "7" ∷ "8" ∷ "9" ∷ []

abbrev digit : ℕ → String
digit n = elim (get_elem? digits n) [ none ↦ "" | some d ↦ d ]

-- The decimal digits of a number, on fuel: an int64 has at most nineteen.
decimal : ℕ → ℕ → String
decimal zero n = ""
decimal (suc fuel) n =
    let front = decimal fuel (n / 10) in if ltb n 10 then digit n else front <> digit (n % 10)

unfoldable pub format_int : ℤ → String
unfolding decimal
format_int (pos n) = decimal 20 n
format_int (negsuc n) = "-" <> decimal 20 (n + 1)

abbrev extended : Option ℕ → ℕ → Option ℕ
extended none c = none
extended (some n) c = if leb b'0' c && leb c b'9' then some (n * 10 + (c - b'0')) else none

-- The digits behind a number that was read already.
digits_from : Option ℕ → String → Option ℕ
digits_from o String.[] = o
digits_from o (String.◌∷◌ c s) = digits_from (extended o (code c)) s

unsigned : String → Option ℕ
unfolding digits_from
unsigned String.[] = none
unsigned (String.◌∷◌ c s) = digits_from (extended (some 0) (code c)) s

abbrev in_range_pos : Option ℕ → Option ℤ
in_range_pos none = none
in_range_pos (some n) = if ltb n (2 ^ 63) then some (pos n) else none

abbrev in_range_neg : Option ℕ → Option ℤ
in_range_neg none = none
in_range_neg (some zero) = some (pos 0)
in_range_neg (some (suc n)) = if ltb n (2 ^ 63) then some (negsuc n) else none

-- `none` stands for every error.
unfoldable pub parse_int : String → Option ℤ
unfolding unsigned
parse_int String.[] = none
parse_int (String.◌∷◌ c s) =
    if code c == b'-'
    then in_range_neg (unsigned s)
    else if code c == b'+'
    then in_range_pos (unsigned s)
    else in_range_pos (unsigned (String.◌∷◌ c s))

formats : format_int (negsuc 1202) ≡ "-1203"
unfolding format_int
formats = refl

parses : parse_int "-1203" ≡ some (negsuc 1202)
unfolding parse_int
parses = refl

parses_no_letter : parse_int "12x" ≡ none
unfolding parse_int
parses_no_letter = refl
