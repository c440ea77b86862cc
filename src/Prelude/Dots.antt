-- ===== src/Prelude/Dots.antt =====
-- A prefix of a text, and the two parts of a text around its first dot.
use Prim.Native.Char.{Char, code}
use Prim.Native.String.{String, ◌++◌ as ◌<>◌}
use text.Mathlib.TextLemmas.{
  nil-append, cons-append, cons≢nil, head-eq_of_cons-eq, tail-eq_of_cons-eq,
}
use text.Mathlib.TextEquality.{Char-path}
use native.Mathlib.Omega.{arith}
use mathlib.Core.Path.{◌≡◌, refl, sym, ap, ◌∙◌, ap₂}
use mathlib.Core.Logic.{◌≢◌, inl, inr}
use mathlib.Core.Bool.{Bool, true, false, ◌||◌}
use mathlib.Core.Option.{Option, none, some}
use kubeflare.Prelude.Tests.{◌==◌, if◌then◌else◌, Bool-cases}

-- `strings.HasPrefix` with what is left behind the prefix.
unfoldable pub strip_prefix : String → String → Option String
strip_prefix String.[] s = some s
strip_prefix (String.◌∷◌ c p) String.[] = none
strip_prefix (String.◌∷◌ c p) (String.◌∷◌ d s) =
    let rest = strip_prefix p s in if code c == code d then rest else none

abbrev prepend : Char → Option (String × String) → Option (String × String)
prepend c none = none
prepend c (some (head, rest)) = some (String.◌∷◌ c head, rest)

-- The texts before and behind the first dot, `strings.IndexByte(rest, '.')`.
unfoldable pub split_at_dot : String → Option (String × String)
split_at_dot String.[] = none
split_at_dot (String.◌∷◌ c s) =
    let rest = split_at_dot s in if code c == b'.' then some ("", s) else prepend c rest

abbrev pub is_empty : String → Bool
is_empty String.[] = true
is_empty (String.◌∷◌ c s) = false

pub is_empty-eq : (s : String) → is_empty s ≡ true → s ≡ ""
is_empty-eq String.[] h = refl
is_empty-eq (String.◌∷◌ c s) h = ground arith

-- `strings.ContainsRune(s, '.')`
unfoldable pub has_dot : String → Bool
has_dot String.[] = false
has_dot (String.◌∷◌ c s) = code c == b'.' || has_dot s

dot-append : (t : String) → "." <> t ≡ String.◌∷◌ "." t
dot-append t = cons-append "." "" t ∙ ap (String.◌∷◌ ".") (nil-append t)

pub split_at_dot-append :
    (s t : String) → has_dot s ≡ false → split_at_dot (s <> ("." <> t)) ≡ some (s, t)
unfolding split_at_dot has_dot
split_at_dot-append String.[] t h = rw (nil-append, dot-append)
split_at_dot-append (String.◌∷◌ c s) t h = rw cons-append (ground (arith, split_at_dot-append s t))

abbrev first : Option (String × String) → String
first none = ""
first (some (head, rest)) = head

abbrev second : Option (String × String) → String
second none = ""
second (some (head, rest)) = rest

headless :
    (c : Char) (o : Option (String × String)) (rest : String) → prepend c o ≢ some (String.[], rest)
headless c none rest h = cc
headless c (some (head, r)) rest h = cons≢nil (ap first h)

prepend-some :
    (c d : Char) (o : Option (String × String)) (head rest : String)
    → prepend c o ≡ some (String.◌∷◌ d head, rest)
    → (c ≡ d) × (o ≡ some (head, rest))
prepend-some c d none head rest h = cc
prepend-some c d (some (x, y)) head rest h = (
  head-eq_of_cons-eq (ap first h),
  ap₂ {C = Option (String × String)} (λ u v. some (u, v)) (tail-eq_of_cons-eq (ap first h))
      (ap second h),
)

pub split_at_dot_sound :
    (s head rest : String)
    → split_at_dot s ≡ some (head, rest)
    → (s ≡ head <> ("." <> rest)) × (has_dot head ≡ false)
unfolding split_at_dot has_dot
split_at_dot_sound String.[] head rest h = cc
split_at_dot_sound (String.◌∷◌ c s) String.[] rest h =
    rw (nil-append, dot-append) (ground (arith, Char-path c ".", headless c (split_at_dot s) rest))
split_at_dot_sound (String.◌∷◌ c s) (String.◌∷◌ d head) rest h =
    rw cons-append (elim (Bool-cases (code c == b'.')) [
      | inl e ↦ absurd (cons≢nil (sym (ap first (rw e at h))))
      | inr e ↦
          let (same, tail) = prepend-some c d (split_at_dot s) head rest (rw e at h) in
          let (whole, plain) = split_at_dot_sound s head rest tail in
          (ap₂ String.◌∷◌ same whole, rw (← same, e) plain)
    ])

pub strip_prefix-append : (p s : String) → strip_prefix p (p <> s) ≡ some s
unfolding strip_prefix
strip_prefix-append String.[] s = ap some (nil-append s)
strip_prefix-append (String.◌∷◌ c p) s = rw cons-append (ground (arith, strip_prefix-append p s))

-- What `strip_prefix` finds is there.
pub strip_prefix_sound : (p s r : String) → strip_prefix p s ≡ some r → s ≡ p <> r
unfolding strip_prefix
strip_prefix_sound String.[] s r h = rw nil-append (cc)
strip_prefix_sound (String.◌∷◌ c p) String.[] r h = cc
strip_prefix_sound (String.◌∷◌ c p) (String.◌∷◌ d s) r h =
    rw cons-append (ground (arith, Char-path c d, strip_prefix_sound p s r))
