-- ===== src/Ledger.antt =====
-- internal/module/agent/application/internal/core/hypothesis.go: the ledger of the hypotheses that a
-- run of the agent weighs. A float64 is a parameter with the comparisons that the code makes.
pub mod Seeding
pub mod Updates
use Prim.Native.Char.{Char, code}
use kubeflare.Prelude.{
  ℕ, suc, ◌+◌, Bool, false, ◌||◌, Option, String, ◌<>◌, List, [], ◌∷◌, ◌++◌, str_eq, leb,
  if◌then◌else◌, length, pos,
}
use kubeflare.Prelude.Dots.{is_empty}
use kubeflare.Prelude.Text.{is_space, trim_space}
use kubeflare.Prelude.Numerals.{format_int}

abbrev pending : String
pending = "pending"

abbrev confirmed : String
confirmed = "confirmed"

abbrev ruled_out : String
ruled_out = "ruled_out"

abbrev pub max_ledger_hypotheses : ℕ
max_ledger_hypotheses = 5

abbrev pub max_ledger_evidence_refs : ℕ
max_ledger_evidence_refs = 4

-- Confidences, and `strings.ToLower`.
pub record Libs (F : Type 0) : Type 0 where
  pub zero : F
  pub one : F
  pub seed : F
  pub less : F → F → Bool
  pub same : F → F → Bool
  pub lower : String → String

pub record HypothesisItem (F : Type 0) : Type 0 where
  pub id : String
  pub text : String
  pub status : String
  pub confidence : F
  pub evidence : List String

pub record LedgerUpdate (F : Type 0) : Type 0 where
  pub id : String
  pub status : String
  pub confidence : Option F
  pub evidence : List String

-- A character in front of words that are one space apart.
abbrev join_front : Char → String → String
join_front c String.[] = if is_space (code c) then "" else String.◌∷◌ c ""
join_front c (String.◌∷◌ d s) =
    if is_space (code c)
    then (if is_space (code d) then String.◌∷◌ d s else " " <> String.◌∷◌ d s)
    else String.◌∷◌ c (String.◌∷◌ d s)

abbrev joined : String → String
joined String.[] = ""
joined (String.◌∷◌ c s) = join_front c (joined s)

abbrev without_front : String → String
without_front String.[] = ""
without_front (String.◌∷◌ c s) = if is_space (code c) then s else String.◌∷◌ c s

-- `strings.Join(strings.Fields(text), " ")`
unfoldable pub one_line : String → String
one_line text = without_front (joined text)

unfoldable pub new_hypothesis_id : ℕ → String
unfolding format_int
new_hypothesis_id index = "H" <> format_int (pos (index + 1))

abbrev pub member : String → List String → Bool
member x [] = false
member x (y ∷ ys) = str_eq y x || member x ys

module _ {F : Type 0} where
  abbrev is_resolved : HypothesisItem F → Bool
  is_resolved item = str_eq item.status confirmed || str_eq item.status ruled_out

  unfoldable pub resolved_count : List (HypothesisItem F) → ℕ
  resolved_count [] = 0
  resolved_count (item ∷ ledger) =
      let rest = resolved_count ledger in if is_resolved item then suc rest else rest

module _ {F : Type 0} (libs : Libs F) where
  unfoldable pub normalize_hypothesis_status : String → String
  unfolding trim_space
  normalize_hypothesis_status value =
      let status = libs.lower (trim_space value) in
      if str_eq status pending
      then pending
      else if member status (confirmed ∷ "confirm" ∷ "supported" ∷ [])
      then confirmed
      else if member status (ruled_out ∷ "ruledout" ∷ "excluded" ∷ "rejected" ∷ [])
      then ruled_out
      else ""

  abbrev seed_item : ℕ → String → HypothesisItem F
  seed_item index text = record {
    id = new_hypothesis_id index;
    text = text;
    status = pending;
    confidence = libs.seed;
    evidence = [];
  }

  -- The closure `add`: the ledger and the keys seen so far.
  unfoldable pub add :
      String → List (HypothesisItem F) × List String → List (HypothesisItem F) × List String
  unfolding one_line new_hypothesis_id
  add text (ledger, seen) =
      let line = one_line text in
      if is_empty line || member (libs.lower line) seen || leb max_ledger_hypotheses (length ledger)
      then (ledger, seen)
      else (ledger ++ (seed_item (length ledger) line ∷ []), libs.lower line ∷ seen)

  unfoldable pub add_all :
      List String → List (HypothesisItem F) × List String → List (HypothesisItem F) × List String
  unfolding add
  add_all [] state = state
  add_all (text ∷ texts) state = add_all texts (add text state)

  unfoldable pub seed_ledger : List String → List String → List (HypothesisItem F)
  unfolding add_all
  seed_ledger plan playbook =
      let (ledger, seen) = add_all playbook (add_all plan ([], [])) in ledger

  unfoldable pub clamp_confidence : F → F
  clamp_confidence value =
      if libs.less value libs.zero
      then libs.zero
      else if libs.less libs.one value
      then libs.one
      else value
