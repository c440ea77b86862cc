-- ===== src/Registry/Given.antt =====
-- The registry against what its sources gave: the lists of tools and of overrides in the order in which
-- they were given, without maps.
pub mod Changes
use kubeflare.Prelude.{Option, none, some, String, List, [], ◌∷◌, if◌then◌else◌, str_eq, arith}
use kubeflare.Prelude.Text.{trim_space}
use kubeflare.Prelude.Dots.{is_empty}
use kubeflare.Mcp.Tools.{ToolDefinition}
use kubeflare.Registry.{ToolOverride}

module _ {A : Type 0} where
  abbrev pub or_first : Option A → Option A → Option A
  or_first none b = b
  or_first (some a) b = some a

-- A tool under its trimmed id, unless that is blank.
abbrev named : String → ToolDefinition → Option ToolDefinition
named id tool =
    if is_empty (trim_space tool.id)
    then none
    else if str_eq (trim_space tool.id) id
    then some (record tool { id = trim_space tool.id })
    else none

-- The last tool of a list that has an id.
pub latest : String → List ToolDefinition → Option ToolDefinition
latest id [] = none
latest id (tool ∷ tools) = or_first (latest id tools) (named id tool)

abbrev set_for : String → String → ToolOverride → Option ToolOverride
set_for id key o =
    if is_empty (trim_space key) then none else if str_eq (trim_space key) id then some o else none

-- The last override of a list that is for an id.
pub latest_override : String → List (String × ToolOverride) → Option ToolOverride
latest_override id [] = none
latest_override id ((key, o) ∷ os) = or_first (latest_override id os) (set_for id key o)
