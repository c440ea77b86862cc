-- ===== src/Registry.antt =====
-- internal/module/agent/application/internal/tool/registry.go: the registry of the agent's tools, with
-- ToolOverride of internal/module/agent/domain/tool.go. The lock makes each method one step on the
-- maps; the sources of tools are parameters, which act on the state of the world.
pub mod View
pub mod Given
pub mod Loading
use kubeflare.Prelude.{
  Bool, true, false, ◌&&◌, Option, none, some, String, List, [], ◌∷◌, ◌++◌, if◌then◌else◌, ltb, ℤ,
  is_positive,
}
use kubeflare.Prelude.Fallible.{Fallible, ok, err}
use kubeflare.Prelude.Text.{trim_space}
use kubeflare.Prelude.Dots.{is_empty}
use kubeflare.Prelude.Dict.{lookup, insert}
use kubeflare.Prelude.Action.{Action, then_read}
use kubeflare.Mcp.Tools.{ToolDefinition, contains}
use Prim.Native.Char.{code}

pub record ToolOverride : Type 0 where
  pub enabled : Option Bool
  pub description : Option String
  pub timeout_ms : Option ℤ
  pub observe_max_chars : Option ℤ
  pub read_only : Option Bool

abbrev or_old : {A : Type 0} → Option A → A → A
or_old none old = old
or_old (some new) old = new

abbrev or_old_text : Option String → String → String
or_old_text none old = old
or_old_text (some new) old = if is_empty (trim_space new) then old else trim_space new

abbrev or_old_positive : Option ℤ → ℤ → ℤ
or_old_positive none old = old
or_old_positive (some new) old = if is_positive new then new else old

unfoldable pub apply_to : ToolOverride → ToolDefinition → ToolDefinition
unfolding trim_space
apply_to o tool = record tool {
  enabled = or_old o.enabled tool.enabled;
  description = or_old_text o.description tool.description;
  timeout_ms = or_old_positive o.timeout_ms tool.timeout_ms;
  observe_max_chars = or_old_positive o.observe_max_chars tool.observe_max_chars;
  read_only = or_old o.read_only tool.read_only;
}

-- The four maps: what the sources gave, the overrides, what is seen, and what each source gave last.
pub record ToolRegistry : Type 0 where
  pub base : List (String × ToolDefinition)
  pub overrides : List (String × ToolOverride)
  pub tools : List (String × ToolDefinition)
  pub last_good : List (String × List ToolDefinition)

abbrev overridden_by : Option ToolOverride → ToolDefinition → ToolDefinition
overridden_by none tool = tool
overridden_by (some o) tool = record (apply_to o tool) { overridden = true }

-- The loop of `rebuildLocked`.
unfoldable pub rebuild_from :
    List (String × ToolOverride) → List (String × ToolDefinition) → List (String × ToolDefinition)
unfolding lookup apply_to
rebuild_from overrides [] = []
rebuild_from overrides ((id, tool) ∷ base) =
    (id, overridden_by (lookup id overrides) tool) ∷ rebuild_from overrides base

unfoldable pub rebuild : ToolRegistry → ToolRegistry
unfolding rebuild_from
rebuild r = record r { tools = rebuild_from r.overrides r.base }

-- A tool under its trimmed id, unless that is empty.
unfoldable pub add_tool :
    ToolDefinition → List (String × ToolDefinition) → List (String × ToolDefinition)
unfolding trim_space insert
add_tool tool next =
    if is_empty (trim_space tool.id)
    then next
    else insert (trim_space tool.id) (record tool { id = trim_space tool.id }) next

unfoldable pub add_tools :
    List ToolDefinition → List (String × ToolDefinition) → List (String × ToolDefinition)
unfolding add_tool
add_tools [] next = next
add_tools (tool ∷ tools) next = add_tools tools (add_tool tool next)

abbrev unseen : List (String × ToolDefinition) → ToolRegistry
unseen base = record { base = base; overrides = []; tools = []; last_good = [] }

-- `NewToolRegistry` with the tools that are built in.
unfoldable pub new_tool_registry : List ToolDefinition → ToolRegistry
unfolding add_tools rebuild
new_tool_registry builtin = rebuild (unseen (add_tools builtin []))

unfoldable pub register : ToolDefinition → ToolRegistry → ToolRegistry
unfolding add_tool rebuild
register tool r =
    if is_empty (trim_space tool.id) then r else rebuild (record r { base = add_tool tool r.base })

-- The overrides under their trimmed ids.
unfoldable pub trimmed_overrides :
    List (String × ToolOverride) → List (String × ToolOverride) → List (String × ToolOverride)
unfolding trim_space insert
trimmed_overrides [] next = next
trimmed_overrides ((id, o) ∷ os) next =
    trimmed_overrides os (if is_empty (trim_space id) then next else insert (trim_space id) o next)

unfoldable pub set_overrides : List (String × ToolOverride) → ToolRegistry → ToolRegistry
unfolding trimmed_overrides rebuild
set_overrides overrides r = rebuild (record r { overrides = trimmed_overrides overrides [] })

abbrev pub Provider : Type 0 → Type 0 → Type 0
Provider S E = Action S E (List ToolDefinition)

-- `NamedToolProvider`, of a provider that may be nil.
pub record NamedToolProvider (S E : Type 0) : Type 0 where
  pub name : String
  pub provider : Option (Provider S E)
  pub critical : Bool

-- What the loop of `LoadProvidersGraceful` has gathered.
pub record Gathered : Type 0 where
  pub next : List (String × ToolDefinition)
  pub fresh_good : List (String × List ToolDefinition)
  pub degraded : List String

abbrev or_nothing : Option (List ToolDefinition) → List ToolDefinition
or_nothing none = []
or_nothing (some tools) = tools

abbrev kept_good :
    String
    → List ToolDefinition
    → List (String × List ToolDefinition)
    → List (String × List ToolDefinition)
kept_good name tools fresh = if is_empty name then fresh else insert name tools fresh

-- `r.lastGood[name] = tools` for each of them.
unfoldable pub all_good :
    List (String × List ToolDefinition)
    → List (String × List ToolDefinition)
    → List (String × List ToolDefinition)
unfolding insert
all_good [] good = good
all_good ((name, tools) ∷ fresh) good = insert name tools (all_good fresh good)

module _ {S E : Type 0} where
  -- What one source adds, or the error that ends the load.
  abbrev gather_one :
      ToolRegistry
      → NamedToolProvider S E
      → Gathered
      → Fallible E (List ToolDefinition) × S
      → Fallible E Gathered × S
  gather_one r spec g (ok tools, s) = (
    ok (record g {
      next = add_tools tools g.next;
      fresh_good = kept_good spec.name tools g.fresh_good;
    }),
    s,
  )
  gather_one r spec g (err e, s) = if spec.critical then (err e, s) else (
    ok (record g {
      next = add_tools (or_nothing (lookup spec.name r.last_good)) g.next;
      degraded = g.degraded ++ (spec.name ∷ []);
    }),
    s,
  )

  abbrev gather_if :
      ToolRegistry → NamedToolProvider S E → Option (Provider S E) → Gathered → Action S E Gathered
  gather_if r spec none g s = (ok g, s)
  gather_if r spec (some provider) g s = gather_one r spec g (provider s)

  -- The loop of `LoadProvidersGraceful`.
  unfoldable pub gather :
      ToolRegistry → List (NamedToolProvider S E) → Gathered → Action S E Gathered
  unfolding add_tools lookup
  gather r [] g s = (ok g, s)
  gather r (spec ∷ specs) g s =
      then_read (gather_if r spec spec.provider g s) (λ g' s'. gather r specs g' s')

  abbrev refreshed :
      ToolRegistry → Fallible E Gathered × S → Fallible E (List String) × ToolRegistry × S
  refreshed r (err e, s) = (err e, r, s)
  refreshed r (ok g, s) = (
    ok g.degraded,
    rebuild (record r { base = g.next; last_good = all_good g.fresh_good r.last_good }),
    s,
  )

  -- `LoadProvidersGraceful`: the names of the sources that fell back, or an error.
  unfoldable pub load_providers_graceful :
      List (NamedToolProvider S E) → ToolRegistry → S → Fallible E (List String) × ToolRegistry × S
  unfolding gather rebuild all_good
  load_providers_graceful specs r s =
      refreshed r (gather r specs (record { next = []; fresh_good = []; degraded = [] }) s)

module _ {S E : Type 0} where
  abbrev tools_of : Option (Provider S E) → Provider S E
  tools_of none s = (ok [], s)
  tools_of (some provider) s = provider s

  -- The loop of `LoadProviders`.
  unfoldable pub gather_all :
      List (Option (Provider S E))
      → List (String × ToolDefinition)
      → Action S E (List (String × ToolDefinition))
  unfolding add_tools
  gather_all [] next s = (ok next, s)
  gather_all (provider ∷ providers) next s =
      then_read (tools_of provider s) (λ tools s'. gather_all providers (add_tools tools next) s')

  abbrev replaced :
      ToolRegistry → Fallible E (List (String × ToolDefinition)) × S → Option E × ToolRegistry × S
  replaced r (err e, s) = (some e, r, s)
  replaced r (ok next, s) = (none, rebuild (record r { base = next }), s)

  unfoldable pub load_providers :
      List (Option (Provider S E)) → ToolRegistry → S → Option E × ToolRegistry × S
  unfolding gather_all rebuild
  load_providers providers r s = replaced r (gather_all providers [] s)

unfoldable pub get : ToolRegistry → String → Option ToolDefinition
unfolding trim_space lookup
get r tool_id = lookup (trim_space tool_id) r.tools

-- Go's order of texts, code point by code point.
unfoldable pub text_before : String → String → Bool
text_before s String.[] = false
text_before String.[] (String.◌∷◌ d t) = true
text_before (String.◌∷◌ c s) (String.◌∷◌ d t) =
    let rest = text_before s t in
    if ltb (code c) (code d) then true else if ltb (code d) (code c) then false else rest

unfoldable pub insert_sorted : ToolDefinition → List ToolDefinition → List ToolDefinition
unfolding text_before
insert_sorted tool [] = tool ∷ []
insert_sorted tool (t ∷ ts) =
    let rest = insert_sorted tool ts in if text_before t.id tool.id then t ∷ rest else tool ∷ t ∷ ts

-- `List`: the tools in the order of their ids, which are all different.
unfoldable pub list_of : List (String × ToolDefinition) → List ToolDefinition
unfolding insert_sorted
list_of [] = []
list_of ((id, tool) ∷ tools) = insert_sorted tool (list_of tools)

abbrev pub offered : String → ToolDefinition → Bool
offered agent_type tool = tool.enabled && (tool.read_only && contains tool.agent_types agent_type)

unfoldable pub only_offered : String → List ToolDefinition → List ToolDefinition
unfolding contains
only_offered agent_type [] = []
only_offered agent_type (tool ∷ tools) =
    let rest = only_offered agent_type tools in
    if offered agent_type tool then tool ∷ rest else rest

unfoldable pub tools_for_agent : ToolRegistry → String → List ToolDefinition
unfolding only_offered list_of
tools_for_agent r agent_type = only_offered agent_type (list_of r.tools)
