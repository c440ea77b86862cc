-- ===== src/Registry/Given/Changes.antt =====
-- The changes of a registry, on the lists of what was given: the loads run the sources in their order and
-- join their tools, and a source that failed stands for what it gave last.
use kubeflare.Prelude.{◌≡◌, Option, none, some, String, List, [], ◌∷◌, ◌++◌, if◌then◌else◌, str_eq}
use kubeflare.Prelude.Fallible.{Fallible, ok, err}
use kubeflare.Prelude.Dots.{is_empty}
use kubeflare.Prelude.Dict.{lookup}
use kubeflare.Prelude.Action.{Action, then_read}
use kubeflare.Mcp.Tools.{ToolDefinition}
use kubeflare.Registry.{
  ToolOverride, ToolRegistry, NamedToolProvider, Provider, Gathered, overridden_by, or_nothing,
  tools_of,
}
use kubeflare.Registry.View.{Consistent, Change, registers, overrides, loads, loads_graceful}
use kubeflare.Registry.Given.{or_first, latest, latest_override}

-- What was given: the tools, the overrides, and what each source gave when it last gave any.
pub record Given : Type 0 where
  pub tools : List ToolDefinition
  pub overridden : List (String × ToolOverride)
  pub good : String → Option (List ToolDefinition)

-- What a source of a name gave.
abbrev entry : String → List ToolDefinition → String → Option (List ToolDefinition)
entry name tools n = if is_empty name then none else if str_eq name n then some tools else none

abbrev Gave : Type 0
Gave = List ToolDefinition × (String → Option (List ToolDefinition))

module _ {S E : Type 0} where
  abbrev join :
      List ToolDefinition
      → Fallible E (List ToolDefinition) × S
      → Fallible E (List ToolDefinition) × S
  join tools (err e, s) = (err e, s)
  join tools (ok rest, s) = (ok (tools ++ rest), s)

  pub collect_all : List (Option (Provider S E)) → Action S E (List ToolDefinition)
  collect_all [] s = (ok [], s)
  collect_all (provider ∷ providers) s =
      then_read (tools_of provider s) (λ tools s'. join tools (collect_all providers s'))

  -- The tools of one source of a load that may fall back.
  abbrev give_of :
      (String → Option (List ToolDefinition))
      → NamedToolProvider S E
      → Fallible E (List ToolDefinition) × S
      → Fallible E Gave × S
  give_of good spec (ok tools, s) = (ok (tools, entry spec.name tools), s)
  give_of good spec (err e, s) =
      if spec.critical then (err e, s) else (ok (or_nothing (good spec.name), λ n. none), s)

  abbrev give :
      (String → Option (List ToolDefinition))
      → NamedToolProvider S E
      → Option (Provider S E)
      → Action S E Gave
  give good spec none s = (ok ([], λ n. none), s)
  give good spec (some provider) s = give_of good spec (provider s)

  abbrev both : Gave → Fallible E Gave × S → Fallible E Gave × S
  both gave (err e, s) = (err e, s)
  both (tools, fresh) (ok (rest, later), s) =
      (ok (tools ++ rest, λ n. or_first (later n) (fresh n)), s)

  pub collect :
      (String → Option (List ToolDefinition)) → List (NamedToolProvider S E) → Action S E Gave
  collect good [] s = (ok ([], λ n. none), s)
  collect good (spec ∷ specs) s =
      then_read (give good spec spec.provider s) (λ gave s'. both gave (collect good specs s'))

  abbrev loaded : Given → Fallible E (List ToolDefinition) × S → Given × S
  loaded a (err e, s) = (a, s)
  loaded a (ok tools, s) = (record a { tools = tools }, s)

  abbrev loaded_gracefully : Given → Fallible E Gave × S → Given × S
  loaded_gracefully a (err e, s) = (a, s)
  loaded_gracefully a (ok (tools, fresh), s) =
      (record a { tools = tools; good = λ n. or_first (fresh n) (a.good n) }, s)

  -- A change, on what was given: a load that fails changes nothing.
  pub gives : Change S E → Given × S → Given × S
  gives (registers tool) (a, s) = (record a { tools = a.tools ++ (tool ∷ []) }, s)
  gives (overrides os) (a, s) = (record a { overridden = os }, s)
  gives (loads providers) (a, s) = loaded a (collect_all providers s)
  gives (loads_graceful specs) (a, s) = loaded_gracefully a (collect a.good specs s)

  pub gives_all : List (Change S E) → Given × S → Given × S
  gives_all [] as_ = as_
  gives_all (c ∷ cs) as_ = gives_all cs (gives c as_)

abbrev pub start : List ToolDefinition → Given
start builtin = record { tools = builtin; overridden = []; good = λ n. none }

-- A registry whose maps are those of what was given.
pub record Matches (r : ToolRegistry) (a : Given) : Type 0 where
  pub base : (id : String) → lookup id r.base ≡ latest id a.tools
  pub overridden : (id : String) → lookup id r.overrides ≡ latest_override id a.overridden
  pub good : (name : String) → lookup name r.last_good ≡ a.good name
  pub shown : Consistent r

module _ {S E : Type 0} where
  -- The two runs of a plain load.
  abbrev Alike :
      List (String × ToolDefinition)
      → Fallible E (List (String × ToolDefinition)) × S
      → Fallible E (List ToolDefinition) × S
      → Type 0
  Alike next (ok next', s) (ok tools, t) =
      (s ≡ t) × ((id : String) → lookup id next' ≡ or_first (latest id tools) (lookup id next))
  Alike next (err e, s) (err e', t) = (s ≡ t) × (e ≡ e')
  Alike next _ _ = ⊥

module _ {S E : Type 0} where
  -- The two runs of a load that may fall back.
  abbrev Gathers : Gathered → Fallible E Gathered × S → Fallible E Gave × S → Type 0
  Gathers g (ok g', s) (ok (tools, fresh), t) =
      (s ≡ t)
      × ((id : String) → lookup id g'.next ≡ or_first (latest id tools) (lookup id g.next))
      × ((n : String) → lookup n g'.fresh_good ≡ or_first (fresh n) (lookup n g.fresh_good))
  Gathers g (err e, s) (err e', t) = (s ≡ t) × (e ≡ e')
  Gathers g _ _ = ⊥

-- A tool under an override, where there is one.
abbrev pub under : Option ToolOverride → Option ToolDefinition → Option ToolDefinition
under o none = none
under o (some tool) = some (overridden_by o tool)
