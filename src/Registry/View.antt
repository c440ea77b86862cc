-- ===== src/Registry/View.antt =====
-- What is seen of the registry: its base under its overrides, and the changes of a registry.
use kubeflare.Prelude.{
  ◌≡◌, refl, ap, Bool-cases, inl, inr, Option, none, some, String, List, [], ◌∷◌, str_eq, eq_iff,
}
use kubeflare.Prelude.Dict.{lookup}
use kubeflare.Mcp.Tools.{ToolDefinition}
use kubeflare.Registry.{
  ToolOverride, ToolRegistry, NamedToolProvider, Provider, overridden_by, rebuild_from, rebuild,
  register, set_overrides, load_providers_graceful, load_providers,
}

-- A tool under the override of its id.
abbrev pub seen :
    List (String × ToolOverride) → String → Option ToolDefinition → Option ToolDefinition
seen overrides id none = none
seen overrides id (some tool) = some (overridden_by (lookup id overrides) tool)

-- For every id the registry shows what its base has for it, under the override for it.
unfoldable pub Consistent : ToolRegistry → Type 0
Consistent r = (id : String) → lookup id r.tools ≡ seen r.overrides id (lookup id r.base)

lookup-rebuild_from :
    (overrides : List (String × ToolOverride)) (base : List (String × ToolDefinition)) (id : String)
    → lookup id (rebuild_from overrides base) ≡ seen overrides id (lookup id base)
unfolding lookup rebuild_from
lookup-rebuild_from overrides [] id = refl
lookup-rebuild_from overrides ((j, tool) ∷ base) id = elim (Bool-cases (str_eq j id)) [
  | inl same ↦
      rw same (ap (λ i. some (overridden_by (lookup i overrides) tool)) ((eq_iff j id).0 same))
  | inr other ↦ rw other (lookup-rebuild_from overrides base id)
]

pub rebuild-Consistent : (r : ToolRegistry) → Consistent (rebuild r)
unfolding rebuild Consistent
rebuild-Consistent r id = lookup-rebuild_from r.overrides r.base id

-- The calls that change a registry.
pub data Change (S E : Type 0) : Type 0 where
  registers : ToolDefinition → Change S E
  overrides : List (String × ToolOverride) → Change S E
  loads : List (Option (Provider S E)) → Change S E
  loads_graceful : List (NamedToolProvider S E) → Change S E

abbrev pub registry_of : {A S : Type 0} → A × ToolRegistry × S → ToolRegistry × S
registry_of (a, r, s) = (r, s)

module _ {S E : Type 0} where
  unfoldable pub change : Change S E → ToolRegistry × S → ToolRegistry × S
  change (registers tool) (r, s) = (register tool r, s)
  change (overrides os) (r, s) = (set_overrides os r, s)
  change (loads providers) (r, s) = registry_of (load_providers providers r s)
  change (loads_graceful specs) (r, s) = registry_of (load_providers_graceful specs r s)

  unfoldable pub changes : List (Change S E) → ToolRegistry × S → ToolRegistry × S
  changes [] rs = rs
  changes (c ∷ cs) rs = changes cs (change c rs)
