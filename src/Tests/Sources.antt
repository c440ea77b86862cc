-- ===== src/Tests/Sources.antt =====
-- The registry of tools at concrete inputs: one built-in tool, and an external source that fails at its
-- second load. The world is a number.
use kubeflare.Prelude.{ℕ, ◌≡◌, refl, true, false, none, some, String, List, [], ◌∷◌, pos}
use kubeflare.Prelude.Fallible.{ok, err}
use kubeflare.Mcp.Tools.{ToolDefinition}
use kubeflare.Registry.{ToolOverride, ToolRegistry, Provider, load_providers_graceful}
use kubeflare.Registry.View.{Change, registers, overrides, loads_graceful}
use kubeflare.Registry.Given.Changes
use kubeflare.Registry.Loading.{
  CriticalFailed, builtin_spec, external_spec, load_providers_graceful-CriticalFailed,
  load_providers_graceful-falls_back,
}

abbrev tool : String → ToolDefinition
tool id = record {
  id = id;
  name = id;
  category = "";
  description = "";
  read_only = true;
  agent_types = "diagnostic" ∷ [];
  timeout_ms = pos 8000;
  max_bytes = pos 262144;
  observe_max_chars = pos 0;
  source = "cluster";
  origin = "builtin";
  enabled = true;
  overridden = false;
  parameters = "{}";
}

abbrev pods : ToolDefinition
pods = tool "cluster.pod.list"

abbrev gives : List ToolDefinition → Provider ℕ String
gives tools s = (ok tools, s)

abbrev fails : Provider ℕ String
fails s = (err "refused", s)

abbrev switched_off : ToolOverride
switched_off = record {
  enabled = some false;
  description = none;
  timeout_ms = none;
  observe_max_chars = none;
  read_only = none;
}

abbrev some_changes : List (Change ℕ String)
some_changes =
    loads_graceful (
      builtin_spec (gives (pods ∷ [])) ∷ external_spec "git" (gives (tool "mcp.git.log" ∷ [])) ∷ [])
    ∷ overrides (("mcp.git.log", switched_off) ∷ [])
    ∷ registers (tool " cluster.node.list ")
    ∷ []

abbrev start : ToolRegistry
start = record { base = []; overrides = []; tools = []; last_good = [] }

load_providers_graceful-CriticalFailed_example :
    (start ≡ start) × CriticalFailed "refused" (builtin_spec fails ∷ [])
unfolding load_providers_graceful
load_providers_graceful-CriticalFailed_example =
    load_providers_graceful-CriticalFailed (builtin_spec fails ∷ []) start start 0 0 "refused" refl

load_providers_graceful-falls_back_example :
    let (_, before, _) =
      load_providers_graceful
        (builtin_spec (gives (pods ∷ []))
          ∷ external_spec "git" (gives (tool "mcp.git.log" ∷ []))
          ∷ [])
        start
        0 in
    let (answer, after, _) =
      load_providers_graceful
        (builtin_spec (gives (pods ∷ [])) ∷ external_spec "git" fails ∷ [])
        before
        0 in
    (answer ≡ ok ("git" ∷ [])) × (after.base ≡ before.base) × (after.tools ≡ before.tools)
load_providers_graceful-falls_back_example =
    load_providers_graceful-falls_back "git" (gives (pods ∷ [])) (gives (tool "mcp.git.log" ∷ []))
      (gives (pods ∷ [])) fails (pods ∷ []) (tool "mcp.git.log" ∷ []) "refused" start 0 0 0 0 0 0
      refl refl refl refl refl
