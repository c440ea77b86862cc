-- ===== src/Tests/Tooling.antt =====
-- The tools of an MCP server and the gates of a call at concrete inputs.
use kubeflare.Prelude.{
  ◌≤◌, ◌≡◌, refl, true, false, none, String, ◌<>◌, [], ◌∷◌, ℕ, pos, length, if◌then◌else◌,
}
use kubeflare.Prelude.Dict.{lookup}
use kubeflare.Prelude.Dots.{has_dot, is_empty}
use kubeflare.Prelude.Fallible.{Fallible, ok}
use kubeflare.Limiter.{slot}
use kubeflare.Limiter
use kubeflare.Mcp.Breaker.{allow, new_circuit_breaker}
use kubeflare.Mcp.ToolId.{parse_tool_id, tool_id_prefix, parse_tool_id_sound}
use kubeflare.Mcp.Tools.{
  ServerConfig, RemoteTool, ListToolsResult, list_pages, list_tools, take_page,
  max_tools_per_server,
}
use kubeflare.Mcp.Tools.Listing.{Fetched, list_tools_complete}
use kubeflare.Mcp.Manager.{ManagedServer, Manager, managed_server, acquire, done, busy, Done}
use kubeflare.Mcp.Manager.Gates.{SameEntry, slots_of, refused_keeps_servers, granted_done}

parse_tool_id_sound_example :
    ("mcp.k8s.pods.list" ≡ tool_id_prefix "k8s" <> "pods.list")
    × (has_dot "k8s" ≡ false)
    × (is_empty "k8s" ≡ false)
    × (is_empty "pods.list" ≡ false)
unfolding parse_tool_id
parse_tool_id_sound_example = parse_tool_id_sound "mcp.k8s.pods.list" "k8s" "pods.list" refl

abbrev tool : String → RemoteTool
tool name = record { name = name; title = ""; description = ""; input_schema = "" }

-- A session of two pages.
abbrev pages : ℕ → String → Fallible String ListToolsResult
pages page cursor =
    if is_empty cursor
    then ok (record { tools = tool "get" ∷ []; next_cursor = "2" })
    else ok (record { tools = tool "list" ∷ []; next_cursor = "" })

list_tools_complete_example :
    (length (tool "get" ∷ tool "list" ∷ []) ≤ max_tools_per_server)
    × (false ≡ false → Fetched pages 0 "" (tool "get" ∷ tool "list" ∷ []))
unfolding list_tools list_pages take_page
list_tools_complete_example = list_tools_complete pages (tool "get" ∷ tool "list" ∷ []) false refl

abbrev k8s : ServerConfig
k8s = record {
  name = "k8s";
  transport = "stdio";
  agent_types = [];
  trusted_tools = "get" ∷ [];
  connect_timeout = pos 0;
  list_timeout = pos 0;
  call_timeout = pos 0;
  health_interval = pos 0;
  max_concurrency = pos 1;
}

abbrev server : ManagedServer
server = record (managed_server k8s) { limiter = record { max = 1; counts = [] } }

abbrev full_server : ManagedServer
full_server = record (managed_server k8s) { limiter = record { max = 1; counts = ("k8s", 1) ∷ [] } }

abbrev manager_of : ManagedServer → Manager
manager_of s = record { servers = ("k8s", s) ∷ []; metrics = none; closed = false }

refused_keeps_servers_example :
    SameEntry
      (lookup "k8s" (manager_of full_server).servers)
      (lookup "k8s" (acquire 7 "k8s" (manager_of full_server)).0.servers)
unfolding acquire Limiter.acquire Limiter.count lookup managed_server
refused_keeps_servers_example =
    refused_keeps_servers 7 "k8s" (manager_of full_server) busy refl "k8s"

abbrev call_done : Done
call_done = record { server = "k8s"; release = slot "k8s" false; fired = false }

granted_done_example :
    let after = done 8 9 true call_done (acquire 7 "k8s" (manager_of server)).0 in
    ((j k : String)
      → slots_of (lookup j after.1.servers) k ≡ slots_of (lookup j (manager_of server).servers) k)
    × (done 8 9 true after.0 after.1 ≡ after)
unfolding acquire Limiter.acquire Limiter.count lookup managed_server allow new_circuit_breaker
granted_done_example = granted_done 7 8 9 true "k8s" (manager_of server) call_done refl
