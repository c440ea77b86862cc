-- ===== src/Mcp/Tools.antt =====
-- The tools of an MCP server: ServerConfig of internal/module/agent/infrastructure/mcp/config.go,
-- ListTools of client.go and toToolDefinitions of provider.go there, with ToolDefinition of
-- internal/module/agent/domain/tool.go. JSON texts are kept as they are. The JSON-RPC session is a
-- parameter: what it answers to the request for a page, as the decoded result or an error.
pub mod Listing
pub mod Trust
use kubeflare.Prelude.{
  ℕ, zero, suc, ◌+◌, ◌*◌, ◌/◌, String, ◌<>◌, Bool, true, false, List, [], ◌∷◌, ◌++◌, ◌||◌, leb,
  length, str_eq, if◌then◌else◌, ℤ, pos, negsuc, positive_or,
}
use kubeflare.Prelude.Fallible.{Fallible, ok, err}
use kubeflare.Prelude.Text.{trim_space}
use kubeflare.Mcp.ToolId.{tool_id_prefix}
use kubeflare.Prelude.Dots.{is_empty}
use kubeflare.Mcp.Breaker.{second}

-- The configuration of one server, without its command, environment, address and headers, which
-- only the transports read. Durations are nanoseconds.
pub record ServerConfig : Type 0 where
  pub name : String
  pub transport : String
  pub agent_types : List String
  pub trusted_tools : List String
  pub connect_timeout : ℤ
  pub list_timeout : ℤ
  pub call_timeout : ℤ
  pub health_interval : ℤ
  pub max_concurrency : ℤ

unfoldable pub with_defaults : ServerConfig → ServerConfig
with_defaults c = record c {
  name = trim_space c.name;
  transport = trim_space c.transport;
  connect_timeout = pos (positive_or (10 * second) c.connect_timeout);
  list_timeout = pos (positive_or (15 * second) c.list_timeout);
  call_timeout = pos (positive_or (30 * second) c.call_timeout);
  health_interval = pos (positive_or (30 * second) c.health_interval);
  max_concurrency = pos (positive_or 4 c.max_concurrency);
}

pub record RemoteTool : Type 0 where
  pub name : String
  pub title : String
  pub description : String
  pub input_schema : String

pub record ToolDefinition : Type 0 where
  pub id : String
  pub name : String
  pub category : String
  pub description : String
  pub read_only : Bool
  pub agent_types : List String
  pub timeout_ms : ℤ
  pub max_bytes : ℤ
  pub observe_max_chars : ℤ
  pub source : String
  pub origin : String
  pub enabled : Bool
  pub overridden : Bool
  pub parameters : String

pub record ListToolsResult : Type 0 where
  pub tools : List RemoteTool
  pub next_cursor : String

abbrev pub max_tools_list_pages : ℕ
max_tools_list_pages = 50

abbrev pub max_tools_per_server : ℕ
max_tools_per_server = 256

-- The loop over the tools of a page: it stops, with `true`, when the limit is reached.
unfoldable pub take_page : List RemoteTool → List RemoteTool → List RemoteTool × Bool
take_page tools [] = (tools, false)
take_page tools (t ∷ ts) =
    let rest = take_page (tools ++ t ∷ []) ts in
    if leb max_tools_per_server (length (tools ++ t ∷ [])) then (tools ++ t ∷ [], true) else rest

module _ {E : Type 0} (session : ℕ → String → Fallible E ListToolsResult) where
  -- The loop over the pages, with the pages left, the number of this one and its cursor.
  unfoldable pub list_pages : ℕ → ℕ → String → List RemoteTool → Fallible E (List RemoteTool × Bool)
  unfolding take_page
  list_pages zero page cursor tools = ok (tools, true)
  list_pages (suc left) page cursor tools = elim (session page cursor) [
    | err e ↦ err e
    | ok result ↦
        let (taken, full) = take_page tools result.tools in
        let rest = list_pages left (page + 1) result.next_cursor taken in
        if full
        then ok (taken, true)
        else if is_empty result.next_cursor
        then ok (taken, false)
        else rest
  ]

  unfoldable pub list_tools : Fallible E (List RemoteTool × Bool)
  unfolding list_pages
  list_tools = list_pages max_tools_list_pages 0 "" []

-- `_, ok := set[key]`
unfoldable pub contains : List String → String → Bool
contains [] key = false
contains (k ∷ ks) key = str_eq k key || contains ks key

abbrev or_diagnostic : List String → List String
or_diagnostic [] = "diagnostic" ∷ []
or_diagnostic (t ∷ ts) = t ∷ ts

unfoldable pub first_non_empty : String → String → String
first_non_empty a b =
    if is_empty (trim_space a)
    then (if is_empty (trim_space b) then "" else trim_space b)
    else trim_space a

unfoldable pub normalize_schema : String → String
normalize_schema schema = if is_empty (trim_space schema) then "{\"type\":\"object\"}" else schema

-- `int(d.Milliseconds())`, which rounds towards zero.
abbrev minus : ℕ → ℤ
minus zero = pos 0
minus (suc n) = negsuc n

unfoldable pub milliseconds : ℤ → ℤ
milliseconds (pos n) = pos (n / 1_000_000)
milliseconds (negsuc n) = minus (suc n / 1_000_000)

unfoldable pub tool_definition : ServerConfig → RemoteTool → String → ToolDefinition
unfolding contains first_non_empty normalize_schema milliseconds
tool_definition cfg tool name = record {
  id = tool_id_prefix cfg.name <> name;
  name = first_non_empty tool.title name;
  category = "";
  description = trim_space tool.description;
  read_only = contains cfg.trusted_tools name;
  agent_types = or_diagnostic cfg.agent_types;
  timeout_ms = milliseconds cfg.call_timeout;
  max_bytes = pos 0;
  observe_max_chars = pos 0;
  source = "mcp:" <> cfg.name;
  origin = "mcp";
  enabled = true;
  overridden = false;
  parameters = normalize_schema tool.input_schema;
}

unfoldable pub to_tool_definitions : ServerConfig → List RemoteTool → List ToolDefinition
unfolding tool_definition
to_tool_definitions cfg [] = []
to_tool_definitions cfg (tool ∷ tools) =
    let rest = to_tool_definitions cfg tools in
    let name = trim_space tool.name in
    if is_empty name then rest else tool_definition cfg tool name ∷ rest
