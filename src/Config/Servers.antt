-- ===== src/Config/Servers.antt =====
-- What the validation of the MCP servers is for: the ids of their tools. It is composed with the servers
-- as internal/app/bootstrap.go hands them to the manager.
use kubeflare.Prelude.{◌≡◌, false, Option, none, String, List, [], ◌∷◌, if◌then◌else◌, All}
use kubeflare.Prelude.Text.{trim_space}
use kubeflare.Prelude.Dots.{is_empty, has_dot}
use kubeflare.Mcp.Tools.{ServerConfig, RemoteTool, with_defaults, to_tool_definitions}
use kubeflare.Mcp.Tools.Trust.{Exposes, to_tool_definitions-Exposes}
use kubeflare.Config.{
  AgentMcpServerConfig, reject_if-none, and_next-none, has, validate_server, validate_servers_from,
  validate_agent_mcp_servers,
}

-- The trusted names of a server: those that are not blank, trimmed.
unfoldable pub trusted_names : List String → List String
unfolding trim_space
trusted_names [] = []
trusted_names (tool ∷ tools) =
    let rest = trusted_names tools in
    if is_empty (trim_space tool) then rest else trim_space tool ∷ rest

-- One server of the configuration as the manager takes it.
unfoldable pub to_server_config : AgentMcpServerConfig → ServerConfig
unfolding trusted_names
to_server_config raw = record {
  name = raw.name;
  transport = raw.transport;
  agent_types = raw.agent_types;
  trusted_tools = trusted_names raw.allow_tools;
  connect_timeout = raw.connect_timeout;
  list_timeout = raw.list_timeout;
  call_timeout = raw.call_timeout;
  health_interval = raw.health_interval;
  max_concurrency = raw.max_concurrency;
}

-- A name that the tool ids can carry, and that no server in front has.
pub record Nameable (seen : List String) (server : AgentMcpServerConfig) : Type 0 where
  pub plain : has_dot (trim_space server.name) ≡ false
  pub named : is_empty (trim_space server.name) ≡ false
  pub new : has (trim_space server.name) seen ≡ false

-- All servers, each against the names in front of it.
pub AllNameable : List String → List AgentMcpServerConfig → Type 0
AllNameable seen [] = Unit
AllNameable seen (server ∷ servers) =
    Nameable seen server × AllNameable (trim_space server.name ∷ seen) servers

module _ (parse : String → Option (String × String)) where
  validate_servers_from-AllNameable :
      (seen : List String) (servers : List AgentMcpServerConfig)
      → validate_servers_from parse seen servers ≡ none
      → AllNameable seen servers
  unfolding validate_servers_from validate_server AllNameable
  validate_servers_from-AllNameable seen [] h = tt
  validate_servers_from-AllNameable seen (server ∷ servers) h =
      let (named, h1) = reject_if-none (is_empty (trim_space server.name)) _ _ h in
      let (new, h2) = reject_if-none (has (trim_space server.name) seen) _ _ h1 in
      let (one, rest) = and_next-none (validate_server parse server) _ h2 in
      let (plain, _) = reject_if-none (has_dot (trim_space server.name)) _ _ one in
      (
        record { plain = plain; named = named; new = new },
        validate_servers_from-AllNameable (trim_space server.name ∷ seen) servers rest,
      )

  -- The tools of a server of the configuration, with the defaults of the manager.
  abbrev pub tools_of : AgentMcpServerConfig → ServerConfig
  tools_of server = with_defaults (to_server_config server)

  pub AllExpose : (AgentMcpServerConfig → List RemoteTool) → List AgentMcpServerConfig → Type 0
  AllExpose remote [] = Unit
  AllExpose remote (server ∷ servers) =
      All (Exposes (tools_of server)) (to_tool_definitions (tools_of server) (remote server))
      × AllExpose remote servers

  nameable-AllExpose :
      (remote : AgentMcpServerConfig → List RemoteTool) (seen : List String)
      (servers : List AgentMcpServerConfig)
      → AllNameable seen servers
      → AllExpose remote servers
  unfolding AllNameable AllExpose with_defaults to_server_config
  nameable-AllExpose remote seen [] ok = tt
  nameable-AllExpose remote seen (server ∷ servers) (one, rest) = (
    to_tool_definitions-Exposes (tools_of server) (remote server) one.plain one.named,
    nameable-AllExpose remote (trim_space server.name ∷ seen) servers rest,
  )

  -- In a configuration whose servers are valid every server has a name of its own, not blank and
  -- without a dot; and whatever tools the servers list, every tool that the agent is given has an id
  -- from which its server and its name are read back, and is read-only exactly if its name is among
  -- the server's trusted tools.
  pub validate_agent_mcp_servers-AllExpose :
      (servers : List AgentMcpServerConfig) (remote : AgentMcpServerConfig → List RemoteTool)
      → validate_agent_mcp_servers parse servers ≡ none
      → AllNameable [] servers × AllExpose remote servers
  unfolding validate_agent_mcp_servers
  validate_agent_mcp_servers-AllExpose servers remote h =
      let nameable = validate_servers_from-AllNameable [] servers h in
      (nameable, nameable-AllExpose remote [] servers nameable)
