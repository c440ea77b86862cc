-- ===== src/Tests/Configuring.antt =====
-- The validation of the configuration at concrete inputs. Every address is taken for an HTTP one.
use kubeflare.Prelude.{ℕ, ◌≡◌, refl, Bool, true, false, Option, some, String, List, [], ◌∷◌, pos}
use kubeflare.Mcp.Tools.{RemoteTool}
use kubeflare.Config.{AgentConfig, AgentMcpServerConfig, validate_agent_mcp_servers}
use kubeflare.Config.Validate.{Config, validate}
use kubeflare.Config.Servers.{AllNameable, AllExpose, validate_agent_mcp_servers-AllExpose}
use kubeflare.Config.Safe.{ProductionReady, validate-ProductionReady}

abbrev parse : String → Option (String × String)
parse url = some ("https", "mcp.example.org")

abbrev git : AgentMcpServerConfig
git = record {
  name = " git ";
  transport = "stdio";
  command = "git-mcp" ∷ [];
  url = "";
  agent_types = [];
  connect_timeout = pos 0;
  list_timeout = pos 0;
  call_timeout = pos 0;
  health_interval = pos 0;
  max_concurrency = pos 0;
  allow_tools = "log" ∷ [];
}

abbrev listed : AgentMcpServerConfig → List RemoteTool
listed server = record { name = "log"; title = ""; description = ""; input_schema = "" } ∷ []

abbrev servers : List AgentMcpServerConfig
servers =
    git ∷ record git { name = "docs"; transport = "http"; url = "https://mcp.example.org" } ∷ []

validate_agent_mcp_servers-AllExpose_example :
    AllNameable [] servers × AllExpose parse listed servers
unfolding validate_agent_mcp_servers
validate_agent_mcp_servers-AllExpose_example =
    validate_agent_mcp_servers-AllExpose parse servers listed refl

-- The same name twice.
twice :
    validate_agent_mcp_servers parse (git ∷ record git { name = "git" } ∷ [])
    ≡ some "name is duplicated"
unfolding validate_agent_mcp_servers
twice = refl

abbrev agent : AgentConfig
agent = record {
  max_steps = pos 8;
  max_token_budget = pos 0;
  max_tool_errors_per_step = pos 2;
  max_reflection_steps = pos 2;
  max_reflections = pos 1;
  case_few_shot_limit = pos 3;
  route_few_shot_limit = pos 8;
  step_timeout = pos 0;
  max_concurrent_runs_per_user = pos 2;
  max_concurrent_runs = pos 20;
  tool_choice = "auto";
  prometheus_scheme = "";
  prometheus_query_timeout = pos 0;
  observe_max_chars = some (pos 4000) ∷ [];
  skills = [];
  mcp_servers = servers;
}

abbrev config : Config ℕ
config = record {
  service_name = "kubeflare";
  environment = "Production";
  http = record {
    address = ":8080";
    max_header_bytes = pos 1024;
    allowed_origins = "https://console.example.org" ∷ [];
    allow_credentials = true;
  };
  auth = record {
    signing_key = "key";
    token_ttl = pos 60;
    refresh_token_ttl = pos 600;
    max_failed_attempts = pos 5;
    lockout_duration = pos 900;
    captcha_failure_trigger = pos 3;
    captcha_ttl = pos 300;
    oidc = record {
      enabled = false;
      issuer_url = "";
      client_id = "";
      client_secret = "";
      redirect_url = "";
    };
  };
  ai = record { enabled = false; default_provider = ""; fallback_providers = []; providers = [] };
  agent = agent;
  database = record {
    enabled = true;
    dsn = "postgres://db";
    max_open_conns = pos 10;
    max_idle_conns = pos 5;
    query_timeout = pos 3;
    health_check_timeout = pos 1;
  };
  redis = record {
    enabled = true;
    address = "redis:6379";
    dial_timeout = pos 1;
    read_timeout = pos 1;
    write_timeout = pos 1;
    min_idle_conns = pos 0;
    max_idle_conns = pos 0;
    pool_size = pos 10;
    health_check_timeout = pos 1;
  };
  encryption_key = "00112233445566778899aabbccddeeff00112233445566778899AABBCCDDEEFF";
  upload_root_dir = "/data";
}

abbrev any_temperature : ℕ → Bool
any_temperature t = true

validate-ProductionReady_example : ProductionReady parse any_temperature config
unfolding validate
validate-ProductionReady_example = validate-ProductionReady parse any_temperature config refl refl
