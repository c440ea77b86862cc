-- ===== src/Mcp/Manager.antt =====
-- internal/module/agent/infrastructure/mcp/manager.go: the servers and the permission to call one.
-- A server is reached through the map, which the constructor fills and nothing changes, so a method
-- on a server is a function that puts the new server in its place. A client is a number, its
-- identity. The metrics that the methods set are kept; log lines are not. `acquire` and `done` are
-- taken without interruption, and the clock is an argument wherever the code reads it.
pub mod Gates
use kubeflare.Prelude.{
  ℕ, ◌+◌, String, Bool, true, false, Option, none, some, List, [], ◌∷◌, ◌++◌, if◌then◌else◌, pos,
}
use kubeflare.Prelude.Dict.{lookup, insert}
use kubeflare.Limiter.{KeyedSemaphore, Handle, new_keyed_semaphore}
use kubeflare.Limiter
use kubeflare.Mcp.Breaker.{
  CircuitBreaker, new_circuit_breaker, allow, record_result, is_open, default_breaker_threshold,
  default_breaker_cooldown,
}
use kubeflare.Mcp.Tools.{ServerConfig, ToolDefinition, with_defaults}

pub data ConnState : Type 0 where
  disconnected connecting ready failed : ConnState

pub record ManagedServer : Type 0 where
  pub config : ServerConfig
  pub breaker : CircuitBreaker
  pub limiter : KeyedSemaphore
  pub state : ConnState
  pub client : Option ℕ
  pub last_tools : List ToolDefinition
  pub has_tools : Bool

-- The gauges that a `*Metrics` holds by server.
pub record Metrics : Type 0 where
  pub server_state : List (String × ConnState)
  pub breaker_open : List (String × Bool)

-- The metrics may be nil.
pub record Manager : Type 0 where
  pub servers : List (String × ManagedServer)
  pub metrics : Option Metrics
  pub closed : Bool

unfoldable pub set_state : String → ConnState → Option Metrics → Option Metrics
set_state server state none = none
set_state server state (some m) =
    some (record m { server_state = insert server state m.server_state })

unfoldable pub set_breaker_open : String → Bool → Option Metrics → Option Metrics
set_breaker_open server open_ none = none
set_breaker_open server open_ (some m) =
    some (record m { breaker_open = insert server open_ m.breaker_open })

-- The server that the constructor makes from a configuration with its defaults filled in.
unfoldable pub managed_server : ServerConfig → ManagedServer
managed_server cfg = record {
  config = cfg;
  breaker = new_circuit_breaker (pos default_breaker_threshold) (pos default_breaker_cooldown);
  limiter = new_keyed_semaphore cfg.max_concurrency;
  state = disconnected;
  client = none;
  last_tools = [];
  has_tools = false;
}

-- `buildConnect` checks the transport and calls the constructors of the transports, which stand
-- outside the model: a parameter tells whether it succeeds.
unfoldable pub add_servers :
    (ServerConfig → Bool)
    → List ServerConfig
    → List (String × ManagedServer)
    → List (String × ManagedServer)
unfolding managed_server
add_servers build_connect [] servers = servers
add_servers build_connect (raw ∷ raws) servers =
    let cfg = with_defaults raw in
    add_servers build_connect raws
      (if build_connect cfg then insert cfg.name (managed_server cfg) servers else servers)

unfoldable pub new_manager : (ServerConfig → Bool) → List ServerConfig → Option Metrics → Manager
unfolding add_servers
new_manager build_connect raws metrics = record {
  servers = add_servers build_connect raws [];
  metrics = metrics;
  closed = false;
}

unfoldable pub snapshot_tools : ManagedServer → Option (List ToolDefinition)
snapshot_tools s = if s.has_tools then some s.last_tools else none

unfoldable pub store_tools : List ToolDefinition → ManagedServer → ManagedServer
store_tools tools s = record s { last_tools = tools; has_tools = true }

abbrev tools_of : Option ManagedServer → Option (List ToolDefinition)
tools_of none = none
tools_of (some s) = snapshot_tools s

unfoldable pub tools : Manager → String → Option (List ToolDefinition)
unfolding snapshot_tools
tools m server = tools_of (lookup server m.servers)

abbrev or_none : Option (List ToolDefinition) → List ToolDefinition
or_none none = []
or_none (some ts) = ts

unfoldable pub all_tools_of : List (String × ManagedServer) → List ToolDefinition
unfolding snapshot_tools
all_tools_of [] = []
all_tools_of ((name, s) ∷ servers) = or_none (snapshot_tools s) ++ all_tools_of servers

unfoldable pub all_tools : Manager → List ToolDefinition
unfolding all_tools_of
all_tools m = all_tools_of m.servers

pub data Refusal : Type 0 where
  unknown_server busy breaker_open : Refusal

-- The closure `done`: the handle that it releases, and whether its `Once` has run.
pub record Done : Type 0 where
  pub server : String
  pub release : Handle
  pub fired : Bool

pub data Admission : Type 0 where
  refused : Refusal → Admission
  granted : Done → Admission

unfoldable pub put_server : String → ManagedServer → Manager → Manager
put_server name s m = record m { servers = insert name s m.servers }

abbrev breaker_gate :
    String → Handle → ManagedServer → CircuitBreaker × Bool → Manager → Manager × Admission
breaker_gate name handle s (breaker, true) m = (
  put_server name (record s { breaker = breaker }) m,
  granted (record { server = name; release = handle; fired = false }),
)
breaker_gate name handle s (breaker, false) m = (
  record (put_server name
      (record s { breaker = breaker; limiter = (Limiter.call handle s.limiter).1 }) m) {
        metrics = set_breaker_open name true m.metrics;
      },
  refused breaker_open,
)

abbrev limiter_gate :
    ℕ → String → ManagedServer → KeyedSemaphore × Option Handle → Manager → Manager × Admission
limiter_gate now name s (limiter, none) m =
    (put_server name (record s { limiter = limiter }) m, refused busy)
limiter_gate now name s (limiter, some handle) m =
    breaker_gate name handle (record s { limiter = limiter }) (allow now s.breaker) m

abbrev acquire_from : ℕ → String → Option ManagedServer → Manager → Manager × Admission
acquire_from now name none m = (m, refused unknown_server)
acquire_from now name (some s) m = limiter_gate now name s (Limiter.acquire s.limiter name) m

unfoldable pub acquire : ℕ → String → Manager → Manager × Admission
unfolding put_server set_breaker_open
acquire now server m = acquire_from now server (lookup server m.servers) m

abbrev finish : ℕ → ℕ → Bool → Done → Option ManagedServer → Manager → Manager
finish now later success d none m = m
finish now later success d (some s) m =
    let breaker = record_result now success s.breaker in
    record (put_server d.server
      (record s { breaker = breaker; limiter = (Limiter.call d.release s.limiter).1 }) m) {
        metrics = set_breaker_open d.server (is_open later breaker) m.metrics;
      }

-- `done(success)`, with what the clock says to `record` and then to `isOpen`.
unfoldable pub done : ℕ → ℕ → Bool → Done → Manager → Done × Manager
unfolding put_server set_breaker_open
done now later success d m =
    if d.fired
    then (d, m)
    else (record d { fired = true }, finish now later success d (lookup d.server m.servers) m)

unfoldable pub health_check : String → Manager → Bool
health_check server m = elim (lookup server m.servers) [
  | none ↦ false
  | some s ↦ elim s.state [ ready ↦ true | _ ↦ false ]
]
