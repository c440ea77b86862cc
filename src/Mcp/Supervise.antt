-- ===== src/Mcp/Supervise.antt =====
-- internal/module/agent/infrastructure/mcp/manager.go: the goroutine that keeps one server
-- connected. What it meets in a round of its loop is an argument: whether the context is cancelled,
-- how the connection goes, what the ticks of the health loop find, how long the connection lived and
-- whether the sleep is cut short. Times are nanoseconds.
pub mod Backoff
pub mod Connection
use kubeflare.Prelude.{
  ℕ, ◌*◌, Bool, true, false, ◌||◌, Option, none, some, List, [], ◌∷◌, ◌++◌, String, ltb, leb, ◌==◌,
  if◌then◌else◌,
}
use kubeflare.Mcp.Breaker.{second}
use kubeflare.Mcp.Tools.{RemoteTool, to_tool_definitions}
use kubeflare.Mcp.Manager.{
  ManagedServer, Metrics, ConnState, connecting, ready, failed, disconnected, set_state,
  store_tools,
}

abbrev pub reconnect_base_backoff : ℕ
reconnect_base_backoff = 1 * second

abbrev pub reconnect_max_backoff : ℕ
reconnect_max_backoff = 30 * second

abbrev pub min_server_uptime : ℕ
min_server_uptime = 10 * second

unfoldable pub next_backoff : ℕ → ℕ
next_backoff current =
    if ltb reconnect_max_backoff (current * 2) then reconnect_max_backoff else current * 2

-- `dial` and `ListTools`: the dial fails, the listing over a new client fails, or it succeeds.
pub data Connect : Type 0 where
  dial_failed : Connect
  list_failed : ℕ → Connect
  listed : ℕ → List RemoteTool → Connect

-- What `runHealthLoop` finds: the context is done, or at a tick the client is closed, or the ping goes
-- through or fails.
pub data Probe : Type 0 where
  cancelled client_closed pinged ping_failed : Probe

-- Whether `runHealthLoop` has returned behind these ticks, or still waits for the next.
unfoldable pub run_health_loop : List Probe → Bool
run_health_loop [] = false
run_health_loop (pinged ∷ probes) = run_health_loop probes
run_health_loop (_ ∷ probes) = true

pub record Round : Type 0 where
  pub cancelled_before : Bool
  pub connect : Connect
  pub probes : List Probe
  pub cancelled_after : Bool
  pub uptime : ℕ
  pub awake : Bool

-- The server, the manager's metrics and its `closed` flag, the variable `backoff`, the sleeps and
-- the calls of `onReady` so far, whether the goroutine has returned, and whether it stands in the
-- health loop of a connection.
pub record Supervisor : Type 0 where
  pub server : ManagedServer
  pub metrics : Option Metrics
  pub closed : Bool
  pub backoff : ℕ
  pub sleeps : List ℕ
  pub announced : List String
  pub returned : Bool
  pub waiting : Bool

unfoldable pub start_supervisor : ManagedServer → Option Metrics → Supervisor
start_supervisor server metrics = record {
  server = server;
  metrics = metrics;
  closed = false;
  backoff = reconnect_base_backoff;
  sleeps = [];
  announced = [];
  returned = false;
  waiting = false;
}

unfoldable pub set_server_state : ConnState → Supervisor → Supervisor
unfolding set_state
set_server_state state s = record s {
  server = record s.server { state = state };
  metrics = set_state s.server.config.name state s.metrics;
}

-- The steps of `connectOnce` behind a successful listing.
abbrev make_ready : ℕ → List RemoteTool → Supervisor → Supervisor
make_ready client remote s =
    let stored = store_tools (to_tool_definitions s.server.config remote) s.server in
    let r = set_server_state ready (record s { server = record stored { client = some client } }) in
    record r { announced = r.announced ++ r.server.config.name ∷ [] }

abbrev connect_from : Connect → Supervisor → Supervisor × Option ℕ
connect_from dial_failed s = (s, none)
connect_from (list_failed client) s = (s, none)
connect_from (listed client remote) s = (make_ready client remote s, some client)

unfoldable pub connect_once : Connect → Supervisor → Supervisor × Option ℕ
unfolding set_server_state store_tools
connect_once c s = connect_from c (set_server_state connecting s)

abbrev clear_client : ℕ → Option ℕ → Option ℕ
clear_client client none = none
clear_client client (some current) = if current == client then none else some current

unfoldable pub drop_client : ℕ → Supervisor → Supervisor
unfolding set_server_state
drop_client client s =
    let dropped = record s {
      server = record s.server { client = clear_client client s.server.client };
    } in
    if s.closed then dropped else set_server_state disconnected dropped

abbrev give_up : Supervisor → Supervisor
give_up s = record s { returned = true }

-- `if !sleepCtx(ctx, backoff) { return }` and the longer backoff for the next time.
unfoldable pub back_off : Bool → Supervisor → Supervisor
unfolding next_backoff
back_off awake s =
    let slept = record s { sleeps = s.sleeps ++ s.backoff ∷ [] } in
    if awake then record slept { backoff = next_backoff s.backoff } else give_up slept

-- Behind the health loop.
abbrev after_health : Round → ℕ → Supervisor → Supervisor
after_health r client s =
    let dropped = drop_client client s in
    if r.cancelled_after
    then give_up dropped
    else if leb min_server_uptime r.uptime
    then record dropped { backoff = reconnect_base_backoff }
    else back_off r.awake dropped

abbrev after_connect : Round → Supervisor × Option ℕ → Supervisor
after_connect r (s, none) =
    if r.cancelled_after then give_up s else back_off r.awake (set_server_state failed s)
after_connect r (s, some client) =
    if run_health_loop r.probes then after_health r client s else record s { waiting = true }

-- One round of the loop, as far as its health loop has come.
unfoldable pub round : Round → Supervisor → Supervisor
unfolding connect_once drop_client back_off set_server_state run_health_loop
round r s = if r.cancelled_before then give_up s else after_connect r (connect_once r.connect s)

unfoldable pub supervise : List Round → Supervisor → Supervisor
unfolding round
supervise [] s = s
supervise (r ∷ rs) s =
    let rest = supervise rs (round r s) in if s.returned || s.waiting then s else rest
