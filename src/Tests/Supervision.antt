-- ===== src/Tests/Supervision.antt =====
-- The goroutine that keeps a server connected, at concrete inputs.
use kubeflare.Prelude.{◌≡◌, ◌≢◌, refl, true, false, none, List, [], ◌∷◌, arith, ℕ, pos}
use kubeflare.Mcp.Tools.{ServerConfig}
use kubeflare.Mcp.Manager.{managed_server, ready}
use kubeflare.Mcp.Supervise.{
  Round, pinged, client_closed, Connect, dial_failed, list_failed, listed, start_supervisor,
  supervise, min_server_uptime,
}
use kubeflare.Mcp.Supervise.Connection.{has_client, Held, supervised_drops}

abbrev k8s : ServerConfig
k8s = record {
  name = "k8s";
  transport = "stdio";
  agent_types = [];
  trusted_tools = [];
  connect_timeout = pos 0;
  list_timeout = pos 0;
  call_timeout = pos 0;
  health_interval = pos 0;
  max_concurrency = pos 1;
}

abbrev round_of : Connect → ℕ → Round
round_of connect uptime = record {
  cancelled_before = false;
  connect = connect;
  probes = pinged ∷ client_closed ∷ [];
  cancelled_after = false;
  uptime = uptime;
  awake = true;
}

-- A dial that fails, a connection that lives long, one that is lost at once, a failed listing, and a
-- connection that still stands.
abbrev rounds : List Round
rounds =
    round_of dial_failed 0
    ∷ round_of (listed 1 []) min_server_uptime
    ∷ round_of (listed 2 []) 3
    ∷ round_of (list_failed 3) 0
    ∷ record (round_of (listed 4 []) 0) { probes = pinged ∷ [] }
    ∷ []

abbrev bad_rounds : List Round
bad_rounds = round_of dial_failed 0 ∷ round_of (list_failed 3) 0 ∷ []

supervised_drops_example :
    let s = supervise rounds (start_supervisor (managed_server k8s) none) in
    (s.waiting ≡ true
      → (has_client s.server.client ≡ true) × (s.server.state ≡ ready) × Held rounds s)
    × (s.waiting ≡ false → (s.server.client ≡ none) × (s.server.state ≢ ready))
unfolding managed_server
supervised_drops_example =
    supervised_drops rounds (managed_server k8s) none refl (λ e. ground arith)
