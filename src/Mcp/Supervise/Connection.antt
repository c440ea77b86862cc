-- ===== src/Mcp/Supervise/Connection.antt =====
-- What the goroutine keeps about its server, in the health loop and between two rounds.
use kubeflare.Prelude.{
  ℕ, Bool, true, some, ◌||◌, ◌≡◌, ◌≢◌, refl, false, Option, none, List, [], ◌∷◌, arith, All, ap,
  sym, subst, ◌++◌, ◌∙◌, Bool-cases, inl, inr,
}
use kubeflare.Mcp.Manager.{ManagedServer, Metrics, ready, snapshot_tools}
use kubeflare.Mcp.Supervise.{
  Connect, dial_failed, list_failed, listed, Probe, pinged, client_closed, ping_failed, cancelled,
  Round, Supervisor, start_supervisor, run_health_loop, round, supervise,
}
use kubeflare.Mcp.Supervise.Backoff.{connects, supervise_over, supervise_on}

abbrev pub has_client : Option ℕ → Bool
has_client none = false
has_client (some client) = true

-- Outside the health loop the server has no client and is not ready; in it, it has one and is ready.
pub record Steady (s : Supervisor) : Type 0 where
  pub opened : s.closed ≡ false
  pub clientless : s.waiting ≡ false → s.server.client ≡ none
  pub unready : s.waiting ≡ false → s.server.state ≢ ready
  pub offered : s.waiting ≡ true → has_client s.server.client ≡ true
  pub up : s.waiting ≡ true → s.server.state ≡ ready

round-Steady :
    (r : Round) (s : Supervisor) → (s.returned || s.waiting) ≡ false → Steady s → Steady (round r s)
unfolding round
round-Steady r s on h =
    let out : s.waiting ≡ false = ground (arith, on) in
    let clientless = h.clientless out in
    let unready = h.unready out in
    record {
      opened = ground (arith, h.opened);
      clientless = ground (arith, out, clientless, h.opened);
      unready = ground (arith, out, unready, h.opened);
      offered = ground (arith, out, h.opened);
      up = ground (arith, out, h.opened);
    }

supervise-Steady : (rs : List Round) (s : Supervisor) → Steady s → Steady (supervise rs s)
supervise-Steady [] s h = unfold supervise in h
supervise-Steady (r ∷ rs) s h = elim (Bool-cases (s.returned || s.waiting)) [
  | inl over ↦ rw (supervise_over r rs s over) h
  | inr on ↦ rw (supervise_on r rs s on) (supervise-Steady rs (round r s) (round-Steady r s on h))
]

-- The client that a connection gives.
abbrev pub client_of : Connect → Option ℕ
client_of dial_failed = none
client_of (list_failed client) = none
client_of (listed client remote) = some client

-- One of the rounds has connected the client that is offered, and all its ticks found it answering.
pub record Held (rs : List Round) (s : Supervisor) : Type 0 where
  pub before : List Round
  pub last : Round
  pub after : List Round
  pub split : rs ≡ before ++ last ∷ after
  pub alive : All (λ probe. probe ≡ pinged) last.probes
  pub client : s.server.client ≡ client_of last.connect

pinged_each :
    (probes : List Probe) → run_health_loop probes ≡ false → All (λ probe. probe ≡ pinged) probes
unfolding run_health_loop
pinged_each [] h = tt
pinged_each (pinged ∷ probes) h = (refl, pinged_each probes h)
pinged_each (cancelled ∷ probes) h = ground (arith, h)
pinged_each (client_closed ∷ probes) h = ground (arith, h)
pinged_each (ping_failed ∷ probes) h = ground (arith, h)

round_waits :
    (r : Round) (s : Supervisor)
    → s.waiting ≡ false
    → (round r s).waiting ≡ true
    → (run_health_loop r.probes ≡ false) × ((round r s).server.client ≡ client_of r.connect)
unfolding round
round_waits r s out waits = (ground (arith, out, waits), ground (arith, out, waits))

supervise_waiting : (rs : List Round) (s : Supervisor) → s.waiting ≡ true → supervise rs s ≡ s
supervise_waiting [] s waits = unfold supervise in refl
supervise_waiting (r ∷ rs) s waits = supervise_over r rs s (ground (arith, waits))

waits-Held :
    (r : Round) (rs : List Round) (s : Supervisor)
    → s.waiting ≡ false
    → (round r s).waiting ≡ true
    → Held (r ∷ rs) (supervise rs (round r s))
waits-Held r rs s out waits =
    let (alive, client) = round_waits r s out waits in
    rw (supervise_waiting rs (round r s) waits) (record {
      before = [];
      last = r;
      after = rs;
      split = refl;
      alive = pinged_each r.probes alive;
      client = client;
    })

later_Held : (r : Round) (rs : List Round) (s : Supervisor) → Held rs s → Held (r ∷ rs) s
later_Held r rs s k = record {
  before = r ∷ k.before;
  last = k.last;
  after = k.after;
  split = ap (λ l. r ∷ l) k.split;
  alive = k.alive;
  client = k.client;
}

supervise-Held :
    (rs : List Round) (s : Supervisor)
    → s.waiting ≡ false
    → (supervise rs s).waiting ≡ true
    → Held rs (supervise rs s)
supervise-Held [] s out waits = absurd (unfold supervise in ground (arith, out, waits))
supervise-Held (r ∷ rs) s out waits = elim (Bool-cases (s.returned || s.waiting)) [
  | inl over ↦
      let waits' = ap (λ x. x.waiting) (sym (supervise_over r rs s over)) ∙ waits in
      absurd (ground (arith, out, waits'))
  | inr on ↦
      let waits' = ap (λ x. x.waiting) (sym (supervise_on r rs s on)) ∙ waits in
      subst (Held (r ∷ rs)) (sym (supervise_on r rs s on)) (elim (Bool-cases (round r s).waiting) [
        | inl now ↦ waits-Held r rs s out now
        | inr gone ↦
            later_Held r rs (supervise rs (round r s)) (supervise-Held rs (round r s) gone waits')
      ])
]

-- While the manager is open, the goroutine of a server that is started without a client and is not ready
-- keeps this, whatever it meets: as long as it stands in the health loop of a connection, the server is
-- ready and has the client that this connection gave, which every tick of the loop so far found open
-- and answering its ping; and between two rounds, and once it has returned, the server has no client
-- and is not ready.
pub supervised_drops :
    (rs : List Round) (server : ManagedServer) (metrics : Option Metrics)
    → server.client ≡ none
    → server.state ≢ ready
    → let s = supervise rs (start_supervisor server metrics) in
      (s.waiting ≡ true
        → (has_client s.server.client ≡ true) × (s.server.state ≡ ready) × Held rs s)
      × (s.waiting ≡ false → (s.server.client ≡ none) × (s.server.state ≢ ready))
supervised_drops rs server metrics clientless unready =
    let h = supervise-Steady rs (start_supervisor server metrics) (
      unfold start_supervisor in
      record {
        opened = refl;
        clientless = λ out. clientless;
        unready = λ out. unready;
        offered = λ waits. ground (arith, waits);
        up = λ waits. ground (arith, waits);
      }) in
    let held =
      supervise-Held rs (start_supervisor server metrics) (unfold start_supervisor in refl) in
    (λ waits. (h.offered waits, h.up waits, held waits), λ out. (h.clientless out, h.unready out))

round_keeps_tools :
    (r : Round) (s : Supervisor)
    → connects r.connect ≡ false
    → snapshot_tools (round r s).server ≡ snapshot_tools s.server
unfolding round snapshot_tools
round_keeps_tools r s e = ground arith

-- Rounds in which no listing succeeds leave the tools that the server exposes as they were: losing
-- the connection does not take them away.
pub lost_keeps_tools :
    (rs : List Round) (s : Supervisor)
    → All (λ r. connects r.connect ≡ false) rs
    → snapshot_tools (supervise rs s).server ≡ snapshot_tools s.server
lost_keeps_tools [] s h = unfold supervise in refl
lost_keeps_tools (r ∷ rs) s h = elim (Bool-cases (s.returned || s.waiting)) [
  | inl over ↦ ap (λ x. snapshot_tools x.server) (supervise_over r rs s over)
  | inr on ↦
      ap (λ x. snapshot_tools x.server) (supervise_on r rs s on)
      ∙ lost_keeps_tools rs (round r s) h.1
      ∙ round_keeps_tools r s h.0
]
