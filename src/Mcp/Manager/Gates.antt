-- ===== src/Mcp/Manager/Gates.antt =====
-- The two gates of a call, the limiter and the breaker: what a refusal leaves, and what a granted
-- call gives back.
use kubeflare.Prelude.{
  ℕ, ◌≡◌, refl, String, Bool, true, false, Option, none, some, List, arith, ap, sym, ◌∙◌, subst,
  str_eq, eq_iff, if◌then◌else◌, Bool-cases, Option-cases, inl, inr,
}
use kubeflare.Prelude.Dict.{lookup, insert, lookup-insert}
use kubeflare.Limiter.{KeyedSemaphore, Handle, count}
use kubeflare.Limiter
use kubeflare.Limiter.Slots.{acquire_refused, acquire-call}
use kubeflare.Mcp.Breaker.{CircuitBreaker, allow}
use kubeflare.Mcp.Manager.{
  ManagedServer, Manager, Refusal, Done, refused, granted, acquire, done, limiter_gate,
  breaker_gate, put_server, finish,
}

-- The same server: all of it but its limiter, in which each key has as many slots taken.
pub record Same (s s' : ManagedServer) : Type 0 where
  pub rest : s' ≡ record s { limiter = s'.limiter }
  pub slots : (k : String) → count s'.limiter k ≡ count s.limiter k

abbrev pub SameEntry : Option ManagedServer → Option ManagedServer → Type 0
SameEntry none none = Unit
SameEntry (some s) (some s') = Same s s'
SameEntry _ _ = ⊥

allow_refused : (now : ℕ) (b : CircuitBreaker) → (allow now b).1 ≡ false → (allow now b).0 ≡ b
unfolding allow
allow_refused now b e = ground arith

SameEntry-refl : (o : Option ManagedServer) → SameEntry o o
SameEntry-refl none = tt
SameEntry-refl (some s) = record { rest = refl; slots = λ k. refl }

-- A server that is put in place of one that is the same.
SameEntry-insert :
    (m : List (String × ManagedServer)) (name j : String) (s s' : ManagedServer)
    → lookup name m ≡ some s
    → Same s s'
    → SameEntry (lookup j m) (lookup j (insert name s' m))
SameEntry-insert m name j s s' e same = rw lookup-insert (elim (Bool-cases (str_eq name j)) [
  | inl here ↦
      subst (λ k. SameEntry (lookup k m) (if str_eq name j then some s' else lookup j m))
        ((eq_iff name j).0 here) (rw here (rw e same))
  | inr there ↦ rw there (SameEntry-refl (lookup j m))
])

breaker_gate-Same :
    (name : String) (handle : Handle) (s : ManagedServer) (limiter : KeyedSemaphore)
    (r : CircuitBreaker × Bool) (m : Manager) (x : Refusal)
    → lookup name m.servers ≡ some s
    → (r.1 ≡ false → r.0 ≡ s.breaker)
    → ((k : String) → count (Limiter.call handle limiter).1 k ≡ count s.limiter k)
    → (breaker_gate name handle (record s { limiter = limiter }) r m).1 ≡ refused x
    → (j : String)
    → SameEntry
        (lookup j m.servers)
        (lookup j (breaker_gate name handle (record s { limiter = limiter }) r m).0.servers)
unfolding put_server
breaker_gate-Same name handle s limiter (b, true) m x found kept back e j = cc
breaker_gate-Same name handle s limiter (b, false) m x found kept back e j =
    SameEntry-insert m.servers name j s _ found (record {
      rest =
          ap (λ b. record s { limiter = (Limiter.call handle limiter).1; breaker = b }) (kept refl);
      slots = back;
    })

limiter_gate-Same :
    (now : ℕ) (name : String) (s : ManagedServer) (r : KeyedSemaphore × Option Handle) (m : Manager)
    (x : Refusal)
    → lookup name m.servers ≡ some s
    → Limiter.acquire s.limiter name ≡ r
    → (limiter_gate now name s r m).1 ≡ refused x
    → (j : String)
    → SameEntry (lookup j m.servers) (lookup j (limiter_gate now name s r m).0.servers)
unfolding put_server
limiter_gate-Same now name s (limiter, none) m x found e refusal j =
    SameEntry-insert m.servers name j s _ found (record {
      rest = refl;
      slots = λ k.
          ap (λ l. count l k)
            (sym (ap (λ p. p.0) e) ∙ acquire_refused s.limiter name (ap (λ p. p.1) e));
    })
limiter_gate-Same now name s (limiter, some handle) m x found e refusal j =
    breaker_gate-Same name handle s limiter (allow now s.breaker) m x found
      (allow_refused now s.breaker)
      (λ k.
        subst (λ l. count (Limiter.call handle l).1 k ≡ count s.limiter k) (ap (λ p. p.0) e)
          (acquire-call s.limiter name k handle (ap (λ p. p.1) e)))
      refusal j

-- A call that is refused, for whatever reason, leaves every server as it was, its tools, its client,
-- its state and its breaker, so a refusal never uses up the trial of a half-open one; and in its
-- limiter every key has as many slots taken as before.
pub refused_keeps_servers :
    (now : ℕ) (server : String) (m : Manager) (r : Refusal)
    → (acquire now server m).1 ≡ refused r
    → (j : String) → SameEntry (lookup j m.servers) (lookup j (acquire now server m).0.servers)
unfolding acquire
refused_keeps_servers now server m r e j = elim (Option-cases (lookup server m.servers)) [
  | inl missing ↦ rw missing (SameEntry-refl (lookup j m.servers))
  | inr (s, found) ↦ rw found (
      limiter_gate-Same now server s (Limiter.acquire s.limiter server) m r found refl
        (rw found at e) j)
]

-- What a granted call has done.
record Grant (now : ℕ) (server : String) (m : Manager) (d : Done) : Type 0 where
  s : ManagedServer
  handle : Handle
  found : lookup server m.servers ≡ some s
  taken : (Limiter.acquire s.limiter server).1 ≡ some handle
  closure : d ≡ record { server = server; release = handle; fired = false }
  after :
      (acquire now server m).0
      ≡ put_server server
          (record s {
            limiter = (Limiter.acquire s.limiter server).0;
            breaker = (allow now s.breaker).0;
          })
          m

acquire-Grant :
    (now : ℕ) (server : String) (m : Manager) (d : Done)
    → (acquire now server m).1 ≡ granted d
    → Grant now server m d
unfolding acquire
acquire-Grant now server m d e = elim (Option-cases (lookup server m.servers)) [
  | inl missing ↦ absurd (ground (arith, missing))
  | inr (s, found) ↦ elim (Option-cases (Limiter.acquire s.limiter server).1) [
    | inl full ↦ absurd (ground (arith, found, full))
    | inr (handle, taken) ↦ record {
      s = s;
      handle = handle;
      found = found;
      taken = taken;
      closure = ground (arith, found, taken);
      after = ground (arith, found, taken);
    }
  ]
]

-- The slots of a key that a server has taken, 0 for a server that is not there.
abbrev pub slots_of : Option ManagedServer → String → ℕ
slots_of none k = 0
slots_of (some s) k = count s.limiter k

lookup-insert_self :
    (k : String) (v : ManagedServer) (m : List (String × ManagedServer))
    → lookup k (insert k v m) ≡ some v
lookup-insert_self k v m = rw lookup-insert (ground (arith, eq_iff k k))

slots_of-insert :
    (servers : List (String × ManagedServer)) (server j k : String) (s s' : ManagedServer)
    → lookup server servers ≡ some s
    → count s'.limiter k ≡ count s.limiter k
    → slots_of (lookup j (insert server s' servers)) k ≡ slots_of (lookup j servers) k
slots_of-insert servers server j k s s' found same =
    rw lookup-insert (ground (arith, eq_iff server j, found, same))

slots_of-insert_twice :
    (servers : List (String × ManagedServer)) (server j k : String) (x s : ManagedServer)
    → slots_of (lookup j (insert server s (insert server x servers))) k
      ≡ slots_of (lookup j (insert server s servers)) k
slots_of-insert_twice servers server j k x s = simp lookup-insert (ground (arith, eq_iff server j))

slots_of-finish :
    (at later : ℕ) (success : Bool) (server j k : String) (handle : Handle) (s s' : ManagedServer)
    (m : Manager)
    → lookup server m.servers ≡ some s
    → count (Limiter.call handle s'.limiter).1 k ≡ count s.limiter k
    → let m' = put_server server s' m in
      slots_of
        (lookup j
          (finish at later success
            (record { server = server; release = handle; fired = false })
            (lookup server m'.servers)
            m').servers)
        k
      ≡ slots_of (lookup j m.servers) k
unfolding put_server
slots_of-finish at later success server j k handle s s' m found same =
    rw (lookup-insert_self server s' m.servers) (
      slots_of-insert_twice m.servers server j k s' _
      ∙ slots_of-insert m.servers server j k s _ found same)

-- Reporting the result of a granted call gives its slot back, whatever the result, so that every
-- key of every server counts what it did before the call; reporting it again does nothing.
pub granted_done :
    (now at later : ℕ) (success : Bool) (server : String) (m : Manager) (d : Done)
    → (acquire now server m).1 ≡ granted d
    → let after = done at later success d (acquire now server m).0 in
      ((j k : String) → slots_of (lookup j after.1.servers) k ≡ slots_of (lookup j m.servers) k)
      × (done at later success after.0 after.1 ≡ after)
unfolding done put_server
granted_done now at later success server m d e =
    let g = acquire-Grant now server m d e in
    rw (g.closure, g.after)
      (
        λ j k.
            slots_of-finish at later success server j k g.handle g.s _ m g.found
              (acquire-call g.s.limiter server k g.handle g.taken),
        refl,
      )
