-- ===== src/Lib.antt =====
-- Verification of kubeflare, a Kubernetes console with an agent that diagnoses clusters. Modelled are
-- the parts that guard its calls: who may call, how often, and what happens when the other side fails.
--
-- - Limiter (internal/shared/limiter/limiter.go): the keyed semaphore and the global counter, with
--   Limiter/Run for the limiter of agent runs (internal/module/agent/application/internal/runlimit),
--   which takes a slot of each. A closure that a call returns is a value with the flag of its
--   sync.Once. The semaphore's mutex makes each method one step; the counter's atomic additions are
--   steps of their own, which interleave.
-- - Mcp (internal/module/agent/infrastructure/mcp): Breaker is the circuit breaker; ToolId the ids of
--   tools; Tools the configuration, the listing of a server's tools and what they become; Manager
--   the servers and the permission to call one, through the limiter and then the breaker; Supervise
--   the goroutine that keeps a server connected, with the ticks of its health loop.
-- - Llm (internal/platform/llm): Retry is the client that tries again (retry.go), Fallback the chain
--   of clients (fallback.go) and how the registry builds it.
-- - Auth (internal/shared/middleware/authn.go): Tokens is the signed tokens; Access the revocation of
--   sessions, the authenticator and the guards for roles and for CSRF. Auth/Failover is the pair of
--   stores behind one (internal/module/iam/infrastructure/authstate/failover_store.go) that the
--   tokens are checked against; Auth/Tokens/Rotation is a refresh over
--   a store that rotates once. Auth/Redis is one of these stores
--   (internal/module/iam/infrastructure/redis/auth_state_store.go).
-- - Iam (internal/module/iam/application/service.go): the service that signs users in. Iam/Gates is the
--   lock of a login, the captcha and the second factor; Iam/Login the login itself; Iam/Session
--   refresh and logout through the tokens of Auth, with Iam/Session/Ended for a logout over the token
--   manager itself (as internal/app/bootstrap.go wires them); Iam/Account the users and their passwords; Iam/Mfa
--   how a second factor is turned on and off.
-- - Registry (internal/module/agent/application/internal/tool/registry.go): the tools the agent may
--   call, from the built-in table and from providers such as the MCP manager; Registry/Loading is the
--   start of the providers, with what is kept when one fails, and Registry/Given the account of the
--   registry without maps: the lists of tools and of overrides in the order they were given.
-- - Ledger (internal/module/agent/application/internal/core/hypothesis.go): the hypotheses that a run of
--   the agent weighs, how they are seeded and what a reassessment changes.
-- - Config (internal/platform/config/validate.go): the validation of a configuration; Config/Servers
--   how its MCP servers are handed to the manager (internal/app/bootstrap.go).
-- - Errors (internal/shared/errors): how an error becomes an answer of the API.
-- - Vector (internal/module/agent/application/internal/vector/cache.go): the bounded cache, a ring
--   buffer; its methods UpdateVector and Replace are in Vector/Update and Vector/Replace.
-- - Prelude: the libraries' names that the modules share, Go's maps, texts, results and numerals, and
--   the steps with an error that the services are written in (Prelude/Action).
-- - Tests: the theorems at concrete inputs.
--
-- Operations that change state take the state and give back the new one. Stores, providers, the
-- JSON-RPC session, the clock, random ids, HMAC and the encodings are parameters: functions on the
-- state of the world or on values; so are Redis and the libraries for validation, bcrypt, TOTP,
-- captchas and URLs. What is relied on about them is a named hypothesis. Counters and times are natural numbers; the delay of
-- a retry doubles an int64 with its wrap-around. The loops are structural: over the rounds left, the
-- pages left, the clients or the events; the bounds are the code's own (50 pages, max + 1 attempts).
-- The one fuel chosen is that of a number's digits, 20: an int64 has at most 19. A range over a map
-- goes in the order of the list the map is kept in.
--
-- Floating-point numbers are a parameter with the comparisons that the code makes.
--
-- Not modelled are the HTTP handlers, the SQL stores, the Kubernetes and Prometheus
-- clients, the transports, the agent's planning loop, and log lines. An error is known by what
-- errors.Is and errors.As find in it, not by its text.
pub mod Prelude
pub mod Limiter
pub mod Mcp
pub mod Iam
pub mod Registry
pub mod Config
pub mod Llm
pub mod Auth
pub mod Errors
pub mod Vector
pub mod Tests
pub mod Ledger
