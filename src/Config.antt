-- ===== src/Config.antt =====
-- internal/platform/config: the configuration as far as internal/platform/config/validate.go reads it,
-- and the parts of the validation. An error is its text, without the names and numbers that are put
-- into it; a map is a list of its entries in the order in which Go visits them. `url.Parse` is a
-- parameter, the scheme and the host that it finds.
pub mod Validate
pub mod Servers
pub mod Safe
use kubeflare.Prelude.{
  ℕ, ◌≡◌, refl, Bool, true, false, not, ◌&&◌, ◌||◌, Option, none, some, String, List, [], ◌∷◌,
  if◌then◌else◌, ltb, str_eq, arith, ℤ, pos, negsuc, is_positive, is_nonneg,
}
use kubeflare.Prelude.Text.{trim_space}
use kubeflare.Prelude.Dots.{is_empty, has_dot}

pub record DatabaseConfig : Type 0 where
  pub enabled : Bool
  pub dsn : String
  pub max_open_conns : ℤ
  pub max_idle_conns : ℤ
  pub query_timeout : ℤ
  pub health_check_timeout : ℤ

pub record RedisConfig : Type 0 where
  pub enabled : Bool
  pub address : String
  pub dial_timeout : ℤ
  pub read_timeout : ℤ
  pub write_timeout : ℤ
  pub min_idle_conns : ℤ
  pub max_idle_conns : ℤ
  pub pool_size : ℤ
  pub health_check_timeout : ℤ

pub record AgentMcpServerConfig : Type 0 where
  pub name : String
  pub transport : String
  pub command : List String
  pub url : String
  pub agent_types : List String
  pub connect_timeout : ℤ
  pub list_timeout : ℤ
  pub call_timeout : ℤ
  pub health_interval : ℤ
  pub max_concurrency : ℤ
  pub allow_tools : List String

pub record AgentSkillConfig : Type 0 where
  pub id : String
  pub triggers : List String
  pub system_prompt : String

pub record AgentConfig : Type 0 where
  pub max_steps : ℤ
  pub max_token_budget : ℤ
  pub max_tool_errors_per_step : ℤ
  pub max_reflection_steps : ℤ
  pub max_reflections : ℤ
  pub case_few_shot_limit : ℤ
  pub route_few_shot_limit : ℤ
  pub step_timeout : ℤ
  pub max_concurrent_runs_per_user : ℤ
  pub max_concurrent_runs : ℤ
  pub tool_choice : String
  pub prometheus_scheme : String
  pub prometheus_query_timeout : ℤ
  pub observe_max_chars : List (Option ℤ)
  pub skills : List AgentSkillConfig
  pub mcp_servers : List AgentMcpServerConfig

-- `if test { return errors.New(text) }`
abbrev pub reject_if : Bool → String → Option String → Option String
reject_if true text next = some text
reject_if false text next = next

-- `if err := first; err != nil { return err }`
abbrev pub and_next : Option String → Option String → Option String
and_next (some text) next = some text
and_next none next = next

-- Such tests one after the other.
abbrev pub first_of : List (Bool × String) → Option String
first_of [] = none
first_of ((test, text) ∷ tests) = reject_if test text (first_of tests)

pub reject_if-none :
    (b : Bool) (text : String) (next : Option String)
    → reject_if b text next ≡ none
    → (b ≡ false) × (next ≡ none)
reject_if-none true text next h = ground (arith, h)
reject_if-none false text next h = (refl, h)

pub and_next-none :
    (first next : Option String) → and_next first next ≡ none → (first ≡ none) × (next ≡ none)
and_next-none (some text) next h = ground (arith, h)
and_next-none none next h = (refl, h)

abbrev pub is_negative : ℤ → Bool
is_negative n = not (is_nonneg n)

-- `a > b`
abbrev pub exceeds : ℤ → ℤ → Bool
exceeds (pos a) (pos b) = ltb b a
exceeds (pos a) (negsuc b) = true
exceeds (negsuc a) (pos b) = false
exceeds (negsuc a) (negsuc b) = ltb a b

-- `v < 0 || v > limit`
abbrev pub outside : ℕ → ℤ → Bool
outside limit n = is_negative n || exceeds n (pos limit)

abbrev pub has : String → List String → Bool
has key [] = false
has key (k ∷ keys) = str_eq k key || has key keys

unfoldable pub validate_database_config : DatabaseConfig → Option String
validate_database_config cfg =
    if not cfg.enabled
    then none
    else reject_if (is_empty cfg.dsn) "database.dsn is required when database is enabled" (
        reject_if (not (is_positive cfg.max_open_conns))
          "database.max_open_conns must be positive when database is enabled"
          (reject_if (is_negative cfg.max_idle_conns) "database.max_idle_conns must not be negative"
            (reject_if (exceeds cfg.max_idle_conns cfg.max_open_conns)
              "database.max_idle_conns must not exceed database.max_open_conns"
              (reject_if (not (is_positive cfg.query_timeout))
                "database.query_timeout must be positive to bound query execution"
                (reject_if (not (is_positive cfg.health_check_timeout))
                  "database.health_check_timeout must be positive" none)))))

unfoldable pub validate_redis_config : RedisConfig → Option String
validate_redis_config cfg =
    if not cfg.enabled
    then none
    else reject_if (is_empty cfg.address) "redis.address is required when redis is enabled" (
        reject_if
          (not (is_positive cfg.dial_timeout)
            || (not (is_positive cfg.read_timeout) || not (is_positive cfg.write_timeout)))
          "redis dial_timeout, read_timeout and write_timeout must be positive"
          (reject_if (not (is_positive cfg.health_check_timeout))
            "redis.health_check_timeout must be positive"
            (reject_if
              (is_negative cfg.pool_size
                || (is_negative cfg.min_idle_conns || is_negative cfg.max_idle_conns))
              "redis pool sizes must not be negative"
              (reject_if
                (is_positive cfg.max_idle_conns && exceeds cfg.min_idle_conns cfg.max_idle_conns)
                "redis.min_idle_conns must not exceed redis.max_idle_conns" none))))

abbrev blank_first : List String → Bool
blank_first [] = true
blank_first (word ∷ words) = is_empty (trim_space word)

module _ (parse : String → Option (String × String)) where
  abbrev http_address : Option (String × String) → Option String
  http_address none = some "url is not a valid URL"
  http_address (some (scheme, host)) =
      reject_if (not (str_eq scheme "http") && not (str_eq scheme "https"))
        "url scheme must be http or https"
        (reject_if (is_empty host) "url must include a host" none)

  unfoldable pub validate_transport : AgentMcpServerConfig → Option String
  unfolding trim_space
  validate_transport server =
      if str_eq (trim_space server.transport) "stdio"
      then reject_if (blank_first server.command) "command is required for stdio transport" none
      else if str_eq (trim_space server.transport) "http"
      then reject_if (is_empty (trim_space server.url)) "url is required for http transport"
          (http_address (parse (trim_space server.url)))
      else some "transport must be one of stdio, http"

  -- The tests of one server that do not look at the others.
  unfoldable pub validate_server : AgentMcpServerConfig → Option String
  unfolding validate_transport has_dot
  validate_server server =
      reject_if (has_dot (trim_space server.name)) "name must not contain '.'" (
        and_next (validate_transport server) (
          reject_if
            (is_negative server.connect_timeout
              || (is_negative server.list_timeout
                  || (is_negative server.call_timeout || is_negative server.health_interval)))
            "timeouts must not be negative"
            (reject_if (is_negative server.max_concurrency) "max_concurrency must not be negative"
              none)))

  -- The loop over the servers, with the names seen so far.
  unfoldable pub validate_servers_from : List String → List AgentMcpServerConfig → Option String
  unfolding validate_server trim_space
  validate_servers_from seen [] = none
  validate_servers_from seen (server ∷ servers) =
      let rest = validate_servers_from (trim_space server.name ∷ seen) servers in
      reject_if (is_empty (trim_space server.name)) "name must not be empty" (
        reject_if (has (trim_space server.name) seen) "name is duplicated"
          (and_next (validate_server server) rest))

  unfoldable pub validate_agent_mcp_servers : List AgentMcpServerConfig → Option String
  unfolding validate_servers_from
  validate_agent_mcp_servers servers = validate_servers_from [] servers

abbrev bad_observe : Option ℤ → Bool
bad_observe none = false
bad_observe (some n) = exceeds (pos 256) n || exceeds n (pos 16000)

unfoldable pub validate_observe : List (Option ℤ) → Option String
validate_observe [] = none
validate_observe (o ∷ os) =
    let rest = validate_observe os in
    reject_if (bad_observe o) "observe_max_chars must be between 256 and 16000" rest

abbrev is_nil : List String → Bool
is_nil [] = true
is_nil (x ∷ xs) = false

-- The loop over the skills, with the ids seen so far.
unfoldable pub validate_skills : List String → List AgentSkillConfig → Option String
unfolding trim_space
validate_skills seen [] = none
validate_skills seen (skill ∷ skills) =
    let rest = validate_skills (trim_space skill.id ∷ seen) skills in
    reject_if (is_empty (trim_space skill.id)) "id must not be empty" (
      reject_if (has (trim_space skill.id) seen) "id is duplicated" (
        reject_if (is_nil skill.triggers && is_empty (trim_space skill.system_prompt))
          "must declare triggers or system_prompt" rest))
