-- ===== src/Config/Validate.antt =====
-- internal/platform/config/validate.go: the whole validation. `in_range` is the test of a temperature.
use kubeflare.Prelude.{
  ℕ, ◌+◌, ◌==◌, Bool, true, false, not, ◌&&◌, ◌||◌, Option, none, some, String, List, [], ◌∷◌,
  if◌then◌else◌, leb, str_eq, ℤ, is_positive,
}
use kubeflare.Prelude.Text.{trim_space}
use kubeflare.Prelude.Dots.{is_empty}
use kubeflare.Prelude.Dict.{lookup}
use kubeflare.Config.{
  DatabaseConfig, RedisConfig, AgentConfig, reject_if, first_of, and_next, is_negative, outside,
  has, validate_database_config, validate_redis_config, validate_agent_mcp_servers,
  validate_observe, validate_skills, http_address,
}
use Prim.Native.Char.{code}

pub record AiProviderConfig (F : Type 0) : Type 0 where
  pub kind : String
  pub base_url : String
  pub api_key : String
  pub model : String
  pub timeout : ℤ
  pub stream_timeout : ℤ
  pub temperature : Option F
  pub max_tokens : ℤ
  pub max_retries : ℤ
  pub retry_backoff : ℤ

pub record AiConfig (F : Type 0) : Type 0 where
  pub enabled : Bool
  pub default_provider : String
  pub fallback_providers : List String
  pub providers : List (String × AiProviderConfig F)

pub record OidcConfig : Type 0 where
  pub enabled : Bool
  pub issuer_url : String
  pub client_id : String
  pub client_secret : String
  pub redirect_url : String

pub record AuthConfig : Type 0 where
  pub signing_key : String
  pub token_ttl : ℤ
  pub refresh_token_ttl : ℤ
  pub max_failed_attempts : ℤ
  pub lockout_duration : ℤ
  pub captcha_failure_trigger : ℤ
  pub captcha_ttl : ℤ
  pub oidc : OidcConfig

pub record HttpConfig : Type 0 where
  pub address : String
  pub max_header_bytes : ℤ
  pub allowed_origins : List String
  pub allow_credentials : Bool

pub record Config (F : Type 0) : Type 0 where
  pub service_name : String
  pub environment : String
  pub http : HttpConfig
  pub auth : AuthConfig
  pub ai : AiConfig F
  pub agent : AgentConfig
  pub database : DatabaseConfig
  pub redis : RedisConfig
  pub encryption_key : String
  pub upload_root_dir : String

abbrev found : {A : Type 0} → Option A → Bool
found none = false
found (some a) = true

abbrev lower : ℕ → ℕ
lower c = if leb b'A' c && leb c b'Z' then c + 32 else c

-- `strings.EqualFold` with a text of ASCII letters that no other letter folds to.
unfoldable pub equal_fold : String → String → Bool
equal_fold String.[] String.[] = true
equal_fold String.[] (String.◌∷◌ d t) = false
equal_fold (String.◌∷◌ c s) String.[] = false
equal_fold (String.◌∷◌ c s) (String.◌∷◌ d t) = lower (code c) == lower (code d) && equal_fold s t

abbrev hex_digit : ℕ → Bool
hex_digit c =
    (leb b'0' c && leb c b'9') || ((leb b'a' c && leb c b'f') || (leb b'A' c && leb c b'F'))

-- The number of hexadecimal digits of a text that has nothing else.
unfoldable pub hex_digits : String → Option ℕ
hex_digits String.[] = some 0
hex_digits (String.◌∷◌ c s) = elim (hex_digits s) [
  | none ↦ none
  | some n ↦ if hex_digit (code c) then some (n + 1) else none
]

abbrev pub is_64 : Option ℕ → Bool
is_64 none = false
is_64 (some n) = n == 64

unfoldable pub in_production : {F : Type 0} → Config F → Bool
unfolding equal_fold trim_space
in_production cfg = equal_fold (trim_space cfg.environment) "production"

unfoldable pub has_trimmed : String → List String → Bool
unfolding trim_space
has_trimmed key [] = false
has_trimmed key (k ∷ keys) = str_eq (trim_space k) key || has_trimmed key keys

module _ {F : Type 0} (parse : String → Option (String × String)) (in_range : F → Bool) where
  abbrev bad_temperature : Option F → Bool
  bad_temperature none = false
  bad_temperature (some t) = not (in_range t)

  unfoldable pub validate_ai_provider : AiProviderConfig F → Option String
  unfolding trim_space
  validate_ai_provider p = reject_if (is_empty (trim_space p.kind)) "type is required" (
      reject_if (not (str_eq (trim_space p.kind) "openai_compatible"))
        "type must be openai_compatible"
        (reject_if (is_empty (trim_space p.base_url)) "base_url is required" (
          and_next (http_address parse (parse (trim_space p.base_url))) (
            reject_if (is_empty (trim_space p.api_key)) "api_key is required" (
              reject_if (is_empty (trim_space p.model)) "model is required" (
                reject_if (is_negative p.timeout) "timeout must not be negative" (
                  reject_if (is_negative p.stream_timeout) "stream_timeout must not be negative" (
                    reject_if (bad_temperature p.temperature) "temperature must be between 0 and 2"
                      (reject_if (is_negative p.max_tokens) "max_tokens must not be negative" (
                        reject_if (outside 10 p.max_retries) "max_retries must be between 0 and 10"
                          (reject_if (is_negative p.retry_backoff)
                            "retry_backoff must not be negative" none)))))))))))

  unfoldable pub validate_providers : List (String × AiProviderConfig F) → Option String
  unfolding validate_ai_provider trim_space
  validate_providers [] = none
  validate_providers ((name, p) ∷ ps) =
      let rest = validate_providers ps in
      reject_if (is_empty (trim_space name)) "ai.providers cannot contain an empty provider name"
        (and_next (validate_ai_provider p) rest)

  unfoldable pub validate_fallbacks :
      String → List (String × AiProviderConfig F) → List String → Option String
  unfolding trim_space lookup
  validate_fallbacks default_ providers [] = none
  validate_fallbacks default_ providers (name ∷ names) =
      let rest = validate_fallbacks default_ providers names in
      reject_if (is_empty (trim_space name)) "ai.fallback_providers must not contain empty entries"
        (reject_if (not (found (lookup (trim_space name) providers)))
          "ai.fallback_providers must reference an entry in ai.providers"
          (reject_if (str_eq (trim_space name) default_)
            "ai.fallback_providers must not include the default provider" rest))

  abbrev is_none : List (String × AiProviderConfig F) → Bool
  is_none [] = true
  is_none (p ∷ ps) = false

  unfoldable pub validate_ai_config : AiConfig F → Option String
  unfolding validate_providers validate_fallbacks trim_space lookup
  validate_ai_config cfg =
      if not cfg.enabled
      then none
      else reject_if (is_empty (trim_space cfg.default_provider))
          "ai.default_provider is required when ai is enabled"
          (reject_if (is_none cfg.providers) "ai.providers is required when ai is enabled" (
            reject_if (not (found (lookup (trim_space cfg.default_provider) cfg.providers)))
              "ai.default_provider must reference an entry in ai.providers"
              (and_next (validate_providers cfg.providers) (
                validate_fallbacks (trim_space cfg.default_provider) cfg.providers
                  cfg.fallback_providers))))

  abbrev known_choice : String → Bool
  known_choice choice =
      is_empty choice
      || (str_eq choice "auto" || (str_eq choice "none" || str_eq choice "required"))

  abbrev known_scheme : String → Bool
  known_scheme scheme = is_empty scheme || (str_eq scheme "http" || str_eq scheme "https")

  unfoldable pub validate_agent_config : AgentConfig → Option String
  unfolding validate_observe validate_skills validate_agent_mcp_servers trim_space
  validate_agent_config cfg =
      and_next
        (first_of (
          (outside 20 cfg.max_steps, "agent.max_steps must be between 0 and 20")
          ∷ (is_negative cfg.max_token_budget, "agent.max_token_budget must not be negative")
          ∷ (
            outside 10 cfg.max_tool_errors_per_step,
            "agent.max_tool_errors_per_step must be between 0 and 10",
          )
          ∷ (
            outside 5 cfg.max_reflection_steps,
            "agent.max_reflection_steps must be between 0 and 5",
          )
          ∷ (outside 3 cfg.max_reflections, "agent.max_reflections must be between 0 and 3")
          ∷ (outside 8 cfg.case_few_shot_limit, "agent.case_few_shot_limit must be between 0 and 8")
          ∷ (
            outside 32 cfg.route_few_shot_limit,
            "agent.route_few_shot_limit must be between 0 and 32",
          )
          ∷ (is_negative cfg.step_timeout, "agent.step_timeout must not be negative")
          ∷ (
            is_negative cfg.max_concurrent_runs_per_user,
            "agent.max_concurrent_runs_per_user must not be negative",
          )
          ∷ (is_negative cfg.max_concurrent_runs, "agent.max_concurrent_runs must not be negative")
          ∷ (
            not (known_choice (trim_space cfg.tool_choice)),
            "agent.tool_choice must be one of auto, none, required",
          )
          ∷ (
            not (known_scheme (trim_space cfg.prometheus_scheme)),
            "agent.prometheus.scheme must be http or https",
          )
          ∷ (
            is_negative cfg.prometheus_query_timeout,
            "agent.prometheus.query_timeout must not be negative",
          )
          ∷ []))
        (and_next (validate_observe cfg.observe_max_chars) (
          and_next (validate_skills [] cfg.skills)
            (validate_agent_mcp_servers parse cfg.mcp_servers)))

  -- The tests of the service and of the HTTP server.
  unfoldable pub validate_http : Config F → Option String
  unfolding has_trimmed in_production
  validate_http cfg = first_of (
      (is_empty cfg.service_name, "service.name is required")
      ∷ (is_empty cfg.http.address, "http.address is required")
      ∷ (not (is_positive cfg.http.max_header_bytes), "http.max_header_bytes must be positive")
      ∷ (
        cfg.http.allow_credentials && has "*" cfg.http.allowed_origins,
        "http.allowed_origins cannot contain * when http.allow_credentials is true",
      )
      ∷ (
        in_production cfg && has_trimmed "*" cfg.http.allowed_origins,
        "http.allowed_origins cannot contain * in production; configure explicit origins",
      )
      ∷ [])

  -- The tests of the secrets and of the authentication.
  unfoldable pub validate_auth : Config F → Option String
  unfolding hex_digits
  validate_auth cfg = first_of (
      (
        not (is_64 (hex_digits cfg.encryption_key)),
        "secrets.encryption_key is required and must be a 32-byte hex string",
      )
      ∷ (is_negative cfg.auth.token_ttl, "auth.token_ttl must not be negative")
      ∷ (is_negative cfg.auth.refresh_token_ttl, "auth.refresh_token_ttl must not be negative")
      ∷ (is_negative cfg.auth.max_failed_attempts, "auth.max_failed_attempts must not be negative")
      ∷ (is_negative cfg.auth.lockout_duration, "auth.lockout_duration must not be negative")
      ∷ (
        is_negative cfg.auth.captcha_failure_trigger,
        "auth.captcha_failure_trigger must not be negative",
      )
      ∷ (is_negative cfg.auth.captcha_ttl, "auth.captcha_ttl must not be negative")
      ∷ (is_empty cfg.auth.signing_key, "auth.signing_key is required")
      ∷ (
        cfg.auth.oidc.enabled
            && (is_empty cfg.auth.oidc.issuer_url
                || (is_empty cfg.auth.oidc.client_id
                    || (is_empty cfg.auth.oidc.client_secret
                        || is_empty cfg.auth.oidc.redirect_url))),
        "auth.oidc issuer_url, client_id, client_secret, and redirect_url are required when oidc is enabled",
      )
      ∷ [])

  -- `Validate`
  unfoldable pub validate : Config F → Option String
  unfolding in_production validate_http validate_auth validate_database_config validate_redis_config
      validate_ai_config validate_agent_config
  validate cfg = and_next (validate_http cfg) (
      and_next (validate_database_config cfg.database) (
        reject_if (in_production cfg && not cfg.redis.enabled)
          "redis.enabled is required in production for distributed coordination"
          (and_next (validate_redis_config cfg.redis) (
            and_next (validate_auth cfg) (
              and_next (validate_ai_config cfg.ai) (
                and_next (validate_agent_config cfg.agent) (
                  reject_if (is_empty cfg.upload_root_dir) "upload.root_dir is required" none)))))))

  -- `ValidateForAdmin`
  unfoldable pub validate_for_admin : Config F → Option String
  unfolding validate_database_config validate_redis_config
  validate_for_admin cfg =
      reject_if (not cfg.database.enabled)
        "database.enabled is required for admin credential management"
        (and_next (validate_database_config cfg.database) (validate_redis_config cfg.redis))
