-- ===== src/Config/Safe.antt =====
-- What a configuration that is valid cannot be.
use kubeflare.Prelude.{
  ◌≡◌, refl, Bool, true, false, not, ◌&&◌, Option, none, String, arith, is_positive,
}
use kubeflare.Prelude.Dots.{is_empty}
use kubeflare.Config.{
  reject_if-none, and_next-none, has, is_negative, validate_database_config, validate_redis_config,
}
use kubeflare.Config.Validate.{
  Config, in_production, has_trimmed, hex_digits, is_64, validate_http, validate_auth, validate,
}

false_of : (a b : Bool) → (a && b) ≡ false → a ≡ true → b ≡ false
false_of true b h e = h
false_of false b h e = ground (arith, e)

true_of : (a : Bool) → not a ≡ false → a ≡ true
true_of true h = refl
true_of false h = ground (arith, h)

module _ {F : Type 0} (parse : String → Option (String × String)) (in_range : F → Bool) where
  -- What a valid configuration for production has: no wildcard among the origins, the shared store of
  -- the coordination, a whole encryption key and a signing key, and login limits that are not negative.
  pub record ProductionReady (cfg : Config F) : Type 0 where
    pub origins : has_trimmed "*" cfg.http.allowed_origins ≡ false
    pub shared : cfg.redis.enabled ≡ true
    pub sealed : is_64 (hex_digits cfg.encryption_key) ≡ true
    pub signed : is_empty cfg.auth.signing_key ≡ false
    pub attempts : is_negative cfg.auth.max_failed_attempts ≡ false
    pub lockout : is_negative cfg.auth.lockout_duration ≡ false

  -- A configuration for production that is valid allows no wildcard origin, has the shared store that
  -- coordinates the instances, a 32-byte encryption key, a signing key, and login limits that are not
  -- negative.
  pub validate-ProductionReady :
      (cfg : Config F)
      → validate parse in_range cfg ≡ none
      → in_production cfg ≡ true
      → ProductionReady cfg
  unfolding validate validate_http validate_auth
  validate-ProductionReady cfg h production =
      let (http, h1) = and_next-none (validate_http parse in_range cfg) _ h in
      let (database, h2) = and_next-none (validate_database_config cfg.database) _ h1 in
      let (coordinated, h3) = reject_if-none (in_production cfg && not cfg.redis.enabled) _ _ h2 in
      let (redis, h4) = and_next-none (validate_redis_config cfg.redis) _ h3 in
      let (auth, h5) = and_next-none (validate_auth parse in_range cfg) _ h4 in
      let (_, g1) = reject_if-none (is_empty cfg.service_name) _ _ http in
      let (_, g2) = reject_if-none (is_empty cfg.http.address) _ _ g1 in
      let (_, g3) = reject_if-none (not (is_positive cfg.http.max_header_bytes)) _ _ g2 in
      let (_, g4) =
        reject_if-none (cfg.http.allow_credentials && has "*" cfg.http.allowed_origins) _ _ g3 in
      let (origins, _) =
        reject_if-none (in_production cfg && has_trimmed "*" cfg.http.allowed_origins) _ _ g4 in
      let (sealed, a1) = reject_if-none (not (is_64 (hex_digits cfg.encryption_key))) _ _ auth in
      let (_, a2) = reject_if-none (is_negative cfg.auth.token_ttl) _ _ a1 in
      let (_, a3) = reject_if-none (is_negative cfg.auth.refresh_token_ttl) _ _ a2 in
      let (attempts, a4) = reject_if-none (is_negative cfg.auth.max_failed_attempts) _ _ a3 in
      let (lockout, a5) = reject_if-none (is_negative cfg.auth.lockout_duration) _ _ a4 in
      let (_, a6) = reject_if-none (is_negative cfg.auth.captcha_failure_trigger) _ _ a5 in
      let (_, a7) = reject_if-none (is_negative cfg.auth.captcha_ttl) _ _ a6 in
      let (signed, _) = reject_if-none (is_empty cfg.auth.signing_key) _ _ a7 in
      record {
        origins = false_of (in_production cfg) _ origins production;
        shared = true_of cfg.redis.enabled (false_of (in_production cfg) _ coordinated production);
        sealed = true_of (is_64 (hex_digits cfg.encryption_key)) sealed;
        signed = signed;
        attempts = attempts;
        lockout = lockout;
      }
