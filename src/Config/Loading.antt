-- ===== src/Config/Loading.antt =====
-- What a configuration that was loaded can be relied on for.
use testovoe_bazis.Common.{
  ℕ, ◌≡◌, ◌≢◌, ◌≤◌, ◌⊎◌, refl, subst, text_eq, ◌==◌, if◌then◌else◌, inl, inr, Option, none, some,
  [], ℤ, pos, ◌≤ℤ◌, arith, Text, text_beq_iff, codes, byte_len, Error, Result, ok, Result-cases,
}
use testovoe_bazis.Config.{
  Config, or_env, or_default, apply_env_overrides, apply_defaults, validate, settled, load,
  config_path, or_refuse,
}

-- Every required text is there, the secret has at least 32 bytes, and the sizes of the connection
-- pool, the lifetime of a connection and of a token, the limit of requests, the lifetime of cached
-- pages and the timeout of the mail service are positive. The number of the Redis database is not
-- looked at.
pub record IsUsable (c : Config) : Type 0 where
  pub addr : c.server.addr ≢ []
  pub dsn : c.db.dsn ≢ []
  pub redis_addr : c.redis.addr ≢ []
  pub secret : 32 ≤ byte_len c.jwt.secret
  pub base_url : c.email.base_url ≢ []
  pub open_conns : pos 1 ≤ℤ c.db.max_open_conns
  pub idle_conns : pos 1 ≤ℤ c.db.max_idle_conns
  pub lifetime : pos 1 ≤ℤ c.db.conn_max_lifetime
  pub token_ttl : pos 1 ≤ℤ c.jwt.ttl
  pub requests : pos 1 ≤ℤ c.rate_limit.requests_per_minute
  pub tasks_ttl : pos 1 ≤ℤ c.cache.tasks_ttl
  pub timeout : pos 1 ≤ℤ c.email.timeout

or_default-pos : (n : ℤ) (default : ℕ) → 1 ≤ default → pos 1 ≤ℤ or_default n default
or_default-pos n default h = ground arith

validate-IsUsable :
    (cfg : Config) → validate (apply_defaults cfg) ≡ none → IsUsable (apply_defaults cfg)
unfolding validate apply_defaults
validate-IsUsable cfg h = record {
  addr = ground (arith, text_beq_iff cfg.server.addr []);
  dsn = ground (arith, text_beq_iff cfg.db.dsn []);
  redis_addr = ground (arith, text_beq_iff cfg.redis.addr []);
  secret = ground arith;
  base_url = ground (arith, text_beq_iff cfg.email.base_url []);
  open_conns = or_default-pos cfg.db.max_open_conns 25 (omega arith);
  idle_conns = or_default-pos cfg.db.max_idle_conns 10 (omega arith);
  lifetime = or_default-pos cfg.db.conn_max_lifetime 300000000000 (omega arith);
  token_ttl = or_default-pos cfg.jwt.ttl 86400000000000 (omega arith);
  requests = or_default-pos cfg.rate_limit.requests_per_minute 100 (omega arith);
  tasks_ttl = or_default-pos cfg.cache.tasks_ttl 300000000000 (omega arith);
  timeout = or_default-pos cfg.email.timeout 3000000000 (omega arith);
}

-- A variable of the environment that is set is what the field has.
abbrev pub Overrides : Text → Text → Type 0
Overrides v field = (v ≡ []) ⊎ (field ≡ v)

or_env-Overrides : (v field : Text) → Overrides v (or_env v field)
or_env-Overrides v field = ground (arith, text_beq_iff v [])

-- The address has a default, which a variable that is set goes before.
addr-Overrides :
    (v field : Text) → Overrides v (if or_env v field == [] then codes ":8080" else or_env v field)
addr-Overrides v field = ground (arith, text_beq_iff v [], text_beq_iff field [])

-- The variables of the environment that are texts go before the file.
pub record IsFromEnv (getenv : Text → Text) (c : Config) : Type 0 where
  pub addr : Overrides (getenv (codes "SERVER_ADDR")) c.server.addr
  pub dsn : Overrides (getenv (codes "DB_DSN")) c.db.dsn
  pub redis_addr : Overrides (getenv (codes "REDIS_ADDR")) c.redis.addr
  pub redis_password : Overrides (getenv (codes "REDIS_PASSWORD")) c.redis.password
  pub secret : Overrides (getenv (codes "JWT_SECRET")) c.jwt.secret
  pub base_url : Overrides (getenv (codes "EMAIL_BASE_URL")) c.email.base_url

settled-IsFromEnv : (getenv : Text → Text) (cfg : Config) → IsFromEnv getenv (settled getenv cfg)
unfolding settled apply_defaults apply_env_overrides
settled-IsFromEnv getenv cfg = record {
  addr = addr-Overrides (getenv (codes "SERVER_ADDR")) cfg.server.addr;
  dsn = or_env-Overrides (getenv (codes "DB_DSN")) cfg.db.dsn;
  redis_addr = or_env-Overrides (getenv (codes "REDIS_ADDR")) cfg.redis.addr;
  redis_password = or_env-Overrides (getenv (codes "REDIS_PASSWORD")) cfg.redis.password;
  secret = or_env-Overrides (getenv (codes "JWT_SECRET")) cfg.jwt.secret;
  base_url = or_env-Overrides (getenv (codes "EMAIL_BASE_URL")) cfg.email.base_url;
}

settled-IsUsable :
    (getenv : Text → Text) (cfg : Config)
    → validate (settled getenv cfg) ≡ none
    → IsUsable (settled getenv cfg)
unfolding settled
settled-IsUsable getenv cfg h = validate-IsUsable (apply_env_overrides getenv cfg) h

or_refuse-eq-ok :
    (o : Option Error) (cfg : Config) {c : Config} → or_refuse o cfg ≡ ok c → (o ≡ none) × (cfg ≡ c)
or_refuse-eq-ok none cfg h = (refl, ground arith)
or_refuse-eq-ok (some e) cfg h = absurd (ground arith)

module _ (getenv : Text → Text) (read_file : Text → Result Text)
    (unmarshal : Text → Result Config) where
  load-eq-ok :
      (c : Config)
      → load getenv read_file unmarshal ≡ ok c
      → (cfg : Config) × (validate (settled getenv cfg) ≡ none) × (settled getenv cfg ≡ c)
  unfolding load
  load-eq-ok c h = elim (Result-cases (read_file (config_path getenv))) [
    | inl (text, found) ↦ elim (Result-cases (unmarshal text)) [
      | inl (cfg, parsed) ↦
          let (valid, same) =
            or_refuse-eq-ok (validate (settled getenv cfg)) (settled getenv cfg)
              (rw (found, parsed) at h) in
          (cfg, valid, same)
      | inr (e, bad) ↦ absurd (ground arith)
    ]
    | inr (e, missing) ↦ absurd (ground arith)
  ]

  -- A configuration that `Load` returns has every required text, a secret of at least 32 bytes,
  -- positive sizes of the connection pool, and a positive limit of requests, lifetime of connections,
  -- of tokens and of cached pages, and timeout of the mail service; and it has each text that the
  -- environment sets.
  pub load-IsUsable :
      (c : Config) → load getenv read_file unmarshal ≡ ok c → IsUsable c × IsFromEnv getenv c
  load-IsUsable c h =
      let (cfg, valid, same) = load-eq-ok c h in
      (
        subst IsUsable same (settled-IsUsable getenv cfg valid),
        subst (IsFromEnv getenv) same (settled-IsFromEnv getenv cfg),
      )
