-- ===== src/Config.antt =====
-- internal/config/config.go: the configuration, from a file, the environment and defaults.
pub mod Loading
use testovoe_bazis.Common.{
  ℕ, Option, none, some, [], ℤ, pos, ltb, leb_ℤ, Text, text_eq, codes, byte_len, ◌==◌,
  if◌then◌else◌, Error, Result, ok, err, foreign, wrap, plain, shows_text, shows_number,
}
use testovoe_bazis.Http.{parse_int}

-- Durations are in nanoseconds.
pub record ServerConfig : Type 0 where
  pub addr : Text

pub record DbConfig : Type 0 where
  pub dsn : Text
  pub max_open_conns : ℤ
  pub max_idle_conns : ℤ
  pub conn_max_lifetime : ℤ

pub record RedisConfig : Type 0 where
  pub addr : Text
  pub password : Text
  pub db : ℤ

pub record JwtConfig : Type 0 where
  pub secret : Text
  pub ttl : ℤ

pub record RateLimitConfig : Type 0 where
  pub requests_per_minute : ℤ

pub record CacheConfig : Type 0 where
  pub tasks_ttl : ℤ

pub record EmailConfig : Type 0 where
  pub base_url : Text
  pub timeout : ℤ

pub record Config : Type 0 where
  pub server : ServerConfig
  pub db : DbConfig
  pub redis : RedisConfig
  pub jwt : JwtConfig
  pub rate_limit : RateLimitConfig
  pub cache : CacheConfig
  pub email : EmailConfig

abbrev pub min_jwt_secret_length : ℕ
min_jwt_secret_length = 32

-- `if v := os.Getenv(...); v != "" { field = v }`
abbrev pub or_env : Text → Text → Text
or_env v field = if v == [] then field else v

abbrev parsed_or : Option ℤ → ℤ → ℤ
parsed_or none field = field
parsed_or (some n) field = n

-- A number that cannot be parsed is passed over.
abbrev or_env_int : Text → ℤ → ℤ
or_env_int v field = if v == [] then field else parsed_or (parse_int v) field

unfoldable pub apply_env_overrides : (Text → Text) → Config → Config
apply_env_overrides getenv cfg = record cfg {
  server = record { addr = or_env (getenv (codes "SERVER_ADDR")) cfg.server.addr };
  db = record (cfg.db) { dsn = or_env (getenv (codes "DB_DSN")) cfg.db.dsn };
  redis = record {
    addr = or_env (getenv (codes "REDIS_ADDR")) cfg.redis.addr;
    password = or_env (getenv (codes "REDIS_PASSWORD")) cfg.redis.password;
    db = or_env_int (getenv (codes "REDIS_DB")) cfg.redis.db;
  };
  jwt = record (cfg.jwt) { secret = or_env (getenv (codes "JWT_SECRET")) cfg.jwt.secret };
  email = record (cfg.email) {
    base_url = or_env (getenv (codes "EMAIL_BASE_URL")) cfg.email.base_url;
  };
}

abbrev pub or_default : ℤ → ℕ → ℤ
or_default n default = if leb_ℤ n (pos 0) then pos default else n

unfoldable pub apply_defaults : Config → Config
apply_defaults cfg = record cfg {
  server = record { addr = if cfg.server.addr == [] then codes ":8080" else cfg.server.addr };
  db = record (cfg.db) {
    max_open_conns = or_default cfg.db.max_open_conns 25;
    max_idle_conns = or_default cfg.db.max_idle_conns 10;
    conn_max_lifetime = or_default cfg.db.conn_max_lifetime 300000000000;
  };
  jwt = record (cfg.jwt) { ttl = or_default cfg.jwt.ttl 86400000000000 };
  rate_limit = record { requests_per_minute = or_default cfg.rate_limit.requests_per_minute 100 };
  cache = record { tasks_ttl = or_default cfg.cache.tasks_ttl 300000000000 };
  email = record (cfg.email) { timeout = or_default cfg.email.timeout 3000000000 };
}

-- `len` of the secret counts bytes.
unfoldable pub validate : Config → Option Error
validate c =
    if c.db.dsn == []
    then some
        (wrap (plain "db.dsn is required (set it in the config file or via DB_DSN)") (foreign 0))
    else if c.redis.addr == []
    then some (
        wrap (plain "redis.addr is required (set it in the config file or via REDIS_ADDR)")
          (foreign 0))
    else if ltb (byte_len c.jwt.secret) min_jwt_secret_length
    then some (
        wrap
          (shows_number
            "jwt secret must be at least %d characters; set a strong value via JWT_SECRET"
            min_jwt_secret_length)
          (foreign 0))
    else if c.email.base_url == []
    then some (
        wrap (plain "email.base_url is required (set it in the config file or via EMAIL_BASE_URL)")
          (foreign 0))
    else none

abbrev pub default_config_path : Text
default_config_path = codes "config/config.yaml"

abbrev pub config_path : (Text → Text) → Text
config_path getenv = or_env (getenv (codes "CONFIG_PATH")) default_config_path

abbrev pub wrapped : {A : Type 0} → (Error → Error) → Result A → Result A
wrapped f (ok a) = ok a
wrapped f (err e) = err (f e)

abbrev pub then_try : {A B : Type 0} → Result A → (A → Result B) → Result B
then_try (ok a) f = f a
then_try (err e) f = err e

abbrev pub or_refuse : Option Error → Config → Result Config
or_refuse none cfg = ok cfg
or_refuse (some e) cfg = err (wrap (plain "validate config: %w") e)

-- What `Load` makes of a file that was parsed.
unfoldable pub settled : (Text → Text) → Config → Config
settled getenv cfg = apply_defaults (apply_env_overrides getenv cfg)

-- The environment, the file system, and yaml.v3 with `Duration.UnmarshalYAML`.
module _ (getenv : Text → Text) (read_file : Text → Result Text)
    (unmarshal : Text → Result Config) where
  -- `Load`
  unfoldable pub load : Result Config
  load =
      let path = config_path getenv in
      then_try (wrapped (wrap (shows_text "read config file %s: %w" path)) (read_file path))
        (λ text.
          then_try (wrapped (wrap (shows_text "parse config file %s: %w" path)) (unmarshal text))
            (λ cfg. or_refuse (validate (settled getenv cfg)) (settled getenv cfg)))
