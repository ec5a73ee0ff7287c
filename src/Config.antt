-- ===== src/Config.antt =====
-- internal/config/config.go: the configuration, its defaults and its validation. What viper reads
-- from files, the environment and flags is an argument.
use relayly.Base.{
  ℕ, ◌*◌, String, Bool, true, false, not, ◌||◌, ◌&&◌, Option, none, some, Result, ok, err, ltb,
  ◌==◌, string_eq, if◌then◌else◌,
}

pub record TlsConfig : Type 0 where
  pub enabled : Bool
  pub cert : String
  pub key : String

pub record DbConfig : Type 0 where
  pub path : String

pub record AdminCfg : Type 0 where
  pub enabled : Bool
  pub host : String
  pub port : ℕ

pub record LogCfg : Type 0 where
  pub level : String
  pub format : String

-- Durations are nanoseconds.
pub record WsCfg : Type 0 where
  pub max_message_bytes : ℕ
  pub ping_interval : ℕ
  pub deadline : ℕ

-- A negative port, which the source rejects as it does 0, does not arise.
pub record Config : Type 0 where
  pub host : String
  pub port : ℕ
  pub tls : TlsConfig
  pub db : DbConfig
  pub admin : AdminCfg
  pub log : LogCfg
  pub web_socket : WsCfg

pub data ConfigError : Type 0 where
  binding_flags reading parsing tls_without_files empty_db_path : ConfigError
  invalid_port : ℕ → ConfigError

-- The values that stand where nothing else is given.
abbrev pub set_defaults : Config
set_defaults = record {
  host = "0.0.0.0";
  port = 8080;
  tls = record { enabled = false; cert = ""; key = "" };
  db = record { path = "./data/relayly.db" };
  admin = record { enabled = true; host = "127.0.0.1"; port = 8081 };
  log = record { level = "info"; format = "json" };
  web_socket = record {
    max_message_bytes = 65_536;
    ping_interval = 30 * 1_000_000_000;
    deadline = 60 * 1_000_000_000;
  };
}

unfoldable pub validate : Config → Result ConfigError (Unit {0})
validate cfg =
    if ltb cfg.port 1 || ltb 65_535 cfg.port
    then err (invalid_port cfg.port)
    else if cfg.tls.enabled && (cfg.tls.cert == "" || cfg.tls.key == "")
    then err tls_without_files
    else if cfg.db.path == ""
    then err empty_db_path
    else ok tt

-- What viper reports, and makes of the defaults.
pub record Viper : Type 0 where
  pub binds : Bool
  pub finds_config : Bool
  pub reads_config : Bool
  pub overrides : Config → Option Config

-- `Load`. A file that is missing is no error; a configuration that is not valid is not used.
unfoldable pub load : Viper → Result ConfigError Config
load v =
    if not v.binds
    then err binding_flags
    else if v.finds_config && not v.reads_config
    then err reading
    else (elim (v.overrides set_defaults) [
      | none ↦ err parsing
      | some cfg ↦ elim (validate cfg) [ err e ↦ err e | ok u ↦ ok cfg ]
    ])
