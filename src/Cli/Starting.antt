-- ===== src/Cli/Starting.antt =====
-- internal/cli/start.go: what `relayly start` opens, starts, stops and closes, as the list of its
-- actions, by what the libraries and the surroundings say.
use relayly.Base.{
  ◌≡◌, refl, String, Bool, true, false, ◌||◌, Option, none, some, List, [], ◌∷◌, ◌++◌, Result, ok,
  err, ◌==◌, string_eq, subst, if◌then◌else◌,
}
use relayly.Config.{Config, ConfigError, Viper, load}
use relayly.Cli.{with_flags}

-- The encodings of `zap.NewDevelopmentConfig` and `zap.NewProductionConfig`, and the level's text,
-- where zap knows it.
pub record Logger : Type 0 where
  pub development : Bool
  pub level : String

-- `buildLogger`: a level that zap does not know is "info".
unfoldable pub build_logger : (String → Bool) → Bool → String → String → Option Logger
build_logger knows builds level format =
    let built : Logger = record {
      development = format == "console";
      level = if knows level then level else "info";
    } in
    if builds then some built else none

pub data StartError : Type 0 where
  loading_config : ConfigError → StartError
  building_logger opening_database creating_admin relay_server admin_server : StartError

pub data Action : Type 0 where
  opens_database closes_database syncs_log runs_hub : Action
  -- with TLS or without
  listens : Bool → Action
  listens_admin shuts_down shuts_down_admin : Action

-- What can end the wait: a server's error, which `http.ErrServerClosed` is not, or a signal.
pub data Ending : Type 0 where
  relay_fails admin_fails interrupted : Ending

pub record Surroundings : Type 0 where
  pub viper : Viper
  pub dev : Bool
  pub debug : Bool
  pub knows_level : String → Bool
  pub logger_builds : Bool
  pub database_opens : Bool
  pub admin_templates : Bool
  pub ends : List Ending

-- The first end that there is: without an admin server none of its errors comes.
unfoldable pub first_end : Bool → List Ending → Option Ending
first_end admin [] = none
first_end admin (admin_fails ∷ es) =
    let rest = first_end admin es in if admin then some admin_fails else rest
first_end admin (e ∷ es) = some e

-- `none` while the servers run.
abbrev pub Outcome : Type 0
Outcome = Option (Result StartError (Unit {0})) × List Action

-- The `defer`s of `runStart`, last first.
abbrev pub deferred : List Action
deferred = closes_database ∷ syncs_log ∷ []

abbrev when : Bool → Action → List Action
when true a = a ∷ []
when false a = []

-- From the `select` on.
unfoldable pub finish : Bool → Option Ending → Outcome
finish admin none = (none, [])
finish admin (some relay_fails) = (some (err relay_server), deferred)
finish admin (some admin_fails) = (some (err admin_server), deferred)
finish admin (some interrupted) =
    (some (ok tt), shuts_down ∷ (when admin shuts_down_admin ++ deferred))

abbrev after : List Action → Outcome → Outcome
after actions (r, more) = (r, actions ++ more)

-- From the database on: whether it opens, whether the admin server has its templates, the two
-- `enabled`s of the configuration, and the end.
unfoldable pub serve : Bool → Bool → Bool → Bool → Option Ending → Outcome
serve false templates tls admin e = (some (err opening_database), syncs_log ∷ [])
serve true false tls true e = (some (err creating_admin), opens_database ∷ runs_hub ∷ deferred)
serve true templates tls admin e =
    after (opens_database ∷ runs_hub ∷ listens tls ∷ when admin listens_admin) (finish admin e)

abbrev logged : Surroundings → Config → Option Logger → Outcome
logged s cfg none = (some (err building_logger), [])
logged s cfg (some logger) =
    let admin = cfg.admin.enabled in
    serve s.database_opens s.admin_templates cfg.tls.enabled admin (first_end admin s.ends)

unfoldable pub configured : Surroundings → Config → Outcome
configured s cfg =
    logged s cfg (build_logger s.knows_level s.logger_builds cfg.log.level cfg.log.format)

abbrev loaded : Surroundings → Result ConfigError Config → Outcome
loaded s (err e) = (some (err (loading_config e)), [])
loaded s (ok cfg) = configured s (with_flags s.dev s.debug cfg)

unfoldable pub run_start : Surroundings → Outcome
run_start s = loaded s (load s.viper)

-- What is open, which servers were started and not shut down, and whether the database was ever
-- closed under one.
pub record Process : Type 0 where
  pub orphaned : Bool
  pub database : Bool
  pub relay : Bool
  pub admin : Bool

abbrev pub idle : Process
idle = record { orphaned = false; database = false; relay = false; admin = false }

unfoldable pub act : Action → Process → Process
act opens_database p = record p { database = true }
act closes_database p = record p { database = false; orphaned = p.orphaned || p.relay || p.admin }
act (listens tls) p = record p { relay = true }
act listens_admin p = record p { admin = true }
act shuts_down p = record p { relay = false }
act shuts_down_admin p = record p { admin = false }
act syncs_log p = p
act runs_hub p = p

unfoldable pub acts : List Action → Process → Process
acts [] p = p
acts (a ∷ as') p = acts as' (act a p)

-- What stands when `runStart` has returned, or waits: of a server that failed, the other one, over
-- a closed database.
abbrev pub EndsAs : Bool → Option (Result StartError (Unit {0})) → Process → Type 0
EndsAs admin none p = p ≡ record { orphaned = false; database = true; relay = true; admin = admin }
EndsAs admin (some (err relay_server)) p = (p.database ≡ false) × (p.admin ≡ admin)
EndsAs admin (some (err admin_server)) p = (p.database ≡ false) × (p.relay ≡ true)
EndsAs admin (some r) p = p ≡ idle

serve-EndsAs :
    (opens templates tls admin : Bool) (e : Option Ending)
    → let o = serve opens templates tls admin e in EndsAs admin o.0 (acts o.1 idle)
unfolding serve finish acts act
serve-EndsAs false templates tls admin e = refl
serve-EndsAs true false tls true e = refl
serve-EndsAs true false tls false none = refl
serve-EndsAs true false tls false (some relay_fails) = (refl, refl)
serve-EndsAs true false tls false (some admin_fails) = (refl, refl)
serve-EndsAs true false tls false (some interrupted) = refl
serve-EndsAs true true tls true none = refl
serve-EndsAs true true tls true (some relay_fails) = (refl, refl)
serve-EndsAs true true tls true (some admin_fails) = (refl, refl)
serve-EndsAs true true tls true (some interrupted) = refl
serve-EndsAs true true tls false none = refl
serve-EndsAs true true tls false (some relay_fails) = (refl, refl)
serve-EndsAs true true tls false (some admin_fails) = (refl, refl)
serve-EndsAs true true tls false (some interrupted) = refl

logged-EndsAs :
    (s : Surroundings) (cfg : Config) (logger : Option Logger)
    → let o = logged s cfg logger in EndsAs cfg.admin.enabled o.0 (acts o.1 idle)
unfolding acts
logged-EndsAs s cfg none = refl
logged-EndsAs s cfg (some logger) = serve-EndsAs _ _ _ cfg.admin.enabled _

-- Whether the configuration, if it loads, wants the admin server; no flag changes that.
abbrev pub wants_admin : Result ConfigError Config → Bool
wants_admin (err e) = false
wants_admin (ok cfg) = cfg.admin.enabled

with_flags-admin :
    (dev debug : Bool) (cfg : Config) → (with_flags dev debug cfg).admin.enabled ≡ cfg.admin.enabled
unfolding with_flags
with_flags-admin true debug cfg = refl
with_flags-admin false true cfg = refl
with_flags-admin false false cfg = refl

loaded-EndsAs :
    (s : Surroundings) (r : Result ConfigError Config)
    → let o = loaded s r in EndsAs (wants_admin r) o.0 (acts o.1 idle)
unfolding acts configured
loaded-EndsAs s (err e) = refl
loaded-EndsAs s (ok cfg) =
    let cfg' = with_flags s.dev s.debug cfg in
    subst (λ admin. EndsAs admin (configured s cfg').0 (acts (configured s cfg').1 idle))
      (with_flags-admin s.dev s.debug cfg)
      (logged-EndsAs s cfg'
        (build_logger s.knows_level s.logger_builds cfg'.log.level cfg'.log.format))

-- Whatever the configuration and however `start` ends, an opened database is closed, and a server
-- is closed before it or was never started, unless a server failed: then the database is closed,
-- and the relay stays started when the admin server failed, as does the admin server, where it is
-- enabled, when the relay failed. While nothing ends the command, the database is open and the
-- relay is started, with the admin server exactly if it is enabled.
pub run_start-EndsAs :
    (s : Surroundings)
    → let o = run_start s in EndsAs (wants_admin (load s.viper)) o.0 (acts o.1 idle)
unfolding run_start
run_start-EndsAs s = loaded-EndsAs s (load s.viper)
