-- ===== src/Cli/Tests.antt =====
-- Runs of `relayly start` and `relayly pair` (internal/cli).
use relayly.Base.{◌≡◌, refl, false, true, some, [], ◌∷◌, ok}
use relayly.Config.{Viper, load, validate}
use relayly.Cli.{with_flags}
use relayly.Cli.Starting.{
  Surroundings, relay_fails, interrupted, opens_database, closes_database, syncs_log, runs_hub,
  listens, listens_admin, shuts_down, shuts_down_admin, run_start, configured, serve, finish,
  first_end, build_logger, acts, act, idle, run_start-EndsAs,
}

abbrev defaults : Viper
defaults = record {
  binds = true;
  finds_config = false;
  reads_config = false;
  overrides = λ cfg. some cfg;
}

abbrev machine : Surroundings
machine = record {
  viper = defaults;
  dev = false;
  debug = true;
  knows_level = λ level. true;
  logger_builds = true;
  database_opens = true;
  admin_templates = true;
  ends = interrupted ∷ relay_fails ∷ [];
}

-- Both servers are shut down before the database is closed.
interrupted_start : run_start machine ≡ (
  some (ok tt),
  opens_database
      ∷ runs_hub
      ∷ listens false
      ∷ listens_admin
      ∷ shuts_down
      ∷ shuts_down_admin
      ∷ closes_database
      ∷ syncs_log
      ∷ [],
)
unfolding run_start configured serve finish first_end build_logger load validate with_flags
interrupted_start = refl

-- The relay's port is taken: the admin server listens on, over a closed database.
run_start-EndsAs_example :
    let p = acts (run_start (record machine { ends = relay_fails ∷ [] })).1 idle in
    (p.database ≡ false) × (p.admin ≡ true)
unfolding run_start configured serve finish first_end build_logger load validate with_flags acts act
run_start-EndsAs_example = run_start-EndsAs (record machine { ends = relay_fails ∷ [] })
