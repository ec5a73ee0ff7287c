-- ===== src/Cli.antt =====
-- internal/cli: the commands `link` and `pair` on the database, and how `start` puts the
-- configuration together. What is printed, and the QR code, are left out.
pub mod Commands
pub mod Linking
pub mod Starting
mod Tests
use relayly.Base.{
  ℕ, String, Bool, true, false, Option, none, some, List, Result, ok, err, if◌then◌else◌,
}
use relayly.Sql.{Sql, ◌>>=◌, ◌>>◌, fail, return}
use relayly.Pairing.{new_device}
use relayly.Database.{Device, DbError, Db, Query, get_device_by_id, pair_devices, create_device}
use relayly.Config.{Config, LogCfg}

-- `runLink`, after the configuration and the database are open: both devices are looked up, and
-- then paired.
unfoldable pub run_link : Bool → String → String → Query (Unit {0})
run_link swapped id1 id2 = do
  d1 ← get_device_by_id id1
  d2 ← get_device_by_id id2
  pair_devices swapped id1 id2

pub data PairError : Type 0 where
  generating : PairError
  saving : DbError → PairError

abbrev registered : Device → Result DbError (Unit {0}) × Db → Result PairError Device × Db
registered d (err e, s) = (err (saving e), s)
registered d (ok u, s) = (ok d, s)

-- `runPair`: the device that is printed, once it is in the database.
unfoldable pub run_pair : ℕ → Option (List ℕ) → String → String → Db → Result PairError Device × Db
run_pair now random uuid name s = elim (new_device now random uuid name) [
  | none ↦ (err generating, s)
  | some (d, expires_at) ↦ registered d (create_device d s)
]

-- The flags `--dev` and `--debug` of `start`.
unfoldable pub with_flags : Bool → Bool → Config → Config
with_flags dev debug cfg =
    if dev
    then record cfg { log = record { level = "debug"; format = "console" } }
    else if debug
    then record cfg { log = record { level = "debug"; format = cfg.log.format } }
    else cfg
