-- ===== src/Cli/Commands.antt =====
-- internal/cli/pair.go, link.go and status.go: the whole commands, with what they print as values.
-- What viper, the file system, the QR library and the network say are arguments.
use Prim.Native.String.{◌++◌ as ◌<>◌}
use relayly.Base.{
  ℕ, zero, suc, ◌≡◌, String, Bool, Option, none, some, List, Result, ok, err, ◌==◌, string_eq,
  arith, inl, inr, Result-cases, Option-cases, Bool-cases, if◌then◌else◌,
}
use relayly.Config.{ConfigError, Viper, load}
use relayly.Database.{Device, DbError, Db, create_device}
use relayly.Pairing.{new_device}
use relayly.Cli.{PairError, run_pair, run_link}

pub data CommandError : Type 0 where
  loading_config : ConfigError → CommandError
  opening_database generating_qr : CommandError
  pairing : PairError → CommandError
  linking : DbError → CommandError

-- What `pair` prints: the device with its id and token, and with the QR code its URI and the file
-- that was written.
pub record Shown : Type 0 where
  pub device : Device
  pub uri : Option String
  pub png : Option String

-- `device.ID[:8]` of an id of ASCII letters.
unfoldable pub short : ℕ → String → String
short zero s = ""
short (suc n) String.[] = ""
short (suc n) (String.◌∷◌ c s) = String.◌∷◌ c (short n s)

unfoldable pub pairing_uri : Device → String
pairing_uri d = "relayly://pair?device_id=" <> d.id <> "&token=" <> d.device_token

pub record Surroundings : Type 0 where
  pub viper : Viper
  pub opens : Bool
  pub no_qr : Bool
  pub encodes_qr : Bool
  pub writes_png : Bool

-- What follows the registration; the two lines with the device are printed before the QR code.
unfoldable pub show : Surroundings → Device → Option CommandError × Option Shown
show s d =
    if s.no_qr
    then (none, some (record { device = d; uri = none; png = none }))
    else if s.encodes_qr
    then (
      none,
      some (record {
        device = d;
        uri = some (pairing_uri d);
        png = if s.writes_png then some ("pair-" <> short 8 d.id <> ".png") else none;
      }),
    )
    else (some generating_qr, some (record { device = d; uri = none; png = none }))

-- The error that the command returns, and what it printed.
abbrev pub Printed : Type 0
Printed = Option CommandError × Option Shown

abbrev shown : Surroundings → Result PairError Device × Db → Printed × Db
shown s (err e, db) = ((some (pairing e), none), db)
shown s (ok d, db) = (show s d, db)

abbrev with_config :
    {A : Type 0} → (CommandError → A × Db) → Surroundings → (Db → A × Db) → Db → A × Db
with_config fails s command db = elim (load s.viper) [
  | err e ↦ fails (loading_config e)
  | ok cfg ↦ if s.opens then command db else fails opening_database
]

unfoldable pub pair_command :
    Surroundings → ℕ → Option (List ℕ) → String → String → Db → Printed × Db
pair_command s now random uuid name db =
    with_config (λ e. ((some e, none), db)) s (λ v. shown s (run_pair now random uuid name v)) db

abbrev linked : Result DbError (Unit {0}) × Db → Option CommandError × Db
linked (err e, db) = (some (linking e), db)
linked (ok u, db) = (none, db)

unfoldable pub link_command : Surroundings → Bool → String → String → Db → Option CommandError × Db
link_command s swapped id1 id2 db =
    with_config (λ e. (some e, db)) s (λ v. linked (run_link swapped id1 id2 v)) db

-- `statusResp`
pub record StatusResp : Type 0 where
  pub status : String
  pub version : String
  pub connected : ℕ
  pub uptime : String

pub data StatusError : Type 0 where
  connecting reading parsing : StatusError

pub data StatusText : Type 0 where
  -- the body as it came
  raw : String → StatusText
  fields : StatusResp → StatusText

-- `runStatus`: the body, where the server answers and the answer can be read, and what JSON makes of
-- it.
unfoldable pub run_status :
    (String → Option StatusResp) → Option (Option String) → String → Result StatusError StatusText
run_status parse none format = err connecting
run_status parse (some none) format = err reading
run_status parse (some (some body)) format = elim (parse body) [
  | none ↦ err parsing
  | some s ↦ if format == "json" then ok (raw body) else ok (fields s)
]

show-device :
    (s : Surroundings) (d : Device) (shows : Shown) → (show s d).1 ≡ some shows → shows.device ≡ d
unfolding show
show-device s d shows h = ground arith

shown-created :
    (s : Surroundings) (now : ℕ) (random : Option (List ℕ)) (uuid name : String) (db : Db)
    (shows : Shown)
    → (shown s (run_pair now random uuid name db)).0.1 ≡ some shows
    → create_device shows.device db ≡ (ok tt, (run_pair now random uuid name db).1)
unfolding run_pair
shown-created s now random uuid name db shows h =
    elim (Option-cases (new_device now random uuid name)) [
      | inl e ↦ absurd (ground arith)
      | inr ((d, expires_at), e) ↦ elim (Result-cases (create_device d db).0) [
        | inl (u, f) ↦ ground (arith, show-device s d shows)
        | inr (x, f) ↦ absurd (ground arith)
      ]
    ]

-- What the command prints is in the database: a device that `pair` shows, whether or not the QR
-- code can be made, is one that it has created.
pub pair_command-created :
    (s : Surroundings) (now : ℕ) (random : Option (List ℕ)) (uuid name : String) (db : Db)
    (shows : Shown)
    → (pair_command s now random uuid name db).0.1 ≡ some shows
    → create_device shows.device db ≡ (ok tt, (pair_command s now random uuid name db).1)
unfolding pair_command
pair_command-created s now random uuid name db shows h = elim (Result-cases (load s.viper)) [
  | inl (cfg, e) ↦ elim (Bool-cases s.opens) [
    | inl f ↦ ground (arith, shown-created s now random uuid name db shows)
    | inr f ↦ absurd (ground arith)
  ]
  | inr (x, e) ↦ absurd (ground arith)
]
