-- ===== src/Migrations.antt =====
-- internal/database/db.go: the schema of the database file, and the migrations that `Open` runs.
-- The statements are those of the scripts in the source, with what SQL says of each.
pub mod Again
pub mod Carried
pub mod Interrupted
mod Tests
use relayly.Base.{
  ℕ, String, Bool, true, false, not, Option, none, some, List, [], ◌∷◌, ◌++◌, map, lookup, erase,
  ◌==◌, string_eq, nat_eq, if◌then◌else◌, ok, err, is_some, ◌||◌, ◌&&◌,
}
use relayly.Sql.{Store, Sql, ◌>>=◌, ◌>>◌, return, fail, next, later}

-- A row of `devices`, by column; `none` is NULL, and what a column that is not there has.
abbrev pub Cells : Type 0
Cells = String → Option String

pub record Table : Type 0 where
  pub columns : List String
  pub rows : List Cells

-- The tables `schema_migrations` and `devices`, where they are there, and the indexes by name.
pub record Schema : Type 0 where
  pub versions : Option (List ℕ)
  pub devices : Option Table
  pub indexes : List (String × String)

-- The statements of the scripts; an index is on one column of `devices`.
pub data Statement : Type 0 where
  create_schema_migrations create_devices copy_public_key : Statement
  create_index rename_column : String → String → Statement
  add_column drop_index : String → Statement
  insert_version : ℕ → Statement

pub data OpenError : Type 0 where
  creating_directory opening pinging driver refused : OpenError

unfoldable pub has_column : String → List String → Bool
has_column name [] = false
has_column name (c ∷ cs) = let rest = has_column name cs in c == name || rest

unfoldable pub has_version : ℕ → List ℕ → Bool
has_version v [] = false
has_version v (w ∷ ws) = let rest = has_version v ws in w == v || rest

-- The columns of version 1.
abbrev pub base_columns : List String
base_columns =
    "id" ∷ "name" ∷ "public_key" ∷ "pair_token" ∷ "paired_with" ∷ "created_at" ∷ "last_seen" ∷ []

abbrev pub renamed : String → String → String → String
renamed old new c = if c == old then new else c

abbrev pub rename_cell : String → String → Cells → Cells
rename_cell old new cells c = if c == new then cells old else if c == old then none else cells c

-- A new column is NULL in every row.
abbrev pub blank_cell : String → Cells → Cells
blank_cell name cells c = if c == name then none else cells c

-- `WHERE public_key IS NOT NULL AND public_key != ''`
abbrev pub copy_key : Cells → Cells
copy_key cells c = elim (cells "public_key") [
  | none ↦ cells c
  | some key ↦ if key == "" then cells c else if c == "static_key" then some key else cells c
]

-- The file after the statement, if it is not refused.
unfoldable pub perform : Statement → Schema → Option Schema
perform create_schema_migrations s = elim s.versions [
  | none ↦ some (record s { versions = some [] })
  | some vs ↦ some s
]
perform create_devices s = elim s.devices [
  | none ↦ some (record s { devices = some (record { columns = base_columns; rows = [] }) })
  | some t ↦ some s
]
perform (create_index name column) s = elim s.devices [
  | none ↦ none
  | some t ↦
      if is_some (lookup name s.indexes)
      then some s
      else if has_column column t.columns
      then some (record s { indexes = s.indexes ++ (name, column) ∷ [] })
      else none
]
perform (rename_column old new) s = elim s.devices [
  | none ↦ none
  | some t ↦
      if has_column old t.columns && not (has_column new t.columns)
      then some (record s {
        devices = some (record {
          columns = map (renamed old new) t.columns;
          rows = map (rename_cell old new) t.rows;
        });
        indexes = map (λ i. (i.0, renamed old new i.1)) s.indexes;
      })
      else none
]
perform (add_column name) s = elim s.devices [
  | none ↦ none
  | some t ↦
      if has_column name t.columns
      then none
      else some (record s {
        devices =
            some (record { columns = t.columns ++ name ∷ []; rows = map (blank_cell name) t.rows });
      })
]
perform copy_public_key s = elim s.devices [
  | none ↦ none
  | some t ↦
      if has_column "static_key" t.columns && has_column "public_key" t.columns
      then some (record s { devices = some (record t { rows = map copy_key t.rows }) })
      else none
]
perform (drop_index name) s = some (record s { indexes = erase name s.indexes })
perform (insert_version v) s = elim s.versions [
  | none ↦ none
  | some vs ↦
      if has_version v vs then some s else some (record s { versions = some (vs ++ v ∷ []) })
]

abbrev pub Script : Type 0
Script = List Statement

abbrev pub migration1 : Script
migration1 =
    create_devices
    ∷ create_index "idx_devices_pair_token" "pair_token"
    ∷ create_index "idx_devices_paired_with" "paired_with"
    ∷ []

abbrev pub migration2 : Script
migration2 = add_column "expires_at" ∷ []

abbrev pub migration3 : Script
migration3 =
    rename_column "pair_token" "device_token"
    ∷ add_column "static_key"
    ∷ copy_public_key
    ∷ drop_index "idx_devices_pair_token"
    ∷ create_index "idx_devices_device_token" "device_token"
    ∷ []

abbrev pub File : Type 0
File = Store Schema

abbrev pub Exec : Type 0 → Type 0
Exec A = Sql Schema OpenError A

-- A statement outside a transaction: what it does stays, whatever comes after it.
unfoldable pub run : Statement → Exec (Unit {0})
run statement s =
    if next s.faults
    then (err driver, record s { faults = later s.faults })
    else (elim (perform statement s.contents) [
      | none ↦ (err refused, record s { faults = later s.faults })
      | some c ↦ (ok tt, record { contents = c; faults = later s.faults })
    ])

-- `db.Exec` on a script runs the statements one by one, up to the first that fails.
unfoldable pub run_all : Script → Exec (Unit {0})
run_all [] = return tt
run_all (statement ∷ statements) = let rest = run_all statements in run statement >> rest

-- `SELECT COUNT(*) FROM schema_migrations WHERE version = ?`, against 0.
unfoldable pub applied : ℕ → Exec Bool
applied v s =
    if next s.faults
    then (err driver, record s { faults = later s.faults })
    else (elim s.contents.versions [
      | none ↦ (err refused, record s { faults = later s.faults })
      | some vs ↦ (ok (has_version v vs), record s { faults = later s.faults })
    ])

-- The loop body.
unfoldable pub apply_migration : ℕ → Script → Exec (Unit {0})
apply_migration version script = do
  done ← applied version
  if done then return tt else run_all script >> run (insert_version version)

unfoldable pub migrate : Exec (Unit {0})
migrate =
    run create_schema_migrations
    >> (apply_migration 1 migration1
        >> (apply_migration 2 migration2 >> apply_migration 3 migration3))

-- What the operating system and the driver say before the migrations.
pub record Opening : Type 0 where
  pub has_directory : Bool
  pub opens : Bool
  pub pings : Bool

unfoldable pub open_file : Opening → Exec (Unit {0})
open_file o =
    if not o.has_directory
    then fail creating_directory
    else if not o.opens
    then fail opening
    else if not o.pings
    then fail pinging
    else migrate
