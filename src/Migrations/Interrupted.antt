-- ===== src/Migrations/Interrupted.antt =====
-- Migrations of internal/database/db.go that stop half way.
use relayly.Base.{
  ◌≡◌, refl, Bool, true, false, some, List, [], ◌∷◌, ◌++◌, map, is_ok, All, lookup, erase, arith,
  string_eq,
}
use relayly.Migrations.{
  Cells, Schema, perform, run, run_all, applied, apply_migration, migrate, has_column, has_version,
  base_columns, blank_cell,
}
use relayly.Migrations.Carried.{version1}

-- Each call of `Open` meets the faults of its own list.
unfoldable pub migrate_each : List (List Bool) → Schema → List Bool × Schema
migrate_each [] s = ([], s)
migrate_each (faults ∷ rest) s =
    let r = migrate (record { contents = s; faults = faults }) in
    let more = migrate_each rest r.1.contents in (is_ok r.0 ∷ more.0, more.1)

-- Version 2 is done and not recorded.
unfoldable pub version1_altered : List Cells → Schema
version1_altered rows = record (version1 rows) {
  devices = some (record { columns = base_columns ++ "expires_at" ∷ []; rows = rows });
}

stuck :
    (rows : List Cells) (faults : List Bool)
    → let r = migrate (record { contents = version1_altered rows; faults = faults }) in
      (is_ok r.0 ≡ false) × (r.1.contents ≡ version1_altered rows)
unfolding migrate run run_all applied apply_migration perform has_column has_version lookup erase
    version1_altered
stuck rows faults = ground arith

stuck_each :
    (rest : List (List Bool)) (rows : List Cells)
    → All (λ opened. opened ≡ false) (migrate_each rest (version1_altered rows)).0
      × ((migrate_each rest (version1_altered rows)).1 ≡ version1_altered rows)
unfolding migrate_each
stuck_each [] rows = (tt, refl)
stuck_each (faults ∷ rest) rows =
    let (fails, same) = stuck rows faults in
    let (more, last) = stuck_each rest rows in rw same ((fails, more), last)

-- A file of version 1 over which one `Open` adds the column of version 2 and then fails to record
-- the version can never be opened again: this and every later `Open` reports an error, whatever the
-- driver does, and the file stays as the first left it.
pub migrate_interrupted :
    (rows : List Cells) (more : List Bool) (rest : List (List Bool))
    → let r = migrate_each ((false ∷ false ∷ false ∷ false ∷ true ∷ more) ∷ rest) (version1 rows) in
      All (λ opened. opened ≡ false) r.0
      × (r.1 ≡ version1_altered (map (blank_cell "expires_at") rows))
unfolding migrate_each migrate run run_all applied apply_migration perform has_column has_version
    lookup erase version1_altered
migrate_interrupted rows more rest =
    let (fails, same) = stuck_each rest (map (blank_cell "expires_at") rows) in
    ((refl, fails), same)
