-- ===== src/Migrations/Carried.antt =====
-- What the migrations of internal/database/db.go make of an empty file and of an older one.
use mathlib.Core.Path.{fun_ext}
use relayly.Base.{
  ◌≡◌, refl, ap, ap₂, String, none, some, List, [], ◌∷◌, map, ok, lookup, erase, arith, ◌==◌,
  string_eq, eq_iff, if◌then◌else◌, ◌||◌,
}
use relayly.Database.Rows.{locked}
use relayly.Migrations.{
  Cells, Schema, File, perform, run, run_all, applied, apply_migration, migrate, has_column,
  has_version, base_columns, blank_cell, rename_cell, copy_key,
}

-- The file that version 1 leaves, with the rows that were put into it.
abbrev pub version1 : List Cells → Schema
version1 rows = record {
  versions = some (1 ∷ []);
  devices = some (record { columns = base_columns; rows = rows });
  indexes =
      ("idx_devices_pair_token", "pair_token") ∷ ("idx_devices_paired_with", "paired_with") ∷ [];
}

abbrev pub healthy : Schema → File
healthy s = record { contents = s; faults = [] }

-- The file of version 3.
abbrev pub version3 : List Cells → Schema
version3 rows = record {
  versions = some (1 ∷ 2 ∷ 3 ∷ []);
  devices = some (record {
    columns =
        "id" ∷ "name" ∷ "public_key" ∷ "device_token" ∷ "paired_with" ∷ "created_at" ∷ "last_seen"
        ∷ "expires_at" ∷ "static_key" ∷ [];
    rows = rows;
  });
  indexes =
      ("idx_devices_paired_with", "paired_with")
      ∷ ("idx_devices_device_token", "device_token")
      ∷ [];
}

-- A row's token under its new name, its key announced if it is not empty, and the rest as it was.
abbrev pub upgraded : Cells → Cells
upgraded cells c =
    if c == "device_token"
    then cells "pair_token"
    else if c == "static_key"
    then locked (cells "public_key")
    else if (c == "pair_token") || (c == "expires_at")
    then none
    else cells c

-- What the scripts do to a row.
abbrev altered : Cells → Cells
altered cells = copy_key (
    blank_cell "static_key"
      (rename_cell "pair_token" "device_token" (blank_cell "expires_at" cells)))

altered_cell : (cells : Cells) (c : String) → altered cells c ≡ upgraded cells c
altered_cell cells c = ground (
  arith,
  eq_iff c "device_token",
  eq_iff c "static_key",
  eq_iff c "pair_token",
  eq_iff c "expires_at",
  eq_iff "device_token" "static_key",
  eq_iff "device_token" "pair_token",
  eq_iff "static_key" "pair_token",
  eq_iff "static_key" "expires_at",
)

altered_rows :
    (rows : List Cells)
    → map copy_key (
        map
          (blank_cell "static_key")
          (map (rename_cell "pair_token" "device_token") (map (blank_cell "expires_at") rows)))
      ≡ map upgraded rows
altered_rows [] = refl
altered_rows (cells ∷ rows) =
    ap₂ (λ x xs. x ∷ xs) (fun_ext (altered_cell cells)) (altered_rows rows)

-- Over a file of version 1, whatever its rows, and while no statement is failed by the driver,
-- `migrate` succeeds and leaves the schema of version 3, in which every row has its token as
-- `device_token`, its `public_key` as the announced key where it is not NULL and not empty, no
-- expiry, and its other columns as they were.
pub migrate_carries :
    (rows : List Cells)
    → ((migrate (healthy (version1 rows))).0 ≡ ok tt)
      × ((migrate (healthy (version1 rows))).1.contents ≡ version3 (map upgraded rows))
unfolding migrate run run_all applied apply_migration perform has_column has_version lookup erase
migrate_carries rows = (refl, ap version3 (altered_rows rows))
