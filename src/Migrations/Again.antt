-- ===== src/Migrations/Again.antt =====
-- Migrations of internal/database/db.go over a file that has had them.
use relayly.Base.{
  ℕ, ◌≡◌, Bool, true, false, none, some, List, [], ◌∷◌, ◌++◌, is_ok, ok, arith, ◌==◌, nat_eq,
  Option-cases, inl, inr, if◌then◌else◌,
}
use relayly.Sql.{later}
use relayly.Migrations.{
  Schema, Statement, Script, File, perform, run, run_all, applied, apply_migration, migrate,
  has_version, insert_version, create_schema_migrations, create_devices, copy_public_key,
  create_index, rename_column, add_column, drop_index, migration1, migration2, migration3,
}
use relayly.Migrations.Carried.{healthy}

abbrev recorded : ℕ → Schema → Bool
recorded v s = elim s.versions [ none ↦ false | some vs ↦ has_version v vs ]

has_version-append :
    (v w : ℕ) (vs : List ℕ)
    → has_version v (vs ++ w ∷ []) ≡ (if w == v then true else has_version v vs)
unfolding has_version
has_version-append v w [] = ground arith
has_version-append v w (x ∷ vs) = ground (arith, has_version-append v w vs)

-- No statement takes a version back.
run-keeps :
    (v : ℕ) (statement : Statement) (s : File)
    → recorded v s.contents ≡ true
    → recorded v (run statement s).1.contents ≡ true
unfolding run perform
run-keeps v create_schema_migrations s h = ground arith
run-keeps v create_devices s h = ground arith
run-keeps v copy_public_key s h = ground arith
run-keeps v (create_index name column) s h = ground arith
run-keeps v (rename_column old new) s h = ground arith
run-keeps v (add_column name) s h = ground arith
run-keeps v (drop_index name) s h = ground arith
run-keeps v (insert_version w) s h = elim (Option-cases s.contents.versions) [
  | inl e ↦ ground arith
  | inr (vs, e) ↦ ground (arith, has_version-append v w vs)
]

run_all-keeps :
    (v : ℕ) (script : Script) (s : File)
    → recorded v s.contents ≡ true
    → recorded v (run_all script s).1.contents ≡ true
unfolding run_all
run_all-keeps v [] s h = h
run_all-keeps v (statement ∷ statements) s h =
    ground (arith, run-keeps v statement s h, run_all-keeps v statements (run statement s).1)

apply_migration-keeps :
    (v w : ℕ) (script : Script) (s : File)
    → recorded v s.contents ≡ true
    → recorded v (apply_migration w script s).1.contents ≡ true
unfolding apply_migration applied
apply_migration-keeps v w script s h =
    let t : File = record s { faults = later s.faults } in
    ground (arith, run_all-keeps v script t, run-keeps v (insert_version w) (run_all script t).1)

insert_version-records :
    (v : ℕ) (s : File)
    → is_ok (run (insert_version v) s).0 ≡ true
    → recorded v (run (insert_version v) s).1.contents ≡ true
unfolding run perform
insert_version-records v s h = elim (Option-cases s.contents.versions) [
  | inl e ↦ absurd (ground arith)
  | inr (vs, e) ↦ ground (arith, has_version-append v v vs)
]

apply_migration-records :
    (v : ℕ) (script : Script) (s : File)
    → is_ok (apply_migration v script s).0 ≡ true
    → recorded v (apply_migration v script s).1.contents ≡ true
unfolding apply_migration applied
apply_migration-records v script s h =
    let t : File = record s { faults = later s.faults } in
    ground (arith, insert_version-records v (run_all script t).1)

-- What is recorded is not applied again.
apply_migration-again :
    (v : ℕ) (script : Script) (s : Schema)
    → recorded v s ≡ true
    → apply_migration v script (healthy s) ≡ (ok tt, healthy s)
unfolding apply_migration applied
apply_migration-again v script s h = ground arith

create-again :
    (v : ℕ) (s : Schema)
    → recorded v s ≡ true
    → run create_schema_migrations (healthy s) ≡ (ok tt, healthy s)
unfolding run perform
create-again v s h = ground arith

migrate-records :
    (s : File)
    → is_ok (migrate s).0 ≡ true
    → (recorded 1 (migrate s).1.contents ≡ true)
      × (recorded 2 (migrate s).1.contents ≡ true)
      × (recorded 3 (migrate s).1.contents ≡ true)
unfolding migrate
migrate-records s h =
    let a = (run create_schema_migrations s).1 in
    let b = (apply_migration 1 migration1 a).1 in
    let c = (apply_migration 2 migration2 b).1 in
    ground (
      arith,
      apply_migration-records 1 migration1 a,
      apply_migration-records 2 migration2 b,
      apply_migration-records 3 migration3 c,
      apply_migration-keeps 1 2 migration2 b,
      apply_migration-keeps 1 3 migration3 c,
      apply_migration-keeps 2 3 migration3 c,
    )

-- After a `migrate` that succeeds, over whatever file and faults, another one succeeds and changes
-- nothing if the driver fails no statement.
pub migrate_again :
    (s : File)
    → is_ok (migrate s).0 ≡ true
    → migrate (healthy (migrate s).1.contents) ≡ (ok tt, healthy (migrate s).1.contents)
unfolding migrate
migrate_again s h =
    let c = (migrate s).1.contents in
    let (one, two, three) = migrate-records s h in
    ground (
      arith,
      create-again 1 c one,
      apply_migration-again 1 migration1 c one,
      apply_migration-again 2 migration2 c two,
      apply_migration-again 3 migration3 c three,
    )
