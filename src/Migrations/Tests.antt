-- ===== src/Migrations/Tests.antt =====
-- Database files, and instances of the theorems.
use relayly.Base.{
  ◌≡◌, refl, none, some, [], ◌∷◌, ok, lookup, erase, false, true, ◌==◌, string_eq, if◌then◌else◌,
  All,
}
use relayly.Migrations.{
  Cells, Schema, migrate, run, run_all, applied, apply_migration, perform, has_column, has_version,
}
use relayly.Migrations.Carried.{version1, version3, upgraded, healthy, migrate_carries}
use relayly.Migrations.Again.{migrate_again}
use relayly.Migrations.Interrupted.{migrate_each, migrate_interrupted}

abbrev nothing : Schema
nothing = record { versions = none; devices = none; indexes = [] }

-- A new file gets the schema of version 3.
migrate_creates : migrate (healthy nothing) ≡ (ok tt, healthy (version3 []))
unfolding migrate run run_all applied apply_migration perform has_column has_version lookup erase
migrate_creates = refl

abbrev laptop : Cells
laptop c =
    if c == "id"
    then some "a"
    else if c == "pair_token"
    then some "secret"
    else if c == "public_key"
    then some "key"
    else none

migrate_carries_example :
    (migrate (healthy (version1 (laptop ∷ [])))).1.contents ≡ version3 (upgraded laptop ∷ [])
migrate_carries_example = (migrate_carries (laptop ∷ [])).1

upgraded-laptop :
    (upgraded laptop "device_token" ≡ some "secret") × (upgraded laptop "static_key" ≡ some "key")
upgraded-laptop = (refl, refl)

migrate_again_example :
    migrate (healthy (version3 (upgraded laptop ∷ [])))
    ≡ (ok tt, healthy (version3 (upgraded laptop ∷ [])))
unfolding migrate run run_all applied apply_migration perform has_column has_version lookup erase
migrate_again_example = migrate_again (healthy (version3 (upgraded laptop ∷ []))) refl

migrate_interrupted_example :
    let r =
      migrate_each
        ((false ∷ false ∷ false ∷ false ∷ true ∷ []) ∷ [] ∷ [])
        (version1 (laptop ∷ [])) in
    All (λ opened. opened ≡ false) r.0
migrate_interrupted_example = (migrate_interrupted (laptop ∷ []) [] ([] ∷ [])).0
