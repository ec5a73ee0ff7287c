-- ===== src/Database/Pairing.antt =====
-- `PairDevices` (internal/database/pairing.go) against a description of what it is for.
use relayly.Base.{
  ◌≡◌, refl, String, Bool, none, some, List, [], ◌∷◌, arith, Result, ok, err, is_ok, ◌==◌,
  string_eq, if◌then◌else◌, Option,
}
use relayly.Database.{
  Row, Rows, Db, DbError, not_found, already_paired, find, link, link_all, both_ways, pair_devices,
  check_unpaired,
}
use relayly.Database.Rows.{peer_of}
use relayly.Database.Links.{linked}
use relayly.Database.Symmetry.{peer_of-pair_devices}

-- Why a device cannot be paired.
unfoldable pub refusal : Option Row → Option DbError
refusal none = some not_found
refusal (some r) = elim r.paired_with [ none ↦ none | some p ↦ some already_paired ]

-- The first reason found, in the order of the arguments.
unfoldable pub verdict : String → String → Rows → Result DbError (Unit {0})
unfolding refusal
verdict a b rows = elim (refusal (find a rows)) [
  | some e ↦ err e
  | none ↦ elim (refusal (find b rows)) [ some e ↦ err e | none ↦ ok tt ]
]

abbrev pub healthy : Rows → Db
healthy rows = record { contents = rows; faults = [] }

check_unpaired-healthy :
    (id : String) (rows : Rows)
    → check_unpaired id (healthy rows)
      ≡ (elim (refusal (find id rows)) [ some e ↦ err e | none ↦ ok tt ], healthy rows)
unfolding check_unpaired refusal
check_unpaired-healthy id rows = ground arith

link_all-healthy :
    (links : List (String × String)) (rows : Rows)
    → link_all links (healthy rows) ≡ (ok tt, healthy (linked links rows))
unfolding link_all linked
link_all-healthy [] rows = refl
link_all-healthy ((this, peer) ∷ rest) rows = link_all-healthy rest (link this peer rows)

pair_devices-healthy :
    (swapped : Bool) (a b : String) (rows : Rows)
    → (pair_devices swapped a b (healthy rows)).0 ≡ verdict a b rows
unfolding pair_devices verdict
pair_devices-healthy swapped a b rows = ground (
  arith,
  check_unpaired-healthy a rows,
  check_unpaired-healthy b rows,
  link_all-healthy (both_ways swapped a b) rows,
)

-- While the driver runs every statement, `PairDevices` answers as described: the first of the two
-- devices that is missing or already paired is the reason to refuse. If it accepts, each of the two
-- is the other's peer and no other device's peer changes; if it refuses, no peer changes. The order
-- in which Go walks the map of the two links makes no difference.
pub pair_devices-verdict :
    (swapped : Bool) (a b : String) (rows : Rows)
    → ((pair_devices swapped a b (healthy rows)).0 ≡ verdict a b rows)
      × ((k : String)
          → peer_of k (pair_devices swapped a b (healthy rows)).1.contents ≡ (
              if is_ok (verdict a b rows)
              then (if k == a then some b else if k == b then some a else peer_of k rows)
              else peer_of k rows))
pair_devices-verdict swapped a b rows = (
  pair_devices-healthy swapped a b rows,
  λ k.
      rw (← pair_devices-healthy swapped a b rows)
        (peer_of-pair_devices swapped a b k (healthy rows)),
)
