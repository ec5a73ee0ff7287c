-- ===== src/Cli/Linking.antt =====
-- What `relayly link` (internal/cli/link.go) does with one device given twice.
use relayly.Base.{◌≡◌, String, Bool, none, some, [], arith, ok, string_eq, eq_iff}
use relayly.Database.{
  Row, Db, find, get_device_by_id, pair_devices, check_unpaired, link_all, both_ways,
}
use relayly.Database.Rows.{peer_of, find-link, find-id}
use relayly.Cli.{run_link}

-- A device that is not paired is linked with itself.
pub run_link_self :
    (swapped : Bool) (id : String) (r : Row) (s : Db)
    → s.faults ≡ []
    → find id s.contents ≡ some r
    → r.paired_with ≡ none
    → ((run_link swapped id id s).0 ≡ ok tt)
      × (peer_of id (run_link swapped id id s).1.contents ≡ some id)
unfolding run_link get_device_by_id pair_devices check_unpaired link_all both_ways
run_link_self swapped id r s healthy has free = (
  ground (arith, eq_iff id id),
  ground (arith, eq_iff id id, find-link id id id s.contents, find-id id s.contents {r = r} has),
)
