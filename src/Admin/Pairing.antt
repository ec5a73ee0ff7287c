-- ===== src/Admin/Pairing.antt =====
-- What the pairing form of internal/admin/server.go can and cannot do.
use relayly.Base.{
  ◌≡◌, ◌⊎◌, refl, String, Bool, true, false, none, some, arith, is_ok, ◌==◌, string_eq, eq_iff,
  if◌then◌else◌, inl, inr, lookup, lookup-insert, List, [], ◌∷◌,
}
use relayly.Database.{pair_devices, list_devices}
use relayly.Database.Links.{pair_devices-err}
use relayly.Relay.Hub.{Server}
use relayly.Admin.{online_set, handle_pair_devices, handle_devices_partial}

abbrev listed_in : String → List String → Bool
listed_in id [] = false
listed_in id (x ∷ xs) = let rest = listed_in id xs in if x == id then true else rest

-- The map says of exactly the listed ids that they are online.
pub lookup-online_set :
    (id : String) (ids : List String)
    → lookup id (online_set ids) ≡ (if listed_in id ids then some true else none)
unfolding online_set lookup
lookup-online_set id [] = refl
lookup-online_set id (x ∷ ids) =
    ground (arith, lookup-insert x id true (online_set ids), lookup-online_set id ids)

list_devices-keeps : (w : Server) → (handle_devices_partial w).1.db.contents ≡ w.db.contents
unfolding handle_devices_partial list_devices
list_devices-keeps w = ground arith

-- The form changes rows only by a pairing of two different devices that succeeds.
pub handle_pair_devices-keeps :
    (swapped : Bool) (id1 id2 : String) (w : Server)
    → (id1 ≡ id2) ⊎ (is_ok (pair_devices swapped id1 id2 w.db).0 ≡ false)
    → (handle_pair_devices swapped (some (id1, id2)) w).1.db.contents ≡ w.db.contents
unfolding handle_pair_devices
handle_pair_devices-keeps swapped id1 id2 w (inl same) = ground (arith, eq_iff id1 id2)
handle_pair_devices-keeps swapped id1 id2 w (inr failed) =
    ground (arith, pair_devices-err swapped id1 id2 w.db failed)
