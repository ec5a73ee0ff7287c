-- ===== src/Relay/Unlinking.antt =====
-- `handleUnpair` of internal/relay/control.go: which links it ends.
use relayly.Base.{
  ℕ, ◌≡◌, ◌≢◌, inl, inr, String, Bool, true, none, some, arith, Result, ok, err, is_ok, ◌==◌,
  nat_eq, string_eq, eq_iff, ◌||◌, if◌then◌else◌, Option-cases,
}
use relayly.Database.{Db, DbError, unpair_device}
use relayly.Database.Rows.{peer_of}
use relayly.Database.Symmetry.{peer_of-unlink}
use relayly.Relay.Client.{peer}
use relayly.Relay.Hub.{Server, get_client}
use relayly.Relay.Control.{unpaired, after_unpair, handle_unpair, with_db, relink}
use relayly.Relay.Peers.{peer-relink, relink-rest, peer-relink_connected, relink_connected-rest}

peer_of-unpair_device :
    (k id : String) (s : Db)
    → is_ok (unpair_device id s).0 ≡ true
    → peer_of k (unpair_device id s).1.contents ≡ (elim (peer_of k s.contents) [
      | none ↦ none
      | some p ↦ if k == id || p == id then none else some p
    ])
unfolding unpair_device
peer_of-unpair_device k id s h = ground (arith, peer_of-unlink k id s.contents)

-- What the two clients are told after an unpairing, as far as peers and the database go.
after_unpair-ok :
    (a : ℕ) (id : String) (was_paired : Bool) (r : Result DbError (Unit {0})) (w : Server)
    → is_ok r ≡ true
    → (((after_unpair a (id, was_paired) (r, w)).heap a).paired_with ≡ "")
      × ((c : ℕ)
          → was_paired ≡ true
          → get_client id w ≡ some c
          → ((after_unpair a (id, was_paired) (r, w)).heap c).paired_with ≡ "")
      × ((after_unpair a (id, was_paired) (r, w)).db ≡ w.db)
unfolding after_unpair
after_unpair-ok a id was_paired (err e) w h = ground (arith, h)
after_unpair-ok a id was_paired (ok t) w h =
    let told = relink a "" (unpaired id) w in
    let mine = peer-relink a a "" (unpaired id) w in
    let same = relink-rest a "" (unpaired id) w in
    let message = unpaired (w.heap a).device_id in
    (
      elim (Option-cases (get_client id told)) [
        | inl e ↦ ground (arith, mine, peer-relink_connected id a "" message told)
        | inr (c, e) ↦ ground (arith, mine, peer-relink_connected id a "" message told)
      ],
      λ c p e. ground (arith, same, peer-relink_connected id c "" message told),
      ground (arith, same, relink_connected-rest id "" message told),
    )

-- A client that unpairs, while the driver runs the statement, is unlinked: neither it nor any row
-- that pointed at it has a peer in the database, other rows keep theirs, its connection has no
-- peer, and nor has the connection of the device that was its connection's peer.
pub handle_unpair_unlinks :
    (a : ℕ) (w : Server)
    → let me = (w.heap a).device_id in
      let v = handle_unpair a w in
      is_ok (unpair_device me w.db).0 ≡ true
      → ((k : String)
          → peer_of k v.db.contents ≡ (elim (peer_of k w.db.contents) [
            | none ↦ none
            | some p ↦ if k == me || p == me then none else some p
          ]))
        × ((v.heap a).paired_with ≡ "")
        × ((c : ℕ)
            → (w.heap a).paired_with ≢ ""
            → get_client (w.heap a).paired_with w ≡ some c
            → (v.heap c).paired_with ≡ "")
unfolding handle_unpair
handle_unpair_unlinks a w h =
    let me = (w.heap a).device_id in
    let u = (with_db (unpair_device me) w).1 in
    let (mine, theirs, rows) =
      after_unpair-ok a (w.heap a).paired_with (peer (w.heap a)).1 (unpair_device me w.db).0 u h in
    (
      λ k. ground (arith, rows, peer_of-unpair_device k me w.db h),
      mine,
      λ c p e. theirs c (ground (arith, eq_iff (w.heap a).paired_with "")) e,
    )
