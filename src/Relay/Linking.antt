-- ===== src/Relay/Linking.antt =====
-- The in-band pairing of internal/relay/control.go: what a redeemed code links, and that nothing
-- else does.
use relayly.Base.{
  ℕ, ◌≡◌, refl, ◌≢◌, ◌⊎◌, inl, inr, String, Bool, true, false, none, some, arith, lookup,
  lookup-erase, Result, ok, err, is_ok, ◌==◌, nat_eq, string_eq, eq_iff, if◌then◌else◌,
  Option-cases,
}
use relayly.PairCodes.{PairCodeRegistry, take}
use relayly.Database.{
  DbError, not_found, already_paired, static_key_mismatch, driver, pair_devices, get_device_by_id,
}
use relayly.Database.Links.{pair_devices-err}
use relayly.Database.Lookups.{get_device_by_id-reads}
use relayly.Database.Rows.{peer_of}
use relayly.Database.Symmetry.{peer_of-pair_devices}
use relayly.Relay.Invariant.{IsValid}
use relayly.Relay.Client.{ControlMessage}
use relayly.Relay.Hub.{Server, get_client}
use relayly.Relay.Control.{
  pair_complete, key_or_empty, with_db, relink, complete_pairing, after_pairing, handle_pair_accept,
}
use relayly.Relay.Peers.{
  peer-relink, relink-rest, peer-relink_connected, relink_connected-rest, send_error-peer,
}

-- The clients after `complete_pairing`: the redeemer's peer, and the requester's if connected.
complete_pairing-peer :
    (a b : ℕ) (code id : String) (w : Server)
    → ((complete_pairing a code id w).heap b).paired_with ≡ (elim (get_client id w) [
      | none ↦ if b == a then id else (w.heap b).paired_with
      | some c ↦
          if b == c then (w.heap a).device_id else if b == a then id else (w.heap b).paired_with
    ])
unfolding complete_pairing
complete_pairing-peer a b code id w =
    let my_id = (w.heap a).device_id in
    let (me, w₁) = with_db (get_device_by_id my_id) w in
    let (requester, w₂) = with_db (get_device_by_id id) w₁ in
    let told = relink a id (pair_complete code id (key_or_empty requester)) w₂ in
    elim (Option-cases (get_client id w)) [
      | inl e ↦ ground (
        arith,
        relink-rest a id (pair_complete code id (key_or_empty requester)) w₂,
        peer-relink a b id (pair_complete code id (key_or_empty requester)) w₂,
        peer-relink_connected id b my_id (pair_complete code my_id (key_or_empty me)) told,
      )
      | inr (c, e) ↦ ground (
        arith,
        relink-rest a id (pair_complete code id (key_or_empty requester)) w₂,
        peer-relink a b id (pair_complete code id (key_or_empty requester)) w₂,
        peer-relink_connected id b my_id (pair_complete code my_id (key_or_empty me)) told,
      )
    ]

complete_pairing-rest :
    (a : ℕ) (code id : String) (w : Server)
    → ((complete_pairing a code id w).pair_codes ≡ w.pair_codes)
      × ((complete_pairing a code id w).db.contents ≡ w.db.contents)
unfolding complete_pairing
complete_pairing-rest a code id w =
    let my_id = (w.heap a).device_id in
    let (me, w₁) = with_db (get_device_by_id my_id) w in
    let (requester, w₂) = with_db (get_device_by_id id) w₁ in
    let told = relink a id (pair_complete code id (key_or_empty requester)) w₂ in
    ground (
      arith,
      get_device_by_id-reads my_id w.db,
      get_device_by_id-reads id w₁.db,
      relink-rest a id (pair_complete code id (key_or_empty requester)) w₂,
      relink_connected-rest id my_id (pair_complete code my_id (key_or_empty me)) told,
    )

-- The server once the code is redeemed: without it, and with the pairing's database.
abbrev redeemed : ℕ → Bool → String → ℕ → String → Server → Server
redeemed now swapped id a code w = record w {
  pair_codes = (take now code w.pair_codes).registry;
  db = (pair_devices swapped id (w.heap a).device_id w.db).1;
}

after_pairing-ok :
    (a : ℕ) (code id : String) (r : Result DbError (Unit {0})) (w : Server)
    → is_ok r ≡ true
    → after_pairing a code id (r, w) ≡ complete_pairing a code id w
unfolding after_pairing
after_pairing-ok a code id (ok t) w h = refl
after_pairing-ok a code id (err e) w h = ground (arith, h)

handle_pair_accept-ok :
    (now : ℕ) (swapped : Bool) (a : ℕ) (msg : ControlMessage) (w : Server)
    → let t = take now msg.code w.pair_codes in
      msg.code ≢ ""
      → t.ok ≡ true
      → t.requester_id ≢ (w.heap a).device_id
      → is_ok (pair_devices swapped t.requester_id (w.heap a).device_id w.db).0 ≡ true
      → handle_pair_accept now swapped a msg w
        ≡ complete_pairing a msg.code t.requester_id
            (redeemed now swapped t.requester_id a msg.code w)
unfolding handle_pair_accept
handle_pair_accept-ok now swapped a msg w filled good other paired =
    let t = take now msg.code w.pair_codes in
    ground (
      arith,
      eq_iff msg.code "",
      eq_iff t.requester_id (w.heap a).device_id,
      after_pairing-ok a msg.code t.requester_id
          (pair_devices swapped t.requester_id (w.heap a).device_id w.db).0
          (redeemed now swapped t.requester_id a msg.code w) paired,
    )

code-take :
    (now : ℕ) (code : String) (r : PairCodeRegistry)
    → lookup code (take now code r).registry.entries ≡ none
unfolding take
code-take now code r = ground (arith, eq_iff code code, lookup-erase code code r.entries)

-- A client that redeems the code of another device is linked with it, in a valid server and if the
-- database pairs the two: the database has each as the other's peer, the redeemer's connection has
-- the other as its peer, so has the other's connection the redeemer, if it is connected, and the
-- code is gone.
pub handle_pair_accept_links :
    (now : ℕ) (swapped : Bool) (a : ℕ) (msg : ControlMessage) (w : Server)
    → let t = take now msg.code w.pair_codes in
      let v = handle_pair_accept now swapped a msg w in
      IsValid w
      → msg.code ≢ ""
      → t.ok ≡ true
      → t.requester_id ≢ (w.heap a).device_id
      → is_ok (pair_devices swapped t.requester_id (w.heap a).device_id w.db).0 ≡ true
      → (peer_of (w.heap a).device_id v.db.contents ≡ some t.requester_id)
        × (peer_of t.requester_id v.db.contents ≡ some (w.heap a).device_id)
        × ((v.heap a).paired_with ≡ t.requester_id)
        × ((c : ℕ)
            → get_client t.requester_id w ≡ some c
            → (v.heap c).paired_with ≡ (w.heap a).device_id)
        × (lookup msg.code v.pair_codes.entries ≡ none)
handle_pair_accept_links now swapped a msg w valid filled good other paired =
    let t = take now msg.code w.pair_codes in
    let id = t.requester_id in
    let me = (w.heap a).device_id in
    let u = redeemed now swapped id a msg.code w in
    let (codes, rows) = complete_pairing-rest a msg.code id u in
    rw (handle_pair_accept-ok now swapped a msg w filled good other paired) (
      ground (arith, rows, eq_iff me id, eq_iff me me, peer_of-pair_devices swapped id me me w.db),
      ground (arith, rows, eq_iff id id, peer_of-pair_devices swapped id me id w.db),
      elim (Option-cases (get_client id w)) [
        | inl e ↦ ground (arith, complete_pairing-peer a a msg.code id u)
        | inr (c, e) ↦
            ground (arith, complete_pairing-peer a a msg.code id u, valid.registered id c e)
      ],
      λ c e. ground (arith, complete_pairing-peer a c msg.code id u),
      ground (arith, codes, code-take now msg.code w.pair_codes),
    )

after_pairing-err :
    (a b : ℕ) (code id : String) (r : Result DbError (Unit {0})) (w : Server)
    → is_ok r ≡ false
    → (((after_pairing a code id (r, w)).heap b).paired_with ≡ (w.heap b).paired_with)
      × ((after_pairing a code id (r, w)).db ≡ w.db)
unfolding after_pairing
after_pairing-err a b code id (ok t) w h = ground (arith, h)
after_pairing-err a b code id (err already_paired) w h = send_error-peer a b _ _ w
after_pairing-err a b code id (err not_found) w h = send_error-peer a b _ _ w
after_pairing-err a b code id (err static_key_mismatch) w h = send_error-peer a b _ _ w
after_pairing-err a b code id (err driver) w h = send_error-peer a b _ _ w

-- A `pair_accept` that is not redeemed - no code, an unknown or an expired one, the client's own,
-- or one that the database refuses to pair - changes no connection's peer and no row.
pub handle_pair_accept_refused :
    (now : ℕ) (swapped : Bool) (a b : ℕ) (msg : ControlMessage) (w : Server)
    → let t = take now msg.code w.pair_codes in
      let v = handle_pair_accept now swapped a msg w in
      (msg.code ≡ "")
        ⊎ (t.ok ≡ false)
        ⊎ (t.requester_id ≡ (w.heap a).device_id)
        ⊎ (is_ok (pair_devices swapped t.requester_id (w.heap a).device_id w.db).0 ≡ false)
      → ((v.heap b).paired_with ≡ (w.heap b).paired_with) × (v.db.contents ≡ w.db.contents)
unfolding handle_pair_accept
handle_pair_accept_refused now swapped a b msg w h =
    let t = take now msg.code w.pair_codes in
    let id = t.requester_id in
    let u = record w { pair_codes = t.registry } in
    let r = pair_devices swapped id (w.heap a).device_id w.db in
    ground (
      arith,
      eq_iff msg.code "",
      eq_iff id (w.heap a).device_id,
      pair_devices-err swapped id (w.heap a).device_id w.db,
      after_pairing-err a b msg.code id r.0 (redeemed now swapped id a msg.code w),
      send_error-peer a b "malformed" "pair_accept requires code" w,
      send_error-peer a b "invalid_code" "cannot pair with yourself" u,
      send_error-peer a b "code_expired" "pairing code has expired" u,
      send_error-peer a b "invalid_code" "unknown pairing code" u,
    )
