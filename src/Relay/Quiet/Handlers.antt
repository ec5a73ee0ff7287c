-- ===== src/Relay/Quiet/Handlers.antt =====
-- The control handlers of internal/relay/control.go are `Quiet`.
use relayly.Base.{
  ℕ, refl, inl, inr, String, Bool, true, false, Option, none, some, ◌==◌, string_eq, Result, ok,
  err, Bool-cases, Option-cases,
}
use relayly.PairCodes.{PairCodeRegistry, take}
use relayly.Database.{
  DbError, Device, not_found, already_paired, static_key_mismatch, driver, get_device_by_id,
  pair_devices, unpair_device, set_static_key_if_unset,
}
use relayly.Relay.Client.{Client, ControlMessage, WsFrame, enqueue}
use relayly.Relay.Hub.{Server, get_client}
use relayly.Relay.Control.{
  send_error, closing, send_error_and_close, send_welcome, after_announce, handle_announce_key,
  handle_pair_request, complete_pairing, after_pairing, handle_pair_accept, after_unpair,
  handle_unpair, dispatch, handle_control, unpaired, relink, relink_connected,
}
use relayly.Relay.Quiet.{
  Quiet, Keeps, if-Quiet, Quiet-refl, Quiet-trans, at-Quiet, enqueue-Keeps, close-Keeps,
  set_peer-Keeps, send_json-Quiet, with_db-Quiet,
}

pub send_error-Quiet :
    (a : ℕ) (code message : String) (w : Server) → Quiet w (send_error a code message w)
unfolding send_error
send_error-Quiet a code message w = send_json-Quiet a _ w

closing-Keeps : (frame : WsFrame) (c : Client) → Keeps c (closing frame c)
unfolding closing
closing-Keeps frame c = elim (Bool-cases (enqueue frame c).1) [
  | inl e ↦ rw (e, closing) (enqueue-Keeps frame c)
  | inr e ↦ rw (e, closing) (close-Keeps c)
]

send_error_and_close-Quiet :
    (a : ℕ) (code message : String) (w : Server) → Quiet w (send_error_and_close a code message w)
unfolding send_error_and_close
send_error_and_close-Quiet a code message w = at-Quiet a _ w (closing-Keeps _)

relink-Quiet :
    (a : ℕ) (id : String) (message : ControlMessage) (w : Server) → Quiet w (relink a id message w)
unfolding relink
relink-Quiet a id message w =
    Quiet-trans (at-Quiet a _ w (set_peer-Keeps id)) (send_json-Quiet a message _)

relink_connected-Quiet :
    (id peer_id : String) (message : ControlMessage) (w : Server)
    → Quiet w (relink_connected id peer_id message w)
unfolding relink_connected
relink_connected-Quiet id peer_id message w = elim (Option-cases (get_client id w)) [
  | inl e ↦ rw (e, relink_connected) (Quiet-refl w)
  | inr (b, e) ↦ rw (e, relink_connected) (relink-Quiet b peer_id message w)
]

pub send_welcome-Quiet : (a : ℕ) (device : Device) (w : Server) → Quiet w (send_welcome a device w)
unfolding send_welcome
send_welcome-Quiet a device w = elim (Option-cases device.paired_with) [
  | inl e ↦ rw (e, send_welcome) (send_json-Quiet a _ w)
  | inr (p, e) ↦
      rw (e, send_welcome)
        (Quiet-trans (with_db-Quiet (get_device_by_id p) w)
          (Quiet-trans (send_json-Quiet a _ _) (send_json-Quiet a _ _)))
]

after_announce-Quiet :
    (a : ℕ) (r : Result DbError (Unit {0})) (w : Server) → Quiet w (after_announce a (r, w))
unfolding after_announce
after_announce-Quiet a (ok t) w = Quiet-refl w
after_announce-Quiet a (err static_key_mismatch) w = send_error_and_close-Quiet a _ _ w
after_announce-Quiet a (err not_found) w = send_error-Quiet a _ _ w
after_announce-Quiet a (err already_paired) w = send_error-Quiet a _ _ w
after_announce-Quiet a (err driver) w = send_error-Quiet a _ _ w

handle_announce_key-Quiet :
    (a : ℕ) (msg : ControlMessage) (w : Server) → Quiet w (handle_announce_key a msg w)
unfolding handle_announce_key
handle_announce_key-Quiet a msg w = elim (Bool-cases (msg.static_key == "")) [
  | inl e ↦ rw (e, handle_announce_key) (send_error-Quiet a _ _ w)
  | inr e ↦
      rw (e, handle_announce_key)
        (Quiet-trans (with_db-Quiet (set_static_key_if_unset (w.heap a).device_id msg.static_key) w)
          (after_announce-Quiet a _ _))
]

-- The registry of codes is no part of what `Quiet` speaks of.
codes-Quiet : (codes : PairCodeRegistry) (w : Server) → Quiet w (record w { pair_codes = codes })
codes-Quiet codes w = record {
  clients_same = refl;
  register_same = refl;
  next_same = refl;
  keeps = λ b. (Quiet-refl w).keeps b;
}

handle_pair_request-Quiet :
    (now : ℕ) (code : Option String) (a : ℕ) (w : Server)
    → Quiet w (handle_pair_request now code a w)
unfolding handle_pair_request
handle_pair_request-Quiet now none a w = send_error-Quiet a _ _ w
handle_pair_request-Quiet now (some code) a w =
    Quiet-trans (codes-Quiet _ w) (send_json-Quiet a _ _)

complete_pairing-Quiet :
    (a : ℕ) (code id : String) (w : Server) → Quiet w (complete_pairing a code id w)
unfolding complete_pairing
complete_pairing-Quiet a code id w =
    Quiet-trans (with_db-Quiet (get_device_by_id (w.heap a).device_id) w) (
      Quiet-trans (with_db-Quiet (get_device_by_id id) _)
        (Quiet-trans (relink-Quiet a id _ _) (relink_connected-Quiet id _ _ _)))

after_pairing-Quiet :
    (a : ℕ) (code id : String) (r : Result DbError (Unit {0})) (w : Server)
    → Quiet w (after_pairing a code id (r, w))
unfolding after_pairing
after_pairing-Quiet a code id (ok t) w = complete_pairing-Quiet a code id w
after_pairing-Quiet a code id (err already_paired) w = send_error-Quiet a _ _ w
after_pairing-Quiet a code id (err not_found) w = send_error-Quiet a _ _ w
after_pairing-Quiet a code id (err static_key_mismatch) w = send_error-Quiet a _ _ w
after_pairing-Quiet a code id (err driver) w = send_error-Quiet a _ _ w

after_unpair-Quiet :
    (a : ℕ) (id : String) (paired : Bool) (r : Result DbError (Unit {0})) (w : Server)
    → Quiet w (after_unpair a (id, paired) (r, w))
unfolding after_unpair
after_unpair-Quiet a id paired (err e) w = send_error-Quiet a _ _ w
after_unpair-Quiet a id false (ok t) w = relink-Quiet a "" (unpaired id) w
after_unpair-Quiet a id true (ok t) w =
    Quiet-trans (relink-Quiet a "" (unpaired id) w) (relink_connected-Quiet id "" _ _)

handle_pair_accept-Quiet :
    (now : ℕ) (swapped : Bool) (a : ℕ) (msg : ControlMessage) (w : Server)
    → Quiet w (handle_pair_accept now swapped a msg w)
unfolding handle_pair_accept
handle_pair_accept-Quiet now swapped a msg w =
    let taken = take now msg.code w.pair_codes in
    let w' : Server = record w { pair_codes = taken.registry } in
    let q : Quiet w w' = codes-Quiet taken.registry w in
    if-Quiet (msg.code == "") _ _ (send_error-Quiet a _ _ w) (
      if-Quiet taken.ok _ _
        (if-Quiet (taken.requester_id == (w.heap a).device_id) _ _
          (Quiet-trans q (send_error-Quiet a _ _ w'))
          (Quiet-trans q (
            Quiet-trans
              (with_db-Quiet (pair_devices swapped taken.requester_id (w.heap a).device_id) w')
              (after_pairing-Quiet a msg.code taken.requester_id _ _))))
        (if-Quiet taken.expired _ _ (Quiet-trans q (send_error-Quiet a _ _ w'))
          (Quiet-trans q (send_error-Quiet a _ _ w'))))

handle_unpair-Quiet : (a : ℕ) (w : Server) → Quiet w (handle_unpair a w)
unfolding handle_unpair
handle_unpair-Quiet a w =
    Quiet-trans (with_db-Quiet (unpair_device (w.heap a).device_id) w)
      (after_unpair-Quiet a (w.heap a).paired_with _ _ _)

pub handle_control-Quiet :
    (now : ℕ) (code : Option String) (swapped : Bool) (a : ℕ) (msg : Option ControlMessage)
    (w : Server)
    → Quiet w (handle_control now code swapped a msg w)
unfolding handle_control dispatch
handle_control-Quiet now code swapped a none w = send_error-Quiet a _ _ w
handle_control-Quiet now code swapped a (some msg) w =
    if-Quiet (msg.type == "announce_key") _ _ (handle_announce_key-Quiet a msg w) (
      if-Quiet (msg.type == "pair_request") _ _ (handle_pair_request-Quiet now code a w) (
        if-Quiet (msg.type == "pair_accept") _ _ (handle_pair_accept-Quiet now swapped a msg w) (
          if-Quiet (msg.type == "unpair") _ _ (handle_unpair-Quiet a w)
            (if-Quiet (msg.type == "ping") _ _ (send_json-Quiet a _ w) (Quiet-refl w)))))
