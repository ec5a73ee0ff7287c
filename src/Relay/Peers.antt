-- ===== src/Relay/Peers.antt =====
-- What the messages of internal/relay do to the peers that connections have cached.
use relayly.Base.{
  ℕ, ◌≡◌, refl, inl, inr, String, false, none, some, arith, ◌==◌, nat_eq, string_eq, if◌then◌else◌,
  Option-cases,
}
use relayly.Relay.Client.{Client, ControlMessage, enqueue, set_peer, WsFrame, text}
use relayly.Relay.Hub.{Server, at, get_client, send_json}
use relayly.Relay.Control.{error_message, send_error, relink, relink_connected}

-- Only `setPeer` changes a connection's peer.
pub enqueue-peer : (frame : WsFrame) (c : Client) → (enqueue frame c).0.paired_with ≡ c.paired_with
unfolding enqueue
enqueue-peer frame c = ground arith

pub peer-send_json :
    (a b : ℕ) (message : ControlMessage) (w : Server)
    → ((send_json a message w).heap b).paired_with ≡ (w.heap b).paired_with
unfolding send_json
peer-send_json a b message w =
    ground
      (arith, enqueue-peer (record { contents = text message; close_after = false }) (w.heap b))

pub db-send_json :
    (a : ℕ) (message : ControlMessage) (w : Server) → (send_json a message w).db ≡ w.db
unfolding send_json
db-send_json a message w = refl

pub peer-relink :
    (a b : ℕ) (id : String) (message : ControlMessage) (w : Server)
    → ((relink a id message w).heap b).paired_with ≡ (if b == a then id else (w.heap b).paired_with)
unfolding relink set_peer
peer-relink a b id message w = ground (arith, peer-send_json a b message (at a (set_peer id) w))

pub relink-rest :
    (a : ℕ) (id : String) (message : ControlMessage) (w : Server)
    → ((relink a id message w).clients ≡ w.clients)
      × ((relink a id message w).db ≡ w.db)
      × ((relink a id message w).pair_codes ≡ w.pair_codes)
unfolding relink send_json
relink-rest a id message w = (refl, refl, refl)

pub peer-relink_connected :
    (k : String) (b : ℕ) (id : String) (message : ControlMessage) (w : Server)
    → ((relink_connected k id message w).heap b).paired_with ≡ (elim (get_client k w) [
      | none ↦ (w.heap b).paired_with
      | some c ↦ if b == c then id else (w.heap b).paired_with
    ])
unfolding relink_connected
peer-relink_connected k b id message w = elim (Option-cases (get_client k w)) [
  | inl e ↦ ground arith
  | inr (c, e) ↦ ground (arith, peer-relink c b id message w)
]

pub relink_connected-rest :
    (k : String) (id : String) (message : ControlMessage) (w : Server)
    → ((relink_connected k id message w).clients ≡ w.clients)
      × ((relink_connected k id message w).db ≡ w.db)
      × ((relink_connected k id message w).pair_codes ≡ w.pair_codes)
unfolding relink_connected
relink_connected-rest k id message w = elim (Option-cases (get_client k w)) [
  | inl e ↦ ground arith
  | inr (c, e) ↦ ground (arith, relink-rest c id message w)
]

pub send_error-peer :
    (a b : ℕ) (code what : String) (w : Server)
    → (((send_error a code what w).heap b).paired_with ≡ (w.heap b).paired_with)
      × ((send_error a code what w).db ≡ w.db)
unfolding send_error
send_error-peer a b code what w =
    (peer-send_json a b (error_message code what) w, db-send_json a (error_message code what) w)
