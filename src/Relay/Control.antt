-- ===== src/Relay/Control.antt =====
-- internal/relay/control.go: the JSON control channel. What the source reads from outside is an
-- argument: the parsed message (`none` where the JSON is invalid), the generated pairing code
-- (`none` where the random source fails), the clock, and the order of Go's walk over a map.
use relayly.Base.{
  ℕ, ◌/◌, String, Bool, true, Option, none, some, List, [], ◌∷◌, Result, ok, err, ◌==◌, string_eq,
  nat_eq, if◌then◌else◌, is_some,
}
use relayly.Pairing.{pairing_code_ttl}
use relayly.PairCodes.{put, take}
use relayly.Database.{
  Device, DbError, not_found, already_paired, static_key_mismatch, Query, get_device_by_id,
  pair_devices, unpair_device, set_static_key_if_unset,
}
use relayly.Relay.Client.{
  Client, ControlMessage, PeerInfo, WsFrame, blank, text, enqueue, close, peer, set_peer,
}
use relayly.Relay.Hub.{Server, at, send_json, get_client, peer_status}

abbrev pub protocol_version : ℕ
protocol_version = 1

abbrev pub error_message : String → String → ControlMessage
error_message code message = record blank { type = "error"; code = code; message = message }

unfoldable pub send_error : ℕ → String → String → Server → Server
send_error a code message = send_json a (error_message code message)

-- The client closes at once where the frame cannot be queued.
unfoldable pub closing : WsFrame → Client → Client
closing frame c = let r = enqueue frame c in if r.1 then r.0 else close c

unfoldable pub send_error_and_close : ℕ → String → String → Server → Server
send_error_and_close a code message =
    at a (closing (record { contents = text (error_message code message); close_after = true }))

-- A database operation on the server's database: its result, and the server after it.
abbrev pub with_db : {A : Type 0} → Query A → Server → Result DbError A × Server
with_db op w = let r = op w.db in (r.0, record w { db = r.1 })

-- The key that a lookup of a device gives, empty where the lookup fails.
abbrev pub key_or_empty : Result DbError Device → String
key_or_empty (ok d) = d.static_key
key_or_empty (err e) = ""

abbrev pub welcome : String → List PeerInfo → ControlMessage
welcome device_id peers = record blank {
  type = "welcome";
  protocol_version = protocol_version;
  device_id = device_id;
  peers = peers;
}

unfoldable pub send_welcome : ℕ → Device → Server → Server
send_welcome a device w =
    let my_id = (w.heap a).device_id in
    elim device.paired_with [
      | none ↦ send_json a (welcome my_id []) w
      | some p ↦
          let (found, w') = with_db (get_device_by_id p) w in
          let sent =
            send_json a (welcome my_id (record { id = p; static_key = key_or_empty found } ∷ []))
              w' in
          send_json a (peer_status p (is_some (get_client p sent))) sent
    ]

unfoldable pub after_announce : ℕ → Result DbError (Unit {0}) × Server → Server
after_announce a (ok t, w) = w
after_announce a (err static_key_mismatch, w) =
    send_error_and_close a "key_mismatch"
      "announced static key does not match the key locked on first connection" w
after_announce a (err e, w) = send_error a "internal" "internal error" w

unfoldable pub handle_announce_key : ℕ → ControlMessage → Server → Server
handle_announce_key a msg w =
    if msg.static_key == ""
    then send_error a "malformed" "announce_key requires static_key" w
    else after_announce a (with_db (set_static_key_if_unset (w.heap a).device_id msg.static_key) w)

unfoldable pub handle_pair_request : ℕ → Option String → ℕ → Server → Server
handle_pair_request now none a w = send_error a "internal" "internal error" w
handle_pair_request now (some code) a w =
    send_json a
      (record blank {
        type = "pair_code";
        code = code;
        expires_in = pairing_code_ttl / 1_000_000_000;
      })
      (record w { pair_codes = put now code (w.heap a).device_id pairing_code_ttl w.pair_codes })

abbrev pub pair_complete : String → String → String → ControlMessage
pair_complete code peer_id key = record blank {
  type = "pair_complete";
  code = code;
  peer_id = peer_id;
  peer_static_key = key;
}

-- `setPeer` and `sendJSON` on one client.
unfoldable pub relink : ℕ → String → ControlMessage → Server → Server
relink a peer_id message w = send_json a message (at a (set_peer peer_id) w)

-- The same on the client that is connected as the device, if one is.
unfoldable pub relink_connected : String → String → ControlMessage → Server → Server
relink_connected id peer_id message w = elim (get_client id w) [
  | none ↦ w
  | some b ↦ relink b peer_id message w
]

-- Both connected clients learn of the link that the database now has.
unfoldable pub complete_pairing : ℕ → String → String → Server → Server
complete_pairing a code requester_id w =
    let my_id = (w.heap a).device_id in
    let (me, w₁) = with_db (get_device_by_id my_id) w in
    let (requester, w₂) = with_db (get_device_by_id requester_id) w₁ in
    relink_connected requester_id my_id (pair_complete code my_id (key_or_empty me))
      (relink a requester_id (pair_complete code requester_id (key_or_empty requester)) w₂)

unfoldable pub after_pairing : ℕ → String → String → Result DbError (Unit {0}) × Server → Server
after_pairing a code requester_id (ok t, w) = complete_pairing a code requester_id w
after_pairing a code requester_id (err already_paired, w) =
    send_error a "already_paired" "one of the devices is already paired" w
after_pairing a code requester_id (err not_found, w) =
    send_error a "invalid_code" "requesting device no longer exists" w
after_pairing a code requester_id (err e, w) = send_error a "internal" "internal error" w

unfoldable pub handle_pair_accept : ℕ → Bool → ℕ → ControlMessage → Server → Server
handle_pair_accept now swapped a msg w =
    let taken = take now msg.code w.pair_codes in
    let w' : Server = record w { pair_codes = taken.registry } in
    let my_id = (w.heap a).device_id in
    if msg.code == ""
    then send_error a "malformed" "pair_accept requires code" w
    else if taken.ok
    then (if taken.requester_id == my_id
        then send_error a "invalid_code" "cannot pair with yourself" w'
        else after_pairing a msg.code taken.requester_id
            (with_db (pair_devices swapped taken.requester_id my_id) w'))
    else if taken.expired
    then send_error a "code_expired" "pairing code has expired" w'
    else send_error a "invalid_code" "unknown pairing code" w'

abbrev pub unpaired : String → ControlMessage
unpaired id = record blank { type = "unpaired"; peer_id = id }

unfoldable pub after_unpair : ℕ → String × Bool → Result DbError (Unit {0}) × Server → Server
after_unpair a (peer_id, was_paired) (err e, w) = send_error a "internal" "internal error" w
after_unpair a (peer_id, was_paired) (ok t, w) =
    let told = relink a "" (unpaired peer_id) w in
    if was_paired then relink_connected peer_id "" (unpaired (w.heap a).device_id) told else told

unfoldable pub handle_unpair : ℕ → Server → Server
handle_unpair a w =
    after_unpair a (peer (w.heap a)) (with_db (unpair_device (w.heap a).device_id) w)

unfoldable pub dispatch : ℕ → Option String → Bool → ℕ → ControlMessage → Server → Server
dispatch now code swapped a msg w =
    if msg.type == "announce_key"
    then handle_announce_key a msg w
    else if msg.type == "pair_request"
    then handle_pair_request now code a w
    else if msg.type == "pair_accept"
    then handle_pair_accept now swapped a msg w
    else if msg.type == "unpair"
    then handle_unpair a w
    else if msg.type == "ping"
    then send_json a (record blank { type = "pong" }) w
    else w

unfoldable pub handle_control :
    ℕ → Option String → Bool → ℕ → Option ControlMessage → Server → Server
handle_control now code swapped a none w = send_error a "malformed" "invalid JSON control frame" w
handle_control now code swapped a (some msg) w = dispatch now code swapped a msg w
