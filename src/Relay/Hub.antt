-- ===== src/Relay/Hub.antt =====
-- internal/relay/hub.go: the registry of connections and the routing of envelopes.
use relayly.Base.{
  ℕ, ◌≡◌, String, Bool, true, false, Option, none, some, List, [], ◌∷◌, ◌++◌, lookup, insert, erase,
  length, map, ◌==◌, string_eq, nat_eq, if◌then◌else◌,
}
use relayly.PairCodes.{PairCodeRegistry, new_pair_code_registry}
use relayly.Database.{Db}
use relayly.Relay.Client.{Client, ControlMessage, blank, text, binary, peer, enqueue, close}

-- The server's state. Connections are addresses in `heap`; those from `next` on are not in use.
-- `register` and `unregister` are the channels' contents, oldest first.
pub record Server : Type 0 where
  pub heap : ℕ → Client
  pub next : ℕ
  pub clients : List (String × ℕ)
  pub register : List ℕ
  pub unregister : List ℕ
  pub pair_codes : PairCodeRegistry
  pub db : Db

abbrev pub update : (ℕ → Client) → ℕ → (Client → Client) → ℕ → Client
update heap a f b = if b == a then f (heap b) else heap b

abbrev pub at : ℕ → (Client → Client) → Server → Server
at a f w = record w { heap = update w.heap a f }

-- What stands at an address that is not in use.
abbrev pub nobody : Client
nobody = record {
  device_id = "";
  paired_with = "";
  send = [];
  closed = true;
  conn_open = false;
  writing = false;
  wire = [];
}

-- The statements of the driver aside, the two servers are one.
abbrev pub SameServer : Server → Server → Type 0
SameServer v w = v ≡ record w { db = record w.db { faults = v.db.faults } }

unfoldable pub new_hub : Db → Server
new_hub db = record {
  heap = λ a. nobody;
  next = 0;
  clients = [];
  register = [];
  unregister = [];
  pair_codes = new_pair_code_registry;
  db = db;
}

abbrev pub get_client : String → Server → Option ℕ
get_client device_id w = lookup device_id w.clients

-- `sendJSON` on the client at `a`: a frame that the queue refuses is dropped.
unfoldable pub send_json : ℕ → ControlMessage → Server → Server
send_json a message =
    at a (λ c. (enqueue (record { contents = text message; close_after = false }) c).0)

abbrev pub peer_status : String → Bool → ControlMessage
peer_status about online = record blank {
  type = "peer_status";
  peer_id = about;
  online = some online;
}

unfoldable pub notify_peer_status : String → String → Bool → Server → Server
notify_peer_status target about online w = elim (get_client target w) [
  | none ↦ w
  | some a ↦ send_json a (peer_status about online) w
]

-- The status that a client's peer is told, if it has one.
unfoldable pub notify_peer_of : ℕ → Bool → Server → Server
notify_peer_of a online w =
    let c = w.heap a in if (peer c).1 then notify_peer_status (peer c).0 c.device_id online w else w

unfoldable pub close_old : Option ℕ → Server → Server
close_old none w = w
close_old (some old) w = at old close w

-- The `Register` case of `Run`, for the client at `a`.
unfoldable pub run_register : ℕ → Server → Server
run_register a w =
    let id = (w.heap a).device_id in
    let closed = close_old (get_client id w) w in
    notify_peer_of a true (record closed { clients = insert id a closed.clients })

-- Whether the registry has this very connection.
unfoldable pub is_current : ℕ → Server → Bool
is_current a w = elim (get_client (w.heap a).device_id w) [ none ↦ false | some c ↦ c == a ]

-- The `Unregister` case of `Run`.
unfoldable pub run_unregister : ℕ → Server → Server
run_unregister a w =
    if is_current a w
    then notify_peer_of a false (record w { clients = erase (w.heap a).device_id w.clients })
    else w

-- `Route`: a peer that is not connected misses the envelope, one whose queue refuses it is evicted.
unfoldable pub deliver : List ℕ → ℕ → Server → Server
deliver payload a w =
    let r = enqueue (record { contents = binary payload; close_after = false }) (w.heap a) in
    if r.1 then at a (λ c. r.0) w else record (at a close w) { unregister = w.unregister ++ a ∷ [] }

unfoldable pub route : List ℕ → String → Server → Server
route payload paired_device_id w = elim (get_client paired_device_id w) [
  | none ↦ w
  | some a ↦ deliver payload a w
]

unfoldable pub connected_devices : Server → List String
connected_devices w = map (λ e. e.0) w.clients

unfoldable pub connected_count : Server → ℕ
connected_count w = length w.clients
