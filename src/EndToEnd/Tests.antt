-- ===== src/EndToEnd/Tests.antt =====
-- Two clients and a relay between them: a Noise library that keeps its laws, and instances of the
-- theorems.
use relayly.Base.{
  ℕ, suc, ◌≡◌, refl, Bool, true, false, none, some, List, [], ◌∷◌, ◌==◌, nat_eq, if◌then◌else◌,
  arith, eq_iff, lookup, insert, erase, string_eq, String,
}
use relayly.Sdk.Noise.{
  NoiseLib, NoiseSession, new_initiator_session, new_responder_session, session, ready, encrypt,
  encode_envelope,
}
use relayly.Sdk.Peer.{PeerConn, send}
use relayly.Sdk.Client.{Client, Base64}
use relayly.Sdk.Frames.{send_message}
use relayly.Relay.Client.{Client as Connection}
use relayly.Relay.Hub.{Server, new_hub}
use relayly.EndToEnd.{Ends, Line, pass, passes, relayed}
use relayly.EndToEnd.Delivery.{IsLinked, all_sent, passes_delivers}
use relayly.Sdk.Agreement.{NoiseLaws, Exchange}
use relayly.Sdk.Handshake.{Agrees, handshake-Agrees}

-- A state counts the messages and holds both keys; a message is the writer's key; a text is sealed
-- with its number.
abbrev toy : NoiseLib
toy = record {
  PrivateKey = ℕ;
  HandshakeState = ℕ × (ℕ × List ℕ);
  CipherState = ℕ;
  new_handshake_state = λ initiator priv random. some (0, (priv, []));
  write_message = λ h. ((suc h.0, h.1), some (h.1.0 ∷ [], if h.0 == 2 then some (0, 0) else none));
  read_message =
      λ message h. ((suc h.0, (h.1.0, message)), some (if h.0 == 2 then some (0, 0) else none));
  peer_static = λ h. h.1.1;
  encrypt = λ text c. (suc c, some (c ∷ text));
  decrypt = λ text c. elim text [
    | [] ↦ (c, none)
    | n ∷ rest ↦ (suc c, if n == c then some rest else none)
  ];
}

toy_carries :
    (a b : ℕ) (text ciphertext : List ℕ)
    → a ≡ b
    → (toy.encrypt text a).1 ≡ some ciphertext
    → ((toy.decrypt ciphertext b).1 ≡ some text)
      × ((toy.encrypt text a).0 ≡ (toy.decrypt ciphertext b).0)
toy_carries a b text ciphertext same sealed =
    let is : ciphertext ≡ a ∷ text = ground arith in rw (is, same) (ground arith, refl)

toy-Exchange :
    (priv_i priv_r : ℕ) (i r : ℕ × (ℕ × List ℕ))
    → i ≡ (0, (priv_i, []))
    → r ≡ (0, (priv_r, []))
    → Exchange toy (λ a b. a ≡ b) (priv_i ∷ []) (priv_r ∷ []) i r
toy-Exchange priv_i priv_r i r is_i is_r =
    rw (is_i, is_r)
      (record {
        msg1 = priv_i ∷ [];
        msg2 = priv_r ∷ [];
        msg3 = priv_i ∷ [];
        cs_i = (0, 0);
        cs_r = (0, 0);
        wrote1 = refl;
        read1 = refl;
        wrote2 = refl;
        read2 = refl;
        wrote3 = refl;
        read3 = refl;
        forth = refl;
        back = refl;
        knows_r = refl;
        knows_i = refl;
      })

abbrev toy_laws : NoiseLaws toy
toy_laws = record {
  public_key = λ priv. priv ∷ [];
  Mirrors = λ a b. a ≡ b;
  exchange = λ priv_i priv_r random_i random_r i r new_i new_r.
      toy-Exchange priv_i priv_r i r (ground arith) (ground arith);
  carries = toy_carries;
}

-- Fresh sessions of the keys 5 and 6.
abbrev initiator : NoiseSession toy
initiator = session toy true (1, (5, []))

abbrev responder : NoiseSession toy
responder = session toy false (0, (6, []))

handshake-Agrees_example : Agrees toy toy_laws initiator responder (5 ∷ []) (5 ∷ []) (6 ∷ [])
unfolding new_initiator_session new_responder_session
handshake-Agrees_example =
    handshake-Agrees toy toy_laws 5 6 0 0 initiator responder (5 ∷ []) refl refl

abbrev toy64 : Base64
toy64 = record { encode = λ bytes. "key"; decode = λ text. none }

abbrev linked : Bool → NoiseSession toy
linked first = record (session toy first (3, (5, []))) { status = ready; ciphers = some (0, 0) }

abbrev peer : String → Bool → PeerConn toy
peer id first = record {
  id = id;
  announced_static_key = "";
  active = some (linked first);
  pending = none;
  first_pair_waiter = none;
  last_unsolicited_msg1 = 0;
}

abbrev client : String → String → Bool → Client toy toy64
client id other first = record {
  device_id = id;
  private_key = 5;
  peer_store = record { peers = []; disk = none };
  peers = (other, peer other first) ∷ [];
  messages = [];
  sends = [];
  pair_waiters = [];
  results = [];
  readied = [];
}

-- The connection of `a` at 0 and that of `b` at 1.
abbrev connection : String → String → Connection
connection id other = record {
  device_id = id;
  paired_with = other;
  send = [];
  closed = false;
  conn_open = true;
  writing = true;
  wire = [];
}

abbrev server : Server
server = record (new_hub (record { contents = []; faults = [] })) {
  heap = λ a. if a == 0 then connection "a" "b" else connection "b" "a";
  next = 2;
  clients = ("a", 0) ∷ ("b", 1) ∷ [];
}

abbrev ends : Ends toy toy64
ends = record {
  id = "b";
  x = 0;
  y = 1;
  limit = 65536;
  env = record { now = 0; date = ""; saves = true; random = 0; first = "a" };
}

abbrev line : Line toy toy64
line = record { sender = client "a" "b" true; relay = server; receiver = client "b" "a" false }

line-IsLinked : IsLinked toy toy_laws toy64 ends line
unfolding lookup new_hub
line-IsLinked = record {
  p = peer "b" true;
  q = peer "a" false;
  s = linked true;
  t = linked false;
  knows_q = refl;
  uses_s = refl;
  knows_p = refl;
  uses_t = refl;
  joined = record {
    s_ready = refl;
    t_ready = refl;
    cs_s = (0, 0);
    cs_t = (0, 0);
    has_s = refl;
    has_t = refl;
    forth = refl;
    back = refl;
  };
  reading = refl;
  apart = ground arith;
  paired = ground (arith, eq_iff "b" "");
  registered = refl;
  running = refl;
  opened = refl;
  writing = refl;
  written = refl;
}

passes_delivers_example :
    (passes toy toy64 ends ((7 ∷ []) ∷ (8 ∷ []) ∷ []) line).receiver.messages
    ≡ record { sender = "a"; payload = 7 ∷ [] } ∷ record { sender = "a"; payload = 8 ∷ [] } ∷ []
unfolding all_sent send_message send encrypt pass passes lookup insert erase relayed encode_envelope
    line-IsLinked
passes_delivers_example =
    (passes_delivers toy toy_laws toy64 ends ((7 ∷ []) ∷ (8 ∷ []) ∷ []) line line-IsLinked refl
      (omega arith)).0
