-- ===== src/Sdk/Dialing.antt =====
-- sdk/go/client.go and options.go: `Connect` and `dial`. What the network, the URL parser, the key
-- derivation and the peer store's file do is an argument.
use relayly.Base.{
  ℕ, String, Bool, true, false, not, Option, none, some, List, [], ◌∷◌, Result, ok, err, ◌==◌,
  string_eq, nat_eq, if◌then◌else◌,
}
use relayly.Relay.Client.{ControlMessage, PeerInfo, blank}
use relayly.Sdk.PeerStore.{PeerStore, PinnedPeer, load_peer_store}
use relayly.Sdk.Noise.{NoiseLib}
use relayly.Sdk.Client.{Client, Base64}
use relayly.Sdk.Frames.{apply_welcome_peers}

pub data DialError : Type 0 where
  invalid_options invalid_url peer_store connecting reading_welcome : DialError
  not_text invalid_welcome deriving_key announcing : DialError
  authentication_failed : String → String → DialError
  unexpected_type : String → DialError
  unsupported_version : ℕ → DialError

-- What `ReadMessage` and the JSON parser make of the first frame.
pub data FirstFrame : Type 0 where
  unread binary_frame malformed : FirstFrame
  text_frame : ControlMessage → FirstFrame

pub record Dialer : Type 0 where
  pub parses_url : Bool
  pub connects : Bool
  pub first : FirstFrame
  pub public_key : Option (List ℕ)
  pub announces : Bool

-- The connection that has been made: whether it is open, and what was written to it.
pub record Socket : Type 0 where
  pub is_open : Bool
  pub written : List ControlMessage

abbrev pub closed_socket : Socket
closed_socket = record { is_open = false; written = [] }

abbrev pub protocol_version : ℕ
protocol_version = 1

unfoldable pub check_welcome : ControlMessage → Result DialError (List PeerInfo)
check_welcome welcome =
    if welcome.type == "error"
    then err (authentication_failed welcome.message welcome.code)
    else if not (welcome.type == "welcome")
    then err (unexpected_type welcome.type)
    else if not (welcome.protocol_version == protocol_version)
    then err (unsupported_version welcome.protocol_version)
    else ok welcome.peers

unfoldable pub read_welcome : FirstFrame → Result DialError (List PeerInfo)
unfolding check_welcome
read_welcome unread = err reading_welcome
read_welcome binary_frame = err not_text
read_welcome malformed = err invalid_welcome
read_welcome (text_frame welcome) = check_welcome welcome

abbrev pub announce_key : String → ControlMessage
announce_key key = record blank { type = "announce_key"; static_key = key }

module _ (lib : NoiseLib) (base64 : Base64) where
  pub record Dialed : Type 0 where
    pub result : Result DialError (Unit {0})
    pub client : Client lib base64
    pub socket : Option Socket

  abbrev failing : DialError → Client lib base64 → Dialed
  failing e c = record { result = err e; client = c; socket = some closed_socket }

  -- The end of `dial`.
  unfoldable pub announce : Dialer → Client lib base64 → Dialed
  announce d c = elim d.public_key [
    | none ↦ failing deriving_key c
    | some pub_key ↦
        if d.announces
        then record {
          result = ok tt;
          client = c;
          socket =
              some (record { is_open = true; written = announce_key (base64.encode pub_key) ∷ [] });
        }
        else failing announcing c
  ]

  unfoldable pub dial : Dialer → Client lib base64 → Dialed
  dial d c =
      if not d.parses_url
      then record { result = err invalid_url; client = c; socket = none }
      else if not d.connects
      then record { result = err connecting; client = c; socket = none }
      else (elim (read_welcome d.first) [
        | err e ↦ failing e c
        | ok peers ↦ announce d (apply_welcome_peers lib base64 peers c)
      ])

  pub record Options : Type 0 where
    pub device_id : String
    pub device_token : String
    pub private_key : lib.PrivateKey
    pub peer_store_path : String

  unfoldable pub validate : Options → Bool
  validate o = if o.device_id == "" then false else not (o.device_token == "")

  -- `DefaultPeerStorePath`
  unfoldable pub peer_store_path : Options → String
  peer_store_path o = if o.peer_store_path == "" then "~/.relayly/peers.json" else o.peer_store_path

  -- The scheme with which the server's URL is dialled.
  unfoldable pub ws_scheme : String → String
  ws_scheme scheme = if scheme == "http" then "ws" else if scheme == "https" then "wss" else scheme

  abbrev pub new_client : Options → PeerStore → Client lib base64
  new_client o store = record {
    device_id = o.device_id;
    private_key = o.private_key;
    peer_store = store;
    peers = [];
    messages = [];
    sends = [];
    pair_waiters = [];
    results = [];
    readied = [];
  }

  -- `Connect`, from whether the URL parses, what the peer store's file has, where it can be read,
  -- and how dialling goes. The client is given where it is connected.
  unfoldable pub connect :
      Options
      → Bool
      → (String → Option (Option (List (String × PinnedPeer))))
      → Dialer
      → Result DialError (Client lib base64)
  connect o parses stores d =
      if not (validate o)
      then err invalid_options
      else if not parses
      then err invalid_url
      else (elim (stores (peer_store_path o)) [
        | none ↦ err peer_store
        | some file ↦
            let r = dial d (new_client o (load_peer_store file)) in
            elim r.result [ err e ↦ err e | ok u ↦ ok r.client ]
      ])
