-- ===== src/Relay/Client.antt =====
-- internal/relay/client.go and the message types of control.go: one device's connection.
use relayly.Base.{
  ℕ, String, Bool, true, false, not, ◌&&◌, Option, none, List, [], ◌∷◌, ◌++◌, length, ltb, ◌==◌,
  string_eq, if◌then◌else◌,
}

abbrev pub send_buffer_size : ℕ
send_buffer_size = 256

pub record PeerInfo : Type 0 where
  pub id : String
  pub static_key : String

-- The fields that a message leaves at their zero value are omitted on the wire.
pub record ControlMessage : Type 0 where
  pub type : String
  pub protocol_version : ℕ
  pub device_id : String
  pub peers : List PeerInfo
  pub static_key : String
  pub code : String
  pub expires_in : ℕ
  pub peer_id : String
  pub peer_static_key : String
  pub online : Option Bool
  pub message : String

abbrev pub blank : ControlMessage
blank = record {
  type = "";
  protocol_version = 0;
  device_id = "";
  peers = [];
  static_key = "";
  code = "";
  expires_in = 0;
  peer_id = "";
  peer_static_key = "";
  online = none;
  message = "";
}

-- A text frame stands as the message that its JSON encodes, a binary frame as its bytes.
pub data Contents : Type 0 where
  text : ControlMessage → Contents
  binary : List ℕ → Contents

pub record WsFrame : Type 0 where
  pub contents : Contents
  pub close_after : Bool

-- `writing` says that writePump has not returned, `wire` is what it has written. `conn_open` is
-- false once the server has closed the connection.
pub record Client : Type 0 where
  pub device_id : String
  pub paired_with : String
  pub send : List WsFrame
  pub closed : Bool
  pub conn_open : Bool
  pub writing : Bool
  pub wire : List WsFrame

unfoldable pub new_client : String → String → Client
new_client device_id paired_device_id = record {
  device_id = device_id;
  paired_with = paired_device_id;
  send = [];
  closed = false;
  conn_open = true;
  writing = true;
  wire = [];
}

-- `Peer`: the linked peer's id, and whether there is one.
abbrev pub peer : Client → String × Bool
peer c = (c.paired_with, not (c.paired_with == ""))

unfoldable pub set_peer : String → Client → Client
set_peer id c = record c { paired_with = id }

-- Never blocks: a full or closed queue refuses the frame.
unfoldable pub enqueue : WsFrame → Client → Client × Bool
enqueue frame c =
    if c.closed
    then (c, false)
    else if ltb (length c.send) send_buffer_size
    then (record c { send = c.send ++ frame ∷ [] }, true)
    else (c, false)

-- `close`, idempotent by its `sync.Once`.
unfoldable pub close : Client → Client
close c = if c.closed then c else record c { closed = true; conn_open = false }

-- writePump has taken `frame`; `written` says whether the socket took it.
unfoldable pub write_frame : Bool → WsFrame → Client → Client
write_frame written frame c =
    if written
    then (if frame.close_after
        then record c { wire = c.wire ++ frame ∷ []; conn_open = false; writing = false }
        else record c { wire = c.wire ++ frame ∷ [] })
    else record c { writing = false }

unfoldable pub write_next : Bool → List WsFrame → Client → Client
write_next written [] c = if c.closed then record c { writing = false } else c
write_next written (frame ∷ rest) c = write_frame written frame (record c { send = rest })

-- One round of writePump on its queue: an empty queue waits, unless it is closed. A connection
-- that the server has closed takes no frame.
unfoldable pub write_pump : Bool → Client → Client
unfolding write_next write_frame
write_pump written c = if c.writing then write_next (written && c.conn_open) c.send c else c

-- One round of writePump on its ticker.
unfoldable pub ping : Bool → Client → Client
ping written c = if written && c.conn_open then c else record c { writing = false }
