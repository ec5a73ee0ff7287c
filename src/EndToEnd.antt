-- ===== src/EndToEnd.antt =====
-- A message on its whole way: `Send` of one client (sdk/go/client.go), the relay's readPump, `Route`
-- and writePump (internal/relay), and readLoop of the other client.
pub mod Delivery
mod Tests
use relayly.Base.{ℕ, String, true, List, [], ◌∷◌, length, drop, leb, if◌then◌else◌}
use relayly.Relay.Client.{WsFrame, Contents, text, binary, write_pump}
use relayly.Relay.Hub.{Server, at}
use relayly.Relay.Events.{step, reads_binary, read_fails}
use relayly.Sdk.Noise.{NoiseLib}
use relayly.Sdk.Client.{Client, Base64, Surroundings}
use relayly.Sdk.Frames
use relayly.Sdk.Frames.{send_message, dispatch}

-- readPump on one frame from the connection `x`: one that is longer than the limit ends it.
unfoldable pub reads : ℕ → ℕ → List ℕ → Server → Server
reads limit x frame w =
    if leb (length frame) limit then step (reads_binary x frame) w else step (read_fails x) w

-- The relay reads each frame, and the writePump of the connection `y` makes a round after each.
unfoldable pub relayed : ℕ → ℕ → ℕ → List (List ℕ) → Server → Server
unfolding reads
relayed limit x y [] w = w
relayed limit x y (frame ∷ frames) w =
    relayed limit x y frames (at y (write_pump true) (reads limit x frame w))

module _ (lib : NoiseLib) (base64 : Base64) where
  -- readLoop on one frame from the socket, and on several.
  abbrev pub reads_frame :
      Surroundings lib base64 → Contents → Client lib base64 → Client lib base64
  reads_frame env (text message) c = dispatch lib base64 env.random message c
  reads_frame env (binary frame) c = Frames.read_binary lib base64 env frame c

  unfoldable pub reads_frames :
      Surroundings lib base64 → List WsFrame → Client lib base64 → Client lib base64
  reads_frames env [] c = c
  reads_frames env (frame ∷ frames) c = reads_frames env frames (reads_frame env frame.contents c)

  -- The sender, the relay and the receiver.
  pub record Line : Type 0 where
    pub sender : Client lib base64
    pub relay : Server
    pub receiver : Client lib base64

  -- `id` is the peer that the sender names, `x` its connection and `y` the receiver's; `limit` is
  -- the relay's `MaxMessageBytes`.
  pub record Ends : Type 0 where
    pub id : String
    pub x : ℕ
    pub y : ℕ
    pub limit : ℕ
    pub env : Surroundings lib base64

  -- What one call of `Send` sets off: the frames that it puts on the channel reach the relay, and
  -- those that the relay writes reach the receiver.
  unfoldable pub pass : Ends → List ℕ → Line → Line
  unfolding relayed reads_frames
  pass e message l =
      let sender = (send_message lib base64 e.id message l.sender).0 in
      let relay = relayed e.limit e.x e.y (drop (length l.sender.sends) sender.sends) l.relay in
      let wire = drop (length (l.relay.heap e.y).wire) (relay.heap e.y).wire in
      record { sender = sender; relay = relay; receiver = reads_frames e.env wire l.receiver }

  unfoldable pub passes : Ends → List (List ℕ) → Line → Line
  passes e [] l = l
  passes e (message ∷ messages) l = passes e messages (pass e message l)
