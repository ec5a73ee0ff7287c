-- ===== src/Sdk/Meanwhile.antt =====
-- sdk/go/client.go: a handshake message among the calls of other goroutines. readLoop holds no lock
-- between the end of `peer.handleHandshakeEnvelope`, which may make the session in use ready, the
-- reply, and `resolveHandshake`, which pins its key.
use relayly.Base.{ℕ, String, Option, none, some, List, [], ◌∷◌, lookup, if◌then◌else◌, string_eq}
use relayly.Sdk.Noise.{NoiseLib, NoiseSession}
use relayly.Sdk.Peer.{PeerConn, Driven, handle_handshake_envelope}
use relayly.Sdk.Client.{
  Client, Base64, PairWaiter, Surroundings, sole_peer, set_peer_conn, enqueue_handshake,
  driven_session, resolve_handshake,
}
use relayly.Sdk.Frames.{Event, sends_message, waits, gives_up, takes_message, step}

module _ (lib : NoiseLib) (base64 : Base64) where
  abbrev State : Type 0
  State = Client lib base64

  -- What goroutines other than readLoop do: `Send`, the waiters of the pairing calls, and the
  -- taking of a message.
  pub data Call : Type 0 where
    sends : String → List ℕ → Call
    registers : String → PairWaiter → Call
    removes : String → Call
    takes : Call

  unfoldable pub event_of : Call → Event lib base64
  event_of (sends id text) = sends_message id text
  event_of (registers key w) = waits key w
  event_of (removes key) = gives_up key
  event_of takes = takes_message

  unfoldable pub calls : List Call → State → State
  calls [] c = c
  calls (x ∷ xs) c = calls xs (step lib base64 (event_of x) c)

  abbrev pub resolve_session :
      Surroundings lib base64
      → String
      → Driven lib
      → PeerConn lib
      → Option (NoiseSession lib)
      → State
      → State
  resolve_session env key d p none c = c
  resolve_session env key d p (some s) c =
      resolve_handshake lib base64 env key d.was_pending s d.error p c

  -- The peer and its session are looked at anew, as Go has pointers to them.
  unfoldable pub end_handshake : Surroundings lib base64 → String → Driven lib → State → State
  end_handshake env key d c =
      if d.completed
      then (elim (lookup key c.peers) [
        | none ↦ c
        | some p ↦ resolve_session env key d p (driven_session lib base64 (record d { peer = p })) c
      ])
      else c

  -- The message with the calls before its reply is queued, and those before it is resolved. What a
  -- call finds within `resolveHandshake` is what it finds before.
  unfoldable pub drive_amid :
      Surroundings lib base64 → String → Driven lib → List Call → List Call → State → State
  drive_amid env key d before_reply before_end c = end_handshake env key d (
      calls before_end (
        enqueue_handshake lib base64 d.reply
          (calls before_reply (set_peer_conn lib base64 key d.peer c))))

  unfoldable pub read_handshake_amid :
      Surroundings lib base64 → List ℕ → List Call → List Call → State → State
  read_handshake_amid env payload before_reply before_end c = elim (sole_peer lib base64 env c) [
    | none ↦ c
    | some p ↦
        drive_amid env env.first
          (handle_handshake_envelope lib c.private_key env.random env.now payload p) before_reply
          before_end c
  ]

  pub data Busy : Type 0 where
    -- with nothing in its middle
    whole : Event lib base64 → Busy
    amid : Surroundings lib base64 → List ℕ → List Call → List Call → Busy

  unfoldable pub busy_step : Busy → State → State
  busy_step (whole e) c = step lib base64 e c
  busy_step (amid env payload xs ys) c = read_handshake_amid env payload xs ys c

  unfoldable pub busy_steps : List Busy → State → State
  busy_steps [] c = c
  busy_steps (b ∷ bs) c = busy_steps bs (busy_step b c)
