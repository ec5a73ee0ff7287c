-- ===== src/Sdk/Noise.antt =====
-- sdk/go/noise.go: the envelopes of binary frames, and one session of the Noise XX handshake. The
-- Noise library (github.com/flynn/noise) is a parameter; of its keys and states nothing is assumed.
use relayly.Base.{
  ℕ, Bool, true, false, Option, none, some, List, [], ◌∷◌, Result, ok, err, if◌then◌else◌,
}

abbrev pub envelope_handshake : ℕ
envelope_handshake = 1

abbrev pub envelope_transport : ℕ
envelope_transport = 2

unfoldable pub encode_envelope : ℕ → List ℕ → List ℕ
encode_envelope kind payload = kind ∷ payload

unfoldable pub decode_envelope : List ℕ → Option (ℕ × List ℕ)
decode_envelope [] = none
decode_envelope (kind ∷ payload) = some (kind, payload)

-- What the source uses of the Noise library. A handshake state is made for a role and a static key
-- pair with a source of random bytes; a message read or written may fail, and gives two cipher
-- states where it ends the handshake. A cipher state changes with its use.
pub record NoiseLib : Type 1 where
  pub PrivateKey : Type 0
  pub HandshakeState : Type 0
  pub CipherState : Type 0
  pub new_handshake_state : Bool → PrivateKey → ℕ → Option HandshakeState
  pub write_message :
      HandshakeState → HandshakeState × Option (List ℕ × Option (CipherState × CipherState))
  pub read_message :
      List ℕ → HandshakeState → HandshakeState × Option (Option (CipherState × CipherState))
  pub peer_static : HandshakeState → List ℕ
  pub encrypt : List ℕ → CipherState → CipherState × Option (List ℕ)
  pub decrypt : List ℕ → CipherState → CipherState × Option (List ℕ)

pub data SessionStatus : Type 0 where
  handshaking ready failed : SessionStatus

-- The errors of a session by where they come from; `unverified` stands for what `verifyAndPin`
-- reports.
pub data SessionError : Type 0 where
  reading_msg1 writing_msg2 reading_msg2 writing_msg3 reading_msg3 : SessionError
  finished not_ready cipher starting unverified : SessionError

module _ (lib : NoiseLib) where
  -- The cipher states and the peer's key stand once the handshake has ended well.
  pub record NoiseSession : Type 0 where
    pub status : SessionStatus
    pub error : Option SessionError
    pub initiator : Bool
    pub hs : lib.HandshakeState
    pub got_msg1 : Bool
    pub ciphers : Option (lib.CipherState × lib.CipherState)
    pub peer_static : List ℕ

  abbrev pub session : Bool → lib.HandshakeState → NoiseSession
  session initiator hs = record {
    status = handshaking;
    error = none;
    initiator = initiator;
    hs = hs;
    got_msg1 = false;
    ciphers = none;
    peer_static = [];
  }

  -- A session with the first message to send.
  unfoldable pub new_initiator_session : lib.PrivateKey → ℕ → Option (NoiseSession × List ℕ)
  new_initiator_session priv random = elim (lib.new_handshake_state true priv random) [
    | none ↦ none
    | some hs ↦ elim (lib.write_message hs).1 [
      | none ↦ none
      | some m ↦ some (session true (lib.write_message hs).0, m.0)
    ]
  ]

  unfoldable pub new_responder_session : lib.PrivateKey → ℕ → Option NoiseSession
  new_responder_session priv random = elim (lib.new_handshake_state false priv random) [
    | none ↦ none
    | some hs ↦ some (session false hs)
  ]

  -- `finishLocked`: the cipher states to send and to receive with, if the library gave them.
  unfoldable pub finish_locked :
      Option (lib.CipherState × lib.CipherState) → NoiseSession → NoiseSession
  finish_locked ciphers s = record s {
    ciphers = ciphers;
    peer_static = lib.peer_static s.hs;
    status = ready;
  }

  unfoldable pub fail_locked : SessionError → NoiseSession → NoiseSession
  fail_locked e s = elim s.status [
    | failed ↦ s
    | handshaking ↦ record s { status = failed; error = some e }
    | ready ↦ record s { status = failed; error = some e }
  ]

  -- The results `reply`, `done` and `err`, and the session after the call.
  pub record Handled : Type 0 where
    pub reply : Option (List ℕ)
    pub done : Bool
    pub error : Option SessionError
    pub session : NoiseSession

  abbrev failing : SessionError → NoiseSession → Handled
  failing e s = record { reply = none; done = true; error = some e; session = fail_locked e s }

  -- The initiator has read msg2 and writes msg3; it sends with the first cipher state.
  unfoldable pub write_msg3 : NoiseSession → Handled
  write_msg3 s =
      let w = lib.write_message s.hs in
      let t : NoiseSession = record s { hs = w.0 } in
      elim w.1 [
        | none ↦ failing writing_msg3 t
        | some m ↦ record {
          reply = some m.0;
          done = true;
          error = none;
          session = finish_locked m.1 t;
        }
      ]

  unfoldable pub read_msg2 : List ℕ → NoiseSession → Handled
  read_msg2 data_read s =
      let r = lib.read_message data_read s.hs in
      let t : NoiseSession = record s { hs = r.0 } in
      elim r.1 [ none ↦ failing reading_msg2 t | some m ↦ write_msg3 t ]

  unfoldable pub write_msg2 : NoiseSession → Handled
  write_msg2 s =
      let w = lib.write_message s.hs in
      let t : NoiseSession = record s { hs = w.0 } in
      elim w.1 [
        | none ↦ failing writing_msg2 t
        | some m ↦ record { reply = some m.0; done = false; error = none; session = t }
      ]

  unfoldable pub read_msg1 : List ℕ → NoiseSession → Handled
  read_msg1 data_read s =
      let r = lib.read_message data_read s.hs in
      let t : NoiseSession = record s { hs = r.0 } in
      elim r.1 [
        | none ↦ failing reading_msg1 t
        | some m ↦ write_msg2 (record t { got_msg1 = true })
      ]

  -- The responder sends with the second cipher state and receives with the first.
  abbrev pub swap :
      Option (lib.CipherState × lib.CipherState) → Option (lib.CipherState × lib.CipherState)
  swap none = none
  swap (some (a, b)) = some (b, a)

  unfoldable pub read_msg3 : List ℕ → NoiseSession → Handled
  read_msg3 data_read s =
      let r = lib.read_message data_read s.hs in
      let t : NoiseSession = record s { hs = r.0 } in
      elim r.1 [
        | none ↦ failing reading_msg3 t
        | some m ↦ record {
          reply = none;
          done = true;
          error = none;
          session = finish_locked (swap m) t;
        }
      ]

  abbrev pub is_handshaking : SessionStatus → Bool
  is_handshaking handshaking = true
  is_handshaking ready = false
  is_handshaking failed = false

  abbrev pub is_ready : NoiseSession → Bool
  is_ready s = elim s.status [ handshaking ↦ false | ready ↦ true | failed ↦ false ]

  unfoldable pub handle_handshake_message : List ℕ → NoiseSession → Handled
  handle_handshake_message data_read s =
      if is_handshaking s.status
      then (if s.initiator
          then read_msg2 data_read s
          else if s.got_msg1
          then read_msg3 data_read s
          else read_msg1 data_read s)
      else record { reply = none; done = true; error = some finished; session = s }

  -- The session after the call, and the text. A cipher state that the library did not give, on
  -- which Go would panic, is an error here.
  unfoldable pub encrypt : List ℕ → NoiseSession → NoiseSession × Result SessionError (List ℕ)
  encrypt plaintext s =
      if is_ready s
      then (elim s.ciphers [
        | none ↦ (s, err cipher)
        | some cs ↦
            let r = lib.encrypt plaintext cs.0 in
            (
              record s { ciphers = some (r.0, cs.1) },
              elim r.1 [ none ↦ err cipher | some c ↦ ok c ],
            )
      ])
      else (s, err not_ready)

  unfoldable pub decrypt : List ℕ → NoiseSession → NoiseSession × Result SessionError (List ℕ)
  decrypt ciphertext s =
      if is_ready s
      then (elim s.ciphers [
        | none ↦ (s, err cipher)
        | some cs ↦
            let r = lib.decrypt ciphertext cs.1 in
            (
              record s { ciphers = some (cs.0, r.0) },
              elim r.1 [ none ↦ err cipher | some c ↦ ok c ],
            )
      ])
      else (s, err not_ready)
