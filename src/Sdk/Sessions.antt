-- ===== src/Sdk/Sessions.antt =====
-- What one session of sdk/go/noise.go promises, and a peer's choice of session in peer.go.
use relayly.Base.{ℕ, true, false, none, some, List, ◌≡◌, arith}
use relayly.Sdk.Noise.{
  NoiseLib, NoiseSession, handle_handshake_message, read_msg1, read_msg2, read_msg3, write_msg2,
  write_msg3, finish_locked, fail_locked, is_ready, encrypt, decrypt,
}
use relayly.Sdk.Peer.{PeerConn, handle_handshake_envelope, respond, unsolicited, abandon, send}

module _ (lib : NoiseLib) where
  -- A session that is not ready gets ready by a message exactly where that message ends the
  -- handshake without an error.
  pub handle_handshake_message-ready :
      (payload : List ℕ) (s : NoiseSession lib)
      → is_ready lib s ≡ false
      → let h = handle_handshake_message lib payload s in
        is_ready lib h.session ≡ true → (h.error ≡ none) × (h.done ≡ true)
  unfolding handle_handshake_message read_msg1 read_msg2 read_msg3 write_msg2 write_msg3
      finish_locked fail_locked
  handle_handshake_message-ready payload s h r = ground arith

  -- Encryption and decryption leave the session as ready as it was, with the same peer.
  pub encrypt-same :
      (text : List ℕ) (s : NoiseSession lib)
      → (is_ready lib (encrypt lib text s).0 ≡ is_ready lib s)
        × ((encrypt lib text s).0.peer_static ≡ s.peer_static)
  unfolding encrypt
  encrypt-same text s = ground arith

  pub decrypt-same :
      (text : List ℕ) (s : NoiseSession lib)
      → (is_ready lib (decrypt lib text s).0 ≡ is_ready lib s)
        × ((decrypt lib text s).0.peer_static ≡ s.peer_static)
  unfolding decrypt
  decrypt-same text s = ground arith

  -- While a peer's session is ready, no handshake message touches it, whatever the message is and
  -- whether or not a replacement is under way, and giving up the replacement does not either; what
  -- is sent is encrypted by that session.
  pub handle_handshake_envelope_keeps :
      (priv : lib.PrivateKey) (random now : ℕ) (payload text : List ℕ) (p : PeerConn lib)
      (s : NoiseSession lib)
      → p.active ≡ some s
      → is_ready lib s ≡ true
      → let d = handle_handshake_envelope lib priv random now payload p in
        (d.peer.active ≡ some s)
        × ((abandon lib d.peer).active ≡ some s)
        × ((send lib text d.peer).1 ≡ (encrypt lib text s).1)
  unfolding handle_handshake_envelope respond unsolicited abandon send
  handle_handshake_envelope_keeps priv random now payload text p s e r = ground arith
