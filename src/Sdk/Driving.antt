-- ===== src/Sdk/Driving.antt =====
-- What a handshake message does to a peer of sdk/go (`handleHandshakeEnvelope` of peer.go), and what
-- `verifyAndPin` (client.go) does to the pins.
use relayly.Base.{
  ℕ, String, true, false, none, some, List, ok, err, string_eq, ◌≡◌, ◌≢◌, ◌⊎◌, arith, eq_iff, inl,
  inr, Option-cases,
}
use relayly.Sdk.PeerStore.{PeerStore, get}
use relayly.Sdk.Pins.{pin_or_verify_lem, pin_or_verify-keeps, pin_or_verify-pins}
use relayly.Sdk.Noise.{NoiseLib, NoiseSession, new_responder_session, is_ready}
use relayly.Sdk.Peer.{PeerConn, handle_handshake_envelope, respond, unsolicited}
use relayly.Sdk.Client.{Base64, Surroundings, verify_and_pin, cross_check, key_mismatch}
use relayly.Sdk.Sessions.{handle_handshake_message-ready}

module _ (lib : NoiseLib) (base64 : Base64) where
  -- What a handshake message does to the peer: a replacement leaves the session in use, and the
  -- session in use gets ready only where the message ends its handshake without an error.
  pub driven-id :
      (priv : lib.PrivateKey) (random now : ℕ) (payload : List ℕ) (p : PeerConn lib)
      → (handle_handshake_envelope lib priv random now payload p).peer.id ≡ p.id
  unfolding handle_handshake_envelope respond unsolicited
  driven-id priv random now payload p = ground arith

  pub driven-pending :
      (priv : lib.PrivateKey) (random now : ℕ) (payload : List ℕ) (p : PeerConn lib)
      → let d = handle_handshake_envelope lib priv random now payload p in
        d.was_pending ≡ true → d.peer.active ≡ p.active
  unfolding handle_handshake_envelope respond unsolicited
  driven-pending priv random now payload p h = ground arith

  respond-active :
      (priv : lib.PrivateKey) (random : ℕ) (payload : List ℕ) (p : PeerConn lib)
      → let d = respond lib false priv random payload p in
        (s : NoiseSession lib)
        → d.peer.active ≡ some s
        → is_ready lib s ≡ true
        → (d.peer.active ≡ p.active) ⊎ ((d.error ≡ none) × (d.completed ≡ true))
  unfolding respond new_responder_session
  respond-active priv random payload p s a r =
      elim (Option-cases (new_responder_session lib priv random)) [
        | inl e ↦ ground arith
        | inr (t, e) ↦ ground (arith, handle_handshake_message-ready lib payload t)
      ]

  pub driven-active :
      (priv : lib.PrivateKey) (random now : ℕ) (payload : List ℕ) (p : PeerConn lib)
      → let d = handle_handshake_envelope lib priv random now payload p in
        d.was_pending ≡ false
        → (s : NoiseSession lib) → d.peer.active ≡ some s
        → is_ready lib s ≡ true
        → (d.peer.active ≡ p.active) ⊎ ((d.error ≡ none) × (d.completed ≡ true))
  unfolding handle_handshake_envelope respond unsolicited
  driven-active priv random now payload p h s a r = elim (Option-cases p.pending) [
    | inr (t, e) ↦ ground arith
    | inl e ↦ elim (Option-cases p.active) [
      | inl f ↦ ground (arith, respond-active priv random payload p s)
      | inr (t, f) ↦ ground (arith, handle_handshake_message-ready lib payload t)
    ]
  ]

  pub verify_and_pin-keeps :
      (env : Surroundings lib base64) (p : PeerConn lib) (s : NoiseSession lib) (store : PeerStore)
      (id key : String)
      → get id store ≡ some key
      → get id (verify_and_pin lib base64 env p s store).1 ≡ some key
  unfolding verify_and_pin
  verify_and_pin-keeps env p s store id key h = ground (
    arith,
    pin_or_verify-keeps env.saves env.date p.id (base64.encode s.peer_static) id key store h,
  )

  pub verify_and_pin-pins :
      (env : Surroundings lib base64) (p : PeerConn lib) (s : NoiseSession lib) (store : PeerStore)
      (raw : List ℕ)
      → (verify_and_pin lib base64 env p s store).0 ≡ ok raw
      → get p.id (verify_and_pin lib base64 env p s store).1 ≡ some (base64.encode s.peer_static)
  unfolding verify_and_pin
  verify_and_pin-pins env p s store raw h =
      ground (arith, pin_or_verify-pins env.saves env.date p.id (base64.encode s.peer_static) store)

  -- The key of a handshake that contradicts the key that the server announced is refused, but it is
  -- pinned all the same if the peer had no pin and the disk takes it.
  pub verify_and_pin_announced :
      (env : Surroundings lib base64) (p : PeerConn lib) (s : NoiseSession lib) (store : PeerStore)
      → p.announced_static_key ≢ ""
      → p.announced_static_key ≢ base64.encode s.peer_static
      → get p.id store ≡ none
      → env.saves ≡ true
      → let v = verify_and_pin lib base64 env p s store in
        (v.0 ≡ err key_mismatch) × (get p.id v.1 ≡ some (base64.encode s.peer_static))
  unfolding verify_and_pin cross_check
  verify_and_pin_announced env p s store filled other fresh saves = ground (
    arith,
    eq_iff p.announced_static_key "",
    eq_iff p.announced_static_key (base64.encode s.peer_static),
    eq_iff p.id p.id,
    pin_or_verify_lem env.saves env.date p.id (base64.encode s.peer_static) p.id store,
  )
