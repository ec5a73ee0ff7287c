-- ===== src/Sdk/Waiters.antt =====
-- The waiter of a peer, through the operations of sdk/go/peer.go.
use relayly.Base.{ℕ, ◌≡◌, Bool, true, false, List, arith}
use relayly.Sdk.Noise.{NoiseLib}
use relayly.Sdk.Peer.{
  PeerConn, start_as_initiator, start_rekey_as_initiator, handle_handshake_envelope, respond,
  unsolicited, send, recv,
}

module _ (lib : NoiseLib) where
  pub waiter-start_as_initiator :
      (priv : lib.PrivateKey) (random : ℕ) (p : PeerConn lib)
      → (start_as_initiator lib priv random p).0.first_pair_waiter ≡ p.first_pair_waiter
  unfolding start_as_initiator
  waiter-start_as_initiator priv random p = ground arith

  pub waiter-start_rekey :
      (priv : lib.PrivateKey) (random : ℕ) (p : PeerConn lib)
      → (start_rekey_as_initiator lib priv random p).0.first_pair_waiter ≡ p.first_pair_waiter
  unfolding start_rekey_as_initiator
  waiter-start_rekey priv random p = ground arith

  waiter-respond :
      (pending : Bool) (priv : lib.PrivateKey) (random : ℕ) (payload : List ℕ) (p : PeerConn lib)
      → (respond lib pending priv random payload p).peer.first_pair_waiter ≡ p.first_pair_waiter
  unfolding respond
  waiter-respond pending priv random payload p = ground arith

  pub waiter-handle_handshake_envelope :
      (priv : lib.PrivateKey) (random now : ℕ) (payload : List ℕ) (p : PeerConn lib)
      → (handle_handshake_envelope lib priv random now payload p).peer.first_pair_waiter
        ≡ p.first_pair_waiter
  unfolding handle_handshake_envelope unsolicited
  waiter-handle_handshake_envelope priv random now payload p =
      let q : PeerConn lib = record p { last_unsolicited_msg1 = now } in
      ground (
        arith,
        waiter-respond false priv random payload p,
        waiter-respond true priv random payload q,
      )

  pub waiter-send :
      (text : List ℕ) (p : PeerConn lib)
      → (send lib text p).0.first_pair_waiter ≡ p.first_pair_waiter
  unfolding send
  waiter-send text p = ground arith

  pub waiter-recv :
      (text : List ℕ) (p : PeerConn lib)
      → (recv lib text p).0.first_pair_waiter ≡ p.first_pair_waiter
  unfolding recv
  waiter-recv text p = ground arith
