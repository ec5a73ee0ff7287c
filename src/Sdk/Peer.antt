-- ===== src/Sdk/Peer.antt =====
-- sdk/go/peer.go: what a client knows of one peer, with the session in use and its replacement. The
-- goroutine that reads frames is the only one to change `active` and `pending`, so a session is
-- known by the field it stands in.
use relayly.Base.{
  ℕ, ◌-◌, String, Bool, true, false, Option, none, some, List, Result, err, ltb, if◌then◌else◌,
}
use relayly.Sdk.Noise.{
  NoiseLib, NoiseSession, SessionError, starting, not_ready, new_initiator_session,
  new_responder_session, handle_handshake_message, is_ready, encrypt, decrypt,
}

-- Two seconds in nanoseconds.
abbrev pub unsolicited_msg1_min_interval : ℕ
unsolicited_msg1_min_interval = 2_000_000_000

module _ (lib : NoiseLib) where
  -- Times are nanoseconds from Go's zero time; a waiter is the number of its channel.
  pub record PeerConn : Type 0 where
    pub id : String
    pub announced_static_key : String
    pub active : Option (NoiseSession lib)
    pub pending : Option (NoiseSession lib)
    pub first_pair_waiter : Option ℕ
    pub last_unsolicited_msg1 : ℕ

  abbrev pub set_first_pair_waiter : ℕ → PeerConn → PeerConn
  set_first_pair_waiter channel p = record p { first_pair_waiter = some channel }

  -- The waiter, which is taken away.
  abbrev pub take_first_pair_waiter : PeerConn → Option ℕ × PeerConn
  take_first_pair_waiter p = (p.first_pair_waiter, record p { first_pair_waiter = none })

  unfoldable pub new_peer_conn : String → String → PeerConn
  new_peer_conn id announced_static_key = record {
    id = id;
    announced_static_key = announced_static_key;
    active = none;
    pending = none;
    first_pair_waiter = none;
    last_unsolicited_msg1 = 0;
  }

  -- The msg1 to send, where the library makes one; `random` is what the session draws on.
  unfoldable pub start_as_initiator : lib.PrivateKey → ℕ → PeerConn → PeerConn × Option (List ℕ)
  start_as_initiator priv random p = elim (new_initiator_session lib priv random) [
    | none ↦ (p, none)
    | some (s, msg1) ↦ (record p { active = some s }, some msg1)
  ]

  unfoldable pub start_rekey_as_initiator :
      lib.PrivateKey → ℕ → PeerConn → PeerConn × Option (List ℕ)
  start_rekey_as_initiator priv random p = elim (new_initiator_session lib priv random) [
    | none ↦ (p, none)
    | some (s, msg1) ↦ (record p { pending = some s }, some msg1)
  ]

  -- The results `reply`, whether `completed` is set, `wasPending` and `err`, and the peer.
  pub record Driven : Type 0 where
    pub reply : Option (List ℕ)
    pub completed : Bool
    pub was_pending : Bool
    pub error : Option SessionError
    pub peer : PeerConn

  -- The message is fed to a session, which stands in `active` or in `pending`.
  abbrev drive : Bool → List ℕ → NoiseSession lib → PeerConn → Driven
  drive was_pending payload s p =
      let h = handle_handshake_message lib payload s in
      record {
        reply = h.reply;
        completed = h.done;
        was_pending = was_pending;
        error = h.error;
        peer =
            if was_pending
            then record p { pending = some h.session }
            else record p { active = some h.session };
      }

  abbrev nothing : Option SessionError → PeerConn → Driven
  nothing e p = record { reply = none; completed = false; was_pending = false; error = e; peer = p }

  -- With a new responder session.
  unfoldable pub respond : Bool → lib.PrivateKey → ℕ → List ℕ → PeerConn → Driven
  respond was_pending priv random payload p = elim (new_responder_session lib priv random) [
    | none ↦ nothing (some starting) p
    | some s ↦ drive was_pending payload s p
  ]

  -- An unsolicited msg1 on a healthy connection.
  unfoldable pub unsolicited : lib.PrivateKey → ℕ → ℕ → List ℕ → PeerConn → Driven
  unsolicited priv random now payload p =
      if ltb (now - p.last_unsolicited_msg1) unsolicited_msg1_min_interval
      then nothing none p
      else respond true priv random payload (record p { last_unsolicited_msg1 = now })

  unfoldable pub handle_handshake_envelope : lib.PrivateKey → ℕ → ℕ → List ℕ → PeerConn → Driven
  handle_handshake_envelope priv random now payload p = elim p.pending [
    | some s ↦ drive true payload s p
    | none ↦ elim p.active [
      | none ↦ respond false priv random payload p
      | some s ↦
          if is_ready lib s then unsolicited priv random now payload p else drive false payload s p
    ]
  ]

  -- A completed replacement takes the place of the session in use.
  unfoldable pub promote : PeerConn → PeerConn
  promote p = record p { active = p.pending; pending = none }

  unfoldable pub abandon : PeerConn → PeerConn
  abandon p = record p { pending = none }

  abbrev put_active :
      PeerConn
      → NoiseSession lib × Result SessionError (List ℕ)
      → PeerConn × Result SessionError (List ℕ)
  put_active p (s, r) = (record p { active = some s }, r)

  unfoldable pub send : List ℕ → PeerConn → PeerConn × Result SessionError (List ℕ)
  send payload p = elim p.active [
    | none ↦ (p, err not_ready)
    | some s ↦ put_active p (encrypt lib payload s)
  ]

  unfoldable pub recv : List ℕ → PeerConn → PeerConn × Result SessionError (List ℕ)
  recv ciphertext p = elim p.active [
    | none ↦ (p, err not_ready)
    | some s ↦ put_active p (decrypt lib ciphertext s)
  ]
