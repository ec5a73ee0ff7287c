-- ===== src/Sdk/Invariant.antt =====
-- That every frame and call of sdk/go/client.go keeps the trust in sessions, and the pins.
use relayly.Base.{
  ℕ, String, false, Option, none, some, List, [], ◌∷◌, Result, ok, err, lookup, length, ltb, nat_eq,
  ◌==◌, string_eq, ◌≡◌, refl, inl, inr, Option-cases,
}
use mathlib.Core.Option
use relayly.Relay.Client.{ControlMessage, PeerInfo}
use relayly.Sdk.PeerStore.{get}
use relayly.Sdk.Noise.{NoiseLib, SessionError, decode_envelope}
use relayly.Sdk.Peer.{PeerConn, new_peer_conn, start_as_initiator, send, recv}
use relayly.Sdk.Client.{
  enqueue_handshake, Client, Base64, PairWaiter, Surroundings, set_peer_conn, read_transport,
  received,
}
use relayly.Sdk.Trust.{
  IsTrusted, AllTrusted, Safe, Safe-refl, Safe-trans, same-Safe, Sets-Safe, same-IsTrusted,
  tell_waiter-Sets,
}
use relayly.Sdk.Frames.{
  Event, reads_text, reads_binary, welcomes, sends_message, waits, gives_up, takes_message, step,
  steps, handle_pair_code, handle_pair_complete, handle_peer_status, handle_error, dispatch,
  apply_welcome_peers, send_message, read_binary, before, with_waiter, started, sent,
}
use relayly.Sdk.Resolving.{read_handshake-Safe}
use relayly.Sdk.Upkeep.{
  set_peer_conn-Safe, new_peer_conn-IsTrusted, start_as_initiator-IsTrusted, start_rekey-IsTrusted,
  send-IsTrusted, recv-IsTrusted, if-Safe,
}

module _ (lib : NoiseLib) (base64 : Base64) where
  with_waiter-Safe :
      (key : String) (f : PairWaiter → Client lib base64 → Client lib base64)
      (c : Client lib base64)
      → ((w : PairWaiter) (d : Client lib base64) → Safe lib base64 d (f w d))
      → Safe lib base64 c (with_waiter lib base64 key f c)
  unfolding with_waiter
  with_waiter-Safe key f c t = elim (Option-cases (lookup key c.pair_waiters)) [
    | inl e ↦ rw (e, with_waiter) (Safe-refl lib base64 c)
    | inr (w, e) ↦
        rw (e, with_waiter) (Safe-trans lib base64 (same-Safe lib base64 c _ refl refl) (t w _))
  ]

  handle_pair_code-Safe :
      (frame : ControlMessage) (c : Client lib base64)
      → Safe lib base64 c (handle_pair_code lib base64 frame c)
  unfolding handle_pair_code
  handle_pair_code-Safe frame c =
      with_waiter-Safe "__request__" _ c (λ w d. same-Safe lib base64 d _ refl refl)

  -- The end of the acceptor's start: the peer, told or with its msg1 queued.
  started-Safe :
      (key : String) (r : PeerConn lib × Option (List ℕ)) (c : Client lib base64)
      → IsTrusted lib base64 c.peer_store r.0
      → Safe lib base64 c (started lib base64 key r c)
  started-Safe key (p, some msg1) c t = set_peer_conn-Safe lib base64 key p c _ refl refl (λ h. t)
  started-Safe key (p, none) c t =
      Sets-Safe lib base64 (tell_waiter-Sets lib base64 key _ p c) (λ id k h. h)
        (λ h.
          same-IsTrusted lib base64 c.peer_store p (record p { first_pair_waiter = none }) refl refl
            t)

  handle_pair_complete-Safe :
      (random : ℕ) (frame : ControlMessage) (c : Client lib base64)
      → Safe lib base64 c (handle_pair_complete lib base64 random frame c)
  unfolding handle_pair_complete
  handle_pair_complete-Safe random frame c = with_waiter-Safe frame.code _ c (λ w d.
      let p : PeerConn lib = record (new_peer_conn lib frame.peer_id frame.peer_static_key) {
        first_pair_waiter = some w.channel;
      } in
      let fresh : IsTrusted lib base64 d.peer_store p =
        new_peer_conn-IsTrusted lib base64 frame.peer_id frame.peer_static_key d.peer_store in
      let linked =
        set_peer_conn-Safe lib base64 frame.peer_id p d (set_peer_conn lib base64 frame.peer_id p d)
          refl refl (λ h. fresh) in
      if-Safe lib base64 w.we_are_acceptor _ _
        (Safe-trans lib base64 linked (
          started-Safe frame.peer_id (start_as_initiator lib d.private_key random p) _
            (start_as_initiator-IsTrusted lib base64 d.private_key random p d.peer_store fresh)))
        linked)

  -- The peer with its replacement, and the msg1 that may be queued.
  rekeyed-Safe :
      (key : String) (m : Option (List ℕ)) (p : PeerConn lib) (c : Client lib base64)
      → (AllTrusted lib base64 c → IsTrusted lib base64 c.peer_store p)
      → Safe lib base64 c (enqueue_handshake lib base64 m (set_peer_conn lib base64 key p c))
  rekeyed-Safe key none p c t = set_peer_conn-Safe lib base64 key p c _ refl refl t
  rekeyed-Safe key (some m) p c t = set_peer_conn-Safe lib base64 key p c _ refl refl t

  handle_peer_status-Safe :
      (random : ℕ) (frame : ControlMessage) (c : Client lib base64)
      → Safe lib base64 c (handle_peer_status lib base64 random frame c)
  unfolding handle_peer_status
  handle_peer_status-Safe random frame c =
      if-Safe lib base64 (Option.get_or frame.online false) _ _
        (elim (Option-cases (lookup frame.peer_id c.peers)) [
          | inl e ↦ rw e (Safe-refl lib base64 c)
          | inr (p, e) ↦ rw e (
              if-Safe lib base64 (before c.device_id frame.peer_id) _ _
                (rekeyed-Safe frame.peer_id _ _ c (λ h.
                  start_rekey-IsTrusted lib base64 c.private_key random p c.peer_store
                    (h frame.peer_id p e)))
                (Safe-refl lib base64 c))
        ])
        (Safe-refl lib base64 c)

  apply_welcome_peers-Safe :
      (ps : List PeerInfo) (c : Client lib base64)
      → Safe lib base64 c (apply_welcome_peers lib base64 ps c)
  unfolding apply_welcome_peers
  apply_welcome_peers-Safe [] c = Safe-refl lib base64 c
  apply_welcome_peers-Safe (p ∷ ps) c = elim (Option-cases (lookup p.id c.peers)) [
    | inl e ↦
        rw (e, apply_welcome_peers)
          (Safe-trans lib base64
            (set_peer_conn-Safe lib base64 p.id (new_peer_conn lib p.id p.static_key) c _ refl refl
              (λ h. new_peer_conn-IsTrusted lib base64 p.id p.static_key c.peer_store))
            (apply_welcome_peers-Safe ps _))
    | inr (known, e) ↦ rw (e, apply_welcome_peers) (apply_welcome_peers-Safe ps c)
  ]

  sent-Safe :
      (key : String) (r : PeerConn lib × Result SessionError (List ℕ)) (c : Client lib base64)
      → (AllTrusted lib base64 c → IsTrusted lib base64 c.peer_store r.0)
      → Safe lib base64 c (sent lib base64 key r c).0
  sent-Safe key (p, err e) c t = set_peer_conn-Safe lib base64 key p c _ refl refl t
  sent-Safe key (p, ok text) c t = set_peer_conn-Safe lib base64 key p c _ refl refl t

  pub send_message-Safe :
      (id : String) (text : List ℕ) (c : Client lib base64)
      → Safe lib base64 c (send_message lib base64 id text c).0
  unfolding send_message
  send_message-Safe id text c = elim (Option-cases (lookup id c.peers)) [
    | inl e ↦ rw (e, send_message) (Safe-refl lib base64 c)
    | inr (p, e) ↦
        rw (e, send_message)
          (sent-Safe id (send lib text p) c
            (λ h. send-IsTrusted lib base64 text p c.peer_store (h id p e)))
  ]

  received-Safe :
      (key : String) (r : PeerConn lib × Result SessionError (List ℕ)) (c : Client lib base64)
      → (AllTrusted lib base64 c → IsTrusted lib base64 c.peer_store r.0)
      → Safe lib base64 c (received lib base64 key r c)
  received-Safe key (p, err e) c t = set_peer_conn-Safe lib base64 key p c _ refl refl t
  received-Safe key (p, ok text) c t =
      if-Safe lib base64 (ltb (length c.messages) 64) _ _
        (set_peer_conn-Safe lib base64 key p c _ refl refl t)
        (set_peer_conn-Safe lib base64 key p c _ refl refl t)

  read_transport-Safe :
      (env : Surroundings lib base64) (text : List ℕ) (c : Client lib base64)
      → Safe lib base64 c (read_transport lib base64 env text c)
  unfolding read_transport
  read_transport-Safe env text c = elim (Option-cases (lookup env.first c.peers)) [
    | inl e ↦ rw (e, read_transport) (Safe-refl lib base64 c)
    | inr (p, e) ↦
        rw (e, read_transport)
          (received-Safe env.first (recv lib text p) c
            (λ h. recv-IsTrusted lib base64 text p c.peer_store (h env.first p e)))
  ]

  read_binary-Safe :
      (env : Surroundings lib base64) (frame : List ℕ) (c : Client lib base64)
      → Safe lib base64 c (read_binary lib base64 env frame c)
  unfolding read_binary decode_envelope
  read_binary-Safe env [] c = Safe-refl lib base64 c
  read_binary-Safe env (kind ∷ payload) c =
      if-Safe lib base64 (kind == 1) _ _ (read_handshake-Safe lib base64 env payload c) (
        if-Safe lib base64 (kind == 2) _ _ (read_transport-Safe env payload c)
          (Safe-refl lib base64 c))

  dispatch-Safe :
      (random : ℕ) (frame : ControlMessage) (c : Client lib base64)
      → Safe lib base64 c (dispatch lib base64 random frame c)
  unfolding dispatch handle_error
  dispatch-Safe random frame c =
      if-Safe lib base64 (frame.type == "pair_code") _ _ (handle_pair_code-Safe frame c) (
        if-Safe lib base64 (frame.type == "pair_complete") _ _
          (handle_pair_complete-Safe random frame c)
          (if-Safe lib base64 (frame.type == "peer_status") _ _
            (handle_peer_status-Safe random frame c)
            (if-Safe lib base64 (frame.type == "error") _ _ (same-Safe lib base64 c _ refl refl)
              (Safe-refl lib base64 c))))

  pub step-Safe :
      (e : Event lib base64) (c : Client lib base64) → Safe lib base64 c (step lib base64 e c)
  unfolding step
  step-Safe (reads_text random frame) c = dispatch-Safe random frame c
  step-Safe (reads_binary env frame) c = read_binary-Safe env frame c
  step-Safe (welcomes peers) c = apply_welcome_peers-Safe peers c
  step-Safe (sends_message id text) c = send_message-Safe id text c
  step-Safe (waits key w) c = same-Safe lib base64 c _ refl refl
  step-Safe (gives_up key) c = same-Safe lib base64 c _ refl refl
  step-Safe takes_message c = same-Safe lib base64 c _ refl refl

  -- Every run is safe, step by step.
  steps-Safe :
      (es : List (Event lib base64)) (c : Client lib base64)
      → Safe lib base64 c (steps lib base64 es c)
  unfolding steps
  steps-Safe [] c = Safe-refl lib base64 c
  steps-Safe (e ∷ es) c =
      Safe-trans lib base64 (step-Safe e c) (steps-Safe es (step lib base64 e c))

  -- Whatever frames the relay sends and whatever the caller does, one after the other: if every ready
  -- session in use has authenticated the key that is pinned for its peer, that stays so.
  pub steps-AllTrusted :
      (es : List (Event lib base64)) (c : Client lib base64)
      → AllTrusted lib base64 c
      → AllTrusted lib base64 (steps lib base64 es c)
  steps-AllTrusted es c = (steps-Safe es c).trusts

  -- In every run of the client, the key that is pinned for a peer stays pinned for it.
  pub steps-pins :
      (es : List (Event lib base64)) (c : Client lib base64) (id key : String)
      → get id c.peer_store ≡ some key
      → get id (steps lib base64 es c).peer_store ≡ some key
  steps-pins es c = (steps-Safe es c).pins
