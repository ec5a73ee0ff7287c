-- ===== src/Sdk/Once.antt =====
-- The results that sdk/go/client.go owes its callers, through its control frames and over whole runs.
use relayly.Base.{
  ℕ, ◌+◌, ◌≤◌, ◌≡◌, String, Option, none, some, List, [], ◌∷◌, drop, arith, lookup, nat_eq,
  string_eq, Option-cases, inl, inr, Result, ok, err,
}
use relayly.Relay.Client.{ControlMessage, PeerInfo}
use relayly.Sdk.Noise.{NoiseLib, SessionError}
use relayly.Sdk.Peer.{PeerConn, new_peer_conn, start_as_initiator, start_rekey_as_initiator, send}
use relayly.Sdk.Client.{Base64, set_peer_conn}
use relayly.Sdk.Frames.{
  handle_pair_code, started, handle_pair_complete, handle_peer_status, handle_error, dispatch,
  apply_welcome_peers, sent, send_message, Event, reads_text, reads_binary, welcomes, sends_message,
  waits, gives_up, takes_message, step, steps,
}
use relayly.Sdk.Owed.{
  of_waiter, told, owed, set_peer-le, set_peer-same, set_peer-at, tell_waiter-owed,
  with_waiter-owed, answered-owed, answered_all-owed, waits-owed, gives_up-owed, told-le,
  takes-owed,
}
use relayly.Sdk.Waiters.{waiter-start_as_initiator, waiter-start_rekey, waiter-send}
use relayly.Sdk.Reading.{State, owes, waits_at, peer_owes, enqueue-owed, read_binary-owed}

module _ (ch : ℕ) (lib : NoiseLib) (base64 : Base64) where
  abbrev Now : Type 0
  Now = State ch lib base64

  abbrev due : Now → ℕ
  due = owes ch lib base64

  handle_pair_code-owed :
      (frame : ControlMessage) (c : Now) → due (handle_pair_code lib base64 frame c) ≤ due c
  unfolding handle_pair_code
  handle_pair_code-owed frame c =
      with_waiter-owed ch lib base64 "__request__" _ c (λ w d. answered-owed ch lib base64 w _ d)

  started-owed :
      (key : String) (r : PeerConn lib × Option (List ℕ)) (c : Now)
      → waits_at ch lib base64 key c ≡ peer_owes ch lib base64 r.0
      → due (started lib base64 key r c) ≤ due c
  started-owed key (p, some msg1) c h =
      let d = set_peer_conn lib base64 key p c in
      omega (arith, enqueue-owed ch lib base64 (some msg1) d, set_peer-same ch lib base64 key p c h)
  started-owed key (p, none) c h = tell_waiter-owed ch lib base64 key _ p c h

  handle_pair_complete-owed :
      (random : ℕ) (frame : ControlMessage) (c : Now)
      → due (handle_pair_complete lib base64 random frame c) ≤ due c
  unfolding handle_pair_complete
  handle_pair_complete-owed random frame c = with_waiter-owed ch lib base64 frame.code _ c (λ w d.
      let p : PeerConn lib = record (new_peer_conn lib frame.peer_id frame.peer_static_key) {
        first_pair_waiter = some w.channel;
      } in
      let linked = set_peer_conn lib base64 frame.peer_id p d in
      let r = start_as_initiator lib d.private_key random p in
      ground (
        arith,
        set_peer-le ch lib base64 frame.peer_id p d,
        set_peer-at ch lib base64 frame.peer_id p d,
        waiter-start_as_initiator lib d.private_key random p,
        started-owed frame.peer_id r linked,
      ))

  handle_peer_status-owed :
      (random : ℕ) (frame : ControlMessage) (c : Now)
      → due (handle_peer_status lib base64 random frame c) ≤ due c
  unfolding handle_peer_status
  handle_peer_status-owed random frame c = elim (Option-cases (lookup frame.peer_id c.peers)) [
    | inl e ↦ ground arith
    | inr (p, e) ↦
        let r = start_rekey_as_initiator lib c.private_key random p in
        let d = set_peer_conn lib base64 frame.peer_id r.0 c in
        ground (
          arith,
          waiter-start_rekey lib c.private_key random p,
          set_peer-same ch lib base64 frame.peer_id r.0 c,
          enqueue-owed ch lib base64 r.1 d,
        )
  ]

  handle_error-owed :
      (frame : ControlMessage) (c : Now) → due (handle_error lib base64 frame c) ≤ due c
  unfolding handle_error
  handle_error-owed frame c = answered_all-owed ch lib base64 _ c

  dispatch-owed :
      (random : ℕ) (frame : ControlMessage) (c : Now)
      → due (dispatch lib base64 random frame c) ≤ due c
  unfolding dispatch
  dispatch-owed random frame c = ground (
    arith,
    handle_pair_code-owed frame c,
    handle_pair_complete-owed random frame c,
    handle_peer_status-owed random frame c,
    handle_error-owed frame c,
  )

  welcome-owed :
      (peers : List PeerInfo) (c : Now) → due (apply_welcome_peers lib base64 peers c) ≤ due c
  unfolding apply_welcome_peers new_peer_conn
  welcome-owed [] c = omega arith
  welcome-owed (p ∷ ps) c = elim (Option-cases (lookup p.id c.peers)) [
    | inl e ↦
        let q = new_peer_conn lib p.id p.static_key in
        let d = set_peer_conn lib base64 p.id q c in
        ground (arith, set_peer-le ch lib base64 p.id q c, welcome-owed ps d)
    | inr (q, e) ↦ ground (arith, welcome-owed ps c)
  ]

  sent-owed :
      (key : String) (r : PeerConn lib × Result SessionError (List ℕ)) (c : Now)
      → waits_at ch lib base64 key c ≡ peer_owes ch lib base64 r.0
      → due (sent lib base64 key r c).0 ≤ due c
  unfolding owed
  sent-owed key (p, err e) c h = omega (arith, set_peer-same ch lib base64 key p c h)
  sent-owed key (p, ok text) c h = omega (arith, set_peer-same ch lib base64 key p c h)

  send_message-owed :
      (id : String) (payload : List ℕ) (c : Now)
      → due (send_message lib base64 id payload c).0 ≤ due c
  unfolding send_message
  send_message-owed id payload c = elim (Option-cases (lookup id c.peers)) [
    | inl e ↦ ground arith
    | inr (p, e) ↦ ground (arith, waiter-send lib payload p, sent-owed id (send lib payload p) c)
  ]

  -- How often an event registers a waiter with the channel.
  abbrev pub registers : Event lib base64 → ℕ
  registers (waits key w) = of_waiter ch w
  registers _ = 0

  abbrev pub registered : List (Event lib base64) → ℕ
  registered [] = 0
  registered (e ∷ es) = registers e + registered es

  step-owed : (e : Event lib base64) (c : Now) → due (step lib base64 e c) ≤ due c + registers e
  unfolding step
  step-owed (reads_text random frame) c = omega (arith, dispatch-owed random frame c)
  step-owed (reads_binary env frame) c = omega (arith, read_binary-owed ch lib base64 env frame c)
  step-owed (welcomes peers) c = omega (arith, welcome-owed peers c)
  step-owed (sends_message id payload) c = omega (arith, send_message-owed id payload c)
  step-owed (waits key w) c = waits-owed ch lib base64 key w c
  step-owed (gives_up key) c = omega (arith, gives_up-owed ch lib base64 key c)
  step-owed takes_message c = omega (arith, takes-owed ch lib base64 (drop 1 c.messages) c)

  steps-owed :
      (es : List (Event lib base64)) (c : Now) → due (steps lib base64 es c) ≤ due c + registered es
  unfolding steps
  steps-owed [] c = omega arith
  steps-owed (e ∷ es) c = omega (arith, step-owed e c, steps-owed es (step lib base64 e c))

  -- In every run of the client, whatever frames are read, messages sent and calls given up, a
  -- channel gets at most one result in all if, when the run starts, the results that stand on it,
  -- the waiters and peers that hold it, and the waiters that the run registers with it are together
  -- at most one.
  pub steps-told :
      (es : List (Event lib base64)) (c : Now)
      → owed ch lib base64 c + registered es ≤ 1
      → told ch (steps lib base64 es c).results ≤ 1
  steps-told es c h =
      omega (arith, h, steps-owed es c, told-le ch lib base64 (steps lib base64 es c))
