-- ===== src/Sdk/Frames.antt =====
-- sdk/go/client.go: the control frames, `Send`, and the frames of either kind in any order.
use Prim.Native.Char.{code}
use mathlib.Core.Option
use relayly.Base.{
  ℕ, String, Bool, true, false, Option, none, some, List, [], ◌∷◌, ◌++◌, Result, ok, err, ltb,
  lookup, insert, erase, ◌==◌, string_eq, nat_eq, if◌then◌else◌, map, drop,
}
use relayly.Relay.Client.{ControlMessage, PeerInfo}
use relayly.Sdk.Noise.{
  NoiseLib, SessionError, starting, envelope_handshake, envelope_transport, decode_envelope,
}
use relayly.Sdk.Peer.{
  PeerConn, set_first_pair_waiter, new_peer_conn, start_as_initiator, start_rekey_as_initiator,
  send,
}
use relayly.Sdk.Client.{
  Client, ClientError, server, handshake_failed, session_error, no_peer, PairResult, PairWaiter,
  Base64, Surroundings, get_peer_conn, remove_pair_waiter, set_peer_conn, enqueue_handshake,
  enqueue_binary, tell_waiter, read_handshake, read_transport,
}

-- Go's `<` on strings, by their bytes, which UTF-8 orders like the characters.
unfoldable pub before : String → String → Bool
before s String.[] = false
before String.[] (String.◌∷◌ d t) = true
before (String.◌∷◌ c s) (String.◌∷◌ d t) =
    let rest = before s t in
    if ltb (code c) (code d) then true else if code c == code d then rest else false

abbrev pub failure : ClientError → PairResult
failure e = record { code = ""; expires_in = 0; peer_id = ""; peer_public_key = []; error = some e }

module _ (lib : NoiseLib) (base64 : Base64) where
  abbrev State : Type 0
  State = Client lib base64

  -- `takePairWaiter`, and what is done with the waiter.
  unfoldable pub with_waiter : String → (PairWaiter → State → State) → State → State
  with_waiter key f c = elim (lookup key c.pair_waiters) [
    | none ↦ c
    | some w ↦ f w (record c { pair_waiters = erase key c.pair_waiters })
  ]

  unfoldable pub handle_pair_code : ControlMessage → State → State
  handle_pair_code frame = with_waiter "__request__" (λ w c. record c {
    results =
        c.results
        ++ (
          w.channel,
          record {
            code = frame.code;
            expires_in = frame.expires_in;
            peer_id = "";
            peer_public_key = [];
            error = none;
          },
        )
          ∷ [];
  })

  -- What follows the start of the handshake of the new peer.
  abbrev pub started : String → PeerConn lib × Option (List ℕ) → State → State
  started key (p, some msg1) c =
      enqueue_handshake lib base64 (some msg1) (set_peer_conn lib base64 key p c)
  started key (p, none) c = tell_waiter lib base64 key (failure (handshake_failed starting)) p c

  unfoldable pub handle_pair_complete : ℕ → ControlMessage → State → State
  handle_pair_complete random frame = with_waiter frame.code (λ w c.
      let p : PeerConn lib =
        set_first_pair_waiter lib w.channel
          (new_peer_conn lib frame.peer_id frame.peer_static_key) in
      let linked = set_peer_conn lib base64 frame.peer_id p c in
      if w.we_are_acceptor
      then started frame.peer_id (start_as_initiator lib c.private_key random p) linked
      else linked)

  -- The device with the smaller id starts a new handshake when its peer comes online.
  unfoldable pub handle_peer_status : ℕ → ControlMessage → State → State
  handle_peer_status random frame c =
      if Option.get_or frame.online false
      then (elim (get_peer_conn lib base64 frame.peer_id c) [
        | none ↦ c
        | some p ↦
            if before c.device_id frame.peer_id
            then (let r = start_rekey_as_initiator lib c.private_key random p in
                enqueue_handshake lib base64 r.1 (set_peer_conn lib base64 frame.peer_id r.0 c))
            else c
      ])
      else c

  -- Every waiter gets the error, and none is left; Go walks over them in any order.
  unfoldable pub handle_error : ControlMessage → State → State
  handle_error frame c = record c {
    results =
        c.results
        ++ map (λ e. (e.1.channel, failure (server frame.code frame.message))) c.pair_waiters;
    pair_waiters = [];
  }

  unfoldable pub dispatch : ℕ → ControlMessage → State → State
  dispatch random frame c =
      if frame.type == "pair_code"
      then handle_pair_code frame c
      else if frame.type == "pair_complete"
      then handle_pair_complete random frame c
      else if frame.type == "peer_status"
      then handle_peer_status random frame c
      else if frame.type == "error"
      then handle_error frame c
      else c

  -- A peer that welcome reports is registered unless it is there.
  unfoldable pub apply_welcome_peers : List PeerInfo → State → State
  apply_welcome_peers [] c = c
  apply_welcome_peers (p ∷ ps) c = elim (lookup p.id c.peers) [
    | none ↦
        apply_welcome_peers ps
          (set_peer_conn lib base64 p.id (new_peer_conn lib p.id p.static_key) c)
    | some known ↦ apply_welcome_peers ps c
  ]

  abbrev pub sent :
      String
      → PeerConn lib × Result SessionError (List ℕ)
      → State
      → State × Result ClientError (Unit {0})
  sent key (p, err e) c = (set_peer_conn lib base64 key p c, err (session_error e))
  sent key (p, ok ciphertext) c = (
    enqueue_binary lib base64 envelope_transport ciphertext (set_peer_conn lib base64 key p c),
    ok tt,
  )

  -- `Send`, where the client is not closed and the channel takes the frame.
  unfoldable pub send_message : String → List ℕ → State → State × Result ClientError (Unit {0})
  send_message peer_id payload c = elim (get_peer_conn lib base64 peer_id c) [
    | none ↦ (c, err no_peer)
    | some p ↦ sent peer_id (send lib payload p) c
  ]

  unfoldable pub read_binary : Surroundings lib base64 → List ℕ → State → State
  read_binary env frame c = elim (decode_envelope frame) [
    | none ↦ c
    | some (kind, payload) ↦
        if kind == envelope_handshake
        then read_handshake lib base64 env payload c
        else if kind == envelope_transport
        then read_transport lib base64 env payload c
        else c
  ]

  -- A waiter is registered by `RequestPairCode` and `AcceptPair`, and taken away where they give up.
  pub data Event : Type 0 where
    reads_text : ℕ → ControlMessage → Event
    reads_binary : Surroundings lib base64 → List ℕ → Event
    welcomes : List PeerInfo → Event
    sends_message : String → List ℕ → Event
    waits : String → PairWaiter → Event
    gives_up : String → Event
    takes_message : Event

  -- Each as a whole: `Sdk.Meanwhile` has the calls that come in the middle of a handshake message.
  unfoldable pub step : Event → State → State
  step (reads_text random frame) c = dispatch random frame c
  step (reads_binary env frame) c = read_binary env frame c
  step (welcomes peers) c = apply_welcome_peers peers c
  step (sends_message id payload) c = (send_message id payload c).0
  step (waits key w) c = record c { pair_waiters = insert key w c.pair_waiters }
  step (gives_up key) c = remove_pair_waiter lib base64 key c
  step takes_message c = record c { messages = drop 1 c.messages }

  unfoldable pub steps : List Event → State → State
  steps [] c = c
  steps (e ∷ es) c = steps es (step e c)
