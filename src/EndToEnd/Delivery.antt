-- ===== src/EndToEnd/Delivery.antt =====
-- The composition of the client, the relay and the other client (sdk/go/client.go, internal/relay),
-- over several messages.
use relayly.Base.{
  ℕ, ◌+◌, ◌≤◌, ◌<◌, ◌≡◌, ◌≢◌, refl, ap, ◌∙◌, String, Bool, true, false, some, List, [], ◌∷◌, ◌++◌,
  map, arith, ok, is_ok, length, drop, leb, ◌&&◌, lookup, lookup-insert, nat_eq, string_eq, eq_iff,
  append_assoc, append-nil, sym, length-append, inl, inr, Result-cases,
}
use relayly.Relay.Client.{enqueue, write_pump}
use relayly.Relay.Hub.{Server, get_client, route, deliver}
use relayly.Relay.Events.{step, read_binary}
use relayly.Relay.Routing.{envelope}
use relayly.Sdk.Noise.{NoiseLib, NoiseSession, encrypt, decrypt, encode_envelope, decode_envelope}
use relayly.Sdk.Agreement.{NoiseLaws, Joined, Joined-carries}
use relayly.Sdk.Peer.{PeerConn, send, recv}
use relayly.Sdk.Client.{Client, Base64, Surroundings, Message, read_transport}
use relayly.Sdk.Frames
use relayly.Sdk.Frames.{send_message}
use relayly.EndToEnd.{Line, Ends, pass, passes, reads, relayed, reads_frames}

drop-append {ℓ} : {A : Type ℓ} (xs ys : List A) → drop (length xs) (xs ++ ys) ≡ ys
drop-append [] ys = refl
drop-append (x ∷ xs) ys = drop-append xs ys

-- The relay's part: the frame goes to the end of what `y` has been written.
relayed_one :
    (limit x y : ℕ) (frame : List ℕ) (w : Server)
    → leb (length frame) limit ≡ true
    → (w.heap x).conn_open ≡ true
    → x ≢ y
    → (w.heap x).paired_with ≢ ""
    → get_client (w.heap x).paired_with w ≡ some y
    → (w.heap y).closed ≡ false
    → (w.heap y).conn_open ≡ true
    → (w.heap y).writing ≡ true
    → (w.heap y).send ≡ []
    → let v = relayed limit x y (frame ∷ []) w in
      (v.clients ≡ w.clients)
      × (v.heap x ≡ w.heap x)
      × (v.heap y ≡ record (w.heap y) { wire = (w.heap y).wire ++ envelope frame ∷ [] })
unfolding relayed reads step read_binary route deliver enqueue write_pump
relayed_one limit x y frame w short reading ne paired e running opened writing empty =
    ground (arith, eq_iff (w.heap x).paired_with "")

module _ (lib : NoiseLib) (base64 : Base64) where
  -- The sender's part.
  send_message-sends :
      (id : String) (message : List ℕ) (a : Client lib base64) (p : PeerConn lib)
      (s : NoiseSession lib)
      → lookup id a.peers ≡ some p
      → p.active ≡ some s
      → is_ok (send_message lib base64 id message a).1 ≡ true
      → (c : List ℕ) × ((encrypt lib message s).1 ≡ ok c)
        × ((send_message lib base64 id message a).0.sends ≡ a.sends ++ encode_envelope 2 c ∷ [])
        × (lookup id (send_message lib base64 id message a).0.peers
            ≡ some (record p { active = some (encrypt lib message s).0 }))
  unfolding send_message send
  send_message-sends id message a p s l e h = elim (Result-cases (encrypt lib message s).1) [
    | inl (c, f) ↦
        let p' : PeerConn lib = record p { active = some (encrypt lib message s).0 } in
        (c, f, ground arith, ground (arith, lookup-insert id id p' a.peers, eq_iff id id))
    | inr (x, f) ↦ absurd (ground arith)
  ]

  -- The receiver's part.
  reads_transport :
      (env : Surroundings lib base64) (message c : List ℕ) (b : Client lib base64)
      (q : PeerConn lib) (t : NoiseSession lib)
      → lookup env.first b.peers ≡ some q
      → q.active ≡ some t
      → (decrypt lib c t).1 ≡ ok message
      → length b.messages < 64
      → let d = Frames.read_binary lib base64 env (encode_envelope 2 c) b in
        (d.messages ≡ b.messages ++ record { sender = q.id; payload = message } ∷ [])
        × (lookup env.first d.peers ≡ some (record q { active = some (decrypt lib c t).0 }))
  unfolding encode_envelope decode_envelope Frames.read_binary read_transport recv
  reads_transport env message c b q t l e h room =
      let q' : PeerConn lib = record q { active = some (decrypt lib c t).0 } in
      ground (arith, lookup-insert env.first env.first q' b.peers, eq_iff env.first env.first)

  -- One frame from the sender, and the one that the relay then writes.
  passes_frame :
      (e : Ends lib base64) (message : List ℕ) (l : Line lib base64) (frame : List ℕ)
      → let a = (send_message lib base64 e.id message l.sender).0 in
        let w = relayed e.limit e.x e.y (frame ∷ []) l.relay in
        a.sends ≡ l.sender.sends ++ frame ∷ []
        → (w.heap e.y).wire ≡ (l.relay.heap e.y).wire ++ envelope frame ∷ []
        → pass lib base64 e message l ≡ record {
          sender = a;
          relay = w;
          receiver = Frames.read_binary lib base64 e.env frame l.receiver;
        }
  unfolding pass reads_frames
  passes_frame e message l frame queued wrote =
      rw
        (
          queued,
          drop-append l.sender.sends (frame ∷ []),
          wrote,
          drop-append (l.relay.heap e.y).wire (envelope frame ∷ []),
        )
        refl

module _ (lib : NoiseLib) (laws : NoiseLaws lib) (base64 : Base64) where
  -- The two clients have joined sessions with each other, the sender's connection has the receiver's
  -- as its peer, and what the receiver's connection was sent has been written.
  pub record IsLinked (e : Ends lib base64) (l : Line lib base64) : Type 0 where
    pub p : PeerConn lib
    pub q : PeerConn lib
    pub s : NoiseSession lib
    pub t : NoiseSession lib
    pub knows_q : lookup e.id l.sender.peers ≡ some p
    pub uses_s : p.active ≡ some s
    pub knows_p : lookup e.env.first l.receiver.peers ≡ some q
    pub uses_t : q.active ≡ some t
    pub joined : Joined lib laws s t
    pub reading : (l.relay.heap e.x).conn_open ≡ true
    pub apart : e.x ≢ e.y
    pub paired : (l.relay.heap e.x).paired_with ≢ ""
    pub registered : get_client (l.relay.heap e.x).paired_with l.relay ≡ some e.y
    pub running : (l.relay.heap e.y).closed ≡ false
    pub opened : (l.relay.heap e.y).conn_open ≡ true
    pub writing : (l.relay.heap e.y).writing ≡ true
    pub written : (l.relay.heap e.y).send ≡ []

  -- The receiver's peer, by the id that it has for it.
  abbrev pub from : {e : Ends lib base64} {l : Line lib base64} → IsLinked e l → String
  from k = k.q.id

  abbrev pub received_from : String → List ℕ → Message
  received_from id message = record { sender = id; payload = message }

  -- The frames that a `Send` puts on the channel.
  abbrev pub frames_of : Ends lib base64 → List ℕ → Line lib base64 → List (List ℕ)
  frames_of e message l =
      drop (length l.sender.sends) (send_message lib base64 e.id message l.sender).0.sends

  abbrev pub all_fit : ℕ → List (List ℕ) → Bool
  all_fit limit [] = true
  all_fit limit (frame ∷ frames) = leb (length frame) limit && all_fit limit frames

  -- One message.
  pass-IsLinked :
      (e : Ends lib base64) (message : List ℕ) (l : Line lib base64) (k : IsLinked e l)
      → is_ok (send_message lib base64 e.id message l.sender).1 ≡ true
      → all_fit e.limit (frames_of e message l) ≡ true
      → length l.receiver.messages < 64
      → (k' : IsLinked e (pass lib base64 e message l)) × (k'.q.id ≡ k.q.id)
        × ((pass lib base64 e message l).receiver.messages
            ≡ l.receiver.messages ++ received_from k.q.id message ∷ [])
  pass-IsLinked e message l k sends fits room =
      let (c, sealed, queued, sender) =
        send_message-sends lib base64 e.id message l.sender k.p k.s k.knows_q k.uses_s sends in
      let (read, joined) = Joined-carries lib laws k.s k.t message c k.joined sealed in
      let frame = encode_envelope 2 c in
      let one : frames_of e message l ≡ frame ∷ [] =
        ap (drop (length l.sender.sends)) queued ∙ drop-append l.sender.sends (frame ∷ []) in
      let short : leb (length frame) e.limit ≡ true =
        ground (arith, ap (all_fit e.limit) one, fits) in
      let (clients, same, wrote) =
        relayed_one e.limit e.x e.y frame l.relay short k.reading k.apart k.paired k.registered
          k.running k.opened k.writing k.written in
      let (messages, receiver) =
        reads_transport lib base64 e.env message c l.receiver k.q k.t k.knows_p k.uses_t read
          room in
      rw (passes_frame lib base64 e message l frame queued (rw wrote refl)) (
        record {
          p = record k.p { active = some (encrypt lib message k.s).0 };
          q = record k.q { active = some (decrypt lib c k.t).0 };
          s = (encrypt lib message k.s).0;
          t = (decrypt lib c k.t).0;
          knows_q = sender;
          uses_s = refl;
          knows_p = receiver;
          uses_t = refl;
          joined = joined;
          reading = rw same k.reading;
          apart = k.apart;
          paired = rw same k.paired;
          registered = rw (same, clients) k.registered;
          running = rw wrote k.running;
          opened = rw wrote k.opened;
          writing = rw wrote k.writing;
          written = rw wrote k.written;
        },
        refl,
        messages,
      )

  -- Each `Send` reports success, and its frame is no longer than the relay's limit.
  unfoldable pub all_sent : Ends lib base64 → List (List ℕ) → Line lib base64 → Bool
  all_sent e [] l = true
  all_sent e (message ∷ messages) l =
      let rest = all_sent e messages (pass lib base64 e message l) in
      is_ok (send_message lib base64 e.id message l.sender).1
      && all_fit e.limit (frames_of e message l)
      && rest

  -- If two clients have joined sessions with each other, the sender's connection to the relay is
  -- paired with the receiver's, which is open with nothing waiting, the relay reads the sender's,
  -- and the Noise library keeps its laws, then messages that `Send` accepts one after the other,
  -- each carried by the relay before the next, arrive, if none of their envelopes is longer than
  -- the relay's limit: while the receiver's channel has room for them all, exactly their texts are
  -- appended to it, in the order they were sent and under the id that the receiver has for the
  -- sender, and the parties stay linked.
  pub passes_delivers :
      (e : Ends lib base64) (messages : List (List ℕ)) (l : Line lib base64) (k : IsLinked e l)
      → all_sent e messages l ≡ true
      → length l.receiver.messages + length messages ≤ 64
      → ((passes lib base64 e messages l).receiver.messages
          ≡ l.receiver.messages ++ map (received_from (from k)) messages)
        × IsLinked e (passes lib base64 e messages l)
  unfolding passes all_sent
  passes_delivers e [] l k sent room = (sym (append-nil l.receiver.messages), k)
  passes_delivers e (message ∷ messages) l k sent room =
      let (k', same, one) =
        pass-IsLinked e message l k (ground arith) (ground arith) (omega arith) in
      let (rest, linked) =
        passes_delivers e messages (pass lib base64 e message l) k' (ground arith) (
          rw one (
            omega (
              arith,
              room,
              length-append l.receiver.messages (received_from k.q.id message ∷ []),
            ))) in
      (rw (rest, one, same) (append_assoc l.receiver.messages _ _), linked)
