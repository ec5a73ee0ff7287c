-- ===== src/Relay/Quiet.antt =====
-- What most of internal/relay leaves alone: the registry, the channel of new clients, and each
-- connection's identity; send queues stay within their buffer and closed ones take nothing.
pub mod Handlers
use relayly.Base.{
  ℕ, suc, ◌≤◌, ◌<◌, ◌+◌, ◌≡◌, refl, sym, ◌∙◌, ◌⊎◌, inl, inr, String, Bool, true, false, Option,
  none, some, List, [], ◌∷◌, ◌++◌, arith, length, length-append, ltb, ◌==◌, nat_eq, if◌then◌else◌,
  Result, ok, err, Bool-cases, Option-cases, string_eq,
}
use relayly.Database.{DbError, Query}
use relayly.Relay.Client.{
  Client, ControlMessage, WsFrame, text, binary, send_buffer_size, enqueue, close, set_peer, peer,
  write_pump, write_frame, write_next, ping,
}
use relayly.Relay.Hub.{
  Server, at, update, send_json, notify_peer_status, route, deliver, get_client, notify_peer_of,
  close_old,
}
use relayly.Relay.Control.{with_db}

-- What a change of one connection keeps.
pub record Keeps (c d : Client) : Type 0 where
  pub id_same : d.device_id ≡ c.device_id
  pub within : length c.send ≤ 256 → length d.send ≤ 256
  pub stays_closed : c.closed ≡ true → (d.closed ≡ true) × (length d.send ≤ length c.send)
  pub never_reopens : d.conn_open ≡ true → c.conn_open ≡ true

pub Keeps-refl : (c : Client) → Keeps c c
Keeps-refl c = ground arith

pub Keeps-trans : {c d e : Client} → Keeps c d → Keeps d e → Keeps c e
Keeps-trans k l = ground arith

pub enqueue-Keeps : (frame : WsFrame) (c : Client) → Keeps c (enqueue frame c).0
unfolding enqueue
enqueue-Keeps frame c = ground (arith, length-append c.send (frame ∷ []))

pub close-Keeps : (c : Client) → Keeps c (close c)
unfolding close
close-Keeps c = ground arith

pub set_peer-Keeps : (id : String) (c : Client) → Keeps c (set_peer id c)
unfolding set_peer
set_peer-Keeps id c = ground arith

pub write_pump-Keeps : (written : Bool) (c : Client) → Keeps c (write_pump written c)
unfolding write_pump
write_pump-Keeps written c = ground arith

pub record Quiet (w v : Server) : Type 0 where
  pub clients_same : v.clients ≡ w.clients
  pub register_same : v.register ≡ w.register
  pub next_same : v.next ≡ w.next
  pub keeps : (b : ℕ) → Keeps (w.heap b) (v.heap b)

pub Quiet-refl : (w : Server) → Quiet w w
Quiet-refl w = record {
  clients_same = refl;
  register_same = refl;
  next_same = refl;
  keeps = λ b. Keeps-refl _;
}

pub Quiet-trans : {w v u : Server} → Quiet w v → Quiet v u → Quiet w u
Quiet-trans q r = record {
  clients_same = r.clients_same ∙ q.clients_same;
  register_same = r.register_same ∙ q.register_same;
  next_same = r.next_same ∙ q.next_same;
  keeps = λ b. Keeps-trans (q.keeps b) (r.keeps b);
}

pub at-Quiet :
    (a : ℕ) (f : Client → Client) (w : Server) → ((c : Client) → Keeps c (f c)) → Quiet w (at a f w)
at-Quiet a f w k = record {
  clients_same = refl;
  register_same = refl;
  next_same = refl;
  keeps = λ b. elim (Bool-cases (b == a)) [
    | inl own ↦ rw own (k (w.heap b))
    | inr other ↦ rw other (Keeps-refl (w.heap b))
  ];
}

pub if-Quiet :
    {w : Server} (b : Bool) (u v : Server) → Quiet w u → Quiet w v → Quiet w (if b then u else v)
if-Quiet true u v q r = q
if-Quiet false u v q r = r

pub send_json-Quiet :
    (a : ℕ) (message : ControlMessage) (w : Server) → Quiet w (send_json a message w)
unfolding send_json
send_json-Quiet a message w = at-Quiet a _ w (enqueue-Keeps _)

pub with_db-Quiet : {A : Type 0} (op : Query A) (w : Server) → Quiet w (with_db op w).1
with_db-Quiet op w = record {
  clients_same = refl;
  register_same = refl;
  next_same = refl;
  keeps = λ b. Keeps-refl _;
}

pub notify_peer_status-Quiet :
    (target about : String) (online : Bool) (w : Server)
    → Quiet w (notify_peer_status target about online w)
unfolding notify_peer_status
notify_peer_status-Quiet target about online w = elim (Option-cases (get_client target w)) [
  | inl e ↦ rw (e, notify_peer_status) (Quiet-refl w)
  | inr (a, e) ↦ rw (e, notify_peer_status) (send_json-Quiet a _ w)
]

pub notify_peer_of-Quiet :
    (a : ℕ) (online : Bool) (w : Server) → Quiet w (notify_peer_of a online w)
unfolding notify_peer_of
notify_peer_of-Quiet a online w = elim (Bool-cases (peer (w.heap a)).1) [
  | inl e ↦ rw (e, notify_peer_of) (notify_peer_status-Quiet _ _ _ w)
  | inr e ↦ rw (e, notify_peer_of) (Quiet-refl w)
]

pub close_old-Quiet : (old : Option ℕ) (w : Server) → Quiet w (close_old old w)
unfolding close_old
close_old-Quiet none w = Quiet-refl w
close_old-Quiet (some a) w = at-Quiet a close w close-Keeps

-- Replacing a client by what a `Keeps` step makes of it.
at_once-Quiet : (a : ℕ) (d : Client) (w : Server) → Keeps (w.heap a) d → Quiet w (at a (λ c. d) w)
at_once-Quiet a d w k = record {
  clients_same = refl;
  register_same = refl;
  next_same = refl;
  keeps = λ b. elim (Bool-cases (b == a)) [
    | inl own ↦ rw (own, (nat_eq.equal_iff b a).0 own) k
    | inr other ↦ rw other (Keeps-refl (w.heap b))
  ];
}

-- A change of the channel of clients to remove.
pub unregister-Quiet :
    (queue : List ℕ) {w v : Server} → Quiet w v → Quiet w (record v { unregister = queue })
unregister-Quiet queue q = record {
  clients_same = q.clients_same;
  register_same = q.register_same;
  next_same = q.next_same;
  keeps = q.keeps;
}

deliver-Quiet : (payload : List ℕ) (a : ℕ) (w : Server) → Quiet w (deliver payload a w)
unfolding deliver
deliver-Quiet payload a w =
    let frame : WsFrame = record { contents = binary payload; close_after = false } in
    elim (Bool-cases (enqueue frame (w.heap a)).1) [
      | inl e ↦ rw (e, deliver) (at_once-Quiet a _ w (enqueue-Keeps frame (w.heap a)))
      | inr e ↦ rw (e, deliver) (unregister-Quiet _ (at-Quiet a close w close-Keeps))
    ]

pub route-Quiet : (payload : List ℕ) (id : String) (w : Server) → Quiet w (route payload id w)
unfolding route
route-Quiet payload id w = elim (Option-cases (get_client id w)) [
  | inl e ↦ rw (e, route) (Quiet-refl w)
  | inr (a, e) ↦ rw (e, route) (deliver-Quiet payload a w)
]

pub ping-Keeps : (written : Bool) (c : Client) → Keeps c (ping written c)
unfolding ping
ping-Keeps written c = ground arith
