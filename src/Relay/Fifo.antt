-- ===== src/Relay/Fifo.antt =====
-- The order of a connection's outbound frames (internal/relay/client.go): enqueue against
-- writePump.
use relayly.Base.{
  ◌≡◌, refl, ◌∙◌, sym, ap, inl, inr, String, Bool, true, false, ◌&&◌, List, [], ◌∷◌, ◌++◌, arith,
  append-nil, append_assoc, if◌then◌else◌, Bool-cases,
}
use relayly.Relay.Client.{
  Client, WsFrame, enqueue, close, set_peer, write_pump, write_frame, write_next, ping,
}

-- What the goroutines do to one connection.
pub data Act : Type 0 where
  enqueues : WsFrame → Act
  writes pings : Bool → Act
  sets_peer : String → Act
  closes : Act

unfoldable pub act : Act → Client → Client
act (enqueues frame) c = (enqueue frame c).0
act (writes written) c = write_pump written c
act (pings written) c = ping written c
act (sets_peer id) c = set_peer id c
act closes c = close c

unfoldable pub acts : List Act → Client → Client
acts [] c = c
acts (x ∷ xs) c = acts xs (act x c)

-- The frames that `enqueue` reports as accepted, in order.
unfoldable pub accepted : List Act → Client → List WsFrame
accepted [] c = []
accepted (enqueues frame ∷ xs) c =
    if (enqueue frame c).1
    then frame ∷ accepted xs (enqueue frame c).0
    else accepted xs (enqueue frame c).0
accepted (x ∷ xs) c = accepted xs (act x c)

-- The frames that a connection has written or has yet to write.
abbrev pub stream : Client → List WsFrame
stream c = c.wire ++ c.send

-- A pump that has stopped does not start again.
act-stopped : (x : Act) (c : Client) → c.writing ≡ false → (act x c).writing ≡ false
unfolding act enqueue write_pump ping set_peer close
act-stopped (enqueues frame) c h = ground arith
act-stopped (writes written) c h = ground arith
act-stopped (pings written) c h = ground arith
act-stopped (sets_peer id) c h = ground arith
act-stopped closes c h = ground arith

acts-stopped : (xs : List Act) (c : Client) → c.writing ≡ false → (acts xs c).writing ≡ false
unfolding acts
acts-stopped [] c h = h
acts-stopped (x ∷ xs) c h = acts-stopped xs (act x c) (act-stopped x c h)

stream-enqueue :
    (frame : WsFrame) (c : Client)
    → stream (enqueue frame c).0
      ≡ (if (enqueue frame c).1 then stream c ++ frame ∷ [] else stream c)
unfolding enqueue
stream-enqueue frame c = ground (arith, append_assoc c.wire c.send (frame ∷ []))

running : (xs : List Act) (c : Client) → (acts xs c).writing ≡ true → c.writing ≡ true
running xs c h = ground (arith, acts-stopped xs c)

write_next-stream :
    (written : Bool) (frames : List WsFrame) (c : Client)
    → c.send ≡ frames
    → (write_next written frames c).writing ≡ true
    → stream (write_next written frames c) ≡ stream c
unfolding write_next write_frame
write_next-stream written [] c e h = ground arith
write_next-stream written (frame ∷ rest) c e h =
    ground (arith, append_assoc c.wire (frame ∷ []) rest)

stream-write_pump :
    (written : Bool) (c : Client)
    → (write_pump written c).writing ≡ true
    → stream (write_pump written c) ≡ stream c
unfolding write_pump
stream-write_pump written c h =
    ground (arith, write_next-stream (written && c.conn_open) c.send c refl)

-- Acts that are no enqueue leave the stream alone while the pump runs.
stream-act :
    (x : Act) (c : Client)
    → (act x c).writing ≡ true
    → stream (act x c) ≡ (elim x [
      | enqueues frame ↦ (if (enqueue frame c).1 then stream c ++ frame ∷ [] else stream c)
      | _ ↦ stream c
    ])
unfolding act ping set_peer close
stream-act (enqueues frame) c h = stream-enqueue frame c
stream-act (writes written) c h = stream-write_pump written c h
stream-act (pings written) c h = ground arith
stream-act (sets_peer id) c h = refl
stream-act closes c h = ground arith

quiet :
    (x : Act) (xs : List Act) (c : Client)
    → stream (acts xs (act x c)) ≡ stream (act x c) ++ accepted xs (act x c)
    → stream (act x c) ≡ stream c
    → stream (acts xs (act x c)) ≡ stream c ++ accepted xs (act x c)
quiet x xs c e f = e ∙ ap (λ s. s ++ accepted xs (act x c)) f

-- While a connection's writePump runs, what it has written, followed by what is queued, is what was
-- there before followed by the accepted frames in the order of their acceptance: none is lost,
-- repeated, changed or overtaken.
pub stream-acts :
    (xs : List Act) (c : Client)
    → (acts xs c).writing ≡ true
    → stream (acts xs c) ≡ stream c ++ accepted xs c
unfolding acts accepted act
stream-acts [] c h = sym (append-nil (stream c))
stream-acts (enqueues frame ∷ xs) c h = elim (Bool-cases (enqueue frame c).1) [
  | inl e ↦ rw e (
      stream-acts xs (act (enqueues frame) c) h
      ∙ ap (λ s. s ++ accepted xs (act (enqueues frame) c)) (stream-enqueue frame c ∙ rw e refl)
      ∙ append_assoc (stream c) (frame ∷ []) _)
  | inr e ↦ rw e (
      stream-acts xs (act (enqueues frame) c) h
      ∙ ap (λ s. s ++ accepted xs (act (enqueues frame) c)) (stream-enqueue frame c ∙ rw e refl))
]
stream-acts (writes written ∷ xs) c h =
    quiet (writes written) xs c (stream-acts xs _ h)
      (stream-act (writes written) c (running xs _ h))
stream-acts (pings written ∷ xs) c h =
    quiet (pings written) xs c (stream-acts xs _ h) (stream-act (pings written) c (running xs _ h))
stream-acts (sets_peer id ∷ xs) c h =
    quiet (sets_peer id) xs c (stream-acts xs _ h) (stream-act (sets_peer id) c (running xs _ h))
stream-acts (closes ∷ xs) c h =
    quiet closes xs c (stream-acts xs _ h) (stream-act closes c (running xs _ h))
