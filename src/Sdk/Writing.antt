-- ===== src/Sdk/Writing.antt =====
-- sdk/go/client.go: writeLoop and pingLoop over the channel `sends`, as events in any order. Which
-- socket a dial brings and whether a write works are told by the events.
use mathlib.Core.List.{map-append}
use relayly.Base.{
  ℕ, ◌*◌, ◌≤◌, Bool, true, false, ◌≡◌, refl, ◌∙◌, sym, ap, List, [], ◌∷◌, ◌++◌, map, length,
  length-append, append-nil, append_assoc, ltb, ◌==◌, nat_eq, if◌then◌else◌, arith,
}
use relayly.Relay.Client.{Contents, text, blank}

abbrev pub default_ping_interval : ℕ
default_ping_interval = 30 * 1_000_000_000

-- The interval of the ticker, by the one of the options.
unfoldable pub ping_interval : ℕ → ℕ
ping_interval interval = if interval == 0 then default_ping_interval else interval

-- The room of the channel.
abbrev pub sends_size : ℕ
sends_size = 64

-- pingLoop stands in its `select`, or at the send of a ping, or has returned.
pub data Pinger : Type 0 where
  selecting sending returned : Pinger

-- A frame that writeLoop took, the socket that it was written to, and whether that worked.
pub record Written : Type 0 where
  pub frame : Contents
  pub socket : ℕ
  pub works : Bool

pub record Writer : Type 0 where
  pub sends : List Contents
  pub conn : ℕ
  pub closed : Bool
  pub writing : Bool
  pub pinger : Pinger
  pub wire : List Written

unfoldable pub has_room : Writer → Bool
has_room w = ltb (length w.sends) sends_size

-- `c.sends <- frame`, where the channel has room.
abbrev put : Contents → Writer → Writer
put frame w = record w { sends = w.sends ++ frame ∷ [] }

-- A caller's frame; without room the caller waits.
unfoldable pub offer : Contents → Writer → Writer
unfolding has_room
offer frame w = if has_room w then put frame w else w

abbrev taken : Bool → List Contents → Writer → Writer
taken works [] w = w
taken works (frame ∷ rest) w = record w {
  sends = rest;
  wire = w.wire ++ record { frame = frame; socket = w.conn; works = works } ∷ [];
}

-- writeLoop takes a frame and writes it to the socket of the moment; an error is dropped.
unfoldable pub write_loop : Bool → Writer → Writer
write_loop works w = if w.writing then taken works w.sends w else w

-- writeLoop returns once the client is closed.
unfoldable pub end_writing : Writer → Writer
end_writing w = if w.closed then record w { writing = false } else w

abbrev pub ping_frame : Contents
ping_frame = text (record blank { type = "ping" })

-- The three things that pingLoop does: it takes a tick, it sends a ping, and it returns.
unfoldable pub tick : Writer → Writer
tick w = elim w.pinger [ selecting ↦ record w { pinger = sending } | other ↦ w ]

abbrev pub pinged : Pinger → Writer → Writer
pinged sending w = if has_room w then record (put ping_frame w) { pinger = selecting } else w
pinged _ w = w

unfoldable pub send_ping : Writer → Writer
send_ping w = pinged w.pinger w

unfoldable pub end_pinging : Writer → Writer
end_pinging w = elim w.pinger [
  | selecting ↦ if w.closed then record w { pinger = returned } else w
  | other ↦ w
]

pub data Event : Type 0 where
  offers : Contents → Event
  writes : Bool → Event
  dials : ℕ → Event
  closes ends_writing ticks sends_ping ends_pinging : Event

unfoldable pub step : Event → Writer → Writer
step (offers frame) w = offer frame w
step (writes works) w = write_loop works w
step (dials socket) w = record w { conn = socket }
step closes w = record w { closed = true }
step ends_writing w = end_writing w
step ticks w = tick w
step sends_ping w = send_ping w
step ends_pinging w = end_pinging w

unfoldable pub steps : List Event → Writer → Writer
steps [] w = w
steps (e ∷ es) w = steps es (step e w)

-- The frame that goes on the channel, if it has room.
abbrev admitted : Contents → Writer → List Contents
admitted frame w = if has_room w then frame ∷ [] else []

abbrev ping_admitted : Pinger → Writer → List Contents
ping_admitted sending w = admitted ping_frame w
ping_admitted _ w = []

-- What an event puts on the channel.
unfoldable pub put_by : Event → Writer → List Contents
put_by (offers frame) w = admitted frame w
put_by sends_ping w = ping_admitted w.pinger w
put_by e w = []

unfoldable pub accepted : List Event → Writer → List Contents
accepted [] w = []
accepted (e ∷ es) w = put_by e w ++ accepted es (step e w)

-- The frames that were written or wait.
unfoldable pub stream : Writer → List Contents
stream w = map (λ x. x.frame) w.wire ++ w.sends

-- What leaves the channel and the wire alone leaves the stream alone.
stream-same : (v w : Writer) → v.wire ≡ w.wire → v.sends ≡ w.sends → stream v ≡ stream w ++ []
unfolding stream
stream-same v w e f = ground (arith, append-nil (map (λ x. x.frame) w.wire ++ w.sends))

stream-admitted :
    (frame : Contents) (v w : Writer)
    → v.wire ≡ w.wire
    → v.sends ≡ (if has_room w then w.sends ++ frame ∷ [] else w.sends)
    → stream v ≡ stream w ++ admitted frame w
unfolding stream
stream-admitted frame v w e f = ground (
  arith,
  append-nil (map (λ x. x.frame) w.wire ++ w.sends),
  append_assoc (map (λ x. x.frame) w.wire) w.sends (frame ∷ []),
)

stream-taken :
    (works : Bool) (frames : List Contents) (w : Writer)
    → w.sends ≡ frames
    → stream (taken works frames w) ≡ stream w
unfolding stream
stream-taken works [] w h = refl
stream-taken works (frame ∷ rest) w h =
    rw (h, map-append) (append_assoc (map (λ x. x.frame) w.wire) (frame ∷ []) rest)

stream-pinged : (p : Pinger) (w : Writer) → stream (pinged p w) ≡ stream w ++ ping_admitted p w
stream-pinged sending w = stream-admitted ping_frame _ w (ground arith) (ground arith)
stream-pinged selecting w = stream-same w w refl refl
stream-pinged returned w = stream-same w w refl refl

step-stream : (e : Event) (w : Writer) → stream (step e w) ≡ stream w ++ put_by e w
unfolding step put_by offer write_loop tick send_ping end_writing end_pinging
step-stream (offers frame) w = stream-admitted frame _ w (ground arith) (ground arith)
step-stream (writes works) w =
    ground (arith, stream-taken works w.sends w refl, append-nil (stream w))
step-stream sends_ping w = stream-pinged w.pinger w
step-stream ticks w = stream-same _ w (ground arith) (ground arith)
step-stream ends_writing w = stream-same _ w (ground arith) (ground arith)
step-stream ends_pinging w = stream-same _ w (ground arith) (ground arith)
step-stream closes w = stream-same _ w refl refl
step-stream (dials socket) w = stream-same _ w refl refl

-- Whatever frames are offered, whichever sockets fail or are replaced, whenever pings fall due and
-- the client is closed, what writeLoop has handed to sockets, whether or not that worked, followed
-- by what waits in the channel, is what was there before followed by the frames that the channel
-- took, pings included, in that order: none is handed over twice or overtakes another.
pub steps-stream : (es : List Event) (w : Writer) → stream (steps es w) ≡ stream w ++ accepted es w
unfolding steps accepted
steps-stream [] w = sym (append-nil (stream w))
steps-stream (e ∷ es) w =
    steps-stream es (step e w)
    ∙ ap (λ s. s ++ accepted es (step e w)) (step-stream e w)
    ∙ append_assoc (stream w) (put_by e w) (accepted es (step e w))

-- At most as many frames wait as the channel has room for.
step-le : (e : Event) (w : Writer) → length w.sends ≤ 64 → length (step e w).sends ≤ 64
unfolding step offer write_loop tick send_ping end_writing end_pinging has_room
step-le (offers frame) w h = ground (arith, length-append w.sends (frame ∷ []))
step-le (writes works) w h = ground arith
step-le sends_ping w h = ground (arith, length-append w.sends (ping_frame ∷ []))
step-le ticks w h = ground arith
step-le ends_writing w h = ground arith
step-le ends_pinging w h = ground arith
step-le closes w h = h
step-le (dials socket) w h = h

-- pingLoop at the send of a ping, over a full channel that nobody takes from.
abbrev pub IsStuck : Writer → Type 0
IsStuck w = (w.pinger ≡ sending) × (w.writing ≡ false) × (length w.sends ≡ 64)

step-IsStuck : (e : Event) (w : Writer) → IsStuck w → IsStuck (step e w)
unfolding step offer write_loop tick send_ping end_writing end_pinging has_room
step-IsStuck (offers frame) w h = ground arith
step-IsStuck (writes works) w h = ground arith
step-IsStuck sends_ping w h = ground arith
step-IsStuck ticks w h = ground arith
step-IsStuck ends_writing w h = ground arith
step-IsStuck ends_pinging w h = ground arith
step-IsStuck closes w h = ground arith
step-IsStuck (dials socket) w h = ground arith

-- Once writeLoop has returned, a pingLoop at the send of a ping over a full channel stays there,
-- whatever comes, the end of the client included.
pub steps-IsStuck : (es : List Event) (w : Writer) → IsStuck w → IsStuck (steps es w)
unfolding steps
steps-IsStuck [] w h = h
steps-IsStuck (e ∷ es) w h = steps-IsStuck es (step e w) (step-IsStuck e w h)
