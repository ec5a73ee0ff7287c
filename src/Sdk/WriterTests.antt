-- ===== src/Sdk/WriterTests.antt =====
-- Runs of writeLoop and pingLoop (sdk/go/client.go).
use relayly.Base.{◌≡◌, refl, true, false, List, [], ◌∷◌, ◌++◌, map, replicate}
use relayly.Relay.Client.{binary}
use relayly.Sdk.Writing.{
  Writer, Written, selecting, Event, offers, writes, dials, closes, ends_writing, ticks, sends_ping,
  step, steps, offer, write_loop, send_ping, end_writing, tick, has_room, accepted, put_by, stream,
  steps-stream, ping_frame, ping_interval, default_ping_interval, IsStuck,
}

abbrev fresh : Writer
fresh = record {
  sends = [];
  conn = 1;
  closed = false;
  writing = true;
  pinger = selecting;
  wire = [];
}

-- Two messages and a ping, while the first socket fails.
abbrev run : List Event
run =
    offers (binary (7 ∷ []))
    ∷ ticks
    ∷ offers (binary (8 ∷ []))
    ∷ sends_ping
    ∷ writes false
    ∷ dials 2
    ∷ writes true
    ∷ []

-- The message that the first socket failed to take is lost, and the next goes to the second.
lost :
    (steps run fresh).wire
    ≡ record { frame = binary (7 ∷ []); socket = 1; works = false }
      ∷ record { frame = binary (8 ∷ []); socket = 2; works = true }
      ∷ []
unfolding steps step offer write_loop send_ping tick has_room
lost = refl

waiting : (steps run fresh).sends ≡ ping_frame ∷ []
unfolding steps step offer write_loop send_ping tick has_room
waiting = refl

steps-stream_example :
    map (λ (x : Written). x.frame) (steps run fresh).wire ++ (steps run fresh).sends
    ≡ binary (7 ∷ []) ∷ binary (8 ∷ []) ∷ ping_frame ∷ []
unfolding steps step offer write_loop send_ping tick has_room stream accepted put_by
steps-stream_example = steps-stream run fresh

-- The client is closed with a full channel, while pingLoop is at its send.
abbrev full : Writer
full = record fresh { sends = replicate 64 (binary []) }

stuck : IsStuck (steps (ticks ∷ closes ∷ ends_writing ∷ []) full)
unfolding steps step tick end_writing
stuck = (refl, refl, refl)

intervals : (ping_interval 0 ≡ default_ping_interval) × (ping_interval 5 ≡ 5)
unfolding ping_interval
intervals = (refl, refl)
