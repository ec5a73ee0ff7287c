-- ===== src/Examples/Resting.antt =====
-- examples/go/clipboard-sync/main.go: what the two clipboards hold once the loops come to rest.
use relayly.Base.{◌≡◌, ◌≢◌, refl, String, Bool, true, List, [], ◌∷◌, ◌++◌, arith, string_eq}
use relayly.Examples.Clipboard.{
  Device, Pair, read_clipboard, write_clipboard, poll, receive, arrived, copy, other_way, Turn,
  polls_here, polls_there, receives_here, receives_there, turn, turns, polls, settled, crossing,
  crossing-start,
}

-- What the clipboard holds once all that is on the way has been written.
unfoldable pub latest : String → List String → String
latest shown [] = shown
latest shown (text ∷ rest) = latest text rest

latest-append :
    (shown text : String) (inbox : List String) → latest shown (inbox ++ text ∷ []) ≡ text
unfolding latest
latest-append shown text [] = refl
latest-append shown text (x ∷ inbox) = latest-append x text inbox

-- What a device has seen last is the latest that the other one has or will have.
abbrev Follows : Device → Device → Type 0
Follows a b = latest b.clipboard b.inbox ≡ a.last

abbrev Follow : Pair → Type 0
Follow p = Follows p.here p.there × Follows p.there p.here

poll-Follow : (pastes : Bool) (p : Pair) → Follow p → Follow (poll pastes true p)
unfolding poll
poll-Follow pastes p h =
    ground (arith, h, latest-append p.there.clipboard (read_clipboard pastes p.here) p.there.inbox)

arrived-Follow :
    (inbox : List String) (p : Pair)
    → p.here.inbox ≡ inbox
    → Follow p
    → Follow (arrived true inbox p)
unfolding write_clipboard latest
arrived-Follow [] p e h = h
arrived-Follow (text ∷ rest) p e h = ground (arith, h, e)

turn-Follow : (t : Turn) (p : Pair) → Follow p → Follow (turn t p)
unfolding turn receive
turn-Follow (polls_here pastes) p h = poll-Follow pastes p h
turn-Follow (polls_there pastes) p h =
    let (a, b) = poll-Follow pastes (other_way p) (h.1, h.0) in (b, a)
turn-Follow receives_here p h = arrived-Follow p.here.inbox p refl h
turn-Follow receives_there p h =
    let (a, b) = arrived-Follow p.there.inbox (other_way p) refl (h.1, h.0) in (b, a)

turns-Follow : (ts : List Turn) (p : Pair) → Follow p → Follow (turns ts p)
unfolding turns
turns-Follow [] p h = h
turns-Follow (t ∷ ts) p h = turns-Follow ts (turn t p) (turn-Follow t p h)

-- Nothing is on the way, and nothing is left to be sent.
abbrev pub AtRest : Pair → Type 0
AtRest p =
    (p.here.inbox ≡ [])
    × (p.there.inbox ≡ [])
    × (p.here.clipboard ≡ p.here.last)
    × (p.there.clipboard ≡ p.there.last)

Follow-agree : (p : Pair) → Follow p → AtRest p → p.here.clipboard ≡ p.there.clipboard
unfolding latest
Follow-agree p h r = ground (arith, h, r)

-- Of two texts, neither empty nor the one that both clipboards had, that are copied on the two
-- devices and noticed there before either arrives: whatever turns the four loops take from then on,
-- in whatever order, and whichever reads of a clipboard fail, while every send and write works,
-- whenever nothing is on the way and no loop has anything left to send, both clipboards hold the
-- same text.
pub copies-agree :
    (x y z : String) (ts : List Turn)
    → x ≢ z
    → y ≢ z
    → x ≢ ""
    → y ≢ ""
    → AtRest (turns ts (polls (other_way (copy y (other_way (copy x (settled z)))))))
    → let p = turns ts (polls (other_way (copy y (other_way (copy x (settled z)))))) in
      p.here.clipboard ≡ p.there.clipboard
unfolding latest
copies-agree x y z ts xz yz a b =
    rw (crossing-start x y z xz yz a b)
      (Follow-agree (turns ts (crossing x y)) (turns-Follow ts (crossing x y) crossed))
  where
    crossed : Follow (crossing x y)
    crossed = (refl, refl)
