-- ===== src/Interop/Rewriting.antt =====
-- The frames that the proxy of interop/harness/proxy.go changes, and those that it does not.
use relayly.Base.{
  ◌≡◌, refl, String, none, some, List, [], ◌∷◌, arith, lookup, erase, lookup-erase, string_eq,
  eq_iff,
}
use relayly.Relay.Client.{ControlMessage, Contents, text, binary}
use relayly.Interop.{Proxy, rewritten, maybe_rewrite, pump}

maybe_rewrite_plain :
    (id : String) (frame : Contents) (p : Proxy)
    → lookup id p.rules ≡ none
    → maybe_rewrite id frame p ≡ (frame, p)
unfolding maybe_rewrite rewritten
maybe_rewrite_plain id (binary payload) p h = refl
maybe_rewrite_plain id (text frame) p h = ground arith

-- Without a rule for the device, every frame is passed on as it is.
pub pump_plain :
    (id : String) (frames : List Contents) (p : Proxy)
    → lookup id p.rules ≡ none
    → pump id frames p ≡ (frames, p)
unfolding pump
pump_plain id [] p h = refl
pump_plain id (frame ∷ frames) p h =
    rw (maybe_rewrite_plain id frame p h, pump_plain id frames p h) refl

-- The frame for which there is a rule gets the fake key, and the frames after it are as they are.
pub pump_once :
    (id fake : String) (frame : ControlMessage) (frames : List Contents) (p : Proxy)
    → lookup id p.rules ≡ some fake
    → frame.type ≡ "pair_complete"
    → (pump id (text frame ∷ frames) p).0 ≡ text (record frame { peer_static_key = fake }) ∷ frames
unfolding pump maybe_rewrite rewritten
pump_once id fake frame frames p h c =
    let q : Proxy = record p { rules = erase id p.rules } in
    let hit : rewritten id frame p ≡ (text (record frame { peer_static_key = fake }), q) =
      ground (arith, eq_iff frame.type "pair_complete") in
    let gone : lookup id q.rules ≡ none =
      ground (arith, lookup-erase id id p.rules, eq_iff id id) in
    rw (maybe_rewrite, hit, pump_plain id frames q gone) refl
