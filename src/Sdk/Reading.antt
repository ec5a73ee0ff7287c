-- ===== src/Sdk/Reading.antt =====
-- The results that sdk/go/client.go owes its callers, through the binary frames that it reads.
use relayly.Base.{
  ℕ, ◌≤◌, ◌≡◌, refl, ◌∙◌, sym, String, Bool, true, false, Option, none, some, List, [], ◌∷◌, arith,
  lookup, nat_eq, string_eq, Option-cases, inl, inr, Result, ok, err,
}
use relayly.Sdk.Noise.{NoiseLib, NoiseSession, SessionError, decode_envelope}
use relayly.Sdk.Peer.{PeerConn, Driven, handle_handshake_envelope, promote, abandon, recv}
use relayly.Sdk.Client.{
  Client, Base64, ClientError, Surroundings, set_peer_conn, enqueue_handshake, announce_ready,
  fail_session, conclude, resolve_verified, resolve_handshake, verify_and_pin, resolve_driven,
  driven_session, read_handshake, received, read_transport,
}
use relayly.Sdk.Frames.{read_binary}
use relayly.Sdk.Owed.{of_peer, owed, at_key, set_peer-same, set_peer-at, tell_waiter-owed}
use relayly.Sdk.Waiters.{waiter-handle_handshake_envelope, waiter-recv}

module _ (ch : ℕ) (lib : NoiseLib) (base64 : Base64) where
  abbrev pub State : Type 0
  State = Client lib base64

  abbrev pub owes : State → ℕ
  owes = owed ch lib base64

  abbrev pub waits_at : String → State → ℕ
  waits_at key c = at_key (of_peer ch lib base64) key c.peers

  abbrev pub peer_owes : PeerConn lib → ℕ
  peer_owes = of_peer ch lib base64

  pub enqueue-owed :
      (m : Option (List ℕ)) (c : State)
      → (owes (enqueue_handshake lib base64 m c) ≡ owes c)
        × ((enqueue_handshake lib base64 m c).peers ≡ c.peers)
  unfolding owed
  enqueue-owed none c = (refl, refl)
  enqueue-owed (some m) c = (refl, refl)

  conclude-owed :
      (key : String) (pending : Bool) (r : Result ClientError (List ℕ)) (p : PeerConn lib)
      (c : State)
      → waits_at key c ≡ peer_owes p
      → owes (conclude lib base64 key pending r p c) ≤ owes c
  unfolding conclude abandon promote announce_ready owed
  conclude-owed key true (err e) p c h =
      omega (arith, set_peer-same ch lib base64 key (abandon lib p) c h)
  conclude-owed key false (err e) p c h = tell_waiter-owed ch lib base64 key _ p c h
  conclude-owed key true (ok raw) p c h = tell_waiter-owed ch lib base64 key _ (promote lib p) c h
  conclude-owed key false (ok raw) p c h = tell_waiter-owed ch lib base64 key _ p c h

  failed-owed :
      (pending : Bool) (s : NoiseSession lib) (p : PeerConn lib)
      → peer_owes (fail_session lib base64 pending s p) ≡ peer_owes p
  failed-owed true s p = refl
  failed-owed false s p = refl

  resolve_verified-owed :
      (key : String) (pending : Bool) (s : NoiseSession lib) (r : Result ClientError (List ℕ))
      (p : PeerConn lib) (c : State)
      → waits_at key c ≡ peer_owes p
      → owes (resolve_verified lib base64 key pending s r p c) ≤ owes c
  unfolding resolve_verified
  resolve_verified-owed key pending s (ok raw) p c h = conclude-owed key pending (ok raw) p c h
  resolve_verified-owed key pending s (err e) p c h =
      conclude-owed key pending (err e) (fail_session lib base64 pending s p) c
        (h ∙ sym (failed-owed pending s p))

  resolve_handshake-owed :
      (env : Surroundings lib base64) (key : String) (pending : Bool) (s : NoiseSession lib)
      (e : Option SessionError) (p : PeerConn lib) (c : State)
      → waits_at key c ≡ peer_owes p
      → owes (resolve_handshake lib base64 env key pending s e p c) ≤ owes c
  unfolding resolve_handshake owed
  resolve_handshake-owed env key pending s (some e) p c h = conclude-owed key pending _ p c h
  resolve_handshake-owed env key pending s none p c h =
      let v = verify_and_pin lib base64 env p s c.peer_store in
      resolve_verified-owed key pending s v.0 p (record c { peer_store = v.1 }) h

  resolve_driven-owed :
      (env : Surroundings lib base64) (key : String) (d : Driven lib) (c : State)
      → waits_at key c ≡ peer_owes d.peer
      → owes (resolve_driven lib base64 env key d c) ≤ owes c
  unfolding resolve_driven
  resolve_driven-owed env key d c h =
      let a = set_peer_conn lib base64 key d.peer c in
      let b = enqueue_handshake lib base64 d.reply a in
      let (same, peers) = enqueue-owed d.reply a in
      let here : waits_at key b ≡ peer_owes d.peer =
        rw peers (set_peer-at ch lib base64 key d.peer c) in
      elim (Option-cases (driven_session lib base64 d)) [
        | inl e ↦ ground (arith, set_peer-same ch lib base64 key d.peer c h)
        | inr (s, e) ↦ ground (
          arith,
          set_peer-same ch lib base64 key d.peer c h,
          resolve_handshake-owed env key d.was_pending s d.error d.peer b here,
        )
      ]

  received-owed :
      (key : String) (r : PeerConn lib × Result SessionError (List ℕ)) (c : State)
      → waits_at key c ≡ peer_owes r.0
      → owes (received lib base64 key r c) ≤ owes c
  unfolding owed
  received-owed key (p, err e) c h = omega (arith, set_peer-same ch lib base64 key p c h)
  received-owed key (p, ok text) c h = ground (arith, set_peer-same ch lib base64 key p c h)

  pub read_binary-owed :
      (env : Surroundings lib base64) (frame : List ℕ) (c : State)
      → owes (read_binary lib base64 env frame c) ≤ owes c
  unfolding read_binary read_handshake read_transport decode_envelope
  read_binary-owed env [] c = omega arith
  read_binary-owed env (kind ∷ payload) c = elim (Option-cases (lookup env.first c.peers)) [
    | inl e ↦ ground arith
    | inr (p, e) ↦
        let d = handle_handshake_envelope lib c.private_key env.random env.now payload p in
        let r = recv lib payload p in
        ground (
          arith,
          waiter-handle_handshake_envelope lib c.private_key env.random env.now payload p,
          waiter-recv lib payload p,
          resolve_driven-owed env env.first d c,
          received-owed env.first r c,
        )
  ]
