-- ===== src/Sdk/Calling.antt =====
-- What the calls in the middle of a handshake message (sdk/go/client.go) leave of the trust in the
-- other peers.
use relayly.Base.{
  ℕ, String, Option, none, some, List, [], ◌∷◌, lookup, lookup-insert, ◌==◌, ◌≢◌, string_eq, eq_iff,
  ◌≡◌, refl, arith, inl, inr, Option-cases, Bool-cases, Result, ok, err,
}
use relayly.Sdk.PeerStore.{PeerStore, get}
use relayly.Sdk.Noise.{NoiseLib, SessionError}
use relayly.Sdk.Peer.{PeerConn, send}
use relayly.Sdk.Client.{Client, Base64, enqueue_handshake}
use relayly.Sdk.Frames.{step, send_message, sent}
use relayly.Sdk.Trust.{
  IsTrusted, AllTrusted, Safe, Safe-refl, Safe-trans, same-Safe, Sets, set_peer_conn-Sets,
}
use relayly.Sdk.Upkeep.{send-IsTrusted}
use relayly.Sdk.Invariant.{step-Safe}
use relayly.Sdk.Meanwhile.{Call, sends, registers, removes, takes, event_of, calls}

module _ (lib : NoiseLib) (base64 : Base64) where
  -- The trust in every peer but one.
  abbrev pub AllBut : String → Client lib base64 → Type 0
  AllBut key c =
      (k : String) (p : PeerConn lib)
      → key ≢ k
      → lookup k c.peers ≡ some p
      → IsTrusted lib base64 c.peer_store p

  pub Sets-AllBut :
      {key id : String} {p : PeerConn lib} {c d : Client lib base64}
      → Sets lib base64 id p c.peer_store c d
      → (key ≢ id → IsTrusted lib base64 c.peer_store p)
      → AllBut key c
      → AllBut key d
  Sets-AllBut {key} {id} {p} {c} {d} q t h k r ne l = elim (Bool-cases (id == k)) [
    | inl e ↦ λ s a y.
        ground
          (arith, q, q.peer_at k, eq_iff id k, t (λ f. ne (ground (arith, eq_iff id k, e, f))) s)
    | inr e ↦ λ s a y.
        let before : lookup k c.peers ≡ some r = ground (arith, q.peer_at k) in
        rw q.store_at (h k r ne before s a y)
  ]

  -- A change of the one peer, to a trusted one.
  pub Sets-AllTrusted :
      {key : String} {p : PeerConn lib} {store : PeerStore} {c d : Client lib base64}
      → Sets lib base64 key p store c d
      → ((id k : String) → get id c.peer_store ≡ some k → get id store ≡ some k)
      → IsTrusted lib base64 store p
      → AllBut key c
      → AllTrusted lib base64 d
  Sets-AllTrusted {key} {p} {store} {c} {d} q keeps t h k r l = elim (Bool-cases (key == k)) [
    | inl e ↦ λ s a y. ground (arith, q, q.peer_at k, t s)
    | inr e ↦ λ s a y.
        let before : lookup k c.peers ≡ some r = ground (arith, q.peer_at k) in
        let ne : key ≢ k = λ f. ground (arith, eq_iff key k, e, f) in
        rw q.store_at (keeps r.id (base64.encode s.peer_static) (h k r ne before s a y))
  ]

  sent-Sets :
      (id : String) (r : PeerConn lib × Result SessionError (List ℕ)) (c : Client lib base64)
      → Sets lib base64 id r.0 c.peer_store c (sent lib base64 id r c).0
  sent-Sets id (p, err e) c = set_peer_conn-Sets lib base64 id p c
  sent-Sets id (p, ok text) c = record {
    peer_at = λ k. lookup-insert id k p c.peers;
    store_at = refl;
  }

  send_message-AllBut :
      (key id : String) (text : List ℕ) (c : Client lib base64)
      → AllBut key c
      → AllBut key (send_message lib base64 id text c).0
  unfolding send_message
  send_message-AllBut key id text c h = elim (Option-cases (lookup id c.peers)) [
    | inl e ↦ rw (e, send_message) h
    | inr (p, e) ↦
        rw (e, send_message)
          (Sets-AllBut (sent-Sets id (send lib text p) c)
            (λ ne. send-IsTrusted lib base64 text p c.peer_store (h id p ne e)) h)
  ]

  call-AllBut :
      (key : String) (x : Call lib base64) (c : Client lib base64)
      → AllBut key c
      → AllBut key (step lib base64 (event_of lib base64 x) c)
  unfolding step event_of
  call-AllBut key (sends id text) c h = send_message-AllBut key id text c h
  call-AllBut key (registers k w) c h = h
  call-AllBut key (removes k) c h = h
  call-AllBut key takes c h = h

  pub calls-AllBut :
      (key : String) (xs : List (Call lib base64)) (c : Client lib base64)
      → AllBut key c
      → AllBut key (calls lib base64 xs c)
  unfolding calls
  calls-AllBut key [] c h = h
  calls-AllBut key (x ∷ xs) c h = calls-AllBut key xs _ (call-AllBut key x c h)

  pub calls-Safe :
      (xs : List (Call lib base64)) (c : Client lib base64)
      → Safe lib base64 c (calls lib base64 xs c)
  unfolding calls
  calls-Safe [] c = Safe-refl lib base64 c
  calls-Safe (x ∷ xs) c =
      Safe-trans lib base64 (step-Safe lib base64 (event_of lib base64 x) c) (calls-Safe xs _)

  pub enqueue_handshake-Safe :
      (m : Option (List ℕ)) (c : Client lib base64)
      → Safe lib base64 c (enqueue_handshake lib base64 m c)
  enqueue_handshake-Safe none c = Safe-refl lib base64 c
  enqueue_handshake-Safe (some m) c = same-Safe lib base64 c _ refl refl

  pub enqueue_handshake-AllBut :
      (key : String) (m : Option (List ℕ)) (c : Client lib base64)
      → AllBut key c
      → AllBut key (enqueue_handshake lib base64 m c)
  enqueue_handshake-AllBut key none c h = h
  enqueue_handshake-AllBut key (some m) c h = h
