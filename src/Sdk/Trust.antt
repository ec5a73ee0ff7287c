-- ===== src/Sdk/Trust.antt =====
-- The trust that sdk/go/client.go puts in a session: it is ready only for the peer's pinned key.
use relayly.Base.{
  ℕ, String, Bool, true, false, none, some, List, Result, ok, err, lookup, lookup-insert, ◌==◌,
  string_eq, if◌then◌else◌, ◌≡◌, refl, arith, inl, inr, Option-cases, Bool-cases,
}
use relayly.Sdk.PeerStore.{PeerStore, get}
use relayly.Sdk.Noise.{NoiseLib, NoiseSession, is_ready}
use relayly.Sdk.Peer.{PeerConn, promote, abandon}
use relayly.Sdk.Client.{
  Client, ClientError, Base64, PairResult, set_peer_conn, conclude, tell_waiter, announce_ready,
}

module _ (lib : NoiseLib) (base64 : Base64) where
  -- The session that the peer uses is ready only if the key that its handshake authenticated is the
  -- one that is pinned for the peer.
  abbrev pub IsTrusted : PeerStore → PeerConn lib → Type 0
  IsTrusted store p =
      (s : NoiseSession lib)
      → p.active ≡ some s
      → is_ready lib s ≡ true
      → get p.id store ≡ some (base64.encode s.peer_static)

  abbrev pub AllTrusted : Client lib base64 → Type 0
  AllTrusted c =
      (key : String) (p : PeerConn lib) → lookup key c.peers ≡ some p → IsTrusted c.peer_store p

  -- What is proved of a change of the client: it keeps every pin, and the trust.
  pub record Safe (c d : Client lib base64) : Type 0 where
    pub pins : (id key : String) → get id c.peer_store ≡ some key → get id d.peer_store ≡ some key
    pub trusts : AllTrusted c → AllTrusted d

  pub Safe-refl : (c : Client lib base64) → Safe c c
  Safe-refl c = record { pins = λ id key h. h; trusts = λ h. h }

  pub Safe-trans : {b c d : Client lib base64} → Safe b c → Safe c d → Safe b d
  Safe-trans q r = record {
    pins = λ id key h. r.pins id key (q.pins id key h);
    trusts = λ h. r.trusts (q.trusts h);
  }

  -- The peers and the store as they were.
  pub same-Safe :
      (c d : Client lib base64) → d.peers ≡ c.peers → d.peer_store ≡ c.peer_store → Safe c d
  same-Safe c d e f = record {
    pins = λ id key h. rw f h;
    trusts = λ h key p l. rw f (h key p (rw (← e) l));
  }

  -- A change of the peers under one key, to `p`, and of the store.
  pub record Sets (key : String) (p : PeerConn lib) (store : PeerStore) (c d : Client lib base64)
      : Type 0 where
    pub peer_at : (k : String) → lookup k d.peers ≡ (if key == k then some p else lookup k c.peers)
    pub store_at : d.peer_store ≡ store

  pub Sets-Safe :
      {key : String} {p : PeerConn lib} {store : PeerStore} {c d : Client lib base64}
      → Sets key p store c d
      → ((id k : String) → get id c.peer_store ≡ some k → get id store ≡ some k)
      → (AllTrusted c → IsTrusted store p)
      → Safe c d
  Sets-Safe {key} {p} {store} {c} {d} q keeps trust = record {
    pins = λ id k h. rw q.store_at (keeps id k h);
    trusts = λ h k r l. elim (Bool-cases (key == k)) [
      | inl e ↦ λ s a y. ground (arith, q, q.peer_at k, trust h s)
      | inr e ↦ λ s a y.
          let before : lookup k c.peers ≡ some r = ground (arith, q.peer_at k) in
          rw q.store_at (keeps r.id (base64.encode s.peer_static) (h k r before s a y))
    ];
  }

  pub set_peer_conn-Sets :
      (key : String) (p : PeerConn lib) (c : Client lib base64)
      → Sets key p c.peer_store c (set_peer_conn lib base64 key p c)
  set_peer_conn-Sets key p c = record {
    peer_at = λ k. lookup-insert key k p c.peers;
    store_at = refl;
  }

  -- A peer with the session of a trusted one is trusted.
  pub same-IsTrusted :
      (store : PeerStore) (p q : PeerConn lib)
      → q.active ≡ p.active
      → q.id ≡ p.id
      → IsTrusted store p
      → IsTrusted store q
  same-IsTrusted store p q e f h s a r = ground (arith, h s)

  pub tell_waiter-Sets :
      (key : String) (result : PairResult) (p : PeerConn lib) (c : Client lib base64)
      → Sets key
          (record p { first_pair_waiter = none })
          c.peer_store
          c
          (tell_waiter lib base64 key result p c)
  unfolding tell_waiter
  tell_waiter-Sets key result p c = elim (Option-cases p.first_pair_waiter) [
    | inl e ↦ rw e (set_peer_conn-Sets key _ c)
    | inr (channel, e) ↦
        rw e (record { peer_at = λ k. lookup-insert key k _ c.peers; store_at = refl })
  ]

  -- The peer when `resolveHandshake` ends.
  unfoldable pub concluded : Bool → Result ClientError (List ℕ) → PeerConn lib → PeerConn lib
  concluded was_pending (err e) p =
      if was_pending then abandon lib p else record p { first_pair_waiter = none }
  concluded was_pending (ok raw) p = record (if was_pending then promote lib p else p) {
    first_pair_waiter = none;
  }

  pub conclude-Sets :
      (key : String) (was_pending : Bool) (r : Result ClientError (List ℕ)) (p : PeerConn lib)
      (c : Client lib base64)
      → Sets key
          (concluded was_pending r p)
          c.peer_store
          c
          (conclude lib base64 key was_pending r p c)
  unfolding conclude concluded announce_ready
  conclude-Sets key true (err e) p c = set_peer_conn-Sets key _ c
  conclude-Sets key false (err e) p c = tell_waiter-Sets key _ p c
  conclude-Sets key was_pending (ok raw) p c =
      let told = tell_waiter-Sets key _ (if was_pending then promote lib p else p) c in
      record { peer_at = told.peer_at; store_at = told.store_at }
