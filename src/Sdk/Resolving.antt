-- ===== src/Sdk/Resolving.antt =====
-- That a handshake message, and its end in `resolveHandshake` (sdk/go/client.go), keeps the trust
-- in sessions and the pins.
use relayly.Base.{
  ℕ, String, Bool, true, false, Option, none, some, List, Result, ok, err, lookup, lookup-insert,
  string_eq, if◌then◌else◌, ◌≡◌, refl, ◌⊎◌, arith, inl, inr, Option-cases, Bool-cases,
}
use relayly.Sdk.PeerStore.{PeerStore, get}
use relayly.Sdk.Noise.{NoiseLib, NoiseSession, SessionError, is_ready}
use relayly.Sdk.Peer.{PeerConn, Driven, promote, abandon}
use relayly.Sdk.Client.{
  handshake_failed, enqueue_handshake, Client, ClientError, Base64, Surroundings, set_peer_conn,
  verify_and_pin, resolve_verified, resolve_handshake, resolve_driven, driven_session, fail_session,
  read_handshake,
}
use relayly.Sdk.Trust.{
  IsTrusted, Safe, Safe-refl, Sets, Sets-Safe, set_peer_conn-Sets, concluded, conclude-Sets,
}
use relayly.Sdk.Driving.{
  driven-id, driven-pending, driven-active, verify_and_pin-keeps, verify_and_pin-pins,
}

module _ (lib : NoiseLib) (base64 : Base64) where
  -- The peer, once its session is verified or failed.
  unfoldable pub verified :
      Bool → NoiseSession lib → Result ClientError (List ℕ) → PeerConn lib → PeerConn lib
  verified w s (ok raw) p = concluded lib base64 w (ok raw) p
  verified w s (err e) p = concluded lib base64 w (err e) (fail_session lib base64 w s p)

  resolve_verified-Sets :
      (key : String) (w : Bool) (s : NoiseSession lib) (r : Result ClientError (List ℕ))
      (p : PeerConn lib) (c : Client lib base64)
      → Sets lib base64 key
          (verified w s r p)
          c.peer_store
          c
          (resolve_verified lib base64 key w s r p c)
  unfolding resolve_verified verified
  resolve_verified-Sets key w s (ok raw) p c = conclude-Sets lib base64 key w (ok raw) p c
  resolve_verified-Sets key w s (err e) p c =
      conclude-Sets lib base64 key w (err e) (fail_session lib base64 w s p) c

  -- The peer that `resolveHandshake` leaves, with the store.
  unfoldable pub settled :
      Surroundings lib base64
      → Bool
      → NoiseSession lib
      → Option SessionError
      → PeerConn lib
      → PeerStore
      → PeerConn lib × PeerStore
  settled env w s (some e) p store = (concluded lib base64 w (err (handshake_failed e)) p, store)
  settled env w s none p store =
      let v = verify_and_pin lib base64 env p s store in (verified w s v.0 p, v.1)

  pub resolve_handshake-Sets :
      (env : Surroundings lib base64) (key : String) (w : Bool) (s : NoiseSession lib)
      (e : Option SessionError) (p : PeerConn lib) (c : Client lib base64)
      → Sets lib base64 key
          (settled env w s e p c.peer_store).0
          (settled env w s e p c.peer_store).1
          c
          (resolve_handshake lib base64 env key w s e p c)
  unfolding resolve_handshake settled
  resolve_handshake-Sets env key w s (some e) p c =
      conclude-Sets lib base64 key w (err (handshake_failed e)) p c
  resolve_handshake-Sets env key w s none p c =
      let v = verify_and_pin lib base64 env p s c.peer_store in
      let q = resolve_verified-Sets key w s v.0 p (record c { peer_store = v.1 }) in
      record { peer_at = q.peer_at; store_at = q.store_at }

  pub settled-keeps :
      (env : Surroundings lib base64) (w : Bool) (s : NoiseSession lib) (e : Option SessionError)
      (p : PeerConn lib) (store : PeerStore) (id key : String)
      → get id store ≡ some key
      → get id (settled env w s e p store).1 ≡ some key
  unfolding settled
  settled-keeps env w s (some e) p store id key h = h
  settled-keeps env w s none p store id key h =
      verify_and_pin-keeps lib base64 env p s store id key h

  -- A failed handshake leaves the session in use, or one that is not ready.
  concluded_err-IsTrusted :
      (w : Bool) (x : ClientError) (q p : PeerConn lib) (store : PeerStore)
      → q.id ≡ p.id
      → ((t : NoiseSession lib) → q.active ≡ some t → is_ready lib t ≡ true → q.active ≡ p.active)
      → IsTrusted lib base64 store p
      → IsTrusted lib base64 store (concluded lib base64 w (err x) q)
  unfolding concluded abandon
  concluded_err-IsTrusted true x q p store i f t r a y = ground (arith, f r, t r)
  concluded_err-IsTrusted false x q p store i f t r a y = ground (arith, f r, t r)

  -- A verified one has its key pinned.
  concluded_ok-IsTrusted :
      (w : Bool) (raw : List ℕ) (q : PeerConn lib) (s : NoiseSession lib) (store : PeerStore)
      → (if w then q.pending else q.active) ≡ some s
      → get q.id store ≡ some (base64.encode s.peer_static)
      → IsTrusted lib base64 store (concluded lib base64 w (ok raw) q)
  unfolding concluded promote
  concluded_ok-IsTrusted true raw q s store e g r a y = ground arith
  concluded_ok-IsTrusted false raw q s store e g r a y = ground arith

  verified-IsTrusted :
      (w : Bool) (s : NoiseSession lib) (r : Result ClientError (List ℕ)) (q p : PeerConn lib)
      (store : PeerStore)
      → (if w then q.pending else q.active) ≡ some s
      → q.id ≡ p.id
      → (w ≡ true → q.active ≡ p.active)
      → ((raw : List ℕ) → r ≡ ok raw → get q.id store ≡ some (base64.encode s.peer_static))
      → IsTrusted lib base64 store p
      → IsTrusted lib base64 store (verified w s r q)
  unfolding verified
  verified-IsTrusted w s (ok raw) q p store e i b g t =
      concluded_ok-IsTrusted w raw q s store e (g raw refl)
  verified-IsTrusted true s (err x) q p store e i b g t =
      concluded_err-IsTrusted true x (fail_session lib base64 true s q) p store i (λ r a y. b refl)
        t
  verified-IsTrusted false s (err x) q p store e i b g t =
      concluded_err-IsTrusted false x (fail_session lib base64 false s q) p store i
        (λ r a y. ground arith) t

  -- What is known of the peer after a handshake message, as `driven-…` say.
  pub record IsDriven (d : Driven lib) (p : PeerConn lib) : Type 0 where
    pub id_same : d.peer.id ≡ p.id
    pub pending_keeps : d.was_pending ≡ true → d.peer.active ≡ p.active
    pub active_ready :
        d.was_pending ≡ false
        → (t : NoiseSession lib) → d.peer.active ≡ some t
        → is_ready lib t ≡ true
        → (d.peer.active ≡ p.active) ⊎ ((d.error ≡ none) × (d.completed ≡ true))

  pub settled-IsTrusted :
      (env : Surroundings lib base64) (w : Bool) (s : NoiseSession lib) (x : Option SessionError)
      (q p : PeerConn lib) (store : PeerStore)
      → (if w then q.pending else q.active) ≡ some s
      → q.id ≡ p.id
      → (w ≡ true → q.active ≡ p.active)
      → (w ≡ false
          → (t : NoiseSession lib) → q.active ≡ some t
          → is_ready lib t ≡ true
          → (q.active ≡ p.active) ⊎ (x ≡ none))
      → IsTrusted lib base64 store p
      → IsTrusted lib base64 (settled env w s x q store).1 (settled env w s x q store).0
  unfolding settled
  settled-IsTrusted env w s none q p store e i b f t =
      verified-IsTrusted w s (verify_and_pin lib base64 env q s store).0 q p
        (verify_and_pin lib base64 env q s store).1 e i b
        (λ raw. verify_and_pin-pins lib base64 env q s store raw)
        (λ r a y. verify_and_pin-keeps lib base64 env q s store p.id _ (t r a y))
  settled-IsTrusted env true s (some x) q p store e i b f t =
      concluded_err-IsTrusted true (handshake_failed x) q p store i (λ r a y. b refl) t
  settled-IsTrusted env false s (some x) q p store e i b f t =
      concluded_err-IsTrusted false (handshake_failed x) q p store i
        (λ r a y. ground (arith, f refl r a y)) t

  -- A message that completes no handshake, or completes it without a session, is harmless.
  pub unresolved-IsTrusted :
      (d : Driven lib) (p : PeerConn lib) (store : PeerStore)
      → IsDriven d p
      → (d.completed ≡ false) ⊎ (driven_session lib base64 d ≡ none)
      → IsTrusted lib base64 store p
      → IsTrusted lib base64 store d.peer
  unresolved-IsTrusted d p store q u t r a y = elim (Bool-cases d.was_pending) [
    | inl w ↦ ground (arith, q.id_same, q.pending_keeps w, t r)
    | inr w ↦ ground (arith, q.id_same, q.active_ready w r a y, t r)
  ]

  -- The client that has the driven peer and has queued the reply.
  abbrev replied : String → Driven lib → Client lib base64 → Client lib base64
  replied key d c = enqueue_handshake lib base64 d.reply (set_peer_conn lib base64 key d.peer c)

  replied-Sets :
      (key : String) (d : Driven lib) (c : Client lib base64)
      → Sets lib base64 key d.peer c.peer_store c (replied key d c)
  replied-Sets key d c = elim (Option-cases d.reply) [
    | inl e ↦ rw e (set_peer_conn-Sets lib base64 key d.peer c)
    | inr (m, e) ↦
        rw e (record { peer_at = λ k. lookup-insert key k d.peer c.peers; store_at = refl })
  ]

  Sets-trans :
      {key : String} {p q : PeerConn lib} {s t : PeerStore} {b c d : Client lib base64}
      → Sets lib base64 key p s b c
      → Sets lib base64 key q t c d
      → Sets lib base64 key q t b d
  Sets-trans {key} {p} {q} {s} {t} {b} {c} {d} x y = record {
    peer_at = λ k. ground (arith, x.peer_at k, y.peer_at k);
    store_at = y.store_at;
  }

  resolved-Safe :
      (env : Surroundings lib base64) (key : String) (d : Driven lib) (p : PeerConn lib)
      (c : Client lib base64) (s : NoiseSession lib)
      → lookup key c.peers ≡ some p
      → IsDriven d p
      → driven_session lib base64 d ≡ some s
      → Safe lib base64 c
          (resolve_handshake lib base64 env key d.was_pending s d.error d.peer (replied key d c))
  resolved-Safe env key d p c s l q e =
      let u = replied key d c in
      let first = replied-Sets key d c in
      Sets-Safe lib base64
        (Sets-trans first (resolve_handshake-Sets env key d.was_pending s d.error d.peer u))
        (λ id k h.
          settled-keeps env d.was_pending s d.error d.peer u.peer_store id k (rw first.store_at h))
        (λ h.
          settled-IsTrusted env d.was_pending s d.error d.peer p u.peer_store e q.id_same
            q.pending_keeps (λ w t a r. ground (arith, q.active_ready w t a r))
            (rw first.store_at (h key p l)))

  unresolved-Safe :
      (key : String) (d : Driven lib) (p : PeerConn lib) (c : Client lib base64)
      → lookup key c.peers ≡ some p
      → IsDriven d p
      → (d.completed ≡ false) ⊎ (driven_session lib base64 d ≡ none)
      → Safe lib base64 c (replied key d c)
  unresolved-Safe key d p c l q u =
      Sets-Safe lib base64 (replied-Sets key d c) (λ id k h. h)
        (λ h. unresolved-IsTrusted d p c.peer_store q u (h key p l))

  resolve_driven-Safe :
      (env : Surroundings lib base64) (key : String) (d : Driven lib) (p : PeerConn lib)
      (c : Client lib base64)
      → lookup key c.peers ≡ some p
      → IsDriven d p
      → Safe lib base64 c (resolve_driven lib base64 env key d c)
  unfolding resolve_driven
  resolve_driven-Safe env key d p c l q = elim (Bool-cases d.completed) [
    | inr e ↦ rw e (unresolved-Safe key d p c l q (inl e))
    | inl e ↦ elim (Option-cases (driven_session lib base64 d)) [
      | inl f ↦ rw (e, f) (unresolved-Safe key d p c l q (inr f))
      | inr (s, f) ↦ rw (e, f) (resolved-Safe env key d p c s l q f)
    ]
  ]

  pub read_handshake-Safe :
      (env : Surroundings lib base64) (payload : List ℕ) (c : Client lib base64)
      → Safe lib base64 c (read_handshake lib base64 env payload c)
  unfolding read_handshake
  read_handshake-Safe env payload c = elim (Option-cases (lookup env.first c.peers)) [
    | inl e ↦ rw (e, read_handshake) (Safe-refl lib base64 c)
    | inr (p, e) ↦
        rw (e, read_handshake)
          (resolve_driven-Safe env env.first _ p c e (record {
            id_same = driven-id lib base64 c.private_key env.random env.now payload p;
            pending_keeps = driven-pending lib base64 c.private_key env.random env.now payload p;
            active_ready = driven-active lib base64 c.private_key env.random env.now payload p;
          }))
  ]
