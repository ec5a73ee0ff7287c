-- ===== src/Sdk/Amid.antt =====
-- That the trust in sessions (sdk/go/client.go) holds again once a handshake message is resolved,
-- whatever the calls in its middle did.
use relayly.Base.{
  ℕ, String, Bool, true, false, Option, none, some, List, [], ◌∷◌, lookup, ◌==◌, string_eq, eq_iff,
  if◌then◌else◌, ◌≡◌, refl, ◌⊎◌, arith, inl, inr, Option-cases, Bool-cases,
}
use relayly.Sdk.PeerStore.{PeerStore}
use relayly.Sdk.Noise.{NoiseLib, NoiseSession, SessionError, is_ready}
use relayly.Sdk.Peer.{PeerConn, Driven}
use relayly.Sdk.Client.{
  Client, Base64, Surroundings, set_peer_conn, driven_session, resolve_handshake,
}
use relayly.Sdk.Trust.{IsTrusted, AllTrusted, Safe-trans, Sets-Safe, set_peer_conn-Sets}
use relayly.Sdk.Driving.{driven-id, driven-pending, driven-active}
use relayly.Sdk.Resolving.{resolve_handshake-Sets, settled-keeps, settled-IsTrusted, IsDriven}
use relayly.Sdk.Invariant.{step-Safe}
use relayly.Sdk.Meanwhile.{
  Call, end_handshake, drive_amid, read_handshake_amid, Busy, whole, amid, busy_step, busy_steps,
}
use relayly.Sdk.Calling.{
  AllBut, Sets-AllBut, Sets-AllTrusted, calls-AllBut, calls-Safe, enqueue_handshake-Safe,
  enqueue_handshake-AllBut,
}

module _ (lib : NoiseLib) (base64 : Base64) where
  resolved-AllTrusted :
      (env : Surroundings lib base64) (key : String) (w : Bool) (s : NoiseSession lib)
      (x : Option SessionError) (q p : PeerConn lib) (c : Client lib base64)
      → (if w then q.pending else q.active) ≡ some s
      → q.id ≡ p.id
      → (w ≡ true → q.active ≡ p.active)
      → (w ≡ false
          → (t : NoiseSession lib) → q.active ≡ some t
          → is_ready lib t ≡ true
          → (q.active ≡ p.active) ⊎ (x ≡ none))
      → IsTrusted lib base64 c.peer_store p
      → AllBut lib base64 key c
      → AllTrusted lib base64 (resolve_handshake lib base64 env key w s x q c)
  resolved-AllTrusted env key w s x q p c e i b f t h =
      Sets-AllTrusted lib base64 (resolve_handshake-Sets lib base64 env key w s x q c)
        (settled-keeps lib base64 env w s x q c.peer_store)
        (settled-IsTrusted lib base64 env w s x q p c.peer_store e i b f t) h

  -- The peer that was left out has no session, or is not there.
  AllBut-AllTrusted :
      (key : String) (c : Client lib base64)
      → ((p : PeerConn lib) → lookup key c.peers ≡ some p → IsTrusted lib base64 c.peer_store p)
      → AllBut lib base64 key c
      → AllTrusted lib base64 c
  AllBut-AllTrusted key c t h k p l = elim (Bool-cases (key == k)) [
    | inl e ↦ t p (ground (arith, eq_iff key k))
    | inr e ↦ h k p (λ f. ground (arith, eq_iff key k, e, f)) l
  ]

  -- The end of a handshake, with every peer trusted before it.
  end_handshake-AllTrusted :
      (env : Surroundings lib base64) (key : String) (d : Driven lib) (c : Client lib base64)
      → AllTrusted lib base64 c
      → AllTrusted lib base64 (end_handshake lib base64 env key d c)
  unfolding end_handshake
  end_handshake-AllTrusted env key d c h = elim (Bool-cases d.completed) [
    | inr e ↦ rw e h
    | inl e ↦ elim (Option-cases (lookup key c.peers)) [
      | inl l ↦ rw (e, l) h
      | inr (q, l) ↦ elim (Option-cases (driven_session lib base64 (record d { peer = q }))) [
        | inl a ↦ rw (e, l, a) h
        | inr (s, a) ↦
            rw (e, l, a)
              (resolved-AllTrusted env key d.was_pending s d.error q q c a refl (λ w. refl)
                (λ w t u r. inl refl) (h key q l) (λ k p ne m. h k p m))
      ]
    ]
  ]

  -- The end of one whose session became ready just now: its key is pinned, or the session fails.
  end_handshake-closes :
      (env : Surroundings lib base64) (key : String) (d : Driven lib) (c : Client lib base64)
      → d.completed ≡ true
      → d.was_pending ≡ false
      → d.error ≡ none
      → AllBut lib base64 key c
      → AllTrusted lib base64 (end_handshake lib base64 env key d c)
  unfolding end_handshake
  end_handshake-closes env key d c done first fine h = elim (Option-cases (lookup key c.peers)) [
    | inl l ↦ rw (done, l) (AllBut-AllTrusted key c (λ p m. absurd (ground arith)) h)
    | inr (q, l) ↦ elim (Option-cases (driven_session lib base64 (record d { peer = q }))) [
      | inl a ↦
          let idle : q.active ≡ none = ground (arith, first, a) in
          rw (done, l, a) (AllBut-AllTrusted key c (λ p m s b y. absurd (ground arith)) h)
      | inr (s, a) ↦
          rw (done, l, a)
            (resolved-AllTrusted env key d.was_pending s d.error q (record q { active = none }) c a
              refl (λ w. absurd (ground arith)) (λ w t u r. inr fine)
              (λ t b y. absurd (ground arith)) h)
    ]
  ]

  driven-IsTrusted :
      (d : Driven lib) (p : PeerConn lib) (store : PeerStore)
      → IsDriven lib base64 d p
      → ¬ ((d.was_pending ≡ false) × (d.error ≡ none) × (d.completed ≡ true))
      → IsTrusted lib base64 store p
      → IsTrusted lib base64 store d.peer
  driven-IsTrusted d p store q u t r a y = elim (Bool-cases d.was_pending) [
    | inl w ↦ ground (arith, q.id_same, q.pending_keeps w, t r)
    | inr w ↦ ground (arith, q.id_same, q.active_ready w r a y, t r, u)
  ]

  set_peer_conn-AllBut :
      (key : String) (p : PeerConn lib) (c : Client lib base64)
      → AllTrusted lib base64 c
      → AllBut lib base64 key (set_peer_conn lib base64 key p c)
  set_peer_conn-AllBut key p c h =
      Sets-AllBut lib base64 (set_peer_conn-Sets lib base64 key p c) (λ ne. absurd (ne refl))
        (λ k r ne l. h k r l)

  -- The peer is trusted after the message.
  drive_amid-trusted :
      (env : Surroundings lib base64) (key : String) (d : Driven lib)
      (xs ys : List (Call lib base64)) (c : Client lib base64)
      → IsTrusted lib base64 c.peer_store d.peer
      → AllTrusted lib base64 c
      → AllTrusted lib base64 (drive_amid lib base64 env key d xs ys c)
  unfolding drive_amid
  drive_amid-trusted env key d xs ys c t h =
      let safe =
        Safe-trans lib base64
          (Sets-Safe lib base64 (set_peer_conn-Sets lib base64 key d.peer c) (λ id k g. g) (λ g. t))
          (Safe-trans lib base64 (calls-Safe lib base64 xs _) (
            Safe-trans lib base64 (enqueue_handshake-Safe lib base64 d.reply _)
              (calls-Safe lib base64 ys _))) in
      end_handshake-AllTrusted env key d _ (safe.trusts h)

  -- Its session has just become ready, and its key is not pinned yet.
  drive_amid-closes :
      (env : Surroundings lib base64) (key : String) (d : Driven lib)
      (xs ys : List (Call lib base64)) (c : Client lib base64)
      → d.completed ≡ true
      → d.was_pending ≡ false
      → d.error ≡ none
      → AllTrusted lib base64 c
      → AllTrusted lib base64 (drive_amid lib base64 env key d xs ys c)
  unfolding drive_amid
  drive_amid-closes env key d xs ys c done first fine h =
      end_handshake-closes env key d _ done first fine (
        calls-AllBut lib base64 key ys _ (
          enqueue_handshake-AllBut lib base64 key d.reply _
            (calls-AllBut lib base64 key xs _ (set_peer_conn-AllBut key d.peer c h))))

  drive_amid-AllTrusted :
      (env : Surroundings lib base64) (key : String) (d : Driven lib) (p : PeerConn lib)
      (xs ys : List (Call lib base64)) (c : Client lib base64)
      → IsDriven lib base64 d p
      → lookup key c.peers ≡ some p
      → AllTrusted lib base64 c
      → AllTrusted lib base64 (drive_amid lib base64 env key d xs ys c)
  drive_amid-AllTrusted env key d p xs ys c q l h =
      let trusted : ¬ ((d.was_pending ≡ false) × (d.error ≡ none) × (d.completed ≡ true))
          → AllTrusted lib base64 (drive_amid lib base64 env key d xs ys c) =
        λ n.
          drive_amid-trusted env key d xs ys c (driven-IsTrusted d p c.peer_store q n (h key p l))
            h in
      elim (Bool-cases d.was_pending) [
        | inl w ↦ trusted (λ n. ground arith)
        | inr w ↦ elim (Bool-cases d.completed) [
          | inr e ↦ trusted (λ n. ground arith)
          | inl e ↦ elim (Option-cases d.error) [
            | inr (x, f) ↦ trusted (λ n. ground arith)
            | inl f ↦ drive_amid-closes env key d xs ys c e w f h
          ]
        ]
      ]

  read_handshake_amid-AllTrusted :
      (env : Surroundings lib base64) (payload : List ℕ) (xs ys : List (Call lib base64))
      (c : Client lib base64)
      → AllTrusted lib base64 c
      → AllTrusted lib base64 (read_handshake_amid lib base64 env payload xs ys c)
  unfolding read_handshake_amid
  read_handshake_amid-AllTrusted env payload xs ys c h =
      elim (Option-cases (lookup env.first c.peers)) [
        | inl e ↦ rw (e, read_handshake_amid) h
        | inr (p, e) ↦
            rw (e, read_handshake_amid)
              (drive_amid-AllTrusted env env.first _ p xs ys c
                (record {
                  id_same = driven-id lib base64 c.private_key env.random env.now payload p;
                  pending_keeps =
                      driven-pending lib base64 c.private_key env.random env.now payload p;
                  active_ready =
                      driven-active lib base64 c.private_key env.random env.now payload p;
                })
                e h)
      ]

  -- If every ready session in use has authenticated the key that is pinned for its peer, that is so
  -- again after each frame and each call, whatever frames the relay sends and whatever calls come
  -- in whatever order, also those that other goroutines make while a handshake message is handled:
  -- before its reply is queued, and before the handshake that it completes is resolved. In the
  -- middle of such a message it may fail.
  pub busy_steps-AllTrusted :
      (bs : List (Busy lib base64)) (c : Client lib base64)
      → AllTrusted lib base64 c
      → AllTrusted lib base64 (busy_steps lib base64 bs c)
  unfolding busy_steps busy_step
  busy_steps-AllTrusted [] c h = h
  busy_steps-AllTrusted (whole e ∷ bs) c h =
      busy_steps-AllTrusted bs _ ((step-Safe lib base64 e c).trusts h)
  busy_steps-AllTrusted (amid env payload xs ys ∷ bs) c h =
      busy_steps-AllTrusted bs _ (read_handshake_amid-AllTrusted env payload xs ys c h)
