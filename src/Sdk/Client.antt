-- ===== src/Sdk/Client.antt =====
-- sdk/go/client.go: the client's state, and what it does with the binary frames that it reads.
use relayly.Base.{
  ℕ, String, Bool, not, ◌&&◌, Option, none, some, List, [], ◌∷◌, ◌++◌, Result, ok, err, ltb, length,
  lookup, insert, erase, ◌==◌, string_eq, if◌then◌else◌,
}
use relayly.Sdk.PeerStore.{PeerStore, PinError, pin_or_verify}
use relayly.Sdk.Noise.{
  NoiseLib, NoiseSession, failed, SessionError, unverified, envelope_handshake, encode_envelope,
}
use relayly.Sdk.Peer.{
  PeerConn, take_first_pair_waiter, Driven, handle_handshake_envelope, promote, abandon, recv,
}

-- What the client uses of the standard library's base64.
pub record Base64 : Type 0 where
  pub encode : List ℕ → String
  pub decode : String → Option (List ℕ)

pub data ClientError : Type 0 where
  -- the code and the message of the server's error
  server : String → String → ClientError
  handshake_failed : SessionError → ClientError
  pin : PinError → ClientError
  key_mismatch invalid_key no_peer : ClientError
  session_error : SessionError → ClientError

pub record PairResult : Type 0 where
  pub code : String
  pub expires_in : ℕ
  pub peer_id : String
  pub peer_public_key : List ℕ
  pub error : Option ClientError

pub record PairWaiter : Type 0 where
  pub channel : ℕ
  pub we_are_acceptor : Bool

pub record Message : Type 0 where
  pub sender : String
  pub payload : List ℕ

module _ (lib : NoiseLib) (base64 : Base64) where
  -- `messages` is what the channel of that name holds. Of `sends` and of the waiters' channels, all
  -- that was put on them stands here, and of `OnReady` its calls.
  pub record Client : Type 0 where
    pub device_id : String
    pub private_key : lib.PrivateKey
    pub peer_store : PeerStore
    pub peers : List (String × PeerConn lib)
    pub messages : List Message
    pub sends : List (List ℕ)
    pub pair_waiters : List (String × PairWaiter)
    pub results : List (ℕ × PairResult)
    pub readied : List String

  -- What the surroundings add to a frame: the clock, also as text, whether the disk takes a save,
  -- the random bytes, and the peer that Go's walk over the map meets first (at most one is linked).
  pub record Surroundings : Type 0 where
    pub now : ℕ
    pub date : String
    pub saves : Bool
    pub random : ℕ
    pub first : String

  -- `getSolePeer`
  abbrev pub sole_peer : Surroundings → Client → Option (PeerConn lib)
  sole_peer env c = lookup env.first c.peers

  abbrev pub get_peer_conn : String → Client → Option (PeerConn lib)
  get_peer_conn id c = lookup id c.peers

  abbrev pub remove_pair_waiter : String → Client → Client
  remove_pair_waiter key c = record c { pair_waiters = erase key c.pair_waiters }

  abbrev pub set_peer_conn : String → PeerConn lib → Client → Client
  set_peer_conn id p c = record c { peers = insert id p c.peers }

  abbrev pub enqueue_binary : ℕ → List ℕ → Client → Client
  enqueue_binary kind payload c = record c { sends = c.sends ++ encode_envelope kind payload ∷ [] }

  abbrev pub enqueue_handshake : Option (List ℕ) → Client → Client
  enqueue_handshake none c = c
  enqueue_handshake (some message) c = enqueue_binary envelope_handshake message c

  -- After the pin: the cross-check with the announced key, and the key's length.
  unfoldable pub cross_check : String → String → Result ClientError (List ℕ)
  cross_check announced authenticated =
      if not (announced == "") && not (announced == authenticated)
      then err key_mismatch
      else (elim (base64.decode authenticated) [
        | none ↦ err invalid_key
        | some raw ↦
            if ltb (length raw) 32
            then err invalid_key
            else if ltb 32 (length raw)
            then err invalid_key
            else ok raw
      ])

  unfoldable pub verify_and_pin :
      Surroundings
      → PeerConn lib
      → NoiseSession lib
      → PeerStore
      → Result ClientError (List ℕ) × PeerStore
  verify_and_pin env p s store =
      let authenticated = base64.encode s.peer_static in
      let r = pin_or_verify env.saves env.date p.id authenticated store in
      elim r.0 [
        | err e ↦ (err (pin e), r.1)
        | ok t ↦ (cross_check p.announced_static_key authenticated, r.1)
      ]

  abbrev pair_result : String → Result ClientError (List ℕ) → PairResult
  pair_result id (ok key) = record {
    code = "";
    expires_in = 0;
    peer_id = id;
    peer_public_key = key;
    error = none;
  }
  pair_result id (err e) = record {
    code = "";
    expires_in = 0;
    peer_id = id;
    peer_public_key = [];
    error = some e;
  }

  -- `takeFirstPairWaiter`, and the result for the waiter.
  unfoldable pub tell_waiter : String → PairResult → PeerConn lib → Client → Client
  tell_waiter key result p c =
      let (waiter, left) = take_first_pair_waiter lib p in
      let told = set_peer_conn key left c in
      elim waiter [
        | none ↦ told
        | some channel ↦ record told { results = told.results ++ (channel, result) ∷ [] }
      ]

  unfoldable pub announce_ready : String → Client → Client
  announce_ready id c = record c { readied = c.readied ++ id ∷ [] }

  -- The session that `resolveHandshake` fails stands in the peer.
  abbrev pub fail_session : Bool → NoiseSession lib → PeerConn lib → PeerConn lib
  fail_session was_pending s p =
      let t : NoiseSession lib = record s { status = failed; error = some unverified } in
      if was_pending then record p { pending = some t } else record p { active = some t }

  -- The end of `resolveHandshake`, from its result.
  unfoldable pub conclude :
      String → Bool → Result ClientError (List ℕ) → PeerConn lib → Client → Client
  conclude key was_pending (err e) p c =
      if was_pending
      then set_peer_conn key (abandon lib p) c
      else tell_waiter key (pair_result p.id (err e)) p c
  conclude key was_pending (ok raw) p c =
      announce_ready p.id
        (tell_waiter key (pair_result p.id (ok raw)) (if was_pending then promote lib p else p) c)

  unfoldable pub resolve_verified :
      String
      → Bool
      → NoiseSession lib
      → Result ClientError (List ℕ)
      → PeerConn lib
      → Client
      → Client
  resolve_verified key was_pending s (ok raw) p c = conclude key was_pending (ok raw) p c
  resolve_verified key was_pending s (err e) p c =
      conclude key was_pending (err e) (fail_session was_pending s p) c

  -- `resolveHandshake` of the session `s` of the peer `p`, which has the key `key` in the map.
  unfoldable pub resolve_handshake :
      Surroundings
      → String
      → Bool
      → NoiseSession lib
      → Option SessionError
      → PeerConn lib
      → Client
      → Client
  resolve_handshake env key was_pending s (some e) p c =
      conclude key was_pending (err (handshake_failed e)) p c
  resolve_handshake env key was_pending s none p c =
      let v = verify_and_pin env p s c.peer_store in
      resolve_verified key was_pending s v.0 p (record c { peer_store = v.1 })

  abbrev pub driven_session : Driven lib → Option (NoiseSession lib)
  driven_session d = if d.was_pending then d.peer.pending else d.peer.active

  unfoldable pub resolve_driven : Surroundings → String → Driven lib → Client → Client
  resolve_driven env key d c =
      let c' = enqueue_handshake d.reply (set_peer_conn key d.peer c) in
      if d.completed
      then (elim (driven_session d) [
        | none ↦ c'
        | some s ↦ resolve_handshake env key d.was_pending s d.error d.peer c'
      ])
      else c'

  unfoldable pub read_handshake : Surroundings → List ℕ → Client → Client
  read_handshake env payload c = elim (sole_peer env c) [
    | none ↦ c
    | some p ↦
        resolve_driven env env.first
          (handle_handshake_envelope lib c.private_key env.random env.now payload p) c
  ]

  abbrev pub received : String → PeerConn lib × Result SessionError (List ℕ) → Client → Client
  received key (p, err e) c = set_peer_conn key p c
  received key (p, ok plaintext) c =
      let c' = set_peer_conn key p c in
      if ltb (length c.messages) 64
      then record c' {
        messages = c'.messages ++ record { sender = p.id; payload = plaintext } ∷ [];
      }
      else c'

  unfoldable pub read_transport : Surroundings → List ℕ → Client → Client
  read_transport env ciphertext c = elim (sole_peer env c) [
    | none ↦ c
    | some p ↦ received env.first (recv lib ciphertext p) c
  ]
