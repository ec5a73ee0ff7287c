-- ===== src/Sdk/Upkeep.antt =====
-- The trust in one peer of sdk/go, through the operations of peer.go that do not resolve a
-- handshake.
use relayly.Base.{
  ℕ, String, Bool, true, false, List, insert, lookup-insert, nat_eq, string_eq, if◌then◌else◌, ◌≡◌,
  arith, inl, inr, Option-cases,
}
use relayly.Sdk.PeerStore.{PeerStore}
use relayly.Sdk.Noise.{NoiseLib, new_initiator_session}
use relayly.Sdk.Peer.{
  PeerConn, new_peer_conn, start_as_initiator, start_rekey_as_initiator, send, recv,
}
use relayly.Sdk.Client.{Client, Base64}
use relayly.Sdk.Sessions.{encrypt-same, decrypt-same}
use relayly.Sdk.Trust.{IsTrusted, AllTrusted, Safe, Sets-Safe}

module _ (lib : NoiseLib) (base64 : Base64) where
  -- One peer changes, and nothing of the trust in it.
  pub set_peer_conn-Safe :
      (key : String) (p : PeerConn lib) (c d : Client lib base64)
      → d.peers ≡ insert key p c.peers
      → d.peer_store ≡ c.peer_store
      → (AllTrusted lib base64 c → IsTrusted lib base64 c.peer_store p)
      → Safe lib base64 c d
  set_peer_conn-Safe key p c d e f t =
      Sets-Safe lib base64 {key = key} {p = p} {store = c.peer_store} {c = c} {d = d}
        (record { peer_at = λ k. rw e (lookup-insert key k p c.peers); store_at = f }) (λ id k h. h)
        t

  pub new_peer_conn-IsTrusted :
      (id key : String) (store : PeerStore) → IsTrusted lib base64 store (new_peer_conn lib id key)
  unfolding new_peer_conn
  new_peer_conn-IsTrusted id key store s a r = ground arith

  pub start_as_initiator-IsTrusted :
      (priv : lib.PrivateKey) (random : ℕ) (p : PeerConn lib) (store : PeerStore)
      → IsTrusted lib base64 store p
      → IsTrusted lib base64 store (start_as_initiator lib priv random p).0
  unfolding start_as_initiator new_initiator_session
  start_as_initiator-IsTrusted priv random p store t s a r = ground (arith, t s)

  pub start_rekey-IsTrusted :
      (priv : lib.PrivateKey) (random : ℕ) (p : PeerConn lib) (store : PeerStore)
      → IsTrusted lib base64 store p
      → IsTrusted lib base64 store (start_rekey_as_initiator lib priv random p).0
  unfolding start_rekey_as_initiator new_initiator_session
  start_rekey-IsTrusted priv random p store t s a r = ground (arith, t s)

  pub send-IsTrusted :
      (text : List ℕ) (p : PeerConn lib) (store : PeerStore)
      → IsTrusted lib base64 store p
      → IsTrusted lib base64 store (send lib text p).0
  unfolding send
  send-IsTrusted text p store t s a r = elim (Option-cases p.active) [
    | inl e ↦ ground (arith, t s)
    | inr (u, e) ↦ ground (arith, t u, encrypt-same lib text u)
  ]

  pub recv-IsTrusted :
      (text : List ℕ) (p : PeerConn lib) (store : PeerStore)
      → IsTrusted lib base64 store p
      → IsTrusted lib base64 store (recv lib text p).0
  unfolding recv
  recv-IsTrusted text p store t s a r = elim (Option-cases p.active) [
    | inl e ↦ ground (arith, t s)
    | inr (u, e) ↦ ground (arith, t u, decrypt-same lib text u)
  ]

  pub if-Safe :
      {c : Client lib base64} (b : Bool) (d e : Client lib base64)
      → Safe lib base64 c d
      → Safe lib base64 c e
      → Safe lib base64 c (if b then d else e)
  if-Safe true d e q r = q
  if-Safe false d e q r = r
