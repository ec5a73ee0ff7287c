-- ===== src/Sdk/PeerStore.antt =====
-- sdk/go/peerstore.go: the pinned static keys of peers. The file on disk is the text that the last
-- save has written; whether a save succeeds is an argument.
use relayly.Base.{
  String, Bool, Option, none, some, List, Result, ok, err, lookup, insert, ◌==◌, string_eq,
  if◌then◌else◌, [],
}

-- `ErrPeerKeyMismatch`, or a failure to save.
pub data PinError : Type 0 where
  peer_key_mismatch save_failed : PinError

-- `static_key` and `pinned_at`.
pub record PinnedPeer : Type 0 where
  pub static_key : String
  pub pinned_at : String

-- `disk` is what the file has: nothing where it was never written.
pub record PeerStore : Type 0 where
  pub peers : List (String × PinnedPeer)
  pub disk : Option (List (String × PinnedPeer))

-- `LoadPeerStore` of a file that is missing, or has such peers.
unfoldable pub load_peer_store : Option (List (String × PinnedPeer)) → PeerStore
load_peer_store none = record { peers = []; disk = none }
load_peer_store (some peers) = record { peers = peers; disk = some peers }

-- `saveLocked`, which replaces the file at once or not at all.
unfoldable pub save_locked : Bool → PeerStore → Result PinError (Unit {0}) × PeerStore
save_locked saves ps =
    if saves then (ok tt, record ps { disk = some ps.peers }) else (err save_failed, ps)

-- `now` is the text of the current time.
unfoldable pub pin_or_verify :
    Bool → String → String → String → PeerStore → Result PinError (Unit {0}) × PeerStore
pin_or_verify saves now peer_id static_key ps = elim (lookup peer_id ps.peers) [
  | some existing ↦
      if existing.static_key == static_key then (ok tt, ps) else (err peer_key_mismatch, ps)
  | none ↦ save_locked saves (record ps {
    peers = insert peer_id (record { static_key = static_key; pinned_at = now }) ps.peers;
  })
]

-- `Get`
unfoldable pub get : String → PeerStore → Option String
get peer_id ps = elim (lookup peer_id ps.peers) [ none ↦ none | some p ↦ some p.static_key ]
