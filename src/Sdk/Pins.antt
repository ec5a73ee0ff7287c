-- ===== src/Sdk/Pins.antt =====
-- What the peer store of sdk/go/peerstore.go promises of a pin.
use relayly.Base.{
  String, Bool, false, Option, none, some, Result, ok, err, lookup, lookup-insert, ◌==◌, string_eq,
  if◌then◌else◌, ◌≡◌, arith, eq_iff, inl, inr, Option-cases,
}
use relayly.Sdk.PeerStore.{
  PeerStore, PinnedPeer, PinError, peer_key_mismatch, save_failed, pin_or_verify, save_locked, get,
}

-- The answer to a key for a peer, by the key that is pinned.
abbrev pub pin_verdict : Bool → String → Option String → Result PinError (Unit {0})
pin_verdict saves key none = if saves then ok tt else err save_failed
pin_verdict saves key (some pinned) = if pinned == key then ok tt else err peer_key_mismatch

-- A key is accepted for a peer exactly if it is the one that is pinned, or if none is and the pin
-- reaches the disk; the peer's pin after that is the old one, or the key if there was none, and no
-- other peer's pin changes.
pub pin_or_verify_lem :
    (saves : Bool) (now id key other : String) (ps : PeerStore)
    → ((pin_or_verify saves now id key ps).0 ≡ pin_verdict saves key (get id ps))
      × (get other (pin_or_verify saves now id key ps).1 ≡ (
          if id == other
          then (elim (get id ps) [ none ↦ some key | some pinned ↦ some pinned ])
          else get other ps))
unfolding pin_or_verify save_locked get
pin_or_verify_lem saves now id key other ps =
    let pin : PinnedPeer = record { static_key = key; pinned_at = now } in
    elim (Option-cases (lookup id ps.peers)) [
      | inl e ↦ ground (arith, lookup-insert id other pin ps.peers, eq_iff id other)
      | inr (p, e) ↦ ground (arith, eq_iff id other)
    ]

-- A pin is never replaced.
pub pin_or_verify-keeps :
    (saves : Bool) (now id key other pinned : String) (ps : PeerStore)
    → get other ps ≡ some pinned
    → get other (pin_or_verify saves now id key ps).1 ≡ some pinned
pin_or_verify-keeps saves now id key other pinned ps h =
    ground (arith, pin_or_verify_lem saves now id key other ps, eq_iff id other)

pub pin_or_verify-pins :
    (saves : Bool) (now id key : String) (ps : PeerStore)
    → (pin_or_verify saves now id key ps).0 ≡ ok tt
    → get id (pin_or_verify saves now id key ps).1 ≡ some key
pin_or_verify-pins saves now id key ps h = elim (Option-cases (get id ps)) [
  | inl e ↦ ground (arith, pin_or_verify_lem saves now id key id ps, eq_iff id id)
  | inr (pinned, e) ↦
      ground (arith, pin_or_verify_lem saves now id key id ps, eq_iff id id, eq_iff pinned key)
]

-- A pin whose save fails stands in memory only: the same key is accepted from then on, whether or
-- not the disk takes it, and the file is not written.
pub pin_or_verify_unsaved :
    (saves : Bool) (now later id key : String) (ps : PeerStore)
    → get id ps ≡ none
    → let first = pin_or_verify false now id key ps in
      (first.0 ≡ err save_failed)
      × ((pin_or_verify saves later id key first.1).0 ≡ ok tt)
      × ((pin_or_verify saves later id key first.1).1.disk ≡ ps.disk)
unfolding pin_or_verify save_locked get
pin_or_verify_unsaved saves now later id key ps h =
    let pin : PinnedPeer = record { static_key = key; pinned_at = now } in
    ground (arith, lookup-insert id id pin ps.peers, eq_iff id id, eq_iff key key)
