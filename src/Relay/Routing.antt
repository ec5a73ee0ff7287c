-- ===== src/Relay/Routing.antt =====
-- Where an envelope goes: readPump's binary case (internal/relay/client.go) with `Hub.Route`
-- (internal/relay/hub.go).
use relayly.Base.{
  ℕ, ◌<◌, ◌≡◌, ◌≢◌, ◌⊎◌, inl, inr, false, some, List, [], ◌∷◌, ◌++◌, arith, length, ltb, ◌==◌,
  nat_eq, string_eq, eq_iff, if◌then◌else◌, Option-cases,
}
use relayly.Relay.Client.{Client, WsFrame, binary, enqueue, close}
use relayly.Relay.Hub.{Server, get_client, route, deliver}
use relayly.Relay.Events.{read_binary}
use relayly.Relay.Invariant.{IsValid}

abbrev pub envelope : List ℕ → WsFrame
envelope payload = record { contents = binary payload; close_after = false }

-- What an envelope does to the connection that it is for.
abbrev pub received : List ℕ → Client → Client
received payload c =
    if c.closed
    then c
    else if ltb (length c.send) 256
    then record c { send = c.send ++ envelope payload ∷ [] }
    else close c

heap-deliver :
    (payload : List ℕ) (a b : ℕ) (w : Server)
    → (deliver payload a w).heap b ≡ (if b == a then received payload (w.heap b) else w.heap b)
unfolding deliver enqueue close
heap-deliver payload a b w = ground arith

-- The rest of the server after a delivery.
deliver-rest :
    (payload : List ℕ) (a : ℕ) (w : Server)
    → ((deliver payload a w).clients ≡ w.clients)
      × ((deliver payload a w).db ≡ w.db)
      × ((deliver payload a w).pair_codes ≡ w.pair_codes)
unfolding deliver
deliver-rest payload a w = ground arith

-- In a valid server, an envelope that a client sends changes at most the connection that is
-- registered for the client's peer, which gets the bytes unchanged at the end of its queue, or is
-- closed if its queue is full; every other connection, the registry, the pairing codes and the
-- database stay.
pub read_binary_reach :
    (a b : ℕ) (payload : List ℕ) (w : Server)
    → IsValid w
    → (((read_binary a payload w).heap b ≡ w.heap b)
        ⊎ (((w.heap b).device_id ≡ (w.heap a).paired_with)
            × (get_client (w.heap a).paired_with w ≡ some b)
            × ((read_binary a payload w).heap b ≡ received payload (w.heap b))))
      × ((read_binary a payload w).clients ≡ w.clients)
      × ((read_binary a payload w).db ≡ w.db)
      × ((read_binary a payload w).pair_codes ≡ w.pair_codes)
unfolding read_binary route
read_binary_reach a b payload w h = elim (Option-cases (get_client (w.heap a).paired_with w)) [
  | inl e ↦ ground arith
  | inr (c, e) ↦ ground (
    arith,
    heap-deliver payload c b w,
    deliver-rest payload c w,
    h.registered (w.heap a).paired_with c e,
  )
]

-- The envelope of a paired client whose peer is connected and not closed, with room in its queue,
-- is queued for the peer.
pub read_binary_delivers :
    (a b : ℕ) (payload : List ℕ) (w : Server)
    → (w.heap a).paired_with ≢ ""
    → get_client (w.heap a).paired_with w ≡ some b
    → (w.heap b).closed ≡ false
    → length (w.heap b).send < 256
    → ((read_binary a payload w).heap b).send ≡ (w.heap b).send ++ envelope payload ∷ []
unfolding read_binary route
read_binary_delivers a b payload w p e running room =
    ground (arith, eq_iff (w.heap a).paired_with "", heap-deliver payload b b w)
