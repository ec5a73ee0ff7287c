-- ===== src/Interop.antt =====
-- interop/harness: the proxy between the clients under test and the relay (proxy.go), the events
-- of a client under test (instance.go), the pairs that are run (matrix.go) and the payloads
-- (scenarios.go). The scenarios, the matrix, the run of the harness (main.go, server.go) and the Go
-- client under test have modules of their own.
pub mod Waiting
pub mod Rewriting
pub mod Health
pub mod Script
pub mod Scenarios
pub mod Verdicts
pub mod Stopping
pub mod Matrix
pub mod Launching
pub mod Failing
pub mod Tidying
pub mod Shim
mod Tests
use relayly.Base.{
  ℕ, zero, suc, ◌+◌, ◌%◌, String, Bool, true, false, Option, none, some, List, [], ◌∷◌, ◌++◌, map,
  lookup, insert, erase, ◌==◌, string_eq, nat_eq, if◌then◌else◌,
}
use relayly.Relay.Client.{ControlMessage, Contents, text, binary}

-- `rules` has the fake key for a device's next `pair_complete`, `conns` the open connections, which
-- are numbered as they are made, and `severed` those that the proxy has closed.
pub record Proxy : Type 0 where
  pub rules : List (String × String)
  pub conns : List (String × ℕ)
  pub severed : List ℕ

unfoldable pub new_proxy : Proxy
new_proxy = record { rules = []; conns = []; severed = [] }

unfoldable pub rewrite_next_pair_complete : String → String → Proxy → Proxy
rewrite_next_pair_complete device_id fake p = record p { rules = insert device_id fake p.rules }

-- A frame that the proxy passes on to the device: a control message is rewritten once.
unfoldable pub rewritten : String → ControlMessage → Proxy → Contents × Proxy
rewritten device_id frame p = elim (lookup device_id p.rules) [
  | none ↦ (text frame, p)
  | some fake ↦
      if frame.type == "pair_complete"
      then (
        text (record frame { peer_static_key = fake }),
        record p { rules = erase device_id p.rules },
      )
      else (text frame, p)
]

unfoldable pub maybe_rewrite : String → Contents → Proxy → Contents × Proxy
maybe_rewrite device_id (binary payload) p = (binary payload, p)
maybe_rewrite device_id (text frame) p = rewritten device_id frame p

-- `handleWS`: the device's connection takes the place of an older one, which alone removes itself.
unfoldable pub opens : String → ℕ → Proxy → Proxy
opens device_id conn p = record p { conns = insert device_id conn p.conns }

unfoldable pub ends : String → ℕ → Proxy → Proxy
ends device_id conn p = elim (lookup device_id p.conns) [
  | none ↦ p
  | some current ↦ if current == conn then record p { conns = erase device_id p.conns } else p
]

unfoldable pub sever_connection : String → Proxy → Proxy
sever_connection device_id p = elim (lookup device_id p.conns) [
  | none ↦ p
  | some conn ↦ record p { severed = p.severed ++ conn ∷ [] }
]

-- The frames for one device, in order.
unfoldable pub pump : String → List Contents → Proxy → List Contents × Proxy
pump device_id [] p = ([], p)
pump device_id (frame ∷ frames) p =
    let r = maybe_rewrite device_id frame p in
    let rest = pump device_id frames r.1 in (r.0 ∷ rest.0, rest.1)

-- The events that were read and not taken yet, and those that are still to come before the
-- deadline, or before the stream ends.
pub record Instance (Event : Type 0) : Type 0 where
  pub backlog : List Event
  pub raw : List Event

module _ {Event : Type 0} where
  -- The first event that fits, and the others.
  unfoldable pub take_first : (Event → Bool) → List Event → Option (Event × List Event)
  take_first fits [] = none
  take_first fits (e ∷ es) =
      let rest = take_first fits es in
      if fits e then some (e, es) else (elim rest [ none ↦ none | some r ↦ some (r.0, e ∷ r.1) ])

  -- The loop of `WaitFor`: what does not fit joins the backlog.
  unfoldable pub read_until :
      (Event → Bool) → List Event → List Event → Option Event × Instance Event
  read_until fits backlog [] = (none, record { backlog = backlog; raw = [] })
  read_until fits backlog (e ∷ es) =
      let rest = read_until fits (backlog ++ e ∷ []) es in
      if fits e then (some e, record { backlog = backlog; raw = es }) else rest

  unfoldable pub wait_for : (Event → Bool) → Instance Event → Option Event × Instance Event
  wait_for fits i = elim (take_first fits i.backlog) [
    | some r ↦ (some r.0, record i { backlog = r.1 })
    | none ↦ read_until fits i.backlog i.raw
  ]

-- `fillBytes`: the bytes from `i` on.
unfoldable pub fill_bytes_from : ℕ → ℕ → List ℕ
fill_bytes_from i zero = []
fill_bytes_from i (suc n) = i % 256 ∷ fill_bytes_from (suc i) n

unfoldable pub fill_bytes : ℕ → List ℕ
fill_bytes n = fill_bytes_from 0 n

-- The pairs of `runMatrix`, each name with itself and those after it.
unfoldable pub sdk_pairs : List String → List (String × String)
sdk_pairs [] = []
sdk_pairs (a ∷ names) = map (λ b. (a, b)) (a ∷ names) ++ sdk_pairs names
