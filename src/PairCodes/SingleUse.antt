-- ===== src/PairCodes/SingleUse.antt =====
-- What `Put` and `Take` of internal/relay/paircodes.go promise together.
use relayly.Base.{
  ℕ, ◌+◌, ◌≡◌, ◌≢◌, String, true, false, none, List, [], ◌∷◌, arith, All, ltb, lookup,
  lookup-insert, lookup-erase, ◌==◌, string_eq, eq_iff, if◌then◌else◌,
}
use relayly.PairCodes.{PairCodeEntry, PairCodeRegistry, put, take}

-- The code is not in the registry.
abbrev pub IsFree : String → PairCodeRegistry → Type 0
IsFree code r = lookup code r.entries ≡ none

-- A code that was put for a device is redeemed for that device until its time is up, and reported
-- as expired from then on; in both cases it is gone, and other codes are as they were.
pub take-put :
    (now later ttl : ℕ) (code id other : String) (r : PairCodeRegistry)
    → let t = take later code (put now code id ttl r) in
      (t.ok ≡ (if ltb (now + ttl) later then false else true))
      × (t.expired ≡ ltb (now + ttl) later)
      × (t.requester_id ≡ (if ltb (now + ttl) later then "" else id))
      × (lookup other t.registry.entries ≡ (if code == other then none else lookup other r.entries))
unfolding take put
take-put now later ttl code id other r =
    let entry : PairCodeEntry = record { requester_id = id; expires_at = now + ttl } in
    let entries = (put now code id ttl r).entries in
    ground (
      arith,
      eq_iff code code,
      eq_iff code other,
      lookup-insert code code entry r.entries,
      lookup-insert code other entry r.entries,
      lookup-erase code other entries,
    )

pub data Op : Type 0 where
  puts : ℕ → String → String → ℕ → Op
  takes : ℕ → String → Op

pub apply : Op → PairCodeRegistry → PairCodeRegistry
apply (puts now code id ttl) r = put now code id ttl r
apply (takes now code) r = (take now code r).registry

pub runs : List Op → PairCodeRegistry → PairCodeRegistry
runs [] r = r
runs (op ∷ ops) r = runs ops (apply op r)

-- The operation does not issue the code.
abbrev pub Spares : String → Op → Type 0
Spares code (puts now code' id ttl) = code' ≢ code
Spares code (takes now code') = Unit {0}

take-IsFree :
    (now : ℕ) (code : String) (r : PairCodeRegistry) → IsFree code (take now code r).registry
unfolding take
take-IsFree now code r = ground (arith, eq_iff code code, lookup-erase code code r.entries)

apply-IsFree :
    (code : String) (op : Op) (r : PairCodeRegistry)
    → Spares code op
    → IsFree code r
    → IsFree code (apply op r)
unfolding apply put take
apply-IsFree code (puts now code' id ttl) r h f =
    let entry : PairCodeEntry = record { requester_id = id; expires_at = now + ttl } in
    ground (arith, eq_iff code' code, lookup-insert code' code entry r.entries)
apply-IsFree code (takes now code') r h f = ground (arith, lookup-erase code' code r.entries)

runs-IsFree :
    (code : String) (ops : List Op) (r : PairCodeRegistry)
    → All (Spares code) ops
    → IsFree code r
    → IsFree code (runs ops r)
unfolding runs
runs-IsFree code [] r h f = f
runs-IsFree code (op ∷ ops) r h f =
    runs-IsFree code ops (apply op r) h.1 (apply-IsFree code op r h.0 f)

-- A code is good for one `Take`, whether that succeeds or finds it expired: until the code is
-- issued again, every further `Take` of it reports an unknown code and changes nothing.
pub take-once :
    (now later : ℕ) (code : String) (ops : List Op) (r : PairCodeRegistry)
    → All (Spares code) ops
    → let rest = runs ops (take now code r).registry in
      take later code rest
      ≡ record { requester_id = ""; expired = false; ok = false; registry = rest }
unfolding take
take-once now later code ops r h =
    ground (arith, runs-IsFree code ops (take now code r).registry h (take-IsFree now code r))
