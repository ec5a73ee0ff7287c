-- ===== src/PairCodes.antt =====
-- internal/relay/paircodes.go: the registry of in-band pairing codes. Times are nanoseconds from a
-- fixed origin; each operation holds the mutex, so it is one step.
pub mod SingleUse
mod Tests
use relayly.Base.{
  ℕ, ◌+◌, String, Bool, true, false, none, some, List, [], ltb, lookup, insert, erase, string_eq,
  if◌then◌else◌,
}

pub record PairCodeEntry : Type 0 where
  pub requester_id : String
  pub expires_at : ℕ

pub record PairCodeRegistry : Type 0 where
  pub entries : List (String × PairCodeEntry)

unfoldable pub new_pair_code_registry : PairCodeRegistry
new_pair_code_registry = record { entries = [] }

-- `now` is what `time.Now()` reads.
unfoldable pub put : ℕ → String → String → ℕ → PairCodeRegistry → PairCodeRegistry
put now code requester_id ttl r = record r {
  entries = insert code (record { requester_id = requester_id; expires_at = now + ttl }) r.entries;
}

-- The results `requesterID`, `expired` and `ok`, and the registry after the call.
pub record Taken : Type 0 where
  pub requester_id : String
  pub expired : Bool
  pub ok : Bool
  pub registry : PairCodeRegistry

unfoldable pub take : ℕ → String → PairCodeRegistry → Taken
take now code r = elim (lookup code r.entries) [
  | none ↦ record { requester_id = ""; expired = false; ok = false; registry = r }
  | some entry ↦
      let rest : PairCodeRegistry = record r { entries = erase code r.entries } in
      if ltb entry.expires_at now
      then record { requester_id = ""; expired = true; ok = false; registry = rest }
      else record { requester_id = entry.requester_id; expired = false; ok = true; registry = rest }
]
