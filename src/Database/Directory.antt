-- ===== src/Database/Directory.antt =====
-- What internal/database/pairing.go promises of the devices, without rows and statements: a
-- directory, and the steps that an operation may take in it.
use mathlib.Core.Option
use relayly.Base.{
  ℕ, ◌≡◌, String, Bool, true, false, not, ◌||◌, Option, none, some, List, [], ◌∷◌, Result, ok, err,
  is_some, ◌==◌, string_eq, if◌then◌else◌,
}
use relayly.Database.{
  Row, Rows, Db, DbError, driver, not_found, already_paired, static_key_mismatch, Device, find,
}
use relayly.Database.Rows.{locked}
use relayly.Database.History.{
  Op, creates, pairs, unpairs, deletes, sets_public_key, locks_key, touches, apply,
}

-- A device's announced key and its peer.
pub record Entry : Type 0 where
  pub key : Option String
  pub peer : Option String

abbrev pub Directory : Type 0
Directory = String → Option Entry

abbrev pub entry : Row → Entry
entry r = record { key = locked r.static_key; peer = r.paired_with }

abbrev pub view : Rows → Directory
view rows k = Option.map entry (find k rows)

abbrev pub with_peer : String → Option Entry → Option Entry
with_peer peer none = none
with_peer peer (some x) = some (record x { peer = some peer })

abbrev pub is_peer : String → Entry → Bool
is_peer id x = elim x.peer [ none ↦ false | some p ↦ p == id ]

-- `id` is no longer the device's peer.
abbrev pub without : String → Option Entry → Option Entry
without id none = none
without id (some x) = some (if is_peer id x then record x { peer = none } else x)

abbrev pub alone : Option Entry → Option Entry
alone none = none
alone (some x) = some (record x { peer = none })

abbrev pub has_peer : Option Entry → Bool
has_peer none = false
has_peer (some x) = is_some x.peer

abbrev pub has_other_key : String → Option Entry → Bool
has_other_key key none = false
has_other_key key (some x) = elim x.key [ none ↦ false | some old ↦ not (old == key) ]

-- When an operation may report an error: the driver's always, and its own for a reason.
abbrev pub justified : Directory → Op → DbError → Bool
justified d op driver = true
justified d (pairs swapped a b) not_found = not (is_some (d a)) || not (is_some (d b))
justified d (pairs swapped a b) already_paired = has_peer (d a) || has_peer (d b)
justified d (locks_key id key) not_found = not (is_some (d id))
justified d (locks_key id key) static_key_mismatch = has_other_key key (d id)
justified d _ _ = false

-- The directories before and after, the operation and what it reports. An operation that reports
-- an error has changed nothing, but for a deletion, which may have cleared the links.
pub data Step (d e : Directory) : Op → Result DbError (Unit {0}) → Type 0 where
  refused :
      (op : Op) (x : DbError)
      → justified d op x ≡ true
      → ((k : String) → e k ≡ d k)
      → Step d e op (err x)
  half_deleted :
      (id : String) (x : DbError)
      → ((k : String) → e k ≡ without id (d k))
      → Step d e (deletes id) (err x)
  deleted :
      (id : String)
      → ((k : String) → e k ≡ (if id == k then none else without id (d k)))
      → Step d e (deletes id) (ok tt)
  created :
      (v : Device)
      → d v.id ≡ none
      → ((k : String)
          → e k ≡ (if v.id == k then some (record { key = none; peer = none }) else d k))
      → Step d e (creates v) (ok tt)
  paired :
      (swapped : Bool) (a b : String) (x y : Entry)
      → d a ≡ some x
      → x.peer ≡ none
      → d b ≡ some y
      → y.peer ≡ none
      → ((k : String)
          → e k ≡ (if k == a then with_peer b (d k) else if k == b then with_peer a (d k) else d k))
      → Step d e (pairs swapped a b) (ok tt)
  unpaired :
      (id : String)
      → ((k : String) → e k ≡ (if k == id then alone (d k) else without id (d k)))
      → Step d e (unpairs id) (ok tt)
  key_set :
      (id key : String) (x : Entry)
      → d id ≡ some x
      → x.key ≡ none
      → ((k : String)
          → e k ≡ (if k == id then some (record x { key = locked (some key) }) else d k))
      → Step d e (locks_key id key) (ok tt)
  key_kept :
      (id key : String) (x : Entry)
      → d id ≡ some x
      → x.key ≡ some key
      → ((k : String) → e k ≡ d k)
      → Step d e (locks_key id key) (ok tt)
  public_key_set :
      (id key : String) → ((k : String) → e k ≡ d k) → Step d e (sets_public_key id key) (ok tt)
  touched : (now : ℕ) (id : String) → ((k : String) → e k ≡ d k) → Step d e (touches now id) (ok tt)

-- What the operations of a history report.
unfoldable pub reports : List Op → Db → List (Result DbError (Unit {0}))
reports [] s = []
reports (op ∷ ops) s = (apply op s).0 ∷ reports ops (apply op s).1

-- The steps of a history from one directory to another.
pub data Steps : Directory → Directory → List Op → List (Result DbError (Unit {0})) → Type 0 where
  done : {d : Directory} → Steps d d [] []
  follows :
      {d e f : Directory} {op : Op} {r : Result DbError (Unit {0})} {ops : List Op}
      {rs : List (Result DbError (Unit {0}))}
      → Step d e op r
      → Steps e f ops rs
      → Steps d f (op ∷ ops) (r ∷ rs)
