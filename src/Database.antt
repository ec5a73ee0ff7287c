-- ===== src/Database.antt =====
-- internal/database/pairing.go: the table of devices and the operations on it.
pub mod Rows
pub mod Lookups
pub mod Links
pub mod Listing
pub mod Symmetry
pub mod Keys
pub mod History
pub mod Interleaved
pub mod Directory
pub mod Views
pub mod Refinement
pub mod Pairing
mod Tests
use mathlib.Core.Option
use relayly.Base.{
  ℕ, ◌≡◌, String, Bool, true, false, ◌||◌, Option, none, some, List, [], ◌∷◌, ◌++◌, map, Result, ok,
  err, ◌==◌, string_eq, if◌then◌else◌, is_some, ltb,
}
use relayly.Sql.{Store, Sql, ◌>>=◌, ◌>>◌, return, fail, query, exec, transaction}

-- `ErrNotFound`, `ErrAlreadyPaired`, `ErrStaticKeyMismatch`, and any error of the driver.
pub data DbError : Type 0 where
  not_found already_paired static_key_mismatch driver : DbError

-- A row of `devices`; a column that may be NULL is an `Option`. Times count from a fixed origin.
pub record Row : Type 0 where
  pub id : String
  pub name : String
  pub public_key : String
  pub device_token : String
  pub static_key : Option String
  pub paired_with : Option String
  pub created_at : ℕ
  pub last_seen : Option ℕ
  pub expires_at : Option ℕ

-- The Go struct, whose `StaticKey` is empty where the column is NULL.
pub record Device : Type 0 where
  pub id : String
  pub name : String
  pub public_key : String
  pub device_token : String
  pub static_key : String
  pub paired_with : Option String
  pub created_at : ℕ
  pub last_seen : Option ℕ
  pub expires_at : Option ℕ

abbrev pub Rows : Type 0
Rows = List Row

abbrev pub Db : Type 0
Db = Store Rows

abbrev pub Query : Type 0 → Type 0
Query A = Sql Rows DbError A

unfoldable pub scan_device : Row → Device
scan_device r = record {
  id = r.id;
  name = r.name;
  public_key = r.public_key;
  device_token = r.device_token;
  static_key = Option.get_or r.static_key "";
  paired_with = r.paired_with;
  created_at = r.created_at;
  last_seen = r.last_seen;
  expires_at = r.expires_at;
}

-- `SELECT … WHERE id = ?`: at most one row, as the id is the primary key.
unfoldable pub find : String → Rows → Option Row
find id [] = none
find id (r ∷ rs) = if r.id == id then some r else find id rs

unfoldable pub find_token : String → Rows → Option Row
find_token token [] = none
find_token token (r ∷ rs) = if r.device_token == token then some r else find_token token rs

-- `UPDATE devices SET … WHERE …`
unfoldable pub update_where : (Row → Bool) → (Row → Row) → Rows → Rows
update_where test f = map (λ r. if test r then f r else r)

-- `DELETE FROM devices WHERE id = ?`
unfoldable pub delete_id : String → Rows → Rows
delete_id id [] = []
delete_id id (r ∷ rs) = let rest = delete_id id rs in if r.id == id then rest else r ∷ rest

abbrev pub points_at : String → Row → Bool
points_at id r = elim r.paired_with [ none ↦ false | some p ↦ p == id ]

-- No row, or the row's device.
found : Option Row → Query Device
found none = fail not_found
found (some r) = return (scan_device r)

unfoldable pub get_device_by_id : String → Query Device
unfolding found
get_device_by_id id = do r ← query driver (find id); found r

unfoldable pub get_device_by_device_token : String → Query Device
unfolding found
get_device_by_device_token token = do r ← query driver (find_token token); found r

-- `ORDER BY created_at`; rows of one time stand in the table's order here, and in any order in SQL.
unfoldable pub insert_by_age : Row → Rows → Rows
insert_by_age r [] = r ∷ []
insert_by_age r (x ∷ xs) =
    let rest = insert_by_age r xs in if ltb x.created_at r.created_at then x ∷ rest else r ∷ x ∷ xs

unfoldable pub by_age : Rows → Rows
by_age [] = []
by_age (r ∷ rs) = insert_by_age r (by_age rs)

unfoldable pub list_devices : Query (List Device)
list_devices = query driver (λ rows. map scan_device (by_age rows))

-- The row that `INSERT INTO devices (id, name, public_key, device_token, created_at, expires_at)`
-- makes: the other columns are NULL.
unfoldable pub new_row : Device → Row
new_row d = record {
  id = d.id;
  name = d.name;
  public_key = d.public_key;
  device_token = d.device_token;
  static_key = none;
  paired_with = none;
  created_at = d.created_at;
  last_seen = none;
  expires_at = d.expires_at;
}

-- The primary key and the UNIQUE token.
unfoldable pub taken : Device → Rows → Bool
taken d rows = is_some (find d.id rows) || is_some (find_token d.device_token rows)

unfoldable pub create_device : Device → Query (Unit {0})
create_device d = do
  clash ← query driver (taken d)
  if clash
      then fail driver
      else (λ s. (ok tt, record s { contents = s.contents ++ new_row d ∷ [] }))

-- The loop body that verifies that `id` is not paired yet.
no_peer : Option Row → Query (Unit {0})
no_peer none = fail not_found
no_peer (some r) = elim r.paired_with [ none ↦ return tt | some p ↦ fail already_paired ]

unfoldable pub check_unpaired : String → Query (Unit {0})
unfolding no_peer
check_unpaired id = do r ← query driver (find id); no_peer r

-- `UPDATE devices SET paired_with = ?, expires_at = NULL WHERE id = ?`
unfoldable pub link : String → String → Rows → Rows
unfolding update_where
link this peer =
    update_where (λ r. r.id == this) (λ r. record r { paired_with = some peer; expires_at = none })

unfoldable pub link_all : List (String × String) → Query (Unit {0})
unfolding link
link_all [] = return tt
link_all ((this, peer) ∷ rest) = let more = link_all rest in exec driver tt (link this peer) >> more

-- The entries of `map[string]string{idA: idB, idB: idA}` in the order that Go happens to take.
unfoldable pub both_ways : Bool → String → String → List (String × String)
both_ways swapped a b =
    if a == b then (b, a) ∷ [] else if swapped then (b, a) ∷ (a, b) ∷ [] else (a, b) ∷ (b, a) ∷ []

unfoldable pub pair_devices : Bool → String → String → Query (Unit {0})
pair_devices swapped a b =
    transaction driver (do check_unpaired a; check_unpaired b; link_all (both_ways swapped a b))

-- `UPDATE devices SET paired_with = NULL WHERE id = ? OR paired_with = ?`
unfoldable pub unlink : String → Rows → Rows
unfolding update_where
unlink id = update_where (λ r. r.id == id || points_at id r) (λ r. record r { paired_with = none })

unfoldable pub unpair_device : String → Query (Unit {0})
unfolding unlink
unpair_device id = exec driver tt (unlink id)

unfoldable pub update_public_key : String → String → Query (Unit {0})
unfolding update_where
update_public_key id key =
    exec driver tt (update_where (λ r. r.id == id) (λ r. record r { public_key = key }))

unfoldable pub set_key : String → String → Rows → Rows
unfolding update_where
set_key id key = update_where (λ r. r.id == id) (λ r. record r { static_key = some key })

-- What follows the read of the locked key: NULL and the empty text count as unset.
lock_key : String → String → Option Row → Query (Unit {0})
unfolding set_key
lock_key id key none = fail not_found
lock_key id key (some r) = elim r.static_key [
  | none ↦ exec driver tt (set_key id key)
  | some existing ↦
      if existing == ""
      then exec driver tt (set_key id key)
      else if existing == key
      then return tt
      else fail static_key_mismatch
]

unfoldable pub set_static_key_if_unset : String → String → Query (Unit {0})
unfolding lock_key
set_static_key_if_unset id key =
    transaction driver (do r ← query driver (find id); lock_key id key r)

unfoldable pub touch_last_seen : ℕ → String → Query (Unit {0})
unfolding update_where
touch_last_seen now id =
    exec driver tt (update_where (λ r. r.id == id) (λ r. record r { last_seen = some now }))

-- `UPDATE devices SET paired_with = NULL WHERE paired_with = ?`
unfoldable pub clear_links_to : String → Rows → Rows
unfolding update_where
clear_links_to id = update_where (points_at id) (λ r. record r { paired_with = none })

-- Two statements, with no transaction round them; here with nothing between them.
unfoldable pub delete_device : String → Query (Unit {0})
unfolding clear_links_to delete_id
delete_device id = do exec driver tt (clear_links_to id); exec driver tt (delete_id id)
