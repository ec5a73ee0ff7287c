-- ===== src/Database/Keys.antt =====
-- The key locking of `SetStaticKeyIfUnset` (internal/database/pairing.go).
use mathlib.Core.Option
use relayly.Base.{
  ℕ, ◌≡◌, refl, inl, inr, String, Bool, not, ◌&&◌, is_some, none, some, List, [], ◌∷◌, arith, ok,
  err, is_ok, ◌==◌, string_eq, eq_iff, ◌≢◌, ◌∙◌, if◌then◌else◌, Option-cases, Bool-cases,
}
use relayly.Database.{
  Row, Rows, Db, Device, not_found, static_key_mismatch, find, link, new_row, pair_devices,
  unpair_device, create_device, taken, update_public_key, update_where, set_static_key_if_unset,
  set_key, touch_last_seen, delete_device, clear_links_to, both_ways,
}
use relayly.Database.Rows.{
  key_of, find-id, find-append_new, find-delete_id, find-set_key, find-update_where, find-unlink,
  find-clear_links_to,
}
use relayly.Database.Links.{linked, pair_devices-ok, pair_devices-err}

-- An update of other columns.
key_of-update_where :
    (k : String) (test : Row → Bool) (f : Row → Row)
    → ((r : Row) → (f r).id ≡ r.id)
    → ((r : Row) → (f r).static_key ≡ r.static_key)
    → (rows : Rows) → key_of k (update_where test f rows) ≡ key_of k rows
key_of-update_where k test f keeps same rows = elim (Option-cases (find k rows)) [
  | inl e ↦ ground (arith, find-update_where k test f keeps rows)
  | inr (r, e) ↦ ground (arith, find-update_where k test f keeps rows, same r)
]

key_of-linked :
    (k : String) (links : List (String × String)) (rows : Rows)
    → key_of k (linked links rows) ≡ key_of k rows
unfolding linked link
key_of-linked k [] rows = refl
key_of-linked k ((this, peer) ∷ rest) rows =
    key_of-linked k rest (link this peer rows)
    ∙ key_of-update_where k _ _ (λ r. refl) (λ r. refl) rows

pub key_of-pair_devices :
    (k : String) (swapped : Bool) (a b : String) (s : Db)
    → key_of k (pair_devices swapped a b s).1.contents ≡ key_of k s.contents
key_of-pair_devices k swapped a b s = elim (Bool-cases (is_ok (pair_devices swapped a b s).0)) [
  | inl done ↦
      rw (pair_devices-ok swapped a b s done).0 (key_of-linked k (both_ways swapped a b) s.contents)
  | inr failed ↦ rw (pair_devices-err swapped a b s failed) refl
]

pub key_of-unpair_device :
    (k id : String) (s : Db) → key_of k (unpair_device id s).1.contents ≡ key_of k s.contents
unfolding unpair_device
key_of-unpair_device k id s = ground (arith, find-unlink k id s.contents)

pub key_of-delete_device :
    (k id : String) (s : Db)
    → id ≢ k
    → key_of k (delete_device id s).1.contents ≡ key_of k s.contents
unfolding delete_device
key_of-delete_device k id s ne = ground (
  arith,
  eq_iff id k,
  find-clear_links_to k id s.contents,
  find-delete_id k id (clear_links_to id s.contents),
)

pub key_of-create_device :
    (k : String) (d : Device) (s : Db)
    → key_of k (create_device d s).1.contents ≡ key_of k s.contents
unfolding create_device taken new_row
key_of-create_device k d s = ground (arith, find-append_new k s.contents (new_row d), eq_iff d.id k)

pub key_of-update_public_key :
    (k id key : String) (s : Db)
    → key_of k (update_public_key id key s).1.contents ≡ key_of k s.contents
unfolding update_public_key
key_of-update_public_key k id key s = ground (
  arith,
  key_of-update_where k (λ r. r.id == id) (λ r. record r { public_key = key }) (λ r. refl)
      (λ r. refl) s.contents,
)

pub key_of-touch_last_seen :
    (k : String) (now : ℕ) (id : String) (s : Db)
    → key_of k (touch_last_seen now id s).1.contents ≡ key_of k s.contents
unfolding touch_last_seen
key_of-touch_last_seen k now id s = ground (
  arith,
  key_of-update_where k (λ r. r.id == id) (λ r. record r { last_seen = some now }) (λ r. refl)
      (λ r. refl) s.contents,
)

-- A locked key stays, also when its own device announces another one.
pub key_of-set_static_key :
    (k id key old : String) (s : Db)
    → key_of k s.contents ≡ some old
    → key_of k (set_static_key_if_unset id key s).1.contents ≡ some old
unfolding set_static_key_if_unset
key_of-set_static_key k id key old s h = elim (Option-cases (find k s.contents)) [
  | inl e ↦ ground arith
  | inr (r, e) ↦ ground (
    arith,
    find-set_key k id key s.contents,
    find-id k s.contents {r = r} e,
    eq_iff k id,
    eq_iff r.id id,
  )
]

abbrev pub with_key : String → Row → Row
with_key key r = record r { static_key = some key }

find-set_key_at :
    (k id key : String) (rows : Rows)
    → find k (set_key id key rows)
      ≡ (if k == id then Option.map (with_key key) (find k rows) else find k rows)
find-set_key_at k id key rows = elim (Option-cases (find k rows)) [
  | inl e ↦ ground (arith, find-set_key k id key rows)
  | inr (r, e) ↦
      ground
        (arith, find-set_key k id key rows, find-id k rows {r = r} e, eq_iff k id, eq_iff r.id id)
]

-- While the driver runs every statement, an announced key is refused for a device that is missing
-- or has another key locked, and accepted otherwise; the row of this device gets the key if it had
-- none or the empty one, and in every other case, and for every other device, the row found is the
-- one that was there.
pub set_static_key_verdict :
    (id key k : String) (s : Db)
    → s.faults ≡ []
    → ((set_static_key_if_unset id key s).0 ≡ (
        if is_some (find id s.contents)
        then (elim (key_of id s.contents) [
          | none ↦ ok tt
          | some old ↦ if old == key then ok tt else err static_key_mismatch
        ])
        else err not_found))
      × (find k (set_static_key_if_unset id key s).1.contents ≡ (
          if k == id && not (is_some (key_of id s.contents))
          then Option.map (with_key key) (find k s.contents)
          else find k s.contents))
unfolding set_static_key_if_unset
set_static_key_verdict id key k s f = elim (Option-cases (find id s.contents)) [
  | inl e ↦ (ground arith, ground (arith, eq_iff k id))
  | inr (r, e) ↦ (ground arith, ground (arith, find-set_key_at k id key s.contents))
]
