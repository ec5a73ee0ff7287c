-- ===== src/Database/Symmetry.antt =====
-- Each operation of internal/database/pairing.go keeps the pairing symmetric.
use relayly.Base.{
  ℕ, ◌≡◌, refl, inl, inr, String, Bool, true, false, ◌||◌, none, some, List, ◌∷◌, arith, is_ok,
  ◌==◌, string_eq, eq_iff, ◌≢◌, if◌then◌else◌, Option-cases, Bool-cases,
}
use relayly.Sql.{next}
use relayly.Database.{
  Row, Rows, Db, Device, find, new_row, pair_devices, unlink, unpair_device, create_device, taken,
  update_public_key, update_where, set_static_key_if_unset, touch_last_seen, delete_device,
  delete_id, clear_links_to,
}
use relayly.Database.Rows.{
  peer_of, find-id, find-unlink, find-append_new, find-delete_id, find-clear_links_to, find-set_key,
  find-update_where,
}
use relayly.Database.Links.{pair_devices-ok, pair_devices-err, peer_of-linked}

-- A paired device's peer is paired with that device.
abbrev pub IsSymmetric : Rows → Type 0
IsSymmetric rows = (a b : String) → peer_of a rows ≡ some b → peer_of b rows ≡ some a

same-IsSymmetric :
    (rows rows' : Rows)
    → ((k : String) → peer_of k rows' ≡ peer_of k rows)
    → IsSymmetric rows
    → IsSymmetric rows'
same-IsSymmetric rows rows' same h a b e = ground (arith, h a b, same a, same b)

-- The peers of one device after each operation.
pub peer_of-pair_devices :
    (swapped : Bool) (a b k : String) (s : Db)
    → peer_of k (pair_devices swapped a b s).1.contents ≡ (
        if is_ok (pair_devices swapped a b s).0
        then (if k == a then some b else if k == b then some a else peer_of k s.contents)
        else peer_of k s.contents)
peer_of-pair_devices swapped a b k s = elim (Bool-cases (is_ok (pair_devices swapped a b s).0)) [
  | inl done ↦
      let (new, ha, _, hb, _) = pair_devices-ok swapped a b s done in
      rw (done, new) (peer_of-linked swapped a b k s.contents ha hb)
  | inr failed ↦ rw (failed, pair_devices-err swapped a b s failed) refl
]

pub peer_of-unlink :
    (k id : String) (rows : Rows)
    → peer_of k (unlink id rows) ≡ (elim (peer_of k rows) [
      | none ↦ none
      | some p ↦ if k == id || p == id then none else some p
    ])
peer_of-unlink k id rows = elim (Option-cases (find k rows)) [
  | inl e ↦ ground (arith, find-unlink k id rows)
  | inr (r, e) ↦ ground (arith, find-unlink k id rows, find-id k rows {r = r} e)
]

pub peer_of-clear_links_to :
    (k id : String) (rows : Rows)
    → peer_of k (clear_links_to id rows)
      ≡ (elim (peer_of k rows) [ none ↦ none | some p ↦ if p == id then none else some p ])
peer_of-clear_links_to k id rows = ground (arith, find-clear_links_to k id rows)

pub peer_of-delete_id :
    (k id : String) (rows : Rows)
    → peer_of k (delete_id id rows) ≡ (if id == k then none else peer_of k rows)
peer_of-delete_id k id rows = ground (arith, find-delete_id k id rows)

-- An update of other columns.
peer_of-update_where :
    (k : String) (test : Row → Bool) (f : Row → Row)
    → ((r : Row) → (f r).id ≡ r.id)
    → ((r : Row) → (f r).paired_with ≡ r.paired_with)
    → (rows : Rows) → peer_of k (update_where test f rows) ≡ peer_of k rows
peer_of-update_where k test f keeps same rows = elim (Option-cases (find k rows)) [
  | inl e ↦ ground (arith, find-update_where k test f keeps rows)
  | inr (r, e) ↦ ground (arith, find-update_where k test f keeps rows, same r)
]

pub peer_of-create_device :
    (k : String) (d : Device) (s : Db)
    → peer_of k (create_device d s).1.contents ≡ peer_of k s.contents
unfolding create_device taken new_row
peer_of-create_device k d s =
    ground (arith, find-append_new k s.contents (new_row d), eq_iff d.id k)

pub peer_of-set_static_key :
    (k id key : String) (s : Db)
    → peer_of k (set_static_key_if_unset id key s).1.contents ≡ peer_of k s.contents
unfolding set_static_key_if_unset
peer_of-set_static_key k id key s = ground (arith, find-set_key k id key s.contents)

pub peer_of-update_public_key :
    (k id key : String) (s : Db)
    → peer_of k (update_public_key id key s).1.contents ≡ peer_of k s.contents
unfolding update_public_key
peer_of-update_public_key k id key s = ground (
  arith,
  peer_of-update_where k (λ r. r.id == id) (λ r. record r { public_key = key }) (λ r. refl)
      (λ r. refl) s.contents,
)

pub peer_of-touch_last_seen :
    (k : String) (now : ℕ) (id : String) (s : Db)
    → peer_of k (touch_last_seen now id s).1.contents ≡ peer_of k s.contents
unfolding touch_last_seen
peer_of-touch_last_seen k now id s = ground (
  arith,
  peer_of-update_where k (λ r. r.id == id) (λ r. record r { last_seen = some now }) (λ r. refl)
      (λ r. refl) s.contents,
)

unlink-IsSymmetric : (id : String) (rows : Rows) → IsSymmetric rows → IsSymmetric (unlink id rows)
unlink-IsSymmetric id rows h a b e =
    ground (arith, h a b, peer_of-unlink a id rows, peer_of-unlink b id rows)

delete-IsSymmetric :
    (id : String) (rows : Rows)
    → IsSymmetric rows
    → IsSymmetric (delete_id id (clear_links_to id rows))
delete-IsSymmetric id rows h a b e = ground (
  arith,
  h a b,
  eq_iff id b,
  eq_iff b id,
  eq_iff id a,
  eq_iff a id,
  peer_of-delete_id a id (clear_links_to id rows),
  peer_of-delete_id b id (clear_links_to id rows),
  peer_of-clear_links_to a id rows,
  peer_of-clear_links_to b id rows,
)

pub pair-IsSymmetric :
    (swapped : Bool) (x y : String) (s : Db)
    → IsSymmetric s.contents
    → IsSymmetric (pair_devices swapped x y s).1.contents
pair-IsSymmetric swapped x y s h a b e = ground (
  arith,
  h a b,
  pair_devices-ok swapped x y s,
  eq_iff a x,
  eq_iff a y,
  eq_iff b x,
  eq_iff b y,
  peer_of-pair_devices swapped x y a s,
  peer_of-pair_devices swapped x y b s,
)

pub create-IsSymmetric :
    (d : Device) (s : Db) → IsSymmetric s.contents → IsSymmetric (create_device d s).1.contents
create-IsSymmetric d s = same-IsSymmetric _ _ (λ k. peer_of-create_device k d s)

pub lock-IsSymmetric :
    (id key : String) (s : Db)
    → IsSymmetric s.contents
    → IsSymmetric (set_static_key_if_unset id key s).1.contents
lock-IsSymmetric id key s = same-IsSymmetric _ _ (λ k. peer_of-set_static_key k id key s)

pub update_public_key-IsSymmetric :
    (id key : String) (s : Db)
    → IsSymmetric s.contents
    → IsSymmetric (update_public_key id key s).1.contents
update_public_key-IsSymmetric id key s =
    same-IsSymmetric _ _ (λ k. peer_of-update_public_key k id key s)

pub touch-IsSymmetric :
    (now : ℕ) (id : String) (s : Db)
    → IsSymmetric s.contents
    → IsSymmetric (touch_last_seen now id s).1.contents
touch-IsSymmetric now id s = same-IsSymmetric _ _ (λ k. peer_of-touch_last_seen k now id s)

pub unpair-IsSymmetric :
    (id : String) (s : Db) → IsSymmetric s.contents → IsSymmetric (unpair_device id s).1.contents
unfolding unpair_device
unpair-IsSymmetric id s h = elim (Bool-cases (next s.faults)) [
  | inl bad ↦ rw bad h
  | inr good ↦ rw good (unlink-IsSymmetric id s.contents h)
]

-- A deletion whose two statements both run.
pub delete_device-ok :
    (id : String) (s : Db)
    → is_ok (delete_device id s).0 ≡ true
    → (delete_device id s).1.contents ≡ delete_id id (clear_links_to id s.contents)
unfolding delete_device
delete_device-ok id s h = ground arith

pub delete_device-IsSymmetric :
    (id : String) (s : Db)
    → is_ok (delete_device id s).0 ≡ true
    → IsSymmetric s.contents
    → IsSymmetric (delete_device id s).1.contents
delete_device-IsSymmetric id s done h =
    rw (delete_device-ok id s done) (delete-IsSymmetric id s.contents h)

-- A deletion whose second statement fails leaves the device pointing at a peer that is free.
pub delete_device_halfway :
    (id p : String) (s : Db) (fs : List Bool)
    → s.faults ≡ false ∷ true ∷ fs
    → id ≢ p
    → IsSymmetric s.contents
    → peer_of id s.contents ≡ some p
    → (peer_of id (delete_device id s).1.contents ≡ some p)
      × (peer_of p (delete_device id s).1.contents ≡ none)
unfolding delete_device
delete_device_halfway id p s fs f ne h e = ground (
  arith,
  h id p e,
  eq_iff p id,
  eq_iff id id,
  peer_of-clear_links_to id id s.contents,
  peer_of-clear_links_to p id s.contents,
)
