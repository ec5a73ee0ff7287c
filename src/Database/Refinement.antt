-- ===== src/Database/Refinement.antt =====
-- The table of internal/database/pairing.go against the steps of the directory.
use relayly.Base.{
  ℕ, ◌≡◌, refl, String, Bool, true, some, List, [], ◌∷◌, arith, err, ◌==◌, string_eq, eq_iff, inl,
  inr, Option-cases, Bool-cases, Result-cases,
}
use relayly.Sql.{next}
use relayly.Database.{
  Db, DbError, check_unpaired, link_all, Device, find, taken, new_row, both_ways, create_device,
  pair_devices, unpair_device, update_public_key, set_static_key_if_unset, touch_last_seen,
  delete_device, clear_links_to,
}
use relayly.Database.Rows.{locked, find-append_new, find-delete_id}
use relayly.Database.Links.{pair_devices-ok, pair_devices-err}
use relayly.Database.History.{
  Op, creates, pairs, unpairs, deletes, sets_public_key, locks_key, touches, apply, runs,
}
use relayly.Database.Directory.{
  Step, Steps, reports, entry, view, justified, refused, half_deleted, deleted, created, paired,
  unpaired, key_set, key_kept, public_key_set, touched, done, follows,
}
use relayly.Database.Views.{view-linked, view-clear, view-unlink, view-set_key, view-update_where}

abbrev Refines : Op → Db → Type 0
Refines op s = Step (view s.contents) (view (apply op s).1.contents) op (apply op s).0

creates-Refines : (v : Device) (s : Db) → Refines (creates v) s
unfolding apply create_device taken new_row
creates-Refines v s = elim (Result-cases (create_device v s).0) [
  | inl (u, e) ↦ rw e (
      created v (ground arith)
        (λ k. ground (arith, find-append_new k s.contents (new_row v), eq_iff v.id k)))
  | inr (x, e) ↦ rw e (refused (creates v) x (ground arith) (λ k. ground arith))
]

pairs-justified :
    (swapped : Bool) (a b : String) (x : DbError) (s : Db)
    → (pair_devices swapped a b s).0 ≡ err x
    → justified (view s.contents) (pairs swapped a b) x ≡ true
unfolding pair_devices check_unpaired link_all both_ways
pairs-justified swapped a b x s e = ground arith

pairs-Refines : (swapped : Bool) (a b : String) (s : Db) → Refines (pairs swapped a b) s
unfolding apply
pairs-Refines swapped a b s = elim (Result-cases (pair_devices swapped a b s).0) [
  | inl (u, e) ↦
      let (rows, has_a, free_a, has_b, free_b) = pair_devices-ok swapped a b s (ground arith) in
      elim (Option-cases (find a s.contents)) [
        | inl f ↦ absurd (ground arith)
        | inr (x, f) ↦ elim (Option-cases (find b s.contents)) [
          | inl g ↦ absurd (ground arith)
          | inr (y, g) ↦
              rw (e, rows)
                (paired swapped a b (entry x) (entry y) (ground arith) (ground arith) (ground arith)
                  (ground arith) (λ k. view-linked swapped a b k s.contents))
        ]
      ]
  | inr (x, e) ↦
      rw (e, pair_devices-err swapped a b s (ground arith))
        (refused (pairs swapped a b) x (pairs-justified swapped a b x s e) (λ k. refl))
]

unpairs-Refines : (id : String) (s : Db) → Refines (unpairs id) s
unfolding apply unpair_device
unpairs-Refines id s = elim (Result-cases (unpair_device id s).0) [
  | inl (u, e) ↦ rw e (unpaired id (λ k. ground (arith, view-unlink k id s.contents)))
  | inr (x, e) ↦ rw e (refused (unpairs id) x (ground arith) (λ k. ground arith))
]

deletes-Refines : (id : String) (s : Db) → Refines (deletes id) s
unfolding apply delete_device
deletes-Refines id s = elim (Result-cases (delete_device id s).0) [
  | inl (u, e) ↦ rw e (
      deleted id (λ k.
        ground
          (arith, find-delete_id k id (clear_links_to id s.contents), view-clear k id s.contents)))
  | inr (x, e) ↦ elim (Bool-cases (next s.faults)) [
    | inl f ↦ rw e (refused (deletes id) x (ground arith) (λ k. ground arith))
    | inr f ↦ rw e (half_deleted id x (λ k. ground (arith, view-clear k id s.contents)))
  ]
]

sets_public_key-Refines : (id key : String) (s : Db) → Refines (sets_public_key id key) s
unfolding apply update_public_key
sets_public_key-Refines id key s = elim (Result-cases (update_public_key id key s).0) [
  | inl (u, e) ↦ rw e (
      public_key_set id key (λ k. ground (
        arith,
        view-update_where k (λ r. r.id == id) (λ r. record r { public_key = key }) (λ r. refl)
            (λ r. refl) s.contents,
      )))
  | inr (x, e) ↦ rw e (refused (sets_public_key id key) x (ground arith) (λ k. ground arith))
]

touches-Refines : (now : ℕ) (id : String) (s : Db) → Refines (touches now id) s
unfolding apply touch_last_seen
touches-Refines now id s = elim (Result-cases (touch_last_seen now id s).0) [
  | inl (u, e) ↦ rw e (
      touched now id (λ k. ground (
        arith,
        view-update_where k (λ r. r.id == id) (λ r. record r { last_seen = some now }) (λ r. refl)
            (λ r. refl) s.contents,
      )))
  | inr (x, e) ↦ rw e (refused (touches now id) x (ground arith) (λ k. ground arith))
]

locks_key-Refines : (id key : String) (s : Db) → Refines (locks_key id key) s
unfolding apply set_static_key_if_unset
locks_key-Refines id key s = elim (Result-cases (set_static_key_if_unset id key s).0) [
  | inl (u, e) ↦ elim (Option-cases (find id s.contents)) [
    | inl f ↦ absurd (ground arith)
    | inr (r, f) ↦ elim (Option-cases (locked r.static_key)) [
      | inl g ↦ rw e (
          key_set id key (entry r) (ground arith) g
            (λ k. ground (arith, view-set_key k id key s.contents r f)))
      | inr (old, g) ↦ rw e (
          key_kept id key (entry r) (ground arith) (ground (arith, eq_iff old key))
            (λ k. ground arith))
    ]
  ]
  | inr (x, e) ↦ rw e (refused (locks_key id key) x (ground arith) (λ k. ground arith))
]

-- Each operation is a step, whatever the driver fails.
apply-Refines : (op : Op) (s : Db) → Refines op s
apply-Refines (creates d) s = creates-Refines d s
apply-Refines (pairs swapped a b) s = pairs-Refines swapped a b s
apply-Refines (unpairs id) s = unpairs-Refines id s
apply-Refines (deletes id) s = deletes-Refines id s
apply-Refines (sets_public_key id key) s = sets_public_key-Refines id key s
apply-Refines (locks_key id key) s = locks_key-Refines id key s
apply-Refines (touches now id) s = touches-Refines now id s

-- Whatever operations run on the table and whatever statements the driver fails, the devices that
-- can be looked up, with their locked keys and peers, pass through the steps of the directory, each
-- with the result that the operation reports.
pub runs-refines :
    (ops : List Op) (s : Db)
    → Steps (view s.contents) (view (runs ops s).contents) ops (reports ops s)
unfolding runs reports
runs-refines [] s = done
runs-refines (op ∷ ops) s = follows (apply-Refines op s) (runs-refines ops (apply op s).1)
