-- ===== src/Database/Listing.antt =====
-- What `ListDevices` of internal/database/pairing.go lists.
use mathlib.Core.List.{Perm}
use mathlib.Core.List.Perm
use relayly.Base.{ℕ, ◌≤◌, ◌≡◌, [], ◌∷◌, map, arith, ok, All, Bool-cases, inl, inr, ltb}
use relayly.Database.{Row, Rows, Db, insert_by_age, by_age, list_devices, scan_device}

-- No row is older than one before it.
abbrev pub IsSorted : Rows → Type 0
IsSorted [] = Unit {0}
IsSorted (r ∷ rs) = All (λ x. r.created_at ≤ x.created_at) rs × IsSorted rs

insert_by_age-Perm : (r : Row) (rs : Rows) → Perm (insert_by_age r rs) (r ∷ rs)
unfolding insert_by_age
insert_by_age-Perm r [] = Perm.refl (r ∷ [])
insert_by_age-Perm r (x ∷ rs) = elim (Bool-cases (ltb x.created_at r.created_at)) [
  | inl e ↦
      rw (insert_by_age, e) (Perm.trans (Perm.cons x (insert_by_age-Perm r rs)) (Perm.swap r x rs))
  | inr e ↦ rw (insert_by_age, e) (Perm.refl (r ∷ x ∷ rs))
]

by_age-Perm : (rs : Rows) → Perm (by_age rs) rs
unfolding by_age
by_age-Perm [] = Perm.refl []
by_age-Perm (r ∷ rs) = Perm.trans (insert_by_age-Perm r (by_age rs)) (Perm.cons r (by_age-Perm rs))

All-insert_by_age :
    (n : ℕ) (r : Row) (rs : Rows)
    → n ≤ r.created_at
    → All (λ x. n ≤ x.created_at) rs
    → All (λ x. n ≤ x.created_at) (insert_by_age r rs)
unfolding insert_by_age
All-insert_by_age n r [] h k = (h, tt)
All-insert_by_age n r (x ∷ rs) h k = elim (Bool-cases (ltb x.created_at r.created_at)) [
  | inl e ↦ rw (insert_by_age, e) (k.0, All-insert_by_age n r rs h k.1)
  | inr e ↦ rw (insert_by_age, e) (h, k)
]

All-le :
    (m n : ℕ) (rs : Rows) → m ≤ n → All (λ x. n ≤ x.created_at) rs → All (λ x. m ≤ x.created_at) rs
All-le m n [] h k = tt
All-le m n (x ∷ rs) h k = (omega (arith, h, k.0), All-le m n rs h k.1)

insert_by_age-IsSorted : (r : Row) (rs : Rows) → IsSorted rs → IsSorted (insert_by_age r rs)
unfolding insert_by_age
insert_by_age-IsSorted r [] h = (tt, tt)
insert_by_age-IsSorted r (x ∷ rs) h = elim (Bool-cases (ltb x.created_at r.created_at)) [
  | inl e ↦
      rw (insert_by_age, e)
        (All-insert_by_age x.created_at r rs (ground arith) h.0, insert_by_age-IsSorted r rs h.1)
  | inr e ↦
      let le : r.created_at ≤ x.created_at = ground arith in
      rw (insert_by_age, e) ((le, All-le r.created_at x.created_at rs le h.0), h)
]

by_age-IsSorted : (rs : Rows) → IsSorted (by_age rs)
unfolding by_age
by_age-IsSorted [] = tt
by_age-IsSorted (r ∷ rs) = insert_by_age-IsSorted r (by_age rs) (by_age-IsSorted rs)

-- While the driver runs the query, every row is listed once, the oldest first, and no row changes.
pub list_devices_lem :
    (s : Db)
    → s.faults ≡ []
    → (rows : Rows) × ((list_devices s).0 ≡ ok (map scan_device rows))
      × Perm rows s.contents
      × IsSorted rows
      × ((list_devices s).1.contents ≡ s.contents)
unfolding list_devices
list_devices_lem s healthy = (
  by_age s.contents,
  ground arith,
  by_age-Perm s.contents,
  by_age-IsSorted s.contents,
  ground arith,
)
