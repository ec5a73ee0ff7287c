-- ===== src/Database/Lookups.antt =====
-- What `GetDeviceByID` (internal/database/pairing.go) reads.
use relayly.Base.{
  ◌≡◌, refl, String, Option, none, some, [], arith, Result, ok, err, Option-cases, inl, inr,
}
use relayly.Database.{Db, Device, DbError, Row, not_found, find, scan_device, get_device_by_id}

pub get_device_by_id-reads :
    (id : String) (s : Db) → (get_device_by_id id s).1.contents ≡ s.contents
unfolding get_device_by_id
get_device_by_id-reads id s = ground arith

abbrev pub device_or_missing : Option Row → Result DbError Device
device_or_missing none = err not_found
device_or_missing (some r) = ok (scan_device r)

pub get_device_by_id-healthy :
    (id : String) (s : Db)
    → s.faults ≡ []
    → ((get_device_by_id id s).0 ≡ device_or_missing (find id s.contents))
      × ((get_device_by_id id s).1.faults ≡ [])
unfolding get_device_by_id
get_device_by_id-healthy id s f = elim (Option-cases (find id s.contents)) [
  | inl e ↦ (rw (e, f) refl, ground arith)
  | inr (r, e) ↦ (rw (e, f) refl, ground arith)
]
