-- ===== src/Database/History.antt =====
-- Histories of the operations of internal/database/pairing.go, one after the other: what no history
-- breaks. `Database.Interleaved` has what may come between the statements of a deletion.
use relayly.Base.{ℕ, ◌≡◌, String, Bool, true, some, List, [], ◌∷◌, is_ok, string_eq, ◌∙◌, ◌≢◌, All}
use relayly.Database.{
  Db, Device, Query, pair_devices, unpair_device, create_device, update_public_key,
  set_static_key_if_unset, touch_last_seen, delete_device,
}
use relayly.Database.Rows.{key_of}
use relayly.Database.Symmetry.{
  IsSymmetric, create-IsSymmetric, pair-IsSymmetric, unpair-IsSymmetric, delete_device-IsSymmetric,
  update_public_key-IsSymmetric, lock-IsSymmetric, touch-IsSymmetric,
}
use relayly.Database.Keys.{
  key_of-create_device, key_of-pair_devices, key_of-unpair_device, key_of-delete_device,
  key_of-update_public_key, key_of-set_static_key, key_of-touch_last_seen,
}

pub data Op : Type 0 where
  creates : Device → Op
  pairs : Bool → String → String → Op
  unpairs deletes : String → Op
  sets_public_key locks_key : String → String → Op
  touches : ℕ → String → Op

unfoldable pub apply : Op → Query (Unit {0})
apply (creates d) = create_device d
apply (pairs swapped a b) = pair_devices swapped a b
apply (unpairs id) = unpair_device id
apply (deletes id) = delete_device id
apply (sets_public_key id key) = update_public_key id key
apply (locks_key id key) = set_static_key_if_unset id key
apply (touches now id) = touch_last_seen now id

-- A deletion has run both of its statements.
abbrev pub Completes : Op → Db → Type 0
Completes (deletes id) s = is_ok (delete_device id s).0 ≡ true
Completes _ s = Unit {0}

pub apply-IsSymmetric :
    (op : Op) (s : Db)
    → Completes op s
    → IsSymmetric s.contents
    → IsSymmetric (apply op s).1.contents
unfolding apply
apply-IsSymmetric (creates d) s c h = create-IsSymmetric d s h
apply-IsSymmetric (pairs swapped x y) s c h = pair-IsSymmetric swapped x y s h
apply-IsSymmetric (unpairs id) s c h = unpair-IsSymmetric id s h
apply-IsSymmetric (deletes id) s c h = delete_device-IsSymmetric id s c h
apply-IsSymmetric (sets_public_key id key) s c h = update_public_key-IsSymmetric id key s h
apply-IsSymmetric (locks_key id key) s c h = lock-IsSymmetric id key s h
apply-IsSymmetric (touches now id) s c h = touch-IsSymmetric now id s h

-- The table after a history of operations.
unfoldable pub runs : List Op → Db → Db
runs [] s = s
runs (op ∷ ops) s = runs ops (apply op s).1

abbrev pub AllComplete : List Op → Db → Type 0
AllComplete [] s = Unit {0}
AllComplete (op ∷ ops) s = Completes op s × AllComplete ops (apply op s).1

-- Whatever operations run one after the other, with whatever driver failures, a table in which every
-- device's peer is paired with that device stays one, if every deletion among them succeeds.
pub runs-IsSymmetric :
    (ops : List Op) (s : Db)
    → AllComplete ops s
    → IsSymmetric s.contents
    → IsSymmetric (runs ops s).contents
unfolding runs
runs-IsSymmetric [] s c h = h
runs-IsSymmetric (op ∷ ops) s c h =
    runs-IsSymmetric ops (apply op s).1 c.1 (apply-IsSymmetric op s c.0 h)

-- The device `k` is not deleted.
abbrev pub Keeps : String → Op → Type 0
Keeps k (deletes id) = id ≢ k
Keeps k _ = Unit {0}

apply-key_of :
    (k key : String) (op : Op) (s : Db)
    → Keeps k op
    → key_of k s.contents ≡ some key
    → key_of k (apply op s).1.contents ≡ some key
unfolding apply
apply-key_of k key (creates d) s c h = key_of-create_device k d s ∙ h
apply-key_of k key (pairs swapped a b) s c h = key_of-pair_devices k swapped a b s ∙ h
apply-key_of k key (unpairs id) s c h = key_of-unpair_device k id s ∙ h
apply-key_of k key (deletes id) s c h = key_of-delete_device k id s c ∙ h
apply-key_of k key (sets_public_key id new) s c h = key_of-update_public_key k id new s ∙ h
apply-key_of k key (locks_key id new) s c h = key_of-set_static_key k id new key s h
apply-key_of k key (touches now id) s c h = key_of-touch_last_seen k now id s ∙ h

-- Once a device's key is locked, no history of operations that does not delete the device changes
-- it, whatever keys are announced and whatever statements fail.
pub runs-key_of :
    (k key : String) (ops : List Op) (s : Db)
    → All (Keeps k) ops
    → key_of k s.contents ≡ some key
    → key_of k (runs ops s).contents ≡ some key
unfolding runs
runs-key_of k key [] s c h = h
runs-key_of k key (op ∷ ops) s c h =
    runs-key_of k key ops (apply op s).1 c.1 (apply-key_of k key op s c.0 h)
