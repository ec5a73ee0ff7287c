-- ===== src/Database/Interleaved.antt =====
-- Histories of internal/database/pairing.go in which the two statements of `DeleteDevice`, which no
-- transaction holds together, stand on their own, with other operations between them.
use relayly.Base.{
  ℕ, ◌≡◌, ◌≢◌, String, Bool, some, List, [], ◌∷◌, arith, string_eq, eq_iff, Bool-cases, inl, inr,
  All,
}
use relayly.Sql.{exec, next}
use relayly.Database.{
  Db, Rows, Device, Query, driver, clear_links_to, delete_id, pair_devices, unpair_device, unlink,
  create_device, update_public_key, set_static_key_if_unset, touch_last_seen,
}
use relayly.Database.Rows.{peer_of}
use relayly.Database.Links.{pair_devices-ok}
use relayly.Database.Symmetry.{
  peer_of-pair_devices, peer_of-unlink, peer_of-clear_links_to, peer_of-delete_id,
  peer_of-create_device, peer_of-set_static_key, peer_of-update_public_key, peer_of-touch_last_seen,
}

-- A statement or a transaction, which SQLite runs as one.
pub data Part : Type 0 where
  creates : Device → Part
  pairs : Bool → String → String → Part
  unpairs clears_links deletes_row : String → Part
  sets_public_key locks_key : String → String → Part
  touches : ℕ → String → Part

unfoldable pub perform : Part → Query (Unit {0})
perform (creates d) = create_device d
perform (pairs swapped a b) = pair_devices swapped a b
perform (unpairs id) = unpair_device id
perform (clears_links id) = exec driver tt (clear_links_to id)
perform (deletes_row id) = exec driver tt (delete_id id)
perform (sets_public_key id key) = update_public_key id key
perform (locks_key id key) = set_static_key_if_unset id key
perform (touches now id) = touch_last_seen now id

unfoldable pub performs : List Part → Db → Db
performs [] s = s
performs (p ∷ ps) s = performs ps (perform p s).1

-- The device `k` is not the one that a deletion deletes.
abbrev pub Spares : String → Part → Type 0
Spares k (clears_links id) = id ≢ k
Spares k (deletes_row id) = id ≢ k
Spares k _ = Unit {0}

-- If one of two devices has the other as its peer, so has the other.
abbrev pub AreMutual : String → String → Rows → Type 0
AreMutual a b rows =
    ((peer_of a rows ≡ some b) → (peer_of b rows ≡ some a))
    × ((peer_of b rows ≡ some a) → (peer_of a rows ≡ some b))

same-AreMutual :
    (a b : String) (rows rows' : Rows)
    → ((k : String) → peer_of k rows' ≡ peer_of k rows)
    → AreMutual a b rows
    → AreMutual a b rows'
same-AreMutual a b rows rows' same h = ground (arith, h, same a, same b)

pair-points :
    (a b x y : String) (swapped : Bool) (s : Db)
    → AreMutual a b s.contents
    → peer_of a (pair_devices swapped x y s).1.contents ≡ some b
    → peer_of b (pair_devices swapped x y s).1.contents ≡ some a
pair-points a b x y swapped s h e = ground (
  arith,
  h,
  pair_devices-ok swapped x y s,
  eq_iff a x,
  eq_iff a y,
  eq_iff b x,
  eq_iff b y,
  peer_of-pair_devices swapped x y a s,
  peer_of-pair_devices swapped x y b s,
)

unlink-points :
    (a b id : String) (rows : Rows)
    → AreMutual a b rows
    → peer_of a (unlink id rows) ≡ some b
    → peer_of b (unlink id rows) ≡ some a
unlink-points a b id rows h e =
    ground (arith, h, peer_of-unlink a id rows, peer_of-unlink b id rows)

clear-points :
    (a b id : String) (rows : Rows)
    → id ≢ a
    → AreMutual a b rows
    → peer_of a (clear_links_to id rows) ≡ some b
    → peer_of b (clear_links_to id rows) ≡ some a
clear-points a b id rows na h e =
    ground
      (arith, h, eq_iff a id, peer_of-clear_links_to a id rows, peer_of-clear_links_to b id rows)

delete-points :
    (a b id : String) (rows : Rows)
    → id ≢ b
    → AreMutual a b rows
    → peer_of a (delete_id id rows) ≡ some b
    → peer_of b (delete_id id rows) ≡ some a
delete-points a b id rows nb h e =
    ground (arith, h, eq_iff id b, peer_of-delete_id a id rows, peer_of-delete_id b id rows)

-- Each part, for one direction of the link.
perform-points :
    (a b : String) (p : Part) (s : Db)
    → Spares a p
    → Spares b p
    → AreMutual a b s.contents
    → peer_of a (perform p s).1.contents ≡ some b
    → peer_of b (perform p s).1.contents ≡ some a
unfolding perform unpair_device
perform-points a b (creates d) s na nb h =
    (same-AreMutual a b _ _ (λ k. peer_of-create_device k d s) h).0
perform-points a b (pairs swapped x y) s na nb h = pair-points a b x y swapped s h
perform-points a b (unpairs id) s na nb h = elim (Bool-cases (next s.faults)) [
  | inl bad ↦ rw bad h.0
  | inr good ↦ rw good (unlink-points a b id s.contents h)
]
perform-points a b (clears_links id) s na nb h = elim (Bool-cases (next s.faults)) [
  | inl bad ↦ rw bad h.0
  | inr good ↦ rw good (clear-points a b id s.contents na h)
]
perform-points a b (deletes_row id) s na nb h = elim (Bool-cases (next s.faults)) [
  | inl bad ↦ rw bad h.0
  | inr good ↦ rw good (delete-points a b id s.contents nb h)
]
perform-points a b (sets_public_key id key) s na nb h =
    (same-AreMutual a b _ _ (λ k. peer_of-update_public_key k id key s) h).0
perform-points a b (locks_key id key) s na nb h =
    (same-AreMutual a b _ _ (λ k. peer_of-set_static_key k id key s) h).0
perform-points a b (touches now id) s na nb h =
    (same-AreMutual a b _ _ (λ k. peer_of-touch_last_seen k now id s) h).0

-- Whatever transactions and statements run in whatever order, with whatever driver failures and
-- with anything between the two statements of a deletion: of two devices that no deletion is for,
-- if at first each has the other as its peer as soon as one of them does, that stays so.
pub performs-AreMutual :
    (a b : String) (parts : List Part) (s : Db)
    → All (Spares a) parts
    → All (Spares b) parts
    → AreMutual a b s.contents
    → AreMutual a b (performs parts s).contents
unfolding performs
performs-AreMutual a b [] s na nb h = h
performs-AreMutual a b (p ∷ parts) s na nb h =
    performs-AreMutual a b parts (perform p s).1 na.1 nb.1
      (perform-points a b p s na.0 nb.0 h, perform-points b a p s nb.0 na.0 (h.1, h.0))
