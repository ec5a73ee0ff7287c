-- ===== src/Database/Views.antt =====
-- What the statements of internal/database/pairing.go do to the directory that the table shows.
use relayly.Base.{
  ◌≡◌, String, Bool, some, arith, ◌==◌, string_eq, eq_iff, if◌then◌else◌, inl, inr, Option-cases,
}
use relayly.Database.{
  Row, Rows, find, link, both_ways, set_key, unlink, update_where, clear_links_to,
}
use relayly.Database.Rows.{
  locked, find-id, find-set_key, find-update_where, find-unlink, find-clear_links_to, find-link,
}
use relayly.Database.Links.{linked}
use relayly.Database.Directory.{entry, view, with_peer, without, alone}

pub view-link :
    (k this peer : String) (rows : Rows)
    → view (link this peer rows) k
      ≡ (if k == this then with_peer peer (view rows k) else view rows k)
view-link k this peer rows = elim (Option-cases (find k rows)) [
  | inl e ↦ ground (arith, find-link k this peer rows)
  | inr (r, e) ↦
      ground (
        arith,
        find-link k this peer rows,
        find-id k rows {r = r} e,
        eq_iff k this,
        eq_iff r.id this,
      )
]

pub view-linked :
    (swapped : Bool) (a b k : String) (rows : Rows)
    → view (linked (both_ways swapped a b) rows) k ≡ (
        if k == a
        then with_peer b (view rows k)
        else if k == b
        then with_peer a (view rows k)
        else view rows k)
unfolding linked both_ways
view-linked swapped a b k rows = ground (
  arith,
  eq_iff a b,
  eq_iff k a,
  eq_iff k b,
  view-link k b a (link a b rows),
  view-link k a b rows,
  view-link k a b (link b a rows),
  view-link k b a rows,
)

pub view-clear :
    (k id : String) (rows : Rows) → view (clear_links_to id rows) k ≡ without id (view rows k)
view-clear k id rows = elim (Option-cases (find k rows)) [
  | inl e ↦ ground (arith, find-clear_links_to k id rows)
  | inr (r, e) ↦ ground (arith, find-clear_links_to k id rows)
]

pub view-unlink :
    (k id : String) (rows : Rows)
    → view (unlink id rows) k ≡ (if k == id then alone (view rows k) else without id (view rows k))
view-unlink k id rows = elim (Option-cases (find k rows)) [
  | inl e ↦ ground (arith, find-unlink k id rows)
  | inr (r, e) ↦
      ground (arith, find-unlink k id rows, find-id k rows {r = r} e, eq_iff k id, eq_iff r.id id)
]

pub view-set_key :
    (k id key : String) (rows : Rows) (r : Row)
    → find id rows ≡ some r
    → view (set_key id key rows) k
      ≡ (if k == id then some (record (entry r) { key = locked (some key) }) else view rows k)
view-set_key k id key rows r f = elim (Option-cases (find k rows)) [
  | inl e ↦ ground (arith, find-set_key k id key rows, eq_iff k id)
  | inr (x, e) ↦
      ground
        (arith, find-set_key k id key rows, find-id k rows {r = x} e, eq_iff k id, eq_iff x.id id)
]

pub view-update_where :
    (k : String) (test : Row → Bool) (f : Row → Row)
    → ((r : Row) → (f r).id ≡ r.id)
    → ((r : Row) → entry (f r) ≡ entry r)
    → (rows : Rows) → view (update_where test f rows) k ≡ view rows k
view-update_where k test f keeps same rows = elim (Option-cases (find k rows)) [
  | inl e ↦ ground (arith, find-update_where k test f keeps rows)
  | inr (r, e) ↦ ground (arith, find-update_where k test f keeps rows, same r)
]
