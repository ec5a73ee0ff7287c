-- ===== src/Database/Rows.antt =====
-- How each statement of internal/database/pairing.go changes what a later query of one row finds.
use mathlib.Core.Option
use relayly.Base.{
  ◌≡◌, refl, String, Bool, ◌||◌, Option, none, some, [], ◌∷◌, ◌++◌, arith, ◌==◌, string_eq, eq_iff,
  if◌then◌else◌,
}
use relayly.Database.{
  Row, Rows, find, update_where, delete_id, link, unlink, set_key, clear_links_to, points_at,
}

-- A row found under an id has that id.
pub find-id : (k : String) (rows : Rows) {r : Row} → find k rows ≡ some r → r.id ≡ k
unfolding find
find-id k [] h = ground arith
find-id k (x ∷ rows) {r} h = ground (arith, eq_iff x.id k, find-id k rows {r = r})

-- An update that keeps the ids acts on the row that is found.
pub find-update_where :
    (k : String) (test : Row → Bool) (f : Row → Row)
    → ((r : Row) → (f r).id ≡ r.id)
    → (rows : Rows)
    → find k (update_where test f rows) ≡ Option.map (λ r. if test r then f r else r) (find k rows)
unfolding find update_where
find-update_where k test f keeps [] = refl
find-update_where k test f keeps (x ∷ rows) =
    ground (arith, keeps x, find-update_where k test f keeps rows)

pub find-delete_id :
    (k id : String) (rows : Rows)
    → find k (delete_id id rows) ≡ (if id == k then none else find k rows)
unfolding find delete_id
find-delete_id k id [] = ground arith
find-delete_id k id (x ∷ rows) =
    ground (arith, eq_iff x.id k, eq_iff x.id id, eq_iff id k, find-delete_id k id rows)

pub find-append_new :
    (k : String) (rows : Rows) (r : Row)
    → find r.id rows ≡ none
    → find k (rows ++ r ∷ []) ≡ (if r.id == k then some r else find k rows)
unfolding find
find-append_new k [] r fresh = refl
find-append_new k (x ∷ rows) r fresh =
    ground (arith, eq_iff x.id k, eq_iff x.id r.id, eq_iff r.id k, find-append_new k rows r)

-- The column `paired_with` of the row with the id, if there is one.
abbrev pub peer_of : String → Rows → Option String
peer_of k rows = elim (find k rows) [ none ↦ none | some r ↦ r.paired_with ]

-- The key that the device has announced, if it is there and not empty.
abbrev pub locked : Option String → Option String
locked none = none
locked (some key) = if key == "" then none else some key

abbrev pub key_of : String → Rows → Option String
key_of k rows = elim (find k rows) [ none ↦ none | some r ↦ locked r.static_key ]

pub find-link :
    (k this peer : String) (rows : Rows)
    → find k (link this peer rows)
      ≡ Option.map
          (λ r. if r.id == this then record r { paired_with = some peer; expires_at = none } else r)
          (find k rows)
unfolding link
find-link k this peer rows = find-update_where k _ _ (λ r. refl) rows

pub find-unlink :
    (k id : String) (rows : Rows)
    → find k (unlink id rows)
      ≡ Option.map
          (λ r. if r.id == id || points_at id r then record r { paired_with = none } else r)
          (find k rows)
unfolding unlink
find-unlink k id rows = find-update_where k _ _ (λ r. refl) rows

pub find-clear_links_to :
    (k id : String) (rows : Rows)
    → find k (clear_links_to id rows)
      ≡ Option.map
          (λ r. if points_at id r then record r { paired_with = none } else r)
          (find k rows)
unfolding clear_links_to
find-clear_links_to k id rows = find-update_where k _ _ (λ r. refl) rows

pub find-set_key :
    (k id key : String) (rows : Rows)
    → find k (set_key id key rows)
      ≡ Option.map (λ r. if r.id == id then record r { static_key = some key } else r) (find k rows)
unfolding set_key
find-set_key k id key rows = find-update_where k _ _ (λ r. refl) rows
