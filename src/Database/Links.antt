-- ===== src/Database/Links.antt =====
-- `PairDevices` of internal/database/pairing.go: what it links, and that it is atomic.
use relayly.Base.{
  ◌≡◌, refl, inl, inr, String, Bool, true, false, none, some, List, [], ◌∷◌, arith, is_ok, is_some,
  ◌==◌, string_eq, eq_iff, if◌then◌else◌, Option-cases,
}
use relayly.Sql.{later}
use relayly.Database.{Rows, Db, find, link, link_all, both_ways, check_unpaired, pair_devices}
use relayly.Database.Rows.{peer_of, find-link, find-id}

-- The rows after all the links of a list.
unfoldable pub linked : List (String × String) → Rows → Rows
linked [] rows = rows
linked ((this, peer) ∷ rest) rows = linked rest (link this peer rows)

link_all-ok :
    (links : List (String × String)) (s : Db)
    → is_ok (link_all links s).0 ≡ true
    → (link_all links s).1.contents ≡ linked links s.contents
unfolding link_all linked
link_all-ok [] s h = refl
link_all-ok ((this, peer) ∷ rest) s h =
    let t : Db = record { contents = link this peer s.contents; faults = later s.faults } in
    ground (arith, link_all-ok rest t)

check_unpaired-keeps : (id : String) (s : Db) → (check_unpaired id s).1.contents ≡ s.contents
unfolding check_unpaired
check_unpaired-keeps id s = ground arith

check_unpaired-ok :
    (id : String) (s : Db)
    → is_ok (check_unpaired id s).0 ≡ true
    → (is_some (find id s.contents) ≡ true) × (peer_of id s.contents ≡ none)
unfolding check_unpaired
check_unpaired-ok id s h = ground arith

module _ (swapped : Bool) (a b : String) (s : Db) where
  abbrev begun : Db
  begun = record s { faults = later s.faults }

  -- A pairing that succeeds has found both devices, unpaired, and links them.
  pub pair_devices-ok :
      is_ok (pair_devices swapped a b s).0 ≡ true
      → ((pair_devices swapped a b s).1.contents ≡ linked (both_ways swapped a b) s.contents)
        × (is_some (find a s.contents) ≡ true)
        × (peer_of a s.contents ≡ none)
        × (is_some (find b s.contents) ≡ true)
        × (peer_of b s.contents ≡ none)
  unfolding pair_devices
  pair_devices-ok h = ground (
    arith,
    check_unpaired-keeps a begun,
    check_unpaired-ok a begun,
    check_unpaired-keeps b (check_unpaired a begun).1,
    check_unpaired-ok b (check_unpaired a begun).1,
    link_all-ok (both_ways swapped a b) (check_unpaired b (check_unpaired a begun).1).1,
  )

  -- A pairing that fails, at whatever statement, changes no row.
  pub pair_devices-err :
      is_ok (pair_devices swapped a b s).0 ≡ false
      → (pair_devices swapped a b s).1.contents ≡ s.contents
  unfolding pair_devices
  pair_devices-err h = ground arith

pub peer_of-link :
    (k this peer : String) (rows : Rows)
    → peer_of k (link this peer rows)
      ≡ (if k == this then (if is_some (find k rows) then some peer else none) else peer_of k rows)
peer_of-link k this peer rows = elim (Option-cases (find k rows)) [
  | inl e ↦ ground (arith, find-link k this peer rows)
  | inr (r, e) ↦
      ground (
        arith,
        find-link k this peer rows,
        find-id k rows {r = r} e,
        eq_iff k this,
        eq_iff r.id this,
      )
]

found-link :
    (k this peer : String) (rows : Rows)
    → is_some (find k (link this peer rows)) ≡ is_some (find k rows)
found-link k this peer rows = ground (arith, find-link k this peer rows)

-- The peers after the links of `both_ways`, whatever order Go takes.
pub peer_of-linked :
    (swapped : Bool) (a b k : String) (rows : Rows)
    → is_some (find a rows) ≡ true
    → is_some (find b rows) ≡ true
    → peer_of k (linked (both_ways swapped a b) rows)
      ≡ (if k == a then some b else if k == b then some a else peer_of k rows)
unfolding linked both_ways
peer_of-linked swapped a b k rows ha hb = ground (
  arith,
  eq_iff a b,
  eq_iff k a,
  eq_iff k b,
  peer_of-link k b a (link a b rows),
  peer_of-link k a b rows,
  peer_of-link k a b (link b a rows),
  peer_of-link k b a rows,
  found-link k a b rows,
  found-link k b a rows,
)
