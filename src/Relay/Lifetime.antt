-- ===== src/Relay/Lifetime.antt =====
-- How long a device's token lasts: internal/database/pairing.go against internal/relay/handler.go.
use relayly.Base.{
  ◌≡◌, ◌≢◌, refl, sym, subst, ◌∙◌, inl, inr, ℕ, String, Bool, true, false, none, some, List, [],
  ◌∷◌, arith, is_ok, ◌==◌, string_eq, eq_iff, if◌then◌else◌, Bool-cases,
}
use relayly.Database.{Row, Rows, Db, find, link, link_all, check_unpaired, both_ways, pair_devices}
use relayly.Sql.{later}
use relayly.Database.Rows.{find-link, find-id}
use relayly.Database.Links.{linked, pair_devices-ok}
use relayly.Relay.Hub.{Server}
use relayly.Relay.Control.{with_db}
use relayly.Relay.Handler.{upgraded, handle_connect}
use relayly.Relay.Access.{handle_connect-answer}

-- The device has the token, which never expires.
abbrev pub Lasts : String → String → Rows → Type 0
Lasts id token rows =
    (x : Row) × (find id rows ≡ some x) × (x.device_token ≡ token) × (x.expires_at ≡ none)

link-Lasts :
    (this peer : String) (r : Row) (rows : Rows)
    → find this rows ≡ some r
    → Lasts this r.device_token (link this peer rows)
link-Lasts this peer r rows has = (
  record r { paired_with = some peer; expires_at = none },
  ground (arith, find-link this this peer rows, find-id this rows {r = r} has, eq_iff r.id this),
  refl,
  refl,
)

Lasts-link :
    (id token this peer : String) (rows : Rows)
    → Lasts id token rows
    → Lasts id token (link this peer rows)
Lasts-link id token this peer rows (x, has, same, forever) = elim (Bool-cases (x.id == this)) [
  | inl e ↦ (
    record x { paired_with = some peer; expires_at = none },
    ground (arith, find-link id this peer rows),
    same,
    refl,
  )
  | inr e ↦ (x, ground (arith, find-link id this peer rows), same, forever)
]

-- The token stays where another device is linked.
find-link_token :
    (id this peer : String) (r : Row) (rows : Rows)
    → find id rows ≡ some r
    → (x : Row) × (find id (link this peer rows) ≡ some x) × (x.device_token ≡ r.device_token)
find-link_token id this peer r rows has = elim (Bool-cases (r.id == this)) [
  | inl e ↦ (
    record r { paired_with = some peer; expires_at = none },
    ground (arith, find-link id this peer rows),
    refl,
  )
  | inr e ↦ (r, ground (arith, find-link id this peer rows), refl)
]

check_unpaired-runs : (id : String) (s : Db) → s.faults ≡ [] → (check_unpaired id s).1.faults ≡ []
unfolding check_unpaired
check_unpaired-runs id s h = ground arith

link_all-runs :
    (links : List (String × String)) (s : Db) → s.faults ≡ [] → (link_all links s).1.faults ≡ []
unfolding link_all
link_all-runs [] s h = h
link_all-runs ((this, peer) ∷ rest) s h =
    let t : Db = record { contents = link this peer s.contents; faults = later s.faults } in
    ground (arith, link_all-runs rest t)

-- A pairing over a driver that runs every statement leaves one that does.
pair_devices-runs :
    (swapped : Bool) (a b : String) (s : Db)
    → s.faults ≡ []
    → (pair_devices swapped a b s).1.faults ≡ []
unfolding pair_devices
pair_devices-runs swapped a b s h =
    let begun : Db = record s { faults = later s.faults } in
    let first = (check_unpaired a begun).1 in
    let second = (check_unpaired b first).1 in
    ground (
      arith,
      check_unpaired-runs a begun,
      check_unpaired-runs b first,
      link_all-runs (both_ways swapped a b) second,
    )

link-twice-Lasts :
    (a b : String) (r : Row) (rows : Rows)
    → find a rows ≡ some r
    → Lasts a r.device_token (link a b (link b a rows))
link-twice-Lasts a b r rows has =
    let (x, there, same) = find-link_token a b a r rows has in
    let (y, found, token, forever) = link-Lasts a b x (link b a rows) there in
    (y, found, token ∙ same, forever)

-- The two links in either order.
ordered-Lasts :
    (swapped : Bool) (a b : String) (r q : Row) (rows : Rows)
    → find a rows ≡ some r
    → find b rows ≡ some q
    → let links : List (String × String) =
        if swapped then (b, a) ∷ (a, b) ∷ [] else (a, b) ∷ (b, a) ∷ [] in
      Lasts a r.device_token (linked links rows) × Lasts b q.device_token (linked links rows)
unfolding linked
ordered-Lasts true a b r q rows has_a has_b = (
  link-twice-Lasts a b r rows has_a,
  Lasts-link b q.device_token a b (link b a rows) (link-Lasts b a q rows has_b),
)
ordered-Lasts false a b r q rows has_a has_b = (
  Lasts-link a r.device_token b a (link a b rows) (link-Lasts a b r rows has_a),
  link-twice-Lasts b a q rows has_b,
)

linked-Lasts :
    (swapped : Bool) (a b : String) (r q : Row) (rows : Rows)
    → find a rows ≡ some r
    → find b rows ≡ some q
    → Lasts a r.device_token (linked (both_ways swapped a b) rows)
      × Lasts b q.device_token (linked (both_ways swapped a b) rows)
unfolding both_ways
linked-Lasts swapped a b r q rows has_a has_b = elim (Bool-cases (a == b)) [
  | inr e ↦ rw e (ordered-Lasts swapped a b r q rows has_a has_b)
  | inl e ↦ rw e (
      unfold linked in
      (
        subst (λ k. Lasts a r.device_token (link k a rows)) ((eq_iff a b).0 e)
            (link-Lasts a a r rows has_a),
        link-Lasts b a q rows has_b,
      ))
]

Lasts-upgraded :
    (now : ℕ) (id token : String) (w : Server)
    → w.db.faults ≡ []
    → id ≢ ""
    → token ≢ ""
    → Lasts id token w.db.contents
    → (handle_connect now true id token w).0 ≡ upgraded
Lasts-upgraded now id token w healthy named tokened (x, has, same, forever) = ground (
  arith,
  handle_connect-answer now true id token w healthy,
  eq_iff id "",
  eq_iff token "",
  eq_iff x.device_token token,
)

-- A pairing makes the tokens of both devices last: once the database has paired two devices, each
-- of them is let in with the token that it had, at whatever time it asks, as long as the table
-- stays so, while the driver runs every statement and the upgrade works, for ids and tokens that
-- are not empty.
pub paired_connects :
    (swapped : Bool) (a b : String) (r q : Row) (w : Server)
    → w.db.faults ≡ []
    → find a w.db.contents ≡ some r
    → find b w.db.contents ≡ some q
    → (a ≢ "") × (b ≢ "") × (r.device_token ≢ "") × (q.device_token ≢ "")
    → is_ok (pair_devices swapped a b w.db).0 ≡ true
    → (time : ℕ)
    → let v = (with_db (pair_devices swapped a b) w).1 in
      ((handle_connect time true a r.device_token v).0 ≡ upgraded)
      × ((handle_connect time true b q.device_token v).0 ≡ upgraded)
paired_connects swapped a b r q w healthy has_a has_b (a', b', r', q') paired time =
    let v = (with_db (pair_devices swapped a b) w).1 in
    let same = (pair_devices-ok swapped a b w.db paired).0 in
    let lasts = linked-Lasts swapped a b r q w.db.contents has_a has_b in
    let runs = pair_devices-runs swapped a b w.db healthy in
    (
      Lasts-upgraded time a r.device_token v runs a' r'
          (subst (Lasts a r.device_token) (sym same) lasts.0),
      Lasts-upgraded time b q.device_token v runs b' q'
          (subst (Lasts b q.device_token) (sym same) lasts.1),
    )
