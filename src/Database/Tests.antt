-- ===== src/Database/Tests.antt =====
-- Runs of the operations of internal/database/pairing.go on a small table, and instances of the
-- theorems there.
use relayly.Base.{
  ◌≡◌, refl, String, true, false, Option, none, some, List, [], ◌∷◌, arith, ok, err, eq_iff,
  string_eq,
}
use relayly.Database.{
  Row, Rows, unpair_device, check_unpaired, link_all, both_ways, already_paired,
  static_key_mismatch, pair_devices, set_static_key_if_unset, delete_device, find, clear_links_to,
  delete_id,
}
use relayly.Database.Rows.{peer_of, key_of}
use relayly.Database.Interleaved
use relayly.Database.Interleaved.{
  Part, clears_links, deletes_row, perform, performs, AreMutual, performs-AreMutual,
}
use relayly.Database.Keys.{set_static_key_verdict}
use relayly.Database.History.{Op, pairs, unpairs, deletes, locks_key, runs, apply, runs-key_of}
use relayly.Database.Directory.{Steps, view, reports}
use relayly.Database.Refinement.{runs-refines}
use relayly.Database.Pairing.{healthy, verdict, pair_devices-verdict}

abbrev row : String → Option String → Option String → Row
row id key peer = record {
  id = id;
  name = "n";
  public_key = "";
  device_token = id;
  static_key = key;
  paired_with = peer;
  created_at = 0;
  last_seen = none;
  expires_at = none;
}

-- `a` and `b` are paired, and `a` has announced a key.
abbrev table : Rows
table = row "a" (some "K") (some "b") ∷ row "b" none (some "a") ∷ row "c" none none ∷ []

abbrev history : List Op
history = unpairs "a" ∷ pairs true "a" "c" ∷ locks_key "a" "L" ∷ deletes "b" ∷ []

-- A deletion of `b`, with a pairing between its two statements.
abbrev parts : List Part
parts =
    Interleaved.unpairs "a"
    ∷ clears_links "b"
    ∷ Interleaved.pairs true "a" "c"
    ∷ deletes_row "b"
    ∷ []

performs-AreMutual_example : AreMutual "a" "c" (performs parts (healthy table)).contents
unfolding find
performs-AreMutual_example =
    performs-AreMutual "a" "c" parts (healthy table)
      (tt, (ground (arith, eq_iff "b" "a"), (tt, (ground (arith, eq_iff "b" "a"), tt))))
      (tt, (ground (arith, eq_iff "b" "c"), (tt, (ground (arith, eq_iff "b" "c"), tt))))
      (λ e. absurd (b_not_c e), λ e. absurd (none_not_a e))
  where
    b_not_c : Path (Option String) (some "b") (some "c") → ⊥
    b_not_c e = ground (arith, eq_iff "b" "c")

    none_not_a : Path (Option String) none (some "a") → ⊥
    none_not_a e = ground arith

-- With a pairing of the device that is deleted, its new peer is left with a peer that is gone.
pairing_meanwhile :
    let after =
      performs
        (clears_links "c"
          ∷ Interleaved.unpairs "a"
          ∷ Interleaved.pairs true "a" "c"
          ∷ deletes_row "c"
          ∷ [])
        (healthy table) in
    (peer_of "a" after.contents ≡ some "c") × (find "c" after.contents ≡ none)
unfolding performs perform unpair_device pair_devices find check_unpaired link_all both_ways
    clear_links_to delete_id
pairing_meanwhile = (refl, refl)

history_peers :
    (peer_of "a" (runs history (healthy table)).contents ≡ some "c")
    × (peer_of "c" (runs history (healthy table)).contents ≡ some "a")
    × (find "b" (runs history (healthy table)).contents ≡ none)
unfolding runs apply unpair_device pair_devices set_static_key_if_unset delete_device find
    check_unpaired link_all both_ways
history_peers = (refl, refl, refl)

runs-key_of_example : key_of "a" (runs history (healthy table)).contents ≡ some "K"
unfolding find
runs-key_of_example =
    runs-key_of "a" "K" history (healthy table)
      (tt, (tt, (tt, (ground (arith, eq_iff "b" "a"), tt)))) refl

pair_devices-verdict_example : (pair_devices false "c" "a" (healthy table)).0 ≡ err already_paired
unfolding verdict find
pair_devices-verdict_example = (pair_devices-verdict false "c" "a" table).0

-- `c` has no key yet; the others keep theirs.
set_static_key_verdict_example :
    ((set_static_key_if_unset "c" "L" (healthy table)).0 ≡ ok tt)
    × (find "a" (set_static_key_if_unset "c" "L" (healthy table)).1.contents
        ≡ find "a" (healthy table).contents)
unfolding find
set_static_key_verdict_example = set_static_key_verdict "c" "L" "a" (healthy table) refl

-- The key of `a` is locked, and the other operations succeed.
runs-refines_example :
    Steps
      (view table)
      (view (runs history (healthy table)).contents)
      history
      (ok tt ∷ ok tt ∷ err static_key_mismatch ∷ ok tt ∷ [])
unfolding runs reports apply unpair_device pair_devices set_static_key_if_unset delete_device find
    check_unpaired link_all both_ways
runs-refines_example = runs-refines history (healthy table)
