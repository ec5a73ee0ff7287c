-- ===== src/Interop/Matrix.antt =====
-- interop/harness/matrix.go: the scenarios that `runMatrix` runs, and its verdict.
use relayly.Base.{
  ◌≡◌, ◌↔◌, refl, ap, String, Bool, true, false, Option, none, some, List, [], ◌∷◌, ◌++◌, map,
  arith, Result, ok, err, ◌==◌, string_eq, if◌then◌else◌, All,
}
use relayly.Sdk.Client.{Base64}
use relayly.Interop.{sdk_pairs}
use relayly.Interop.Script.{World, Script}
use relayly.Interop.Scenarios.{
  run_positive_flow, run_wrong_pin_test, run_key_rewrite_test, run_rekey_safety_test,
}

-- `error` is `none` where the scenario passes.
pub record PairResult : Type 0 where
  pub first : String
  pub second : String
  pub error : Option String

pub data Scenario : Type 0 where
  wrong_pin key_rewrite rekey_safety : Scenario

pub record NegativeResult : Type 0 where
  pub scenario : Scenario
  pub sdk : String
  pub error : Option String

abbrev pub error_of : Result String (Unit {0}) × World → Option String
error_of (ok u, w) = none
error_of (err e, w) = some e

-- A scenario in its surroundings, or without its directory.
unfoldable pub outcome : Script (Unit {0}) → Option World → Option String
outcome scenario none = some "mkdir"
outcome scenario (some w) = error_of (scenario w)

abbrev pub next_world : List (Option World) → Option World
next_world [] = none
next_world (w ∷ ws) = w

abbrev pub later_worlds : List (Option World) → List (Option World)
later_worlds [] = []
later_worlds (w ∷ ws) = ws

-- `allOK = false` where there is an error.
abbrev pub still : Option String → Bool → Bool
still none all_ok = all_ok
still (some e) all_ok = false

-- go cannot be its own partner.
unfoldable pub partner_of : String → String
partner_of sdk = if sdk == "go" then "ts" else "go"

abbrev pub sdk_names : List String
sdk_names = "go" ∷ "ts" ∷ "py" ∷ "rust" ∷ "cpp" ∷ []

abbrev pub scenarios : List Scenario
scenarios = wrong_pin ∷ key_rewrite ∷ rekey_safety ∷ []

-- The two loops of the negative scenarios, as the list that they go through.
unfoldable pub negative_runs : List String → List (Scenario × String)
negative_runs [] = []
negative_runs (sdk ∷ sdks) = map (λ sc. (sc, sdk)) scenarios ++ negative_runs sdks

-- The surroundings of each scenario come by turns; which clients they run is in them.
module _ (base64 : Base64) where
  unfoldable pub scenario_script : Scenario → Script (Unit {0})
  scenario_script wrong_pin = run_wrong_pin_test base64
  scenario_script key_rewrite = run_key_rewrite_test base64
  scenario_script rekey_safety = run_rekey_safety_test base64

  unfoldable pub run_pairs :
      List (String × String) → List (Option World) → Bool → List PairResult × Bool
  run_pairs [] ws all_ok = ([], all_ok)
  run_pairs ((x, y) ∷ pairs) ws all_ok =
      let e = outcome (run_positive_flow base64) (next_world ws) in
      let rest = run_pairs pairs (later_worlds ws) (still e all_ok) in
      (record { first = x; second = y; error = e } ∷ rest.0, rest.1)

  unfoldable pub run_negatives :
      List (Scenario × String) → List (Option World) → Bool → List NegativeResult × Bool
  run_negatives [] ws all_ok = ([], all_ok)
  run_negatives ((sc, sdk) ∷ runs) ws all_ok =
      let e = outcome (scenario_script sc) (next_world ws) in
      let rest = run_negatives runs (later_worlds ws) (still e all_ok) in
      (record { scenario = sc; sdk = sdk; error = e } ∷ rest.0, rest.1)

  unfoldable pub run_matrix :
      List (Option World) → List (Option World) → List PairResult × List NegativeResult × Bool
  run_matrix ws vs =
      let p = run_pairs (sdk_pairs sdk_names) ws true in
      let q = run_negatives (negative_runs sdk_names) vs p.1 in (p.0, q.0, q.1)

  run_pairs-verdict :
      (pairs : List (String × String)) (ws : List (Option World)) (all_ok : Bool)
      → ((run_pairs pairs ws all_ok).1 ≡ true)
        ↔ ((all_ok ≡ true) × All (λ r. r.error ≡ none) (run_pairs pairs ws all_ok).0)
  unfolding run_pairs
  run_pairs-verdict [] ws all_ok = (λ h. (h, tt), λ h. h.0)
  run_pairs-verdict ((x, y) ∷ pairs) ws all_ok =
      let e = outcome (run_positive_flow base64) (next_world ws) in
      let ih = run_pairs-verdict pairs (later_worlds ws) (still e all_ok) in
      (λ h. ground (arith, ih.0 h), λ h. ih.1 (ground arith, h.1.1))

  run_negatives-verdict :
      (runs : List (Scenario × String)) (ws : List (Option World)) (all_ok : Bool)
      → ((run_negatives runs ws all_ok).1 ≡ true)
        ↔ ((all_ok ≡ true) × All (λ r. r.error ≡ none) (run_negatives runs ws all_ok).0)
  unfolding run_negatives
  run_negatives-verdict [] ws all_ok = (λ h. (h, tt), λ h. h.0)
  run_negatives-verdict ((sc, sdk) ∷ runs) ws all_ok =
      let e = outcome (scenario_script sc) (next_world ws) in
      let ih = run_negatives-verdict runs (later_worlds ws) (still e all_ok) in
      (λ h. ground (arith, ih.0 h), λ h. ih.1 (ground arith, h.1.1))

  pairs-run_pairs :
      (pairs : List (String × String)) (ws : List (Option World)) (all_ok : Bool)
      → map (λ r. (r.first, r.second)) (run_pairs pairs ws all_ok).0 ≡ pairs
  unfolding run_pairs
  pairs-run_pairs [] ws all_ok = refl
  pairs-run_pairs (p ∷ pairs) ws all_ok =
      ap (λ more. p ∷ more)
        (pairs-run_pairs pairs (later_worlds ws)
          (still (outcome (run_positive_flow base64) (next_world ws)) all_ok))

  -- `runMatrix` runs every pair of the five SDKs once, and reports success exactly if every pair and
  -- every negative scenario has passed.
  pub run_matrix_lem :
      (ws vs : List (Option World))
      → let r = run_matrix ws vs in
        (map (λ x. (x.first, x.second)) r.0 ≡ sdk_pairs sdk_names)
        × ((r.2 ≡ true) ↔ (All (λ x. x.error ≡ none) r.0 × All (λ x. x.error ≡ none) r.1))
  unfolding run_matrix
  run_matrix_lem ws vs =
      let p = run_pairs (sdk_pairs sdk_names) ws true in
      let pairs = run_pairs-verdict (sdk_pairs sdk_names) ws true in
      let negatives = run_negatives-verdict (negative_runs sdk_names) vs p.1 in
      (
        pairs-run_pairs (sdk_pairs sdk_names) ws true,
        (
          λ h. let n = negatives.0 h in ((pairs.0 n.0).1, n.1),
          λ h. negatives.1 (pairs.1 (refl, h.0), h.1),
        ),
      )
