-- ===== src/Interop/Tests.antt =====
-- The pairs of interop/harness/matrix.go, and runs of the harness.
use relayly.Base.{◌≡◌, refl, true, none, some, [], ◌∷◌, length, nat_eq, if◌then◌else◌, ltb}
use relayly.Interop.{sdk_pairs, fill_bytes, fill_bytes_from}
use relayly.Interop.Health.{healthy, wait_for_health}
use relayly.Interop.Launching.{
  health, temp_dir, server_process, proxy, makes, gives_back, waits, runs_matrix, guard, deferring,
  with_health, with_answers, run_harness, run, run_prepared, prepare_sdks, start_server, run_matrix,
}

-- The five SDKs make fifteen pairs.
all_pairs : length (sdk_pairs ("go" ∷ "ts" ∷ "py" ∷ "rust" ∷ "cpp" ∷ [])) ≡ 15
unfolding sdk_pairs
all_pairs = refl

three_bytes : fill_bytes 3 ≡ 0 ∷ 1 ∷ 2 ∷ []
unfolding fill_bytes fill_bytes_from
three_bytes = refl

-- A server that never answers is killed after ten seconds, and the directory is removed.
never_healthy : run_harness (λ t. none) (λ t. 0) (λ s. true) ≡ (
  some health,
  makes temp_dir ∷ makes server_process ∷ gives_back server_process ∷ gives_back temp_dir ∷ [],
)
unfolding run_harness with_answers healthy wait_for_health run run_prepared prepare_sdks
    start_server with_health guard deferring run_matrix
never_healthy = refl

-- One that answers after a second is run against.
all_pass : run_harness (λ t. if ltb t 1000 then none else some 200) (λ t. 7) (λ s. true) ≡ (
  none,
  makes temp_dir
      ∷ makes server_process
      ∷ makes proxy
      ∷ runs_matrix
      ∷ gives_back proxy
      ∷ gives_back server_process
      ∷ waits
      ∷ gives_back temp_dir
      ∷ [],
)
unfolding run_harness with_answers healthy wait_for_health run run_prepared prepare_sdks
    start_server with_health guard deferring run_matrix
all_pass = refl
