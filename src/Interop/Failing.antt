-- ===== src/Interop/Failing.antt =====
-- interop/harness/main.go: which step a run of the harness ends with.
use relayly.Base.{
  ◌≡◌, arith, ◌∙◌, refl, Bool, Option, none, some, List, [], ◌∷◌, string_eq, if◌then◌else◌,
}
use relayly.Interop.Launching.{
  Step, steps, build_go, build_rust, find_tsx, import_py, configure_cpp, build_cpp, make_db_dir,
  find_port, start_process, health, listen, pass_matrix, Resource, server_process, Action, waits,
  Trace, guard, deferring, with_health, start_server, prepare_sdks, run_matrix, run_prepared, run,
}

module _ (works : Step → Bool) where
  -- The steps of a run, until one fails.
  unfoldable pub first_failed : List Step → Option Step
  first_failed [] = none
  first_failed (s ∷ ss) = let rest = first_failed ss in if works s then rest else some s

  guard-ends :
      (s : Step) (ss : List Step) (rest : Trace)
      → rest.0 ≡ first_failed ss
      → (guard works s rest).0 ≡ first_failed (s ∷ ss)
  unfolding first_failed guard
  guard-ends s ss rest h = ground arith

  deferring-ends :
      (r : Resource) (last : List Action) (rest : Trace) → (deferring r last rest).0 ≡ rest.0
  unfolding deferring
  deferring-ends r last (e, actions) = refl

  with_health-ends :
      (ss : List Step) (rest : Trace)
      → rest.0 ≡ first_failed ss
      → (with_health works rest).0 ≡ first_failed (health ∷ ss)
  unfolding with_health first_failed
  with_health-ends ss rest h = ground (arith, deferring-ends server_process (waits ∷ []) rest)

  start_server-ends :
      (ss : List Step) (rest : Trace)
      → rest.0 ≡ first_failed ss
      → (start_server works rest).0 ≡ first_failed (find_port ∷ start_process ∷ health ∷ ss)
  unfolding start_server
  start_server-ends ss rest h = guard-ends _ _ _ (guard-ends _ _ _ (with_health-ends ss rest h))

  run_matrix-ends : (run_matrix works).0 ≡ first_failed (pass_matrix ∷ [])
  unfolding run_matrix first_failed
  run_matrix-ends = refl

  prepare_sdks-ends :
      (ss : List Step) (rest : Trace)
      → rest.0 ≡ first_failed ss
      → (prepare_sdks works rest).0
        ≡ first_failed
            (build_go ∷ build_rust ∷ find_tsx ∷ import_py ∷ configure_cpp ∷ build_cpp ∷ ss)
  unfolding prepare_sdks
  prepare_sdks-ends ss rest h = guard-ends _ _ _ (
      guard-ends _ _ _
        (guard-ends _ _ _ (guard-ends _ _ _ (guard-ends _ _ _ (guard-ends _ _ _ h)))))

  run_prepared-ends :
      (run_prepared works).0
      ≡ first_failed (
          build_go ∷ build_rust ∷ find_tsx ∷ import_py ∷ configure_cpp ∷ build_cpp ∷ make_db_dir
          ∷ find_port ∷ start_process ∷ health ∷ listen ∷ pass_matrix ∷ [])
  unfolding run_prepared
  run_prepared-ends = prepare_sdks-ends _ _ (
      guard-ends _ _ _
        (start_server-ends _ _ (guard-ends _ _ _ (deferring-ends _ _ _ ∙ run_matrix-ends))))

  -- The run ends with the first step that does not work, and well if all do.
  pub run-ends : (run works).0 ≡ first_failed steps
  unfolding run
  run-ends = guard-ends _ _ _ (
      guard-ends _ _ _ (
        guard-ends _ _ _
          (deferring-ends _ _ _ ∙ guard-ends _ _ _ (guard-ends _ _ _ run_prepared-ends))))
