-- ===== src/Interop/Tidying.antt =====
-- interop/harness/main.go: what the harness makes it gives back.
use relayly.Base.{
  ◌≡◌, refl, ◌∙◌, Bool, true, false, Option, none, some, List, [], ◌∷◌, ◌++◌, arith, Option-cases,
  inl, inr, if◌then◌else◌,
}
use relayly.Interop.Launching.{
  Step, Resource, temp_dir, server_process, proxy, Action, makes, gives_back, waits, runs_matrix,
  Trace, guard, deferring, with_health, start_server, prepare_sdks, run_matrix, run_prepared, run,
}

abbrev same : Resource → Resource → Bool
same temp_dir temp_dir = true
same server_process server_process = true
same proxy proxy = true
same r s = false

abbrev give_back : Resource → List Resource → Option (List Resource)
give_back r [] = none
give_back r (s ∷ held) = if same r s then some held else none

-- What is held after actions, the latest first; `none` if one gives back what is not the latest.
unfoldable pub holds : List Action → List Resource → Option (List Resource)
holds [] held = some held
holds (makes r ∷ actions) held = holds actions (r ∷ held)
holds (gives_back r ∷ actions) held = elim (give_back r held) [
  | none ↦ none
  | some rest ↦ holds actions rest
]
holds (waits ∷ actions) held = holds actions held
holds (runs_matrix ∷ actions) held = holds actions held

abbrev pub IsTidy : Trace → Type 0
IsTidy t = (held : List Resource) → holds t.1 held ≡ some held

holds-append :
    (first second : List Action) (held mid : List Resource)
    → holds first held ≡ some mid
    → holds (first ++ second) held ≡ holds second mid
unfolding holds
holds-append [] second held mid h = ground arith
holds-append (makes r ∷ first) second held mid h = holds-append first second (r ∷ held) mid h
holds-append (gives_back r ∷ first) second held mid h = elim (Option-cases (give_back r held)) [
  | inl e ↦ absurd (ground arith)
  | inr (rest, e) ↦ ground (arith, holds-append first second rest mid)
]
holds-append (waits ∷ first) second held mid h = holds-append first second held mid h
holds-append (runs_matrix ∷ first) second held mid h = holds-append first second held mid h

deferring-IsTidy :
    (r : Resource) (last : List Action) (rest : Trace)
    → IsTidy (none, last)
    → IsTidy rest
    → IsTidy (deferring r last rest)
unfolding deferring holds
deferring-IsTidy temp_dir last (e, first) done tidy held =
    holds-append first (gives_back temp_dir ∷ last) (temp_dir ∷ held) (temp_dir ∷ held)
      (tidy (temp_dir ∷ held))
    ∙ done held
deferring-IsTidy server_process last (e, first) done tidy held =
    holds-append first (gives_back server_process ∷ last) (server_process ∷ held)
      (server_process ∷ held) (tidy (server_process ∷ held))
    ∙ done held
deferring-IsTidy proxy last (e, first) done tidy held =
    holds-append first (gives_back proxy ∷ last) (proxy ∷ held) (proxy ∷ held) (tidy (proxy ∷ held))
    ∙ done held

module _ (works : Step → Bool) where
  guard-IsTidy : (s : Step) (rest : Trace) → IsTidy rest → IsTidy (guard works s rest)
  unfolding guard holds
  guard-IsTidy s rest tidy held = ground (arith, tidy held)

  with_health-IsTidy : (rest : Trace) → IsTidy rest → IsTidy (with_health works rest)
  unfolding with_health holds
  with_health-IsTidy rest tidy held =
      ground (arith, deferring-IsTidy server_process (waits ∷ []) rest (λ h. refl) tidy held)

  start_server-IsTidy : (rest : Trace) → IsTidy rest → IsTidy (start_server works rest)
  unfolding start_server
  start_server-IsTidy rest tidy = guard-IsTidy _ _ (guard-IsTidy _ _ (with_health-IsTidy rest tidy))

  prepare_sdks-IsTidy : (rest : Trace) → IsTidy rest → IsTidy (prepare_sdks works rest)
  unfolding prepare_sdks
  prepare_sdks-IsTidy rest tidy = guard-IsTidy _ _ (
      guard-IsTidy _ _
        (guard-IsTidy _ _ (guard-IsTidy _ _ (guard-IsTidy _ _ (guard-IsTidy _ _ tidy)))))

  run_prepared-IsTidy : IsTidy (run_prepared works)
  unfolding run_prepared run_matrix holds
  run_prepared-IsTidy = prepare_sdks-IsTidy _ (
      guard-IsTidy _ _
        (start_server-IsTidy _ (guard-IsTidy _ _ (deferring-IsTidy _ _ _ (λ h. refl) (λ h. refl)))))

  -- Wherever a run ends, what it has made, it has given back, the latest first: the proxy, the server's
  -- process and the directory.
  pub run-IsTidy : IsTidy (run works)
  unfolding run holds
  run-IsTidy = guard-IsTidy _ _ (
      guard-IsTidy _ _ (
        guard-IsTidy _ _ (
          deferring-IsTidy _ _ _ (λ h. refl)
            (guard-IsTidy _ _ (guard-IsTidy _ _ run_prepared-IsTidy)))))
