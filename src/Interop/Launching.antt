-- ===== src/Interop/Launching.antt =====
-- interop/harness/main.go, server.go and the preparation of the clients in matrix.go: what the
-- harness makes, starts, stops and removes, as the list of its actions, by which of its steps work.
use relayly.Base.{
  ℕ, ◌≡◌, All, refl, String, Bool, true, Option, none, some, List, [], ◌∷◌, ◌++◌, lookup, string_eq,
  if◌then◌else◌, is_some,
}
use relayly.Interop.Health.{healthy}
use relayly.Interop.Matrix.{sdk_names}

-- What the harness asks of its surroundings, in its order.
pub data Step : Type 0 where
  find_source find_root make_temp make_build_dir build_server : Step
  build_go build_rust find_tsx import_py configure_cpp build_cpp : Step
  make_db_dir find_port start_process health listen pass_matrix : Step

abbrev pub steps : List Step
steps =
    find_source ∷ find_root ∷ make_temp ∷ make_build_dir ∷ build_server ∷ build_go ∷ build_rust
    ∷ find_tsx ∷ import_py ∷ configure_cpp ∷ build_cpp ∷ make_db_dir ∷ find_port ∷ start_process
    ∷ health ∷ listen ∷ pass_matrix ∷ []

-- What is there to be given back: the temporary directory is removed, the process killed, and the
-- proxy closed.
pub data Resource : Type 0 where
  temp_dir server_process proxy : Resource

pub data Action : Type 0 where
  makes gives_back : Resource → Action
  -- `cmd.Wait`, and the scenarios
  waits runs_matrix : Action

-- The step that failed, if one did.
abbrev pub Trace : Type 0
Trace = Option Step × List Action

-- A client under test, as `prepareSDKs` leaves it.
pub record SdkDef : Type 0 where
  pub name : String
  pub command : String
  pub args : List String

abbrev def : String → String → List String → String × SdkDef
def name command args = (name, record { name = name; command = command; args = args })

-- The map that `prepareSDKs` returns, over `filepath.Join`, whose nested calls are written as one.
unfoldable pub sdk_defs : (List String → String) → String → String → List (String × SdkDef)
sdk_defs join root build_dir =
    let clients : List String → String = λ path. join (root ∷ "interop" ∷ "clients" ∷ path) in
    def "go" (join (build_dir ∷ "go-shim" ∷ [])) []
    ∷ def "rust" (clients ("rust" ∷ "target" ∷ "debug" ∷ "interop-shim-rust" ∷ [])) []
    ∷ def "ts" (clients ("ts" ∷ "node_modules" ∷ ".bin" ∷ "tsx" ∷ []))
        (clients ("ts" ∷ "shim.ts" ∷ []) ∷ [])
    ∷ def "py" "python3" (clients ("py" ∷ "shim.py" ∷ []) ∷ [])
    ∷ def "cpp" (join (build_dir ∷ "cpp-build" ∷ "relayly-interop-shim-cpp" ∷ [])) []
    ∷ []

-- Every client that `runMatrix` looks up is there.
pub sdk_defs-found :
    (join : List String → String) (root build_dir : String)
    → All (λ name. is_some (lookup name (sdk_defs join root build_dir)) ≡ true) sdk_names
unfolding sdk_defs lookup
sdk_defs-found join root build_dir = (refl, (refl, (refl, (refl, (refl, tt)))))

abbrev then_gives_back : Resource → List Action → Trace → Trace
then_gives_back r last (e, actions) = (e, makes r ∷ (actions ++ gives_back r ∷ last))

-- The rest of a function, between an acquisition and its `defer`.
unfoldable pub deferring : Resource → List Action → Trace → Trace
deferring r last rest = then_gives_back r last rest

module _ (works : Step → Bool) where
  unfoldable pub guard : Step → Trace → Trace
  guard s rest = if works s then rest else (some s, [])

  -- What follows with the deferred `Stop`, of a process that becomes healthy; another is killed.
  unfoldable pub with_health : Trace → Trace
  with_health rest =
      if works health
      then deferring server_process (waits ∷ []) rest
      else (some health, makes server_process ∷ gives_back server_process ∷ [])

  -- `startServer`, and what follows.
  unfoldable pub start_server : Trace → Trace
  start_server rest = guard find_port (guard start_process (with_health rest))

  -- `prepareSDKs`, and what follows.
  unfoldable pub prepare_sdks : Trace → Trace
  prepare_sdks rest = guard build_go (
      guard build_rust
        (guard find_tsx (guard import_py (guard configure_cpp (guard build_cpp rest)))))

  unfoldable pub run_matrix : Trace
  run_matrix = (if works pass_matrix then none else some pass_matrix, runs_matrix ∷ [])

  -- `run`, from the preparation of the clients on.
  unfoldable pub run_prepared : Trace
  run_prepared =
      prepare_sdks (guard make_db_dir (start_server (guard listen (deferring proxy [] run_matrix))))

  unfoldable pub run : Trace
  run = guard find_source (
      guard find_root (
        guard make_temp
          (deferring temp_dir [] (guard make_build_dir (guard build_server run_prepared)))))

-- The step at which the harness waits for the server is the loop of `waitForHealth`.
unfoldable pub with_answers : (ℕ → Option ℕ) → (ℕ → ℕ) → (Step → Bool) → Step → Bool
with_answers answers takes works health = healthy answers takes
with_answers answers takes works s = works s

unfoldable pub run_harness : (ℕ → Option ℕ) → (ℕ → ℕ) → (Step → Bool) → Trace
run_harness answers takes works = run (with_answers answers takes works)
