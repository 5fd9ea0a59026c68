-- ===== src/Entry.antt =====
-- `run_entrypoint` of src/main.c: the command line and the guard. The usage text is not modelled.
mod Tests
use browser_guard.Prelude.{ℕ, ◌≡◌, Bool, Option, none, some, List, [], Text, if◌then◌else◌, on_if}
use browser_guard.Windows.{Files, Processes, Desktop}
use browser_guard.Windows.Laws.{FileLaws, ProcessLaws, ProcessRanges}
use browser_guard.Windows.Session.{Session}
use browser_guard.Windows.Session.Laws.{QuietSession}
use browser_guard.Windows.Input.{Input}
use browser_guard.Config.{AppConfig, init_app_config, parse_app_config}
use browser_guard.Guard.{Env}
use browser_guard.Guard.Release.{FailsOnlyIfGone}
use browser_guard.Guard.Loop.{initial_globals}
use browser_guard.Guard.Loop.Main.{GuardState, run_browser_guard}
use browser_guard.Guard.Loop.Main.Runs.{run_browser_guard-none_left}

module _ {P F D : Type 0} ⦃ps : Processes P⦄ ⦃ss : Session P⦄ ⦃fs : Files F⦄ ⦃ds : Desktop D⦄
    ⦃is : Input D⦄ where
  -- Exit code 1 before any other call.
  unfoldable pub exit_with_usage : P → F → D → Option ℕ × GuardState P F D
  exit_with_usage p f d = (
    some 1,
    record {
      tracked = [];
      env = record { journal = none; processes = p; files = f; desktop = d };
      globals = initial_globals;
    },
  )

  -- So many turns of the guard's loop, on these arguments.
  unfoldable pub run_entrypoint : ℕ → List Text → P → F → D → Option ℕ × GuardState P F D
  run_entrypoint turns argv p f d =
      let (parsed, config) = parse_app_config init_app_config argv in
      if parsed then run_browser_guard turns config p f d else exit_with_usage p f d

module _ {P F D : Type 0} ⦃ps : Processes P⦄ ⦃ss : Session P⦄ ⦃fs : Files F⦄ ⦃ds : Desktop D⦄
    ⦃is : Input D⦄ (process_laws : ProcessLaws ps) (file_laws : FileLaws fs)
    (ranges : ProcessRanges ps) (quiet : QuietSession process_laws ss)
    (ends : (config : AppConfig) → FailsOnlyIfGone process_laws config) where
  open process_laws use {suspensions}

  -- Whatever the command line, and whenever the program exits, no process stands suspended. No process
  -- stands suspended before it starts, only this program suspends, and a process that cannot be resumed has
  -- ended; ids are DWORDs, and query results fit their C types.
  pub run_entrypoint-none_left :
      (turns : ℕ) (argv : List Text) (p : P) (f : F) (d : D) (code : ℕ)
      → ((pid : ℕ) → suspensions p pid ≡ 0)
      → (run_entrypoint turns argv p f d).0 ≡ some code
      → (pid : ℕ) → suspensions (run_entrypoint turns argv p f d).1.env.processes pid ≡ 0
  unfolding run_entrypoint exit_with_usage
  run_entrypoint-none_left turns argv p f d code runs =
      let (parsed, config) = parse_app_config init_app_config argv in
      on_if
        (λ (r : Option ℕ × GuardState P F D).
          r.0 ≡ some code → (pid : ℕ) → suspensions r.1.env.processes pid ≡ 0)
        parsed _ _
        (λ _.
          run_browser_guard-none_left process_laws file_laws ranges quiet config (ends config) turns
            p f d code runs)
        (λ _ _. runs)
