-- ===== src/Guard/Run.antt =====
-- Runs of src/browser_guard.c: a start, turns of the main loop, and what other programs do between them.
use browser_guard.Prelude.{ℕ, ◌≡◌, subst, Bool, none, some, List, [], arith, Text}
use browser_guard.Windows.{Files, Processes, Desktop}
use browser_guard.Windows.Laws.{FileLaws, ProcessLaws, ProcessRanges, Quiet}
use browser_guard.Config.{AppConfig}
use browser_guard.ProcessControl.{BrowserGroup}
use browser_guard.Journal.{BgRecoveryJournal, recovery_journal_init}
use browser_guard.Journal.Entries.{find_record, IsSound}
use browser_guard.Journal.Durable
use browser_guard.Guard.{TrackedProcess, Env}
use browser_guard.Guard.Tracked.{is_pid_suspended}
use browser_guard.Guard.Pass.{run_pass, resume_all_tracked}
use browser_guard.Guard.Holds.{recorded, IsGood}
use browser_guard.Guard.Covered.{Covered}
use browser_guard.Guard.Release.{FailsOnlyIfGone}
use browser_guard.Guard.Sweep.{resume_all_tracked-Covered}
use browser_guard.Guard.Crash.{SmallGroups, run_pass-Covered}

module _ {P F D : Type 0} ⦃ps : Processes P⦄ ⦃fs : Files F⦄ ⦃ds : Desktop D⦄
    (process_laws : ProcessLaws ps) (config : AppConfig) where
  open process_laws use {suspensions, resumes}

  -- The states that the program can reach, with its tracked processes.
  pub data Reachable : List TrackedProcess → Env P F D → Type 0 where
    -- Without a journal: suspension is switched off.
    start_without :
        (p : P) (f : F) (d : D)
        → ((pid : ℕ) → suspensions p pid ≡ 0)
        → Reachable [] (record { journal = none; processes = p; files = f; desktop = d })
    -- With the journal that `bg_recovery_journal_init` made.
    start_with :
        (path : Text) (j : BgRecoveryJournal) (p : P) (f : F) (d : D)
        → ((pid : ℕ) → suspensions p pid ≡ 0)
        → (recovery_journal_init path f).0 ≡ some j
        → Reachable [] (record {
          journal = some j;
          processes = p;
          files = (recovery_journal_init path f).1;
          desktop = d;
        })
    -- A turn of the main loop, at any tick, with any groups.
    turn :
        (tracked : List TrackedProcess) (env : Env P F D) (requested : Bool)
        (groups : List BrowserGroup) (now_tick : ℕ)
        → SmallGroups groups
        → Reachable tracked env
        → Reachable
            (run_pass requested groups config now_tick tracked env).0
            (run_pass requested groups config now_tick tracked env).1
    -- Processes come, go and run, and windows change, between the turns.
    outside :
        (tracked : List TrackedProcess) (env : Env P F D) (p : P) (d : D)
        → Quiet suspensions resumes env.processes p
        → Reachable tracked env
        → Reachable tracked (record env { processes = p; desktop = d })
    -- The end of `run_browser_guard`.
    finish :
        (tracked : List TrackedProcess) (env : Env P F D)
        → Reachable tracked env
        → Reachable
            (resume_all_tracked config tracked env).0
            (resume_all_tracked config tracked env).1

module _ {F : Type 0} ⦃fs : Files F⦄ (file_laws : FileLaws fs) where
  pub new_journal :
      (path : Text) (f : F) (j : BgRecoveryJournal)
      → (recovery_journal_init path f).0 ≡ some j
      → record { path = path; records = [] } ≡ j
  unfolding recovery_journal_init
  new_journal path f j e = ground arith

  pub empty_journal-IsDurable :
      (path : Text) (f : F)
      → let j : BgRecoveryJournal = record { path = path; records = [] } in
        IsSound j × Durable.IsDurable file_laws j f
  unfolding find_record
  empty_journal-IsDurable path f = (
    record { distinct = tt; bounded = omega arith; well_formed = tt },
    record { at = λ pid r h. cc },
  )

module _ {P F D : Type 0} ⦃ps : Processes P⦄ ⦃fs : Files F⦄ ⦃ds : Desktop D⦄
    (process_laws : ProcessLaws ps) (file_laws : FileLaws fs) (ranges : ProcessRanges ps)
    (config : AppConfig) (ends : FailsOnlyIfGone process_laws config) where
  open process_laws use {suspensions}

  pub empty-Covered :
      (env : Env P F D)
      → ((pid : ℕ) → suspensions env.processes pid ≡ 0)
      → IsGood process_laws file_laws env
      → Covered process_laws file_laws [] env
  unfolding is_pid_suspended
  empty-Covered env runs good = record {
    covered = record { count = λ q. omega (arith, runs q); in_journal = λ q e. cc; good = good };
    distinct = tt;
    small = tt;
  }

  pub other_programs :
      (tracked : List TrackedProcess) (env : Env P F D) (p : P) (d : D)
      → Quiet suspensions process_laws.resumes env.processes p
      → Covered process_laws file_laws tracked env
      → Covered process_laws file_laws tracked (record env { processes = p; desktop = d })
  unfolding recorded IsGood
  other_programs tracked env p d quiet c = record {
    covered = record {
      count = λ q. omega (arith, c.covered.count q, quiet.no_more q);
      in_journal = c.covered.in_journal;
      good = c.covered.good;
    };
    distinct = c.distinct;
    small = c.small;
  }

  -- In every state that the program can reach, at whatever ticks, with whatever groups, calls that fail
  -- and other programs, every process that stands suspended is known, stands suspended once, and has
  -- a record on disk. Nothing stands suspended at the start, only this program suspends, and a
  -- process that cannot be resumed has ended; ids are DWORDs, and query results fit their C types.
  pub Reachable-Covered :
      (tracked : List TrackedProcess) (env : Env P F D)
      → Reachable process_laws config tracked env
      → Covered process_laws file_laws tracked env
  unfolding IsGood
  Reachable-Covered _ _ (start_without p f d runs) = empty-Covered _ runs tt
  Reachable-Covered _ _ (start_with path j p f d runs made) =
      let f1 = (recovery_journal_init path f).1 in
      empty-Covered _ runs (
        subst (λ x. IsSound x × Durable.IsDurable file_laws x f1)
          (new_journal file_laws path f j made) (empty_journal-IsDurable file_laws path f1))
  Reachable-Covered _ _ (turn tracked env requested groups now_tick small before) =
      run_pass-Covered process_laws file_laws ranges config now_tick requested groups tracked env
        ends small (Reachable-Covered tracked env before)
  Reachable-Covered _ _ (outside tracked env p d quiet before) =
      other_programs tracked env p d quiet (Reachable-Covered tracked env before)
  Reachable-Covered _ _ (finish tracked env before) =
      resume_all_tracked-Covered process_laws file_laws config tracked env
        (Reachable-Covered tracked env before)
