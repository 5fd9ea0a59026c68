-- ===== src/Guard/Loop/Main/Runs.antt =====
-- The invariant of `Guard.Covered` in every run of src/browser_guard.c.
use browser_guard.Prelude.{ℕ, ◌≡◌, refl, Option, none, some, [], on_if, on_option, arith, not}
use browser_guard.Windows.{Files, Processes, Desktop}
use browser_guard.Windows.Laws.{FileLaws, ProcessLaws, ProcessRanges}
use browser_guard.Windows.Kept.{Quiet-queries}
use browser_guard.Windows.Quiet.{Quiet-trans}
use browser_guard.Windows.Session.{Session}
use browser_guard.Windows.Session.Laws.{QuietSession}
use browser_guard.Windows.Input.{Input}
use browser_guard.Config.{AppConfig}
use browser_guard.ProcessControl.Groups.{SecurityContext, init_security_context}
use browser_guard.Guard.{Env}
use browser_guard.Guard.Covered.{Covered}
use browser_guard.Guard.Release.{FailsOnlyIfGone}
use browser_guard.Guard.Run.{empty-Covered}
use browser_guard.Guard.Holds.{IsGood}
use browser_guard.Journal.{BgRecoveryJournal}
use browser_guard.Journal.Entries.{IsSound}
use browser_guard.Journal.Durable
use browser_guard.Protocol.{create_shutdown_event}
use browser_guard.Protocol.Kept.{create_shutdown_event-Quiet}
use browser_guard.ProcessControl.Kept.{init_security_context-kept}
use browser_guard.Guard.Loop.Main.Turns.{run_loop-IsCovered, run_loop-none_left}
use browser_guard.Guard.Loop.Opening.{open_journal}
use browser_guard.Guard.Loop.Opening.Ready.{open_journal-IsReady}
use browser_guard.Guard.Loop.{Globals, initial_globals, create_overlay_window}
use browser_guard.Guard.Loop.Main.{
  GuardState, fail_start, start_overlay, start_desktop, run_browser_guard,
}

module _ {P F : Type 0} ⦃ps : Processes P⦄ ⦃fs : Files F⦄ (process_laws : ProcessLaws ps)
    (file_laws : FileLaws fs) where
  open process_laws use {suspensions}

  -- A state of the start: nothing stands suspended, and a journal is sound and on disk.
  record Starting (journal : Option BgRecoveryJournal) (p : P) (f : F) : Type 0 where
    pub runs : (q : ℕ) → suspensions p q ≡ 0
    pub good :
        (j : BgRecoveryJournal) → journal ≡ some j → IsSound j × Durable.IsDurable file_laws j f

module _ {P F : Type 0} ⦃ps : Processes P⦄ ⦃ss : Session P⦄ ⦃fs : Files F⦄
    (process_laws : ProcessLaws ps) (file_laws : FileLaws fs)
    (quiet : QuietSession process_laws ss) where
  closed-Starting :
      (event : ℕ) (journal : Option BgRecoveryJournal) (p : P) (f : F)
      → Starting process_laws file_laws journal p f
      → Starting process_laws file_laws journal (ss.close_event event p) f
  closed-Starting event journal p f st = record {
    runs = λ q. omega (arith, st.runs q, (quiet.close_quiet event p).no_more q);
    good = st.good;
  }

module _ {P F D : Type 0} ⦃ps : Processes P⦄ ⦃fs : Files F⦄ (process_laws : ProcessLaws ps)
    (file_laws : FileLaws fs) where
  IsGood-env :
      (journal : Option BgRecoveryJournal) (p : P) (f : F) (d : D)
      → ((j : BgRecoveryJournal) → journal ≡ some j → IsSound j × Durable.IsDurable file_laws j f)
      → IsGood process_laws file_laws
          (record { journal = journal; processes = p; files = f; desktop = d })
  unfolding IsGood
  IsGood-env none p f d good = tt
  IsGood-env (some j) p f d good = good j refl

module _ {P F D : Type 0} ⦃ps : Processes P⦄ ⦃fs : Files F⦄ (process_laws : ProcessLaws ps)
    (file_laws : FileLaws fs) where
  open process_laws use {suspensions}

  -- What a result of the program says: the guard that still runs, or its exit.
  record Ends (r : Option ℕ × GuardState P F D) : Type 0 where
    pub covered : Covered process_laws file_laws r.1.tracked r.1.env
    pub none_left : (code : ℕ) → r.0 ≡ some code → (q : ℕ) → suspensions r.1.env.processes q ≡ 0

module _ {P F D : Type 0} ⦃ps : Processes P⦄ ⦃ss : Session P⦄ ⦃fs : Files F⦄ ⦃ds : Desktop D⦄
    ⦃is : Input D⦄ (process_laws : ProcessLaws ps) (file_laws : FileLaws fs)
    (ranges : ProcessRanges ps) (quiet : QuietSession process_laws ss) (config : AppConfig)
    (ends : FailsOnlyIfGone process_laws config) where
  open process_laws use {suspensions}

  abbrev Good : Option ℕ × GuardState P F D → Type 0
  Good r = Ends process_laws file_laws r

  fail_start-Ends :
      (journal : Option BgRecoveryJournal) (g : Globals) (p : P) (f : F) (d : D)
      → Starting process_laws file_laws journal p f
      → Good (fail_start journal g p f d)
  unfolding fail_start
  fail_start-Ends journal g p f d st = record {
    covered =
        empty-Covered process_laws file_laws ranges config ends
          (record { journal = journal; processes = p; files = f; desktop = d }) st.runs
          (IsGood-env process_laws file_laws journal p f d st.good);
    none_left = λ code e q. st.runs q;
  }

  start_overlay-Ends :
      (turns : ℕ) (context : SecurityContext) (event : ℕ) (journal : Option BgRecoveryJournal)
      (p : P) (f : F) (d : D)
      → Starting process_laws file_laws journal p f
      → Good (start_overlay turns config context event journal p f d)
  unfolding start_overlay
  start_overlay-Ends turns context event journal p f d st =
      let (created, g, d1) = create_overlay_window initial_globals d in
      let env : Env P F D = record { journal = journal; processes = p; files = f; desktop = d1 } in
      let s : GuardState P F D = record { tracked = []; env = env; globals = g } in
      let begun =
        empty-Covered process_laws file_laws ranges config ends env st.runs
          (IsGood-env process_laws file_laws journal p f d1 st.good) in
      on_if Good created _ _
        (λ _. record {
          covered =
              run_loop-IsCovered process_laws file_laws ranges quiet config ends turns context event
                s begun;
          none_left =
              run_loop-none_left process_laws file_laws ranges quiet config ends turns context event
                s begun;
        })
        (λ _.
          fail_start-Ends journal g (ss.close_event event p) f (is.co_uninitialize d1)
            (closed-Starting process_laws file_laws quiet event journal p f st))

  start_desktop-Ends :
      (turns : ℕ) (context : SecurityContext) (event : ℕ) (journal : Option BgRecoveryJournal)
      (p : P) (f : F) (d : D)
      → Starting process_laws file_laws journal p f
      → Good (start_desktop turns config context event journal p f d)
  unfolding start_desktop
  start_desktop-Ends turns context event journal p f d st =
      let (initialized, d1) = is.co_initialize d in
      let (handled, d2) = is.set_console_handler d1 in
      let shut = closed-Starting process_laws file_laws quiet event journal p f st in
      on_if Good (not initialized) _ _
        (λ _. fail_start-Ends journal initial_globals (ss.close_event event p) f d1 shut)
        (λ _.
          on_if Good (not handled) _ _
            (λ _.
              fail_start-Ends journal initial_globals (ss.close_event event p) f
                (is.co_uninitialize d2) shut)
            (λ _. start_overlay-Ends turns context event journal p f d2 st))

  run_browser_guard-Ends :
      (turns : ℕ) (p : P) (f : F) (d : D)
      → ((pid : ℕ) → suspensions p pid ≡ 0)
      → Good (run_browser_guard turns config p f d)
  unfolding run_browser_guard
  run_browser_guard-Ends turns p f d runs =
      let (security, p1) = init_security_context p in
      let first = init_security_context-kept (Quiet-queries process_laws) p in
      let (event, p2) = create_shutdown_event p1 in
      let second = Quiet-trans first (create_shutdown_event-Quiet process_laws quiet p1) in
      let opened = open_journal-IsReady process_laws quiet file_laws p2 f in
      on_option Good security _ _
        (λ _.
          fail_start-Ends none initial_globals p1 f d
            (record { runs = λ q. omega (arith, runs q, first.no_more q); good = λ j e. cc }))
        (λ context _.
          on_option Good event _ _
            (λ _.
              fail_start-Ends none initial_globals p2 f d
                (record { runs = λ q. omega (arith, runs q, second.no_more q); good = λ j e. cc }))
            (λ shutdown_event _.
              start_desktop-Ends turns context shutdown_event (open_journal p2 f).0
                (open_journal p2 f).1 (open_journal p2 f).2 d
                (record {
                  runs = λ q. omega (arith, runs q, second.no_more q, opened.fewer q);
                  good = opened.good;
                })))

  -- The whole program from its first call on, after any number of turns of its main loop and at its
  -- exit, whatever fails at its start: every process that stands suspended is known, stands suspended
  -- once, and has a record on disk. No process stands suspended before it starts, only this program
  -- suspends, and a process that cannot be resumed has ended; ids are DWORDs, and query results fit
  -- their C types.
  pub run_browser_guard-Covered :
      (turns : ℕ) (p : P) (f : F) (d : D)
      → ((pid : ℕ) → suspensions p pid ≡ 0)
      → let r = run_browser_guard turns config p f d in
        Covered process_laws file_laws r.1.tracked r.1.env
  run_browser_guard-Covered turns p f d runs = (run_browser_guard-Ends turns p f d runs).covered

  -- Whenever the program exits, after any number of turns or because its start failed, no process stands
  -- suspended. No process stands suspended before it starts, only this program suspends, and a
  -- process that cannot be resumed has ended; ids are DWORDs, and query results fit their C types.
  pub run_browser_guard-none_left :
      (turns : ℕ) (p : P) (f : F) (d : D) (code : ℕ)
      → ((pid : ℕ) → suspensions p pid ≡ 0)
      → (run_browser_guard turns config p f d).0 ≡ some code
      → (pid : ℕ) → suspensions (run_browser_guard turns config p f d).1.env.processes pid ≡ 0
  run_browser_guard-none_left turns p f d code runs =
      (run_browser_guard-Ends turns p f d runs).none_left code
