-- ===== src/Guard/Loop/Main/Turns.antt =====
-- The invariant of `Guard.Covered` through the turns of the main loop of src/browser_guard.c.
use browser_guard.Prelude.{
  ℕ, ◌≡◌, Option, some, List, false, if◌then◌else◌, on_if, on_option, arith, poll, poll_keeps, ltb,
  not, ◌&&◌, ◌==◌,
}
use browser_guard.Windows.{Files, Processes, Desktop}
use browser_guard.Windows.Laws.{FileLaws, ProcessLaws, ProcessRanges, Quiet}
use browser_guard.Windows.Kept.{Quiet-queries}
use browser_guard.Windows.Quiet.{Quiet-refl}
use browser_guard.Windows.Session.{Session}
use browser_guard.Windows.Session.Laws.{QuietSession}
use browser_guard.Windows.Input.{Input}
use browser_guard.Config.{AppConfig}
use browser_guard.ProcessControl.{BrowserGroup}
use browser_guard.ProcessControl.Groups.{SecurityContext}
use browser_guard.ProcessControl.Memory.{snapshot_memory_totals, snapshot_memory_totals-kept}
use browser_guard.Guard.{Env}
use browser_guard.Guard.Pass.{resume_requested, resume_all_tracked, ensure_groups}
use browser_guard.Guard.Covered.{Covered}
use browser_guard.Guard.Release.{FailsOnlyIfGone}
use browser_guard.Guard.Sweep.{resume_all_tracked-Covered}
use browser_guard.Guard.Sweep.Freed.{resume_all_tracked-none_left}
use browser_guard.Guard.Cleanup.{cleanup_tracked_processes-Covered}
use browser_guard.Guard.Crash.{resume_requested-Covered, ensure_groups-Covered}
use browser_guard.Guard.Run.{other_programs}
use browser_guard.Guard.Loop.{Globals, read_should_stop, destroy_overlay_window}
use browser_guard.Guard.Loop.Overlay.{OverlayState, update_overlay_window}
use browser_guard.Guard.Tracked.{count_suspended_processes, choose_overlay_target_window}
use browser_guard.Guard.Loop.Pump.{pump_ui_messages}
use browser_guard.Guard.Loop.Pump.Clicks.{pump_ui_messages-kept}
use browser_guard.Guard.Loop.Main.{
  GuardState, restore_target, serve_request, collect_groups, show_and_wait, update_tracked,
  main_turn, end_guard, run_loop,
}
use browser_guard.Guard.Loop.Main.Collected.{collect_groups-Quiet, collect_groups-SmallGroups}

module _ {P F D : Type 0} ⦃ps : Processes P⦄ ⦃ss : Session P⦄ ⦃fs : Files F⦄ ⦃ds : Desktop D⦄
    ⦃is : Input D⦄ (process_laws : ProcessLaws ps) (file_laws : FileLaws fs)
    (ranges : ProcessRanges ps) (quiet : QuietSession process_laws ss) (config : AppConfig)
    (ends : FailsOnlyIfGone process_laws config) where
  open process_laws use {suspensions, resumes}

  abbrev pub IsCovered : GuardState P F D → Type 0
  IsCovered s = Covered process_laws file_laws s.tracked s.env

  -- What happens outside of the tracked processes.
  elsewhere :
      (s : GuardState P F D) (p : P) (d : D) (g : Globals)
      → Quiet suspensions resumes s.env.processes p
      → IsCovered s
      → IsCovered (record s { env = record s.env { processes = p; desktop = d }; globals = g })
  elsewhere s p d g q c =
      other_programs process_laws file_laws ranges config ends s.tracked s.env p d q c

  serve_request-IsCovered :
      (now_tick : ℕ) (s : GuardState P F D)
      → IsCovered s
      → IsCovered (serve_request config now_tick s)
  unfolding serve_request
  serve_request-IsCovered now_tick s c =
      let (tracked1, env1) = resume_requested config now_tick s.tracked s.env in
      let (globals1, d1) = restore_target s.globals env1.desktop in
      on_if IsCovered s.globals.resume_requested _ _
        (λ _.
          other_programs process_laws file_laws ranges config ends tracked1 env1 env1.processes d1
            (Quiet-refl env1.processes)
            (resume_requested-Covered process_laws file_laws ranges config now_tick s.tracked s.env
              c))
        (λ _. c)

  update_tracked-IsCovered :
      (context : SecurityContext) (now_tick : ℕ) (s : GuardState P F D)
      → IsCovered s
      → IsCovered (update_tracked config context now_tick s).1
  unfolding update_tracked
  update_tracked-IsCovered context now_tick s c =
      let (groups, p1, d1) = collect_groups context s.env.processes s.env.desktop in
      let env0 : Env P F D = record s.env { processes = p1; desktop = d1 } in
      let (tracked1, env1) = ensure_groups groups config now_tick s.tracked env0 in
      let collected =
        elsewhere s p1 d1 s.globals
          (collect_groups-Quiet process_laws quiet context s.env.processes s.env.desktop) c in
      let ensured =
        ensure_groups-Covered process_laws file_laws ranges config now_tick groups s.tracked env0
          (collect_groups-SmallGroups process_laws quiet context s.env.processes s.env.desktop)
          collected in
      let p2 =
        if config.verbose
        then (snapshot_memory_totals groups env1.processes).1
        else env1.processes in
      let counted : Quiet suspensions resumes env1.processes p2 =
        on_if (λ (p : P). Quiet suspensions resumes env1.processes p) config.verbose _ _
          (λ _.
            snapshot_memory_totals-kept (Quiet-queries process_laws) quiet.memory_quiet groups
              env1.processes)
          (λ _. Quiet-refl env1.processes) in
      cleanup_tracked_processes-Covered process_laws file_laws config ends tracked1
        (record env1 { processes = p2 })
        (other_programs process_laws file_laws ranges config ends tracked1 env1 p2 env1.desktop
          counted ensured)

  show_and_wait-IsCovered :
      (context : SecurityContext) (event : ℕ) (groups : List BrowserGroup) (s : GuardState P F D)
      → IsCovered s
      → IsCovered (show_and_wait config context event groups s)
  unfolding show_and_wait
  show_and_wait-IsCovered context event groups s c =
      let suspended_count = count_suspended_processes s.tracked in
      let target_window = choose_overlay_target_window groups s.tracked in
      let overlay : OverlayState = record {
        visible = ltb 0 suspended_count && not (target_window == 0);
        suspended_count = suspended_count;
        target_window = target_window;
      } in
      let (g1, d1) = update_overlay_window overlay s.globals s.env.desktop in
      let pumped =
        pump_ui_messages context s.tracked config.interval_ms event g1 s.env.processes d1 in
      elsewhere s pumped.1.processes pumped.1.desktop pumped.1.globals
        (pump_ui_messages-kept (Quiet-queries process_laws) process_laws.sleep_quiet quiet.set_quiet
          context s.tracked config.interval_ms event g1 s.env.processes d1)
        c

  main_turn-IsCovered :
      (context : SecurityContext) (event : ℕ) (s : GuardState P F D)
      → IsCovered s
      → IsCovered (main_turn config context event s).1
  unfolding main_turn
  main_turn-IsCovered context event s c =
      let (g, d) = read_should_stop s.globals s.env.desktop in
      let s1 : GuardState P F D = record s { globals = g; env = record s.env { desktop = d } } in
      let (now_tick, p) = ss.tick_count s1.env.processes in
      let s1' : GuardState P F D = record s1 { env = record s1.env { processes = p } } in
      let s2 = serve_request config now_tick s1' in
      let (groups, s3) = update_tracked config context now_tick s2 in
      let stopped : IsCovered s1 = elsewhere s s.env.processes d g (Quiet-refl s.env.processes) c in
      let timed : IsCovered s1' =
        elsewhere s1 p s1.env.desktop s1.globals (quiet.tick_quiet s1.env.processes) stopped in
      on_if (λ (r : Option (Unit {0}) × GuardState P F D). IsCovered r.1) g.should_stop _ _
        (λ _. stopped)
        (λ _. show_and_wait-IsCovered context event groups s3 (
          update_tracked-IsCovered context now_tick s2
            (serve_request-IsCovered now_tick s1' timed)))

  end_guard-IsCovered :
      (event : ℕ) (s : GuardState P F D) → IsCovered s → IsCovered (end_guard config event s)
  unfolding end_guard
  end_guard-IsCovered event s c =
      let hidden : OverlayState = record {
        visible = false;
        suspended_count = 0;
        target_window = 0;
      } in
      let (g1, d1) = update_overlay_window hidden s.globals s.env.desktop in
      let env0 : Env P F D = record s.env { desktop = d1 } in
      let (tracked1, env1) = resume_all_tracked config s.tracked env0 in
      let (g2, d2) = destroy_overlay_window g1 env1.desktop in
      other_programs process_laws file_laws ranges config ends tracked1 env1
        (ss.close_event event env1.processes) (is.co_uninitialize d2)
        (quiet.close_quiet event env1.processes)
        (resume_all_tracked-Covered process_laws file_laws config s.tracked env0
          (elsewhere s s.env.processes d1 s.globals (Quiet-refl s.env.processes) c))

  end_guard-none_left :
      (event : ℕ) (s : GuardState P F D)
      → IsCovered s
      → (q : ℕ) → suspensions (end_guard config event s).env.processes q ≡ 0
  unfolding end_guard
  end_guard-none_left event s c q =
      let hidden : OverlayState = record {
        visible = false;
        suspended_count = 0;
        target_window = 0;
      } in
      let (g1, d1) = update_overlay_window hidden s.globals s.env.desktop in
      let env0 : Env P F D = record s.env { desktop = d1 } in
      let env1 = (resume_all_tracked config s.tracked env0).1 in
      omega (
        arith,
        (quiet.close_quiet event env1.processes).no_more q,
        resume_all_tracked-none_left process_laws file_laws config ends s.tracked env0
            (elsewhere s s.env.processes d1 s.globals (Quiet-refl s.env.processes) c) q,
      )

  turns-IsCovered :
      (turns : ℕ) (context : SecurityContext) (event : ℕ) (s : GuardState P F D)
      → IsCovered s
      → IsCovered (poll turns (main_turn config context event) s).1
  turns-IsCovered turns context event s c =
      poll_keeps (λ (s t : GuardState P F D). IsCovered s → IsCovered t)
        (main_turn config context event) (λ s c. c) (λ s t u q r c. r (q c))
        (main_turn-IsCovered context event) turns s c

  pub run_loop-IsCovered :
      (turns : ℕ) (context : SecurityContext) (event : ℕ) (s : GuardState P F D)
      → IsCovered s
      → IsCovered (run_loop turns config context event s).1
  unfolding run_loop
  run_loop-IsCovered turns context event s c =
      let (over, s1) = poll turns (main_turn config context event) s in
      let kept = turns-IsCovered turns context event s c in
      on_option (λ (r : Option ℕ × GuardState P F D). IsCovered r.1) over _ _ (λ _. kept)
        (λ _ _. end_guard-IsCovered event s1 kept)

  pub run_loop-none_left :
      (turns : ℕ) (context : SecurityContext) (event : ℕ) (s : GuardState P F D)
      → IsCovered s
      → (code : ℕ) → (run_loop turns config context event s).0 ≡ some code
      → (q : ℕ) → suspensions (run_loop turns config context event s).1.env.processes q ≡ 0
  unfolding run_loop
  run_loop-none_left turns context event s c code =
      let (over, s1) = poll turns (main_turn config context event) s in
      on_option
        (λ (r : Option ℕ × GuardState P F D).
          r.0 ≡ some code → (q : ℕ) → suspensions r.1.env.processes q ≡ 0)
        over _ _ (λ _ e. cc)
        (λ _ _ _. end_guard-none_left event s1 (turns-IsCovered turns context event s c))
