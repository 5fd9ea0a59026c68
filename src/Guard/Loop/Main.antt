-- ===== src/Guard/Loop/Main.antt =====
-- `run_browser_guard` of src/browser_guard.c: the start, the main loop and the end.
pub mod Collected
pub mod Turns
pub mod Runs
pub mod Stops
use browser_guard.Prelude.{
  ℕ, ◌+◌, Bool, true, false, not, ◌&&◌, ◌||◌, Option, none, some, List, [], ◌∷◌, ◌==◌, ltb,
  if◌then◌else◌, Text, codes, poll,
}
use browser_guard.Windows.{Files, Processes, Desktop}
use browser_guard.Windows.Session.{Session}
use browser_guard.Windows.Input.{Input}
use browser_guard.Config.{AppConfig}
use browser_guard.Journal.Layout.{max_path}
use browser_guard.Journal.{BgRecoveryJournal, recovery_journal_init}
use browser_guard.Broker.{recover_journal_file}
use browser_guard.Broker.Start.{start_recovery_broker}
use browser_guard.Protocol.{create_shutdown_event}
use browser_guard.ProcessControl.{BrowserGroup}
use browser_guard.ProcessControl.Groups.{
  SecurityContext, init_security_context, collect_browser_groups, max_browser_groups,
  mark_audio_groups,
}
use browser_guard.ProcessControl.Marks.{mark_foreground_groups}
use browser_guard.ProcessControl.Memory.{snapshot_memory_totals}
use browser_guard.Guard.{TrackedProcess, Env}
use browser_guard.Guard.Tracked.{count_suspended_processes, choose_overlay_target_window}
use browser_guard.Guard.Pass.{
  resume_requested, resume_all_tracked, ensure_groups, cleanup_tracked_processes,
}
use browser_guard.Guard.Paths.{build_sibling_path}
use browser_guard.Guard.Loop.{
  Globals, initial_globals, read_should_stop, create_overlay_window, destroy_overlay_window,
}
use browser_guard.Guard.Loop.Opening.{open_journal}
use browser_guard.Guard.Loop.Overlay.{OverlayState, update_overlay_window}
use browser_guard.Guard.Loop.Pump.{PumpState, pump_ui_messages}

-- SW_SHOWMAXIMIZED and SW_RESTORE
abbrev pub sw_showmaximized : ℕ
sw_showmaximized = 3

abbrev pub sw_restore : ℕ
sw_restore = 9

-- What the main loop works on.
pub record GuardState (P F D : Type 0) : Type 0 where
  pub tracked : List TrackedProcess
  pub env : Env P F D
  pub globals : Globals

module _ {D : Type 0} ⦃ds : Desktop D⦄ ⦃is : Input D⦄ where
  -- The window that was clicked is restored and brought to the front.
  unfoldable pub restore_target : Globals → D → Globals × D
  restore_target g d =
      let target = g.resume_target_window in
      let (iconic, d1) = ds.is_iconic target d in
      let d2 =
        if iconic
        then is.show_window target
            (if g.resume_target_was_maximized then sw_showmaximized else sw_restore) d1
        else d1 in
      if target == 0 then (record g { resume_requested = false }, d) else (
        record g {
          resume_target_window = 0;
          resume_target_was_maximized = false;
          resume_requested = false;
        },
        is.set_foreground_window target d2,
      )

module _ {P F D : Type 0} ⦃ps : Processes P⦄ ⦃fs : Files F⦄ ⦃ds : Desktop D⦄ ⦃is : Input D⦄ where
  unfoldable pub serve_request : AppConfig → ℕ → GuardState P F D → GuardState P F D
  serve_request config now_tick s =
      let (tracked1, env1) = resume_requested config now_tick s.tracked s.env in
      let (globals1, d1) = restore_target s.globals env1.desktop in
      if s.globals.resume_requested
      then record { tracked = tracked1; env = record env1 { desktop = d1 }; globals = globals1 }
      else s

module _ {P D : Type 0} ⦃ps : Processes P⦄ ⦃ss : Session P⦄ ⦃ds : Desktop D⦄ ⦃is : Input D⦄ where
  -- The groups with their marks.
  unfoldable pub collect_groups : SecurityContext → P → D → List BrowserGroup × P × D
  collect_groups context p d =
      let (snapshot, p1) = ss.snapshot p in
      let (groups, p2) = collect_browser_groups context max_browser_groups snapshot p1 in
      let (marked, p3, d1) = mark_foreground_groups groups p2 d in
      let (audio_pids, d2) = is.active_audio_pids d1 in
      (mark_audio_groups audio_pids marked, p3, d2)

module _ {P F D : Type 0} ⦃ps : Processes P⦄ ⦃ss : Session P⦄ ⦃fs : Files F⦄ ⦃ds : Desktop D⦄
    ⦃is : Input D⦄ where
  -- The overlay shows where something is suspended; then comes the pump.
  unfoldable pub show_and_wait :
      AppConfig → SecurityContext → ℕ → List BrowserGroup → GuardState P F D → GuardState P F D
  show_and_wait config context shutdown_event groups s =
      let suspended_count = count_suspended_processes s.tracked in
      let target_window = choose_overlay_target_window groups s.tracked in
      let overlay : OverlayState = record {
        visible = ltb 0 suspended_count && not (target_window == 0);
        suspended_count = suspended_count;
        target_window = target_window;
      } in
      let (g1, d1) = update_overlay_window overlay s.globals s.env.desktop in
      let pumped =
        pump_ui_messages context s.tracked config.interval_ms shutdown_event g1 s.env.processes
          d1 in
      record s {
        globals = pumped.1.globals;
        env = record s.env { processes = pumped.1.processes; desktop = pumped.1.desktop };
      }

  -- From the collection of the groups to the clean-up.
  unfoldable pub update_tracked :
      AppConfig → SecurityContext → ℕ → GuardState P F D → List BrowserGroup × GuardState P F D
  update_tracked config context now_tick s =
      let (groups, p1, d1) = collect_groups context s.env.processes s.env.desktop in
      let (tracked1, env1) =
        ensure_groups groups config now_tick s.tracked
          (record s.env { processes = p1; desktop = d1 }) in
      let p2 =
        if config.verbose
        then (snapshot_memory_totals groups env1.processes).1
        else env1.processes in
      let (tracked2, env2) =
        cleanup_tracked_processes config tracked1 (record env1 { processes = p2 }) in
      (groups, record s { tracked = tracked2; env = env2 })

  -- A turn of the main loop, its test included.
  unfoldable pub main_turn :
      AppConfig → SecurityContext → ℕ → GuardState P F D → Option (Unit {0}) × GuardState P F D
  main_turn config context shutdown_event s =
      let (g, d) = read_should_stop s.globals s.env.desktop in
      let s1 : GuardState P F D = record s { globals = g; env = record s.env { desktop = d } } in
      let (now_tick, p) = ss.tick_count s1.env.processes in
      let s2 =
        serve_request config now_tick (record s1 { env = record s1.env { processes = p } }) in
      let (groups, s3) = update_tracked config context now_tick s2 in
      if g.should_stop
      then (some tt, s1)
      else (none, show_and_wait config context shutdown_event groups s3)

  -- Behind the loop.
  unfoldable pub end_guard : AppConfig → ℕ → GuardState P F D → GuardState P F D
  end_guard config shutdown_event s =
      let hidden : OverlayState = record {
        visible = false;
        suspended_count = 0;
        target_window = 0;
      } in
      let (g1, d1) = update_overlay_window hidden s.globals s.env.desktop in
      let (tracked1, env1) = resume_all_tracked config s.tracked (record s.env { desktop = d1 }) in
      let (g2, d2) = destroy_overlay_window g1 env1.desktop in
      record {
        tracked = tracked1;
        env = record env1 {
          processes = ss.close_event shutdown_event env1.processes;
          desktop = is.co_uninitialize d2;
        };
        globals = g2;
      }

  -- So many turns of the loop, and the end if it was reached. `none` is a guard that still runs.
  unfoldable pub run_loop :
      ℕ → AppConfig → SecurityContext → ℕ → GuardState P F D → Option ℕ × GuardState P F D
  run_loop turns config context shutdown_event s =
      let (over, s1) = poll turns (main_turn config context shutdown_event) s in
      elim over [ none ↦ (none, s1) | some _ ↦ (some 0, end_guard config shutdown_event s1) ]

  -- The start fails with exit code 1.
  unfoldable pub fail_start :
      Option BgRecoveryJournal → Globals → P → F → D → Option ℕ × GuardState P F D
  fail_start journal g p f d = (
    some 1,
    record {
      tracked = [];
      env = record { journal = journal; processes = p; files = f; desktop = d };
      globals = g;
    },
  )

  -- The overlay window, and the loop.
  unfoldable pub start_overlay :
      ℕ
      → AppConfig
      → SecurityContext
      → ℕ
      → Option BgRecoveryJournal
      → P
      → F
      → D
      → Option ℕ × GuardState P F D
  start_overlay turns config context shutdown_event journal p f d =
      let (created, g, d1) = create_overlay_window initial_globals d in
      let s : GuardState P F D = record {
        tracked = [];
        env = record { journal = journal; processes = p; files = f; desktop = d1 };
        globals = g;
      } in
      if created
      then run_loop turns config context shutdown_event s
      else fail_start journal g (ss.close_event shutdown_event p) f (is.co_uninitialize d1)

  -- COM and the console handler.
  unfoldable pub start_desktop :
      ℕ
      → AppConfig
      → SecurityContext
      → ℕ
      → Option BgRecoveryJournal
      → P
      → F
      → D
      → Option ℕ × GuardState P F D
  start_desktop turns config context shutdown_event journal p f d =
      let (initialized, d1) = is.co_initialize d in
      let (handled, d2) = is.set_console_handler d1 in
      let closed = ss.close_event shutdown_event p in
      if not initialized
      then fail_start journal initial_globals closed f d1
      else if not handled
      then fail_start journal initial_globals closed f (is.co_uninitialize d2)
      else start_overlay turns config context shutdown_event journal p f d2

  unfoldable pub run_browser_guard : ℕ → AppConfig → P → F → D → Option ℕ × GuardState P F D
  run_browser_guard turns config p f d =
      let (security, p1) = init_security_context p in
      elim security [
        | none ↦ fail_start none initial_globals p1 f d
        | some context ↦
            (let (event, p2) = create_shutdown_event p1 in
              elim event [
                | none ↦ fail_start none initial_globals p2 f d
                | some shutdown_event ↦
                    (let (journal, p3, f1) = open_journal p2 f in
                      start_desktop turns config context shutdown_event journal p3 f1 d)
              ])
      ]
