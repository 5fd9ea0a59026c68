-- ===== src/Guard/Loop/Tests.antt =====
-- The main loop of src/browser_guard.c on the machine of `Machine`.
use browser_guard.Prelude.{◌≡◌, refl, true, false, none, some, [], ◌∷◌, arith, codes, ◌<◌}
use browser_guard.Machine.Disk.{Disk, disk_files, disk_laws}
use browser_guard.Machine.Kernel.{
  quiet_kernel, Kernel, kernel_processes, kernel_laws, kernel_ranges, kernel_suspensions,
}
use browser_guard.Machine.Screen.{Screen, screen_desktop, screen_input}
use browser_guard.Machine.Station.{kernel_session, kernel_quiet}
use browser_guard.Config.{init_app_config}
use browser_guard.Journal.Tests.{blank}
use browser_guard.ProcessControl.Groups.{SecurityContext, init_security_context}
use browser_guard.Guard.{TrackedProcess}
use browser_guard.Guard.Tracked.{is_pid_suspended}
use browser_guard.Guard.Covered.{Covered}
use browser_guard.Guard.Paths.{build_sibling_path, path_beside, build_sibling_path-build_path}
use browser_guard.Guard.Tests.{never_fails}
use browser_guard.Guard.Loop.{initial_globals}
use browser_guard.Guard.Loop.Pump.{
  pump_ui_messages, clicked_suspended_browser_window, window_under_cursor, is_suspended_browser,
}
use browser_guard.Guard.Loop.Pump.Ends.{IsOver, pump_ui_messages-ends}
use browser_guard.Guard.Loop.Pump.Clicks.{
  IsSuspendedBrowser, clicked_suspended_browser_window-tells,
}
use browser_guard.Guard.Loop.Main.{run_browser_guard}
use browser_guard.Guard.Loop.Main.Runs.{run_browser_guard-Covered}
use browser_guard.ProcessControl.Marks.{
  is_manageable_browser_pid, query_process_base_name, base_name, behind_last_slash,
}
use browser_guard.ProcessControl.Groups.{
  is_manageable_browser_process, is_supported_browser_name, is_one_of, session_is, opened_is_ours,
  process_matches_current_user,
}
use browser_guard.Protocol.{
  create_shutdown_event, build_shutdown_event_name, build_event_security_attributes, describe_user,
  create_named_event, shutdown_event_name, event_sddl,
}
use browser_guard.Guard.Loop.{create_overlay_window}
use browser_guard.Guard.Loop.Main.{start_desktop, start_overlay, run_loop}
use browser_guard.Prelude.{printed, decimal, text_ieq}
use browser_guard.Identity.{equal_sid}
use browser_guard.Guard.Loop.Main.{GuardState}
use browser_guard.Guard.Loop.Main.Stops.{run_loop-stops}
use browser_guard.Control.{get_module_directory}

abbrev pub minimized : Screen
minimized = record { windows = 77 ∷ []; owner = 5 }

abbrev pub busy_kernel : Kernel
busy_kernel = record quiet_kernel { running = (5, codes "chrome.exe") ∷ [] }

abbrev our_context : SecurityContext
our_context = record { current_session_id = 1; current_user_sid = 1 ∷ 5 ∷ [] }

abbrev stopped_five : TrackedProcess
stopped_five = record {
  pid = 5;
  exe_name = codes "chrome.exe";
  last_known_window = 77;
  last_known_window_was_maximized = false;
  suspended = true;
  background_mode = false;
  suspend_disabled = false;
  seen_this_pass = false;
  last_trim_tick = 0;
  last_active_tick = 0;
  manual_resume_until_tick = 0;
  last_heartbeat_tick = 0;
}

build_sibling_path-build_path_example :
    (build_sibling_path (codes "a.exe") 260 quiet_kernel).0
    ≡ path_beside 260 (codes "a.exe") (get_module_directory 260 quiet_kernel).0
build_sibling_path-build_path_example =
    build_sibling_path-build_path (codes "a.exe") 260 quiet_kernel

pump_ui_messages-ends_example :
    let r =
      pump_ui_messages our_context
        (stopped_five ∷ [])
        1000
        4
        initial_globals
        quiet_kernel
        minimized in
    (r.0 ≡ some tt) × IsOver our_context (stopped_five ∷ []) 1000 tt r.1
pump_ui_messages-ends_example =
    pump_ui_messages-ends our_context (stopped_five ∷ []) 1000 4 initial_globals quiet_kernel
      minimized (omega arith)

clicked_five :
    (clicked_suspended_browser_window our_context
      (stopped_five ∷ [])
      initial_globals
      quiet_kernel
      minimized).0
    ≡ some 77
unfolding clicked_suspended_browser_window window_under_cursor is_suspended_browser is_pid_suspended
    screen_desktop screen_input is_manageable_browser_pid query_process_base_name base_name
    behind_last_slash is_manageable_browser_process is_supported_browser_name is_one_of text_ieq
    equal_sid session_is opened_is_ours process_matches_current_user kernel_processes
clicked_five = refl

clicked_suspended_browser_window-tells_example :
    IsSuspendedBrowser Kernel Screen our_context (stopped_five ∷ []) 0 77
    × (false ≡ false)
    × ((clicked_suspended_browser_window our_context
          (stopped_five ∷ [])
          initial_globals
          quiet_kernel
          minimized).1.previous_left_button
        ≡ true)
clicked_suspended_browser_window-tells_example =
    clicked_suspended_browser_window-tells our_context (stopped_five ∷ []) initial_globals
      quiet_kernel minimized 77 clicked_five

run_browser_guard-Covered_example :
    let r = run_browser_guard 3 init_app_config busy_kernel blank minimized in
    Covered kernel_laws disk_laws r.1.tracked r.1.env
run_browser_guard-Covered_example =
    run_browser_guard-Covered kernel_laws disk_laws kernel_ranges kernel_quiet init_app_config
      never_fails 3 busy_kernel blank minimized (λ pid. kernel_suspensions busy_kernel pid)

always_set : (p : Kernel) → (kernel_session.is_set 4 p).0 ≡ true
unfolding kernel_session
always_set p = refl

interval : 0 < init_app_config.interval_ms
unfolding init_app_config
interval = omega arith

pub stops : (run_browser_guard 2 init_app_config busy_kernel blank minimized).0 ≡ some 0
unfolding run_browser_guard init_security_context kernel_processes kernel_session
    create_shutdown_event build_shutdown_event_name build_event_security_attributes describe_user
    create_named_event shutdown_event_name event_sddl start_desktop start_overlay screen_input
    create_overlay_window printed decimal
stops = run_loop-stops init_app_config our_context 4 interval always_set 2 _ (omega arith)

abbrev waiting : GuardState Kernel Disk Screen
waiting = record {
  tracked = stopped_five ∷ [];
  env = record { journal = none; processes = busy_kernel; files = blank; desktop = minimized };
  globals = initial_globals;
}

run_loop-stops_example : (run_loop 2 init_app_config our_context 4 waiting).0 ≡ some 0
run_loop-stops_example =
    run_loop-stops init_app_config our_context 4 interval always_set 2 waiting (omega arith)
