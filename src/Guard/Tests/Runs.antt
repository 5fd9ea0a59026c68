-- ===== src/Guard/Tests/Runs.antt =====
-- A run on the machine of `Machine`, with and without a journal.
use browser_guard.Prelude.{none, sub32, size_add, ◌≡◌, refl, some, [], ◌∷◌, add32}
use mathlib.Core.Bool.{xor}
use browser_guard.Machine.Disk.{Disk, disk_files, disk_laws}
use browser_guard.Machine.Kernel.{
  quiet_kernel, Kernel, kernel_processes, kernel_laws, kernel_ranges, kernel_suspensions,
}
use browser_guard.Machine.Screen.{Screen, screen_desktop}
use browser_guard.Config.{init_app_config}
use browser_guard.Journal.Tests.{empty_journal, blank}
use browser_guard.Guard.{window_restores_to_maximized, Env, tick_deadline_reached}
use browser_guard.Guard.Entry.{
  new_entry, ensure_entry, touch_entry, group_is_active, should_suspend, policy_input,
  update_background_mode, should_use_background_mode, suspend_entry, register_in, resume_entry,
  maintain_entry, trim_is_due, run_suspend_heartbeat,
}
use browser_guard.Policy.{evaluate_suspend_policy, browser_windows_are_minimized_only}
use browser_guard.Guard.Tracked.{put_tracked, find_tracked_process}
use browser_guard.Guard.Pass.{ensure_pids, ensure_pid, ensure_group_state}
use browser_guard.Guard.Covered.{Covered}
use browser_guard.Guard.Run.{Reachable, start_with, start_without, Reachable-Covered}
use browser_guard.Journal.{recovery_journal_init}
use browser_guard.Guard.Tests.{family, never_fails}

-- A start with an empty journal, and a turn that finds the family minimized.
abbrev started : Env Kernel Disk Screen
started = record {
  journal = some empty_journal;
  processes = quiet_kernel;
  files = (recovery_journal_init empty_journal.path blank).1;
  desktop = record { windows = 77 ∷ []; owner = 5 };
}

journal_made : (recovery_journal_init empty_journal.path blank).0 ≡ some empty_journal
unfolding recovery_journal_init
journal_made = refl

started-Reachable : Reachable kernel_laws init_app_config [] started
started-Reachable =
    start_with empty_journal.path empty_journal quiet_kernel blank started.desktop
      (λ pid. kernel_suspensions quiet_kernel pid) journal_made

abbrev unprotected : Env Kernel Disk Screen
unprotected = record started { journal = none }

unprotected-Covered : Covered kernel_laws disk_laws [] unprotected
unprotected-Covered =
    Reachable-Covered kernel_laws disk_laws kernel_ranges init_app_config never_fails [] unprotected
      (start_without quiet_kernel started.files started.desktop
        (λ pid. kernel_suspensions quiet_kernel pid))

still_none : (ensure_group_state family init_app_config 70000 [] unprotected).1.journal ≡ none
unfolding ensure_group_state ensure_pids ensure_pid find_tracked_process new_entry ensure_entry
    touch_entry group_is_active window_restores_to_maximized screen_desktop should_suspend
    policy_input tick_deadline_reached evaluate_suspend_policy update_background_mode
    should_use_background_mode browser_windows_are_minimized_only suspend_entry register_in
    resume_entry maintain_entry trim_is_due run_suspend_heartbeat init_app_config put_tracked add32
    sub32 size_add xor
still_none = refl
