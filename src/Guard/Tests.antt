-- ===== src/Guard/Tests.antt =====
-- Passes on the machine of `Machine`, and the theorems on them at concrete inputs.
mod Runs
use browser_guard.Prelude.{
  none, sub32, size_add, ℕ, ◌≡◌, ◌≢◌, refl, true, false, some, [], ◌∷◌, arith, codes, leb, add32,
}
use mathlib.Core.Bool.{xor}
use browser_guard.Machine.Disk.{Disk, disk_files, disk_laws}
use browser_guard.Machine.Kernel.{
  quiet_kernel, Kernel, kernel_processes, kernel_laws, kernel_identity, kernel_ranges,
  kernel-Answers, kernel_suspensions,
}
use browser_guard.Machine.Screen.{Screen, screen_desktop}
use browser_guard.Config.{AppConfig, init_app_config}
use browser_guard.ProcessControl.{BrowserGroup}
use browser_guard.ProcessControl.Suspend.{
  set_process_suspended, set_opened_suspended, invoke_suspend_or_resume, find_procedures,
  call_suspend_or_resume, open_process_for_management,
}
use browser_guard.Journal.Register.{has_pid}
use browser_guard.Journal.Entries.{find_record}
use browser_guard.Journal.Commit.{persist_journal-true}
use browser_guard.Journal.Durable.{IsDurable}
use browser_guard.Journal.Tests.{
  empty_journal, blank, one_journal, record_five, one_journal-IsSound, record_five-IsWellFormed,
  no_read_fails, persisted, can_be_opened,
}
use browser_guard.Journal.Tests.Processes.{recorded_five}
use browser_guard.Broker.{recover_journal_file}
use browser_guard.Broker.Tests.{crashed, after_crash, works}
use browser_guard.Guard.{window_restores_to_maximized, TrackedProcess, Env, tick_deadline_reached}
use browser_guard.Guard.Entry.{
  new_entry, ensure_entry, touch_entry, group_is_active, should_suspend, policy_input,
  update_background_mode, should_use_background_mode, suspend_entry, register_in, resume_entry,
  maintain_entry, trim_is_due, run_suspend_heartbeat,
}
use browser_guard.Policy.{evaluate_suspend_policy, browser_windows_are_minimized_only}
use browser_guard.Guard.Tracked.{put_tracked, is_pid_suspended, find_tracked_process}
use browser_guard.Guard.Pass.{
  ensure_pids, ensure_pid, ensure_group_state, resume_all_tracked, cleanup_tracked_processes,
  run_pass,
}
use browser_guard.Guard.Holds.{recorded, IsGood}
use browser_guard.Guard.Covered.{Covered}
use browser_guard.Guard.Groups.{ensure_group_state-Covered}
use browser_guard.Guard.Release.{FailsOnlyIfGone}
use browser_guard.Guard.Sweep.{resume_all_tracked-Covered}
use browser_guard.Guard.Cleanup.{cleanup_tracked_processes-Covered}
use browser_guard.Guard.Crash.{
  run_pass-Covered, RecordOnDisk, Covered-RecordOnDisk, Covered-none, recover_journal_file-Covered,
}
use browser_guard.Guard.Run.{Reachable, start_with, start_without, turn, Reachable-Covered}
use browser_guard.Journal.{recovery_journal_init}
use browser_guard.Guard.Ticks.{tick_deadline_reached-elapsed, tick_deadline_reached-stale}

-- Process 5 is tracked as suspended.
abbrev entry_five : TrackedProcess
entry_five = record {
  pid = 5;
  exe_name = codes "chrome.exe";
  last_known_window = 77;
  last_known_window_was_maximized = false;
  suspended = true;
  background_mode = false;
  suspend_disabled = false;
  seen_this_pass = false;
  last_trim_tick = 0;
  last_active_tick = 0;
  manual_resume_until_tick = 0;
  last_heartbeat_tick = 0;
}

-- It stands suspended, and its record is in the journal and on disk.
abbrev running : Env Kernel Disk Screen
running = record {
  journal = some one_journal;
  processes = crashed;
  files = after_crash;
  desktop = record { windows = 77 ∷ []; owner = 5 };
}

one_journal-IsDurable : IsDurable disk_laws one_journal after_crash
one_journal-IsDurable = record {
  at = λ pid r h. record {
    on_disk = record_five ∷ [];
    is_image = persist_journal-true disk_laws one_journal blank (omega arith) persisted;
    fits = omega arith;
    well_formed = (record_five-IsWellFormed, tt);
    holds = h;
  };
}

running-Covered : Covered kernel_laws disk_laws (entry_five ∷ []) running
unfolding is_pid_suspended recorded has_pid IsGood find_tracked_process
running-Covered = record {
  covered = record {
    count = λ q. ground (arith, kernel_suspensions crashed q);
    in_journal = λ q e. ground arith;
    good = (one_journal-IsSound, one_journal-IsDurable);
  };
  distinct = (refl, tt);
  small = (omega arith, tt);
}

-- Its family, minimized, with a second process.
abbrev pub family : BrowserGroup
family = record {
  exe_name = codes "chrome.exe";
  pids = 5 ∷ 6 ∷ [];
  anchor_window = 77;
  has_foreground_window = false;
  has_visible_window = true;
  minimized_window_count = 1;
  visible_restored_window_count = 0;
  has_audio = false;
}

resumes_all :
    (pid : ℕ) (c : AppConfig) (s : Kernel) → (set_process_suspended pid false c s).0 ≡ true
unfolding set_process_suspended set_opened_suspended invoke_suspend_or_resume find_procedures
    call_suspend_or_resume open_process_for_management kernel_processes
resumes_all pid c s = refl

pub never_fails_with : (c : AppConfig) → FailsOnlyIfGone kernel_laws c
never_fails_with c = record { gone = λ pid s e. absurd (ground (arith, resumes_all pid c s)) }

pub never_fails : FailsOnlyIfGone kernel_laws init_app_config
never_fails = never_fails_with init_app_config

ensure_group_state-Covered_example :
    let o = ensure_group_state family init_app_config 9000 (entry_five ∷ []) running in
    Covered kernel_laws disk_laws o.0 o.1
ensure_group_state-Covered_example =
    ensure_group_state-Covered kernel_laws disk_laws kernel_ranges family init_app_config 9000
      (entry_five ∷ []) running (omega arith) running-Covered

resume_all_tracked-Covered_example :
    let o = resume_all_tracked init_app_config (entry_five ∷ []) running in
    Covered kernel_laws disk_laws o.0 o.1
resume_all_tracked-Covered_example =
    resume_all_tracked-Covered kernel_laws disk_laws init_app_config (entry_five ∷ []) running
      running-Covered

cleanup_tracked_processes-Covered_example :
    let o = cleanup_tracked_processes init_app_config (entry_five ∷ []) running in
    Covered kernel_laws disk_laws o.0 o.1
cleanup_tracked_processes-Covered_example =
    cleanup_tracked_processes-Covered kernel_laws disk_laws init_app_config never_fails
      (entry_five ∷ []) running running-Covered

run_pass-Covered_example :
    let o = run_pass true (family ∷ []) init_app_config 9000 (entry_five ∷ []) running in
    Covered kernel_laws disk_laws o.0 o.1
run_pass-Covered_example =
    run_pass-Covered kernel_laws disk_laws kernel_ranges init_app_config 9000 true (family ∷ [])
      (entry_five ∷ []) running never_fails (omega arith) running-Covered

suspended_five : kernel_laws.suspensions crashed 5 ≢ 0
suspended_five e = absurd (omega (arith, kernel_suspensions crashed 5))

Covered-RecordOnDisk_example :
    (kernel_laws.suspensions crashed 5 ≡ 1) × RecordOnDisk kernel_laws disk_laws running 5
Covered-RecordOnDisk_example =
    Covered-RecordOnDisk kernel_laws disk_laws (entry_five ∷ []) running 5 running-Covered
      suspended_five

five_on_disk : RecordOnDisk kernel_laws disk_laws running 5
unfolding find_record
five_on_disk = record {
  journal = one_journal;
  in_use = refl;
  entry = record_five;
  on_disk = one_journal-IsDurable.at 5 record_five refl;
}

recover_journal_file-Covered_example :
    let o = recover_journal_file one_journal.path crashed after_crash in
    (o.0 ≡ true) × (kernel_laws.suspensions o.1 5 ≡ 0)
unfolding five_on_disk one_journal-IsDurable
recover_journal_file-Covered_example =
    recover_journal_file-Covered kernel_laws disk_laws kernel_identity works no_read_fails
      (entry_five ∷ []) running 5 1 running-Covered five_on_disk
      (record { answers = kernel-Answers 5; recorded = recorded_five }) (kernel-Answers 5, tt)
      can_be_opened

-- Thirty days.
tick_deadline_reached-stale_example :
    tick_deadline_reached (add32 5 2592000000) (add32 5 8000) ≡ false
tick_deadline_reached-stale_example =
    tick_deadline_reached-stale 5 8000 2592000000 (omega arith) (omega arith) (omega arith)
      (omega arith)
