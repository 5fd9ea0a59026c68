-- ===== src/Lib.antt =====
-- browser_guard suspends the processes of minimized browsers and resumes them on demand. This library
-- models its three programs and what they share: the guard, the recovery program that waits for the
-- guard's end, and the control program that starts and stops the guard. What is proved of them is listed
-- at the end.
--
-- The parts and their files:
--   * Config: src/app_config.c, the settings and the command line (`init_app_config`,
--     `parse_app_config`); Config/Number: `parse_dword_arg` over the C library's `strtoul`, and the
--     wide `wcstoul` and `_wcstoui64` of the recovery program.
--   * Policy: src/suspend_policy.c, `evaluate_suspend_policy`.
--   * Identity: src/process_identity.c, `bg_process_matches_current_identity`.
--   * Journal: src/recovery_journal.c, the records of suspended processes in memory and on disk.
--     Journal/Layout is the file's bytes, Journal is writing and loading, Journal/Register is
--     `bg_recovery_journal_register`, `bg_recovery_journal_unregister` and
--     `bg_recovery_record_matches_process`. The prefix `bg_` is left out of the names.
--   * Broker: src/recovery_broker.c, `bg_resume_recovery_record` and `bg_recover_journal_file`;
--     Broker/Start: `bg_start_recovery_broker`.
--   * Recovery: src/recovery_main.c, the program that Broker/Start starts.
--   * Protocol: src/control_protocol.c, the named event that asks a guard to stop.
--   * Control: src/control_main.c. Control has the paths and the modes' names, Control/Arguments
--     `read_arguments_file`, Control/Guards `count_guard_processes` and `request_guard_shutdown`,
--     Control/Start `start_guard_process`, Control/Modes the three modes and `wWinMain`, and
--     Control/Notification `show_notification`, which a mode's notice goes to.
--     Control/Switch is the abstract view of it: a flag on disk, a guard that was asked to stop, and
--     the programs that were started.
--   * ProcessControl/Suspend: src/process_control.c from `apply_memory_priority` to
--     `maintain_suspended_process`; ProcessControl/Groups: which processes may be managed and how they
--     are grouped (`collect_browser_groups`, `mark_audio_groups`); ProcessControl/Marks:
--     `mark_foreground_groups` and its callback; ProcessControl/Probe: `find_browser_window_for_pid`
--     and `probe_browser_window`; ProcessControl/Memory: `snapshot_memory_totals`.
--   * Guard: src/browser_guard.c. Guard/Tracked is the array of tracked processes, Guard/Entry what a
--     pass does to one of them (`run_suspend_heartbeat` and the loop body of `ensure_group_state`),
--     Guard/Pass the loops over them, Guard/Paths `build_sibling_path`. Guard/Loop has the global
--     variables and the overlay window, Guard/Loop/Pump `pump_ui_messages`, Guard/Loop/Opening the
--     journal that a guard starts with, and Guard/Loop/Main `run_browser_guard`.
--   * Entry: src/main.c, `run_entrypoint`.
--
-- Windows is a parameter: `Windows`, `Windows.Session` and `Windows.Input` have one function for each
-- call that the program makes, over three abstract states that no call shares, the file system, the
-- kernel's processes and the desktop. `Windows.Laws` and `Windows.Session.Laws` have the documented
-- behaviour that the theorems rely on, each law about the one call it names. No law says that a call
-- succeeds; a theorem that needs this says so (`Answers`, `ResumeWorks`, `FailsOnlyIfGone`,
-- `FlagAnswers`, `no_read_fails`). `IdentityLaws` and the theorems on it look at a stretch of time in which no
-- process id changes hands. `Machine` is a concrete disk, kernel and desktop with all the laws, on
-- which the tests run.
--
-- How the parts meet: the guard asks the policy about each process, registers it in the journal before
-- it suspends it, and takes it out after it resumed it. At its start it recovers from the journal of
-- an earlier guard and starts the recovery program, which does the same at its end. Recovery loads
-- the journal's file, and resumes a process only if its record still matches it. The control program
-- finds guards by their path and identity and stops them by the event of Protocol. `Guard.Covered` is
-- the invariant between the guard's steps; `Guard.Run` has the states that its steps reach.
--
-- Numbers are natural numbers, and DWORD and size_t arithmetic wraps explicitly. Texts are lists of
-- character codes. Bounds are those of the source: 512 tracked processes and records, paths of
-- MAX_PATH = 260 units, 20 attempts 100 ms apart. Four loops wait and are run for a number of turns
-- (`Prelude.Polling.poll`): the pump for one turn more than the interval has milliseconds, the wait for
-- a guard's end for 5001 turns of 50 ms, and a notification for 2451 turns of 25 ms, all of which are
-- proved to be enough; and the main loop, which ends only when it is told to, for any number of turns,
-- where `none` is a guard that still runs. Signals of the console handler are taken where
-- `g_should_stop` is read.
--
-- Not modelled: log lines and usage text; what the windows draw; the COM calls behind the list of
-- processes with active audio sessions, which is a parameter like the snapshot of all processes; and
-- memory that LocalFree gives back. The recovery program's wait for the guard is one call.
pub mod Prelude
pub mod Config
pub mod Policy
pub mod Windows
pub mod Identity
pub mod Journal
pub mod ProcessControl
pub mod Broker
pub mod Recovery
pub mod Protocol
pub mod Control
pub mod Guard
pub mod Entry
pub mod Machine
