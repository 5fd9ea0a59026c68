-- ===== src/Journal/Tests/Processes.antt =====
-- Registration, removal and matching on the machine of `Machine`, and the theorems on them at
-- concrete inputs.
use browser_guard.Prelude.{◌≡◌, refl, true, arith, codes, text_ieq, text_eq}
use browser_guard.Machine.Disk.{Disk, disk_files, disk_laws}
use browser_guard.Machine.Kernel.{
  Kernel, quiet_kernel, kernel_processes, kernel_identity, kernel_ranges,
}
use browser_guard.Identity.{
  process_matches_current_identity, matches_with, path_matches, session_matches, user_matches,
  query_process_user_sid, equal_sid,
}
use browser_guard.Identity.Sound.{IsOurs, process_matches_current_identity-IsOurs}
use browser_guard.Journal.Layout.{wide_buffer, wide_string}
use browser_guard.Journal.Register.{
  recovery_journal_register, recovery_journal_unregister, recovery_record_matches_process, Outcome,
  reopened_matches, opened_matches, same_time,
}
use browser_guard.Journal.Entries.{IsSound, find_record}
use browser_guard.Journal.Sound.{register-IsSound}
use browser_guard.Journal.Durable.{IsDurable, register-IsDurable, unregister-IsDurable}
use browser_guard.Journal.Match.{IsRecorded, recovery_record_matches_process-IsRecorded}
use browser_guard.Journal.Tests.{blank, empty_journal, record_five, empty_journal-IsSound}

-- Process 5 is registered in an empty journal.
abbrev registered : Outcome Kernel Disk
registered = recovery_journal_register empty_journal 5 quiet_kernel blank

register-IsSound_example : IsSound registered.1
register-IsSound_example =
    register-IsSound kernel_ranges empty_journal 5 quiet_kernel blank (omega arith)
      empty_journal-IsSound

empty_journal-IsDurable : IsDurable disk_laws empty_journal blank
unfolding find_record
empty_journal-IsDurable = record { at = λ pid r h. cc }

register-IsDurable_example : IsDurable disk_laws registered.1 registered.3
register-IsDurable_example =
    register-IsDurable disk_laws kernel_ranges empty_journal 5 quiet_kernel blank (omega arith)
      empty_journal-IsSound empty_journal-IsDurable

durable : IsDurable disk_laws registered.1 registered.3
durable =
    register-IsDurable disk_laws kernel_ranges empty_journal 5 quiet_kernel blank (omega arith)
      empty_journal-IsSound empty_journal-IsDurable

sound : IsSound registered.1
sound =
    register-IsSound kernel_ranges empty_journal 5 quiet_kernel blank (omega arith)
      empty_journal-IsSound

unregister-IsDurable_example :
    let o = recovery_journal_unregister registered.1 5 registered.3 in IsDurable disk_laws o.1 o.2
unregister-IsDurable_example =
    unregister-IsDurable disk_laws registered.1 5 registered.3 sound durable

matched : (recovery_record_matches_process record_five quiet_kernel).0 ≡ true
unfolding recovery_record_matches_process reopened_matches opened_matches same_time kernel_processes
    process_matches_current_identity matches_with path_matches session_matches user_matches
    query_process_user_sid equal_sid wide_buffer wide_string text_ieq text_eq
matched = refl

pub recorded_five : IsRecorded kernel_identity record_five
recorded_five =
    recovery_record_matches_process-IsRecorded kernel_identity record_five quiet_kernel matched

recovery_record_matches_process-IsRecorded_example : IsRecorded kernel_identity record_five
recovery_record_matches_process-IsRecorded_example =
    recovery_record_matches_process-IsRecorded kernel_identity record_five quiet_kernel matched

ours : (process_matches_current_identity 5 (codes "c:\\CHROME.exe") quiet_kernel).0 ≡ true
unfolding kernel_processes process_matches_current_identity matches_with path_matches
    session_matches user_matches query_process_user_sid equal_sid text_ieq text_eq
ours = refl

process_matches_current_identity-IsOurs_example : IsOurs kernel_identity 5 (codes "c:\\CHROME.exe")
process_matches_current_identity-IsOurs_example =
    process_matches_current_identity-IsOurs kernel_identity 5 (codes "c:\\CHROME.exe") quiet_kernel
      ours
