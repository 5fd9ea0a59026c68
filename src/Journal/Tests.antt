-- ===== src/Journal/Tests.antt =====
-- The journal on the machine of `Machine`, and the theorems at concrete inputs.
pub mod Processes
use browser_guard.Prelude.{
  ℕ, ◌+◌, ◌≡◌, ◌≤◌, ◌≢◌, ◌⊎◌, refl, Bool, true, false, none, some, List, [], ◌∷◌, ◌++◌, arith, Text,
  codes, All, replicate, text_ieq, text_eq, to_lower, length, if◌then◌else◌, ◌&&◌, ◌==◌,
}
use browser_guard.Identity.{
  process_matches_current_identity, matches_with, path_matches, session_matches, user_matches,
  query_process_user_sid, equal_sid, is_empty,
}
use browser_guard.Windows.{opened}
use browser_guard.Windows.Laws.{FileLaws, ProcessLaws, IdentityLaws}
use browser_guard.Machine.Disk.{Disk, disk_files, disk_laws, put}
use browser_guard.Machine.Kernel.{
  Kernel, quiet_kernel, kernel_processes, kernel_laws, kernel_identity, kernel_ranges,
  kernel-Answers, process_time, process_image,
}
use browser_guard.Journal.Layout.{
  max_recovery_records, BgRecoveryRecord, wide_buffer, wide_string, decode_records, records_bytes,
  header_bytes,
}
use browser_guard.Journal.Roundtrip.{IsWellFormed, decode_records-records_bytes}
use browser_guard.Journal.{
  BgRecoveryJournal, persist_journal, recovery_journal_load, temporary_path, temporary_path_fits,
  write_journal, replace_journal, write_contents, write_all,
}
use browser_guard.Journal.Register.{
  query_recovery_record, query_opened, has_pid, recovery_journal_register,
  recovery_journal_unregister, recovery_record_matches_process,
}
use browser_guard.Journal.Entries.{IsSound, find_record, wide_buffer-fits}
use browser_guard.Journal.Commit.{
  image, persist_journal-true, persist_journal-false, persist_journal-empty,
}
use browser_guard.Journal.Load.{recovery_journal_load-fits, recovery_journal_load-persist_journal}
use browser_guard.Journal.Sound.{
  register-IsSound, unregister-IsSound, has_pid-register, has_pid-unregister,
}
use browser_guard.Journal.Durable.{IsDurable, register-IsDurable, unregister-IsDurable}
use browser_guard.Journal.Match.{IsRecorded, recovery_record_matches_process-IsRecorded}
use browser_guard.Journal.Answers.{recovery_record_matches_process-answers}

abbrev pub blank : Disk
blank = record { stored = λ _. none; written = []; rest = [] }

abbrev pub empty_journal : BgRecoveryJournal
empty_journal = record { path = codes "journal.bin"; records = [] }

abbrev pub record_five : BgRecoveryRecord
record_five = record {
  pid = 5;
  creation_time = process_time;
  session_id = 1;
  executable_path = wide_buffer process_image;
}

abbrev pub one_journal : BgRecoveryJournal
one_journal = record empty_journal { records = record_five ∷ [] }

pub record_five-IsWellFormed : IsWellFormed record_five
record_five-IsWellFormed =
    let w = wide_buffer-fits process_image (omega arith) in
    record {
      pid_fits = omega arith;
      low_fits = omega arith;
      high_fits = omega arith;
      session_fits = omega arith;
      path_length = w.0;
      units_fit = w.1;
    }

pub empty_journal-IsSound : IsSound empty_journal
empty_journal-IsSound = record { distinct = tt; bounded = omega arith; well_formed = tt }

pub one_journal-IsSound : IsSound one_journal
unfolding has_pid
one_journal-IsSound = record {
  distinct = (refl, tt);
  bounded = omega arith;
  well_formed = (record_five-IsWellFormed, tt);
}

pub no_read_fails : (h n : ℕ) (s : Disk) → (disk_files.read_file h n s).0.0 ≡ true
unfolding disk_files
no_read_fails h n s = refl

query_five : (query_recovery_record 5 quiet_kernel).0 ≡ some record_five
unfolding query_recovery_record query_opened kernel_processes process_matches_current_identity
    matches_with path_matches session_matches user_matches query_process_user_sid equal_sid
    wide_buffer wide_string text_ieq text_eq
query_five = refl

pub persisted : (persist_journal one_journal blank).0 ≡ true
unfolding persist_journal write_journal replace_journal write_contents write_all disk_files
    header_bytes records_bytes temporary_path_fits wide_buffer
persisted = refl

pub can_be_opened :
    (disk_files.open_file one_journal.path (persist_journal one_journal blank).1).0 ≡ opened 1
unfolding persist_journal write_journal replace_journal write_contents write_all disk_files
    header_bytes records_bytes temporary_path_fits wide_buffer put text_eq temporary_path
can_be_opened = refl

-- A path that leaves no room for the suffix.
abbrev long_journal : BgRecoveryJournal
long_journal = record one_journal { path = replicate 256 b'a' }

not_persisted : (persist_journal long_journal blank).0 ≡ false
unfolding persist_journal temporary_path_fits temporary_path
not_persisted = refl

persist_journal-true_example :
    disk_laws.contents (persist_journal one_journal blank).1 one_journal.path
    ≡ some (image one_journal.records)
persist_journal-true_example =
    persist_journal-true disk_laws one_journal blank (omega arith) persisted

persist_journal-false_example :
    disk_laws.contents (persist_journal long_journal blank).1 long_journal.path
    ≡ disk_laws.contents blank long_journal.path
persist_journal-false_example = persist_journal-false disk_laws long_journal blank not_persisted

recovery_journal_load-persist_journal_example :
    (recovery_journal_load one_journal.path 512 (persist_journal one_journal blank).1).0
    ≡ (true, one_journal.records)
recovery_journal_load-persist_journal_example =
    recovery_journal_load-persist_journal disk_laws no_read_fails one_journal 512 1 blank
      (omega arith) (record_five-IsWellFormed, tt) (omega arith) (omega arith) persisted
      can_be_opened

recovery_journal_load-fits_example :
    (length (recovery_journal_load one_journal.path 3 blank).0.1 ≤ 3)
    × (length (recovery_journal_load one_journal.path 3 blank).0.1 ≤ max_recovery_records)
recovery_journal_load-fits_example = recovery_journal_load-fits one_journal.path 3 blank
