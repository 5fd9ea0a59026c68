-- ===== src/Broker/Tests.antt =====
-- Recovery on the machine of `Machine`, and the theorems on it at concrete inputs.
use browser_guard.Prelude.{
  ◌-◌, ◌≡◌, ◌≤◌, refl, sym, ◌∙◌, ap, subst, true, none, [], ◌∷◌, arith, ◌⊎◌, text_eq, ◌==◌,
  if◌then◌else◌,
}
use browser_guard.Windows.{opened}
use browser_guard.Machine.Disk.{Disk, disk_files, disk_laws, put}
use browser_guard.Machine.Kernel.{
  Kernel, quiet_kernel, kernel_processes, kernel_laws, kernel-Answers, kernel_created,
  kernel_identity,
}
use browser_guard.Journal.Layout.{header_bytes, records_bytes, wide_buffer, BgRecoveryRecord}
use browser_guard.Journal.{
  BgRecoveryJournal, persist_journal, recovery_journal_load, write_journal, replace_journal,
  write_contents, write_all, temporary_path_fits, temporary_path,
}
use browser_guard.Journal.Roundtrip.{IsWellFormed}
use browser_guard.Journal.Commit.{persist_journal-true}
use browser_guard.Journal.Load.{recovery_journal_load-persist_journal}
use browser_guard.Journal.Entries.{find_record}
use browser_guard.Journal.Durable.{OnDisk}
use browser_guard.Journal.Match.{IsRecorded}
use browser_guard.Journal.Tests.{
  blank, record_five, one_journal, record_five-IsWellFormed, no_read_fails, persisted,
  can_be_opened,
}
use browser_guard.Journal.Tests.Processes.{recorded_five}
use browser_guard.Broker.{recover_journal_file, recover_records}
use browser_guard.Broker.Safe.{IsStranger, recover_journal_file-stranger}
use browser_guard.Broker.Complete.{ResumeWorks, recover_records-true}
use browser_guard.Broker.Crash.{recover_journal_file-OnDisk}
use browser_guard.Broker.Evidence.{recover_journal_file-contents}

pub works : ResumeWorks kernel_processes
unfolding kernel_processes
works = record {
  modules = λ name s. refl;
  procs = λ lib name s. refl;
  resumes_it = λ h s. refl;
  allocates = λ n s. refl;
}

-- The program crashed: process 5 is suspended, and its record is on disk.
abbrev pub crashed : Kernel
crashed = record quiet_kernel { suspended = λ pid. if pid == 5 then 1 else 0 }

abbrev pub after_crash : Disk
after_crash = (persist_journal one_journal blank).1

five_on_disk : OnDisk disk_laws one_journal after_crash 5 record_five
unfolding find_record
five_on_disk = record {
  on_disk = record_five ∷ [];
  is_image = persist_journal-true disk_laws one_journal blank (omega arith) persisted;
  fits = omega arith;
  well_formed = (record_five-IsWellFormed, tt);
  holds = refl;
}

recover_journal_file-OnDisk_example :
    ((recover_journal_file one_journal.path crashed after_crash).0 ≡ true)
    × (kernel_laws.suspensions (recover_journal_file one_journal.path crashed after_crash).1 5
        ≤ kernel_laws.suspensions crashed 5 - 1)
unfolding five_on_disk
recover_journal_file-OnDisk_example =
    recover_journal_file-OnDisk kernel_laws disk_laws kernel_identity works no_read_fails
      one_journal crashed after_crash 5 1 record_five five_on_disk
      (record { answers = kernel-Answers 5; recorded = recorded_five }) (kernel-Answers 5, tt)
      can_be_opened

recover_records-true_example : (recover_records (record_five ∷ []) crashed).0 ≡ true
recover_records-true_example =
    recover_records-true kernel_identity works (record_five ∷ []) crashed (kernel-Answers 5, tt)

recover_journal_file-contents_example :
    (disk_laws.contents
        (recover_journal_file one_journal.path crashed after_crash).2
        one_journal.path
      ≡ disk_laws.contents after_crash one_journal.path)
    ⊎ ((one_journal.path ≡ one_journal.path)
        × ((recover_journal_file one_journal.path crashed after_crash).0 ≡ true)
        × (disk_laws.contents
              (recover_journal_file one_journal.path crashed after_crash).2
              one_journal.path
            ≡ none))
recover_journal_file-contents_example =
    recover_journal_file-contents disk_laws one_journal.path crashed after_crash one_journal.path

-- A record of an earlier process 5, which was created at another time.
abbrev stale : BgRecoveryRecord
stale = record record_five { creation_time = record { low = 8; high = 1 } }

abbrev stale_journal : BgRecoveryJournal
stale_journal = record one_journal { records = stale ∷ [] }

stale-IsWellFormed : IsWellFormed stale
stale-IsWellFormed =
    let w = record_five-IsWellFormed in
    record {
      pid_fits = omega arith;
      low_fits = omega arith;
      high_fits = omega arith;
      session_fits = omega arith;
      path_length = w.path_length;
      units_fit = w.units_fit;
    }

stale_persisted : (persist_journal stale_journal blank).0 ≡ true
unfolding persist_journal write_journal replace_journal write_contents write_all disk_files
    header_bytes records_bytes temporary_path_fits wide_buffer
stale_persisted = refl

stale_opens :
    (disk_files.open_file stale_journal.path (persist_journal stale_journal blank).1).0 ≡ opened 1
unfolding persist_journal write_journal replace_journal write_contents write_all disk_files
    header_bytes records_bytes temporary_path_fits wide_buffer put text_eq temporary_path
stale_opens = refl

stale-loaded :
    (recovery_journal_load stale_journal.path 512 (persist_journal stale_journal blank).1).0
    ≡ (true, stale ∷ [])
stale-loaded =
    recovery_journal_load-persist_journal disk_laws no_read_fails stale_journal 512 1 blank
      (omega arith) (stale-IsWellFormed, tt) (omega arith) (omega arith) stale_persisted stale_opens

not_the_same : ¬ IsRecorded kernel_identity stale
not_the_same it =
    absurd (omega (arith, ap (λ t. t.low) (sym (kernel_created 5) ∙ it.same_creation)))

stale-IsStranger :
    IsStranger kernel_laws kernel_identity 5
      (recovery_journal_load stale_journal.path 512 (persist_journal stale_journal blank).1).0.1
stale-IsStranger =
    subst (λ o. IsStranger kernel_laws kernel_identity 5 o.1) (sym stale-loaded)
      ((λ same. not_the_same), tt)

recover_journal_file-stranger_example :
    kernel_laws.resumes
      (recover_journal_file stale_journal.path crashed (persist_journal stale_journal blank).1).1
      5
    ≡ kernel_laws.resumes crashed 5
recover_journal_file-stranger_example =
    recover_journal_file-stranger kernel_laws kernel_identity 5 stale_journal.path crashed
      (persist_journal stale_journal blank).1 stale-IsStranger
