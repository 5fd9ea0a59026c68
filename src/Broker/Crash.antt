-- ===== src/Broker/Crash.antt =====
-- The file that src/recovery_journal.c wrote, as src/recovery_broker.c recovers from it.
use browser_guard.Prelude.{ℕ, ◌-◌, ◌*◌, ◌≤◌, ◌≡◌, true, arith, All}
use browser_guard.Windows.{Files, Processes, opened}
use browser_guard.Windows.Laws.{FileLaws, ProcessLaws, IdentityLaws, Answers}
use browser_guard.Journal.Layout.{BgRecoveryRecord, max_recovery_records, record_size}
use browser_guard.Journal.{BgRecoveryJournal}
use browser_guard.Journal.Load.{recovery_journal_load-image}
use browser_guard.Journal.Durable
use browser_guard.Broker.Complete.{
  IsLive, ResumeWorks, recover_records-one_less, recover_records-true,
}
use browser_guard.Broker.{recover_loaded, recover_journal_file}

module _ {P F : Type 0} ⦃ps : Processes P⦄ ⦃fs : Files F⦄ (process_laws : ProcessLaws ps)
    (file_laws : FileLaws fs) (identity : IdentityLaws ps) (works : ResumeWorks ps)
    (no_read_fails : (h n : ℕ) (s : F) → (fs.read_file h n s).0.0 ≡ true) where
  open process_laws use {suspensions}

  -- After a crash: where the record of a live process is on disk, every recorded process can be
  -- queried, the file opens and reads, and the resumption itself works, recovery reports success and
  -- the process stands suspended once less than before.
  pub recover_journal_file-OnDisk :
      (j : BgRecoveryJournal) (s : P) (f : F) (pid h : ℕ) (r : BgRecoveryRecord)
      → (d : Durable.OnDisk file_laws j f pid r) → IsLive process_laws identity r
      → All (λ x. Answers ps x.pid) d.on_disk
      → (fs.open_file j.path f).0 ≡ opened h
      → ((recover_journal_file j.path s f).0 ≡ true)
        × (suspensions (recover_journal_file j.path s f).1 pid ≤ suspensions s pid - 1)
  unfolding recover_journal_file recover_loaded
  recover_journal_file-OnDisk j s f pid h r d live answers is_open =
      let n = max_recovery_records * record_size in
      let s1 = (ps.heap_alloc n s).1 in
      let loaded =
        recovery_journal_load-image file_laws no_read_fails j.path max_recovery_records h d.on_disk
          f d.well_formed d.fits d.fits d.is_image is_open in
      let done = recover_records-true identity works d.on_disk s1 answers in
      ground (
        arith,
        works.allocates n s,
        loaded,
        done,
        (process_laws.alloc_quiet n s).no_more pid,
        recover_records-one_less process_laws identity pid d.on_disk r s1 d.holds live done,
      )
