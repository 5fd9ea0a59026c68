-- ===== src/Broker.antt =====
-- src/recovery_broker.c: resuming the processes of a journal.
pub mod Safe
pub mod Complete
pub mod Crash
pub mod Evidence
pub mod Start
pub mod Tests
use browser_guard.Prelude.{
  ℕ, zero, suc, ◌+◌, ◌*◌, Bool, true, false, ◌&&◌, Option, none, some, List, [], ◌∷◌, if◌then◌else◌,
  Text, codes,
}
use browser_guard.Windows.{Files, Processes, Handle, ◌and◌}
use browser_guard.Journal.Layout.{BgRecoveryRecord, max_recovery_records, record_size}
use browser_guard.Journal.{recovery_journal_load}
use browser_guard.Journal.Register.{recovery_record_matches_process}

-- PROCESS_SUSPEND_RESUME and PROCESS_QUERY_LIMITED_INFORMATION together.
abbrev pub resume_access : ℕ
resume_access = 0x0800 + 0x1000

abbrev pub max_attempts : ℕ
max_attempts = 20

abbrev pub retry_delay_ms : ℕ
retry_delay_ms = 100

module _ {P : Type 0} ⦃ps : Processes P⦄ where
  -- Opening the process of a record, resuming it and closing it.
  unfoldable pub resume_process : ℕ → P → Bool × P
  resume_process pid s =
      let (process, s1) = ps.open_process resume_access pid s in
      elim process [
        | none ↦ (false, s1)
        | some h ↦
            (let (resumed, s2) = ps.nt_resume_process h s1 in (resumed, ps.close_handle h s2))
      ]

  unfoldable pub find_resume : P → Bool × P
  find_resume =
      ps.has_module (codes "ntdll.dll")
      and ps.has_proc (codes "ntdll.dll") (codes "NtResumeProcess")

  unfoldable pub resume_recovery_record : BgRecoveryRecord → P → Bool × P
  resume_recovery_record r =
      recovery_record_matches_process r and find_resume and resume_process r.pid

  -- The loop over the attempts that are left.
  unfoldable pub retry_resume : ℕ → BgRecoveryRecord → P → Bool × P
  retry_resume zero r s = (false, s)
  retry_resume (suc attempts) r s =
      let (resolved, s1) = resume_recovery_record r s in
      elim resolved [
        | true ↦ (true, s1)
        | false ↦ retry_resume attempts r (ps.sleep retry_delay_ms s1)
      ]

  -- A record that does not match is resolved.
  unfoldable pub recover_record : BgRecoveryRecord → P → Bool × P
  recover_record r s =
      let (matches, s1) = recovery_record_matches_process r s in
      if matches then retry_resume max_attempts r s1 else (true, s1)

  -- The loop over the records: whether all are resolved.
  unfoldable pub recover_records : List BgRecoveryRecord → P → Bool × P
  recover_records [] s = (true, s)
  recover_records (r ∷ rs) s =
      let (resolved, s1) = recover_record r s in
      let (rest, s2) = recover_records rs s1 in (resolved && rest, s2)

module _ {P F : Type 0} ⦃ps : Processes P⦄ ⦃fs : Files F⦄ where
  -- The file is deleted only if every record is resolved.
  unfoldable pub recover_loaded : Text → List BgRecoveryRecord → P → F → Bool × P × F
  recover_loaded path records s f =
      let (all_resolved, s1) = recover_records records s in
      (all_resolved, s1, (if all_resolved then (fs.delete_file path f).1 else f))

  unfoldable pub recover_journal_file : Text → P → F → Bool × P × F
  recover_journal_file path s f =
      let (allocated, s1) = ps.heap_alloc (max_recovery_records * record_size) s in
      if allocated
      then (let ((loaded, records), f1) = recovery_journal_load path max_recovery_records f in
          if loaded then recover_loaded path records s1 f1 else (false, s1, f1))
      else (false, s1, f)
