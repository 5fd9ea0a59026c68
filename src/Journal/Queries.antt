-- ===== src/Journal/Queries.antt =====
-- The calls on processes that src/recovery_journal.c makes.
use browser_guard.Prelude.{ℕ, ◌≡◌, inl, inr, arith, Bool-cases, ◌==◌}
use browser_guard.Windows.{Files, Processes, Handle}
use browser_guard.Windows.Laws.{ProcessLaws, Quiet}
use browser_guard.Windows.Quiet.{Quiet-refl, Quiet-trans, Quiet-and, Quiet-option}
use browser_guard.Identity.{process_matches_current_identity, query_limited_information}
use browser_guard.Identity.Queries.{process_matches_current_identity-Quiet}
use browser_guard.Journal.Layout.{BgRecoveryRecord, max_path, wide_string}
use browser_guard.Journal.{BgRecoveryJournal}
use browser_guard.Journal.Cases.{register_cases}
use browser_guard.Journal.Register.{
  query_opened, query_recovery_record, opened_matches, reopened_matches,
  recovery_record_matches_process, recovery_journal_register, register_record,
}

module _ {P : Type 0} ⦃ps : Processes P⦄ (laws : ProcessLaws ps) where
  open laws use {suspensions, resumes}

  query_opened-Quiet :
      (h : Handle) (pid : ℕ) (s : P) → Quiet suspensions resumes s (query_opened h pid s).1
  unfolding query_opened
  query_opened-Quiet h pid s =
      let s1 = (ps.process_times h s).1 in
      let s2 = (ps.session_of pid s1).1 in
      let s3 = (ps.image_name h max_path s2).1 in
      Quiet-trans (laws.times_quiet h s) (
        Quiet-option (ps.process_times h s).0 s1 _ _ (Quiet-refl s1) (λ t.
          Quiet-trans (laws.session_quiet pid s1) (
            Quiet-option (ps.session_of pid s1).0 s2 _ _ (Quiet-refl s2) (λ n.
              Quiet-trans (laws.image_quiet h max_path s2) (
                Quiet-option (ps.image_name h max_path s2).0 s3 _ _ (Quiet-refl s3)
                  (λ path. Quiet-refl s3))))))

  pub query_recovery_record-Quiet :
      (pid : ℕ) (s : P) → Quiet suspensions resumes s (query_recovery_record pid s).1
  unfolding query_recovery_record
  query_recovery_record-Quiet pid s =
      let s1 = (ps.open_process query_limited_information pid s).1 in
      Quiet-trans (laws.open_quiet query_limited_information pid s) (
        Quiet-option (ps.open_process query_limited_information pid s).0 s1 _ _ (Quiet-refl s1)
          (λ h.
            let s2 = (query_opened h pid s1).1 in
            let s3 = ps.close_handle h s2 in
            Quiet-trans (query_opened-Quiet h pid s1) (
              Quiet-trans (laws.close_quiet h s2) (
                Quiet-option (query_opened h pid s1).0 s3 _ _ (Quiet-refl s3) (λ r.
                  process_matches_current_identity-Quiet laws pid (wide_string r.executable_path)
                    s3)))))

  opened_matches-Quiet :
      (h : Handle) (r : BgRecoveryRecord) (s : P)
      → Quiet suspensions resumes s (opened_matches h r s).1
  unfolding opened_matches
  opened_matches-Quiet h r s =
      let s1 = (ps.process_times h s).1 in
      Quiet-trans (laws.times_quiet h s) (
        Quiet-option (ps.process_times h s).0 s1 _ _ (Quiet-refl s1)
          (λ t. laws.session_quiet r.pid s1))

  reopened_matches-Quiet :
      (r : BgRecoveryRecord) (s : P) → Quiet suspensions resumes s (reopened_matches r s).1
  unfolding reopened_matches
  reopened_matches-Quiet r s =
      let s1 = (ps.open_process query_limited_information r.pid s).1 in
      Quiet-trans (laws.open_quiet query_limited_information r.pid s) (
        Quiet-option (ps.open_process query_limited_information r.pid s).0 s1 _ _ (Quiet-refl s1)
          (λ h.
            Quiet-trans (opened_matches-Quiet h r s1)
              (laws.close_quiet h (opened_matches h r s1).1)))

  pub recovery_record_matches_process-Quiet :
      (r : BgRecoveryRecord) (s : P)
      → Quiet suspensions resumes s (recovery_record_matches_process r s).1
  unfolding recovery_record_matches_process
  recovery_record_matches_process-Quiet r s = elim (Bool-cases (r.pid == 0)) [
    | inl e ↦ rw (e, recovery_record_matches_process) (Quiet-refl s)
    | inr e ↦
        rw (e, recovery_record_matches_process)
          (Quiet-and (process_matches_current_identity r.pid (wide_string r.executable_path))
            (reopened_matches r) s
            (process_matches_current_identity-Quiet laws r.pid (wide_string r.executable_path))
            (reopened_matches-Quiet r))
  ]

module _ {P F : Type 0} ⦃ps : Processes P⦄ ⦃fs : Files F⦄ (laws : ProcessLaws ps) where
  open laws use {suspensions, resumes}

  register_record-processes :
      (j : BgRecoveryJournal) (r : BgRecoveryRecord) (s : P) (f : F)
      → (register_record j r s f).2 ≡ s
  unfolding register_record
  register_record-processes j r s f = ground arith

  pub recovery_journal_register-Quiet :
      (j : BgRecoveryJournal) (pid : ℕ) (s : P) (f : F)
      → Quiet suspensions resumes s (recovery_journal_register j pid s f).2
  recovery_journal_register-Quiet j pid s f =
      let q = query_recovery_record-Quiet laws pid s in
      register_cases j pid s f (λ o. Quiet suspensions resumes s o.2) (Quiet-refl s)
        (λ _. Quiet-refl s) q
        (λ r _ _ _ _. rw (register_record-processes j r (query_recovery_record pid s).1 f) q)
