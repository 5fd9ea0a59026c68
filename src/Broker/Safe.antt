-- ===== src/Broker/Safe.antt =====
-- The resumptions that src/recovery_broker.c makes, process by process.
use browser_guard.Prelude.{
  ℕ, zero, suc, ◌*◌, ◌≡◌, refl, subst, ◌∙◌, Bool, false, List, [], ◌∷◌, arith, inl, inr, All, Text,
  codes, Option-cases, Bool-cases,
}
use browser_guard.Windows.{Files, Processes}
use browser_guard.Windows.Laws.{ProcessLaws, IdentityLaws, Quiet}
use browser_guard.Windows.Quiet.{Quiet-refl, Quiet-trans, Quiet-and}
use browser_guard.Journal.Layout.{BgRecoveryRecord, max_recovery_records, record_size}
use browser_guard.Journal.{recovery_journal_load}
use browser_guard.Journal.Register.{recovery_record_matches_process}
use browser_guard.Journal.Queries.{recovery_record_matches_process-Quiet}
use browser_guard.Journal.Match
use browser_guard.Journal.Match.{recovery_record_matches_process-IsRecorded}
use browser_guard.ProcessControl.Suspend.Effects
use browser_guard.ProcessControl.Suspend.Effects.{Resumes-Quiet, Resumes-between, nt_resume-Resumes}
use browser_guard.Broker.{
  resume_process, find_resume, resume_recovery_record, retry_resume, recover_record,
  recover_records, recover_loaded, recover_journal_file, resume_access, max_attempts,
  retry_delay_ms,
}

module _ {P : Type 0} ⦃ps : Processes P⦄ (laws : ProcessLaws ps) where
  open laws use {suspensions, resumes}

  pub find_resume-Quiet : (s : P) → Quiet suspensions resumes s (find_resume s).1
  unfolding find_resume
  find_resume-Quiet s =
      Quiet-and (ps.has_module (codes "ntdll.dll"))
        (ps.has_proc (codes "ntdll.dll") (codes "NtResumeProcess")) s
        (λ t. laws.module_quiet (codes "ntdll.dll") t)
        (λ t. laws.proc_quiet (codes "ntdll.dll") (codes "NtResumeProcess") t)

  pub resume_process-Resumes :
      (pid : ℕ) (s : P)
      → Effects.Resumes laws pid s (resume_process pid s).0 (resume_process pid s).1
  unfolding resume_process
  resume_process-Resumes pid s =
      let s1 = (ps.open_process resume_access pid s).1 in
      let quiet = laws.open_quiet resume_access pid s in
      elim (Option-cases (ps.open_process resume_access pid s).0) [
        | inl e ↦ rw (e, resume_process) (Resumes-Quiet laws pid quiet)
        | inr (h, e) ↦
            rw (e, resume_process)
              (Resumes-between laws quiet
                (subst (λ n. let o = ps.nt_resume_process h s1 in Effects.Resumes laws n s1 o.0 o.1)
                  (laws.open_target resume_access pid s h e) (nt_resume-Resumes laws h s1))
                (laws.close_quiet h (ps.nt_resume_process h s1).1))
      ]

  -- Where a record matches nothing, nothing is done to its process.
  pub resume_recovery_record-Resumes :
      (r : BgRecoveryRecord) (s : P)
      → let o = resume_recovery_record r s in Effects.Resumes laws r.pid s o.0 o.1
  unfolding resume_recovery_record
  resume_recovery_record-Resumes r s =
      let s1 = (recovery_record_matches_process r s).1 in
      let s2 = (find_resume s1).1 in
      let quiet = recovery_record_matches_process-Quiet laws r s in
      let quiet' = Quiet-trans quiet (find_resume-Quiet s1) in
      elim (Bool-cases (recovery_record_matches_process r s).0) [
        | inr e ↦ rw (e, resume_recovery_record) (Resumes-Quiet laws r.pid quiet)
        | inl e ↦
            rw (e, resume_recovery_record)
              (elim (Bool-cases (find_resume s1).0) [
                | inr e' ↦ rw e' (Resumes-Quiet laws r.pid quiet')
                | inl e' ↦ rw e' (
                    Resumes-between laws quiet' (resume_process-Resumes r.pid s2)
                      (Quiet-refl (resume_process r.pid s2).1))
              ])
      ]

  -- One failed attempt, a pause, and the attempts after it.
  Resumes-again :
      {pid : ℕ} {success : Bool} {s t u v : P}
      → Effects.Resumes laws pid s false t
      → Quiet suspensions resumes t u
      → Effects.Resumes laws pid u success v
      → Effects.Resumes laws pid s success v
  Resumes-again {pid} a q b = record {
    one_less = λ e. omega (arith, a.no_more pid, q.no_more pid, b.one_less e);
    no_more = λ p. omega (arith, a.no_more p, q.no_more p, b.no_more p);
    others = λ p d. b.others p d ∙ (q.no_resume p ∙ a.others p d);
  }

  pub retry_resume-Resumes :
      (attempts : ℕ) (r : BgRecoveryRecord) (s : P)
      → let o = retry_resume attempts r s in Effects.Resumes laws r.pid s o.0 o.1
  unfolding retry_resume
  retry_resume-Resumes zero r s = Resumes-Quiet laws r.pid (Quiet-refl s)
  retry_resume-Resumes (suc attempts) r s =
      let s1 = (resume_recovery_record r s).1 in
      let first = resume_recovery_record-Resumes r s in
      elim (Bool-cases (resume_recovery_record r s).0) [
        | inl e ↦ rw (e, retry_resume) (subst (λ b. Effects.Resumes laws r.pid s b s1) e first)
        | inr e ↦
            rw (e, retry_resume)
              (Resumes-again (subst (λ b. Effects.Resumes laws r.pid s b s1) e first)
                (laws.sleep_quiet retry_delay_ms s1)
                (retry_resume-Resumes attempts r (ps.sleep retry_delay_ms s1)))
      ]

module _ {P : Type 0} ⦃ps : Processes P⦄ (laws : ProcessLaws ps) (identity : IdentityLaws ps) where
  open laws use {suspensions, resumes}

  -- No record that names the process still matches it.
  abbrev pub IsStranger : ℕ → List BgRecoveryRecord → Type 0
  IsStranger q = All (λ r. q ≡ r.pid → ¬ Match.IsRecorded identity r)

  recover_record-stranger :
      (q : ℕ) (r : BgRecoveryRecord) (s : P)
      → (q ≡ r.pid → ¬ Match.IsRecorded identity r)
      → resumes (recover_record r s).1 q ≡ resumes s q
  unfolding recover_record
  recover_record-stranger q r s h =
      let s1 = (recovery_record_matches_process r s).1 in
      let quiet = recovery_record_matches_process-Quiet laws r s in
      elim (Bool-cases (recovery_record_matches_process r s).0) [
        | inr e ↦ rw (e, recover_record) (quiet.no_resume q)
        | inl e ↦
            let recorded = recovery_record_matches_process-IsRecorded identity r s e in
            rw (e, recover_record)
              ((retry_resume-Resumes laws max_attempts r s1).others q (λ same. h same recorded)
                ∙ quiet.no_resume q)
      ]

  recover_records-stranger :
      (q : ℕ) (rs : List BgRecoveryRecord) (s : P)
      → IsStranger q rs
      → resumes (recover_records rs s).1 q ≡ resumes s q
  unfolding recover_records
  recover_records-stranger q [] s h = refl
  recover_records-stranger q (r ∷ rs) s h =
      recover_records-stranger q rs (recover_record r s).1 h.1 ∙ recover_record-stranger q r s h.0

  -- Recovery tells no process to resume unless a loaded record still matches it: not a process that
  -- was never recorded, and not one that has got a recorded process's id.
  pub recover_journal_file-stranger :
      {F : Type 0} ⦃fs : Files F⦄ (q : ℕ) (path : Text) (s : P) (f : F)
      → IsStranger q (recovery_journal_load path max_recovery_records f).0.1
      → resumes (recover_journal_file path s f).1 q ≡ resumes s q
  unfolding recover_journal_file recover_loaded
  recover_journal_file-stranger q path s f h =
      let s1 = (ps.heap_alloc (max_recovery_records * record_size) s).1 in
      ground (
        arith,
        (laws.alloc_quiet (max_recovery_records * record_size) s).no_resume q,
        recover_records-stranger q (recovery_journal_load path max_recovery_records f).0.1 s1 h,
      )
