-- ===== src/Broker/Complete.antt =====
-- The resumption of recorded processes in src/recovery_broker.c, where the calls succeed.
use browser_guard.Prelude.{
  ℕ, ◌-◌, ◌≤◌, ◌≡◌, refl, sym, subst, true, some, List, [], ◌∷◌, arith, inl, inr, All, ◌==◌, Text,
  codes, Bool-cases,
}
use browser_guard.Windows.{Processes, Handle}
use browser_guard.Windows.Laws.{ProcessLaws, IdentityLaws, Answers}
use browser_guard.Journal.Layout.{BgRecoveryRecord}
use browser_guard.Journal.Register.{recovery_record_matches_process}
use browser_guard.Journal.Queries.{recovery_record_matches_process-Quiet}
use browser_guard.Journal.Match
use browser_guard.Journal.Match.{recovery_record_matches_process-IsRecorded}
use browser_guard.Journal.Answers.{recovery_record_matches_process-answers}
use browser_guard.Journal.Entries.{find_record}
use browser_guard.Broker.Safe.{retry_resume-Resumes}
use browser_guard.Broker.{
  resume_process, find_resume, resume_recovery_record, retry_resume, recover_record,
  recover_records, resume_access, max_attempts,
}

module _ {P : Type 0} ⦃ps : Processes P⦄ (laws : ProcessLaws ps) where
  open laws use {suspensions, resumes}

  recover_record-no_more :
      (q : ℕ) (r : BgRecoveryRecord) (s : P)
      → suspensions (recover_record r s).1 q ≤ suspensions s q
  unfolding recover_record
  recover_record-no_more q r s =
      let s1 = (recovery_record_matches_process r s).1 in
      ground (
        arith,
        (recovery_record_matches_process-Quiet laws r s).no_more q,
        (retry_resume-Resumes laws max_attempts r s1).no_more q,
      )

  pub recover_records-no_more :
      (q : ℕ) (rs : List BgRecoveryRecord) (s : P)
      → suspensions (recover_records rs s).1 q ≤ suspensions s q
  unfolding recover_records
  recover_records-no_more q [] s = omega arith
  recover_records-no_more q (r ∷ rs) s =
      omega
        (arith, recover_record-no_more q r s, recover_records-no_more q rs (recover_record r s).1)

  -- The record of a process that can be opened and queried, and that is still the recorded one.
  pub record IsLive (identity : IdentityLaws ps) (r : BgRecoveryRecord) : Type 0 where
    pub answers : Answers ps r.pid
    pub recorded : Match.IsRecorded identity r

  module _ (identity : IdentityLaws ps) where
    recover_record-one_less :
        (r : BgRecoveryRecord) (s : P)
        → IsLive identity r
        → (recover_record r s).0 ≡ true
        → suspensions (recover_record r s).1 r.pid ≤ suspensions s r.pid - 1
    unfolding recover_record
    recover_record-one_less r s live e =
        let s1 = (recovery_record_matches_process r s).1 in
        let m = recovery_record_matches_process-answers identity r live.answers live.recorded s in
        ground (
          arith,
          m,
          (recovery_record_matches_process-Quiet laws r s).no_more r.pid,
          (retry_resume-Resumes laws max_attempts r s1).one_less,
        )

    pub recover_records-one_less :
        (pid : ℕ) (rs : List BgRecoveryRecord) (r : BgRecoveryRecord) (s : P)
        → find_record pid rs ≡ some r
        → IsLive identity r
        → (recover_records rs s).0 ≡ true
        → suspensions (recover_records rs s).1 pid ≤ suspensions s pid - 1
    unfolding recover_records find_record
    recover_records-one_less pid [] r s found live e = cc
    recover_records-one_less pid (x ∷ rs) r s found live e =
        let s1 = (recover_record x s).1 in
        elim (Bool-cases (x.pid == pid)) [
          | inl same ↦
              let it : x ≡ r = ground arith in
              ground (
                arith,
                recover_record-one_less x s (subst (IsLive identity) (sym it) live),
                recover_records-no_more pid rs s1,
              )
          | inr other ↦
              ground (arith, recover_record-no_more pid x s, recover_records-one_less pid rs r s1)
        ]

-- The resumption itself, and the memory for the records, do not fail.
pub record ResumeWorks {P : Type 0} (ps : Processes P) : Type 0 where
  pub modules : (name : Text) (s : P) → (ps.has_module name s).0 ≡ true
  pub procs : (lib name : Text) (s : P) → (ps.has_proc lib name s).0 ≡ true
  pub resumes_it : (h : Handle) (s : P) → (ps.nt_resume_process h s).0 ≡ true
  pub allocates : (n : ℕ) (s : P) → (ps.heap_alloc n s).0 ≡ true

module _ {P : Type 0} ⦃ps : Processes P⦄ (identity : IdentityLaws ps) (works : ResumeWorks ps) where
  resume_process-true : (pid : ℕ) (s : P) → Answers ps pid → (resume_process pid s).0 ≡ true
  unfolding resume_process
  resume_process-true pid s answers =
      let (h, e) = answers.opens resume_access s in
      ground (arith, works.resumes_it h (ps.open_process resume_access pid s).1)

  resume_recovery_record-true :
      (r : BgRecoveryRecord) (s : P)
      → Answers ps r.pid
      → Match.IsRecorded identity r
      → (resume_recovery_record r s).0 ≡ true
  unfolding resume_recovery_record find_resume
  resume_recovery_record-true r s answers recorded =
      let s1 = (recovery_record_matches_process r s).1 in
      let s2 = (ps.has_module (codes "ntdll.dll") s1).1 in
      let s3 = (ps.has_proc (codes "ntdll.dll") (codes "NtResumeProcess") s2).1 in
      ground (
        arith,
        recovery_record_matches_process-answers identity r answers recorded s,
        works.modules (codes "ntdll.dll") s1,
        works.procs (codes "ntdll.dll") (codes "NtResumeProcess") s2,
        resume_process-true r.pid s3 answers,
      )

  recover_record-true :
      (r : BgRecoveryRecord) (s : P) → Answers ps r.pid → (recover_record r s).0 ≡ true
  unfolding recover_record retry_resume
  recover_record-true r s answers =
      let s1 = (recovery_record_matches_process r s).1 in
      elim (Bool-cases (recovery_record_matches_process r s).0) [
        | inr e ↦ rw (e, recover_record)
        | inl e ↦
            let recorded = recovery_record_matches_process-IsRecorded identity r s e in
            rw (e, recover_record)
              (rw (resume_recovery_record-true r s1 answers recorded, retry_resume))
      ]

  -- Where every recorded process can be opened and queried, and the resumption itself works, every
  -- record is resolved, also one that names another process by now.
  pub recover_records-true :
      (rs : List BgRecoveryRecord) (s : P)
      → All (λ r. Answers ps r.pid) rs
      → (recover_records rs s).0 ≡ true
  unfolding recover_records
  recover_records-true [] s answers = refl
  recover_records-true (r ∷ rs) s answers = ground (
    arith,
    recover_record-true r s answers.0,
    recover_records-true rs (recover_record r s).1 answers.1,
  )
