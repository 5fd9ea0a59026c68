-- ===== src/ProcessControl/Suspend/Effects.antt =====
-- How often processes stand suspended after the calls of src/process_control.c.
use browser_guard.Prelude.{
  ℕ, ◌+◌, ◌-◌, ◌≤◌, ◌≡◌, ◌≢◌, ◌∙◌, Bool, true, false, inl, inr, arith, if◌then◌else◌, codes,
  Bool-cases,
}
use browser_guard.Windows.{Processes, Handle}
use browser_guard.Windows.Laws.{ProcessLaws, Quiet}
use browser_guard.Windows.Quiet.{Quiet-refl, Quiet-trans, Quiet-if}
use browser_guard.Config.{AppConfig}
use browser_guard.ProcessControl.Suspend.{
  apply_policies, trim_if, find_procedures, call_suspend_or_resume, invoke_suspend_or_resume,
}

module _ {P : Type 0} ⦃ps : Processes P⦄ (laws : ProcessLaws ps) where
  open laws use {suspensions, resumes}

  -- What an attempt to suspend a process does, by its result: at most one suspension more, of that
  -- process, and none if it failed.
  pub record Suspends (pid : ℕ) (s : P) (success : Bool) (s' : P) : Type 0 where
    pub one_more : suspensions s' pid ≤ suspensions s pid + 1
    pub if_failed : success ≡ false → suspensions s' pid ≤ suspensions s pid
    pub others : (q : ℕ) → q ≢ pid → suspensions s' q ≤ suspensions s q
    pub no_resume : (q : ℕ) → resumes s' q ≡ resumes s q

  -- What an attempt to resume a process does: none is suspended more, a success takes one suspension
  -- away, and no other process is told to resume.
  pub record Resumes (pid : ℕ) (s : P) (success : Bool) (s' : P) : Type 0 where
    pub one_less : success ≡ true → suspensions s' pid ≤ suspensions s pid - 1
    pub no_more : (q : ℕ) → suspensions s' q ≤ suspensions s q
    pub others : (q : ℕ) → q ≢ pid → resumes s' q ≡ resumes s q

  pub Suspends-Quiet : (pid : ℕ) {s t : P} → Quiet suspensions resumes s t → Suspends pid s false t
  Suspends-Quiet pid q = record {
    one_more = omega (arith, q.no_more pid);
    if_failed = λ _. q.no_more pid;
    others = λ p _. q.no_more p;
    no_resume = q.no_resume;
  }

  pub Resumes-Quiet : (pid : ℕ) {s t : P} → Quiet suspensions resumes s t → Resumes pid s false t
  Resumes-Quiet pid q = record {
    one_less = λ e. cc;
    no_more = q.no_more;
    others = λ p _. q.no_resume p;
  }

  pub Suspends-between :
      {pid : ℕ} {success : Bool} {s t u v : P}
      → Quiet suspensions resumes s t
      → Suspends pid t success u
      → Quiet suspensions resumes u v
      → Suspends pid s success v
  Suspends-between {pid} a e b = record {
    one_more = omega (arith, a.no_more pid, e.one_more, b.no_more pid);
    if_failed = λ f. omega (arith, a.no_more pid, e.if_failed f, b.no_more pid);
    others = λ p d. omega (arith, a.no_more p, e.others p d, b.no_more p);
    no_resume = λ p. b.no_resume p ∙ (e.no_resume p ∙ a.no_resume p);
  }

  pub Resumes-between :
      {pid : ℕ} {success : Bool} {s t u v : P}
      → Quiet suspensions resumes s t
      → Resumes pid t success u
      → Quiet suspensions resumes u v
      → Resumes pid s success v
  Resumes-between {pid} a e b = record {
    one_less = λ f. omega (arith, a.no_more pid, e.one_less f, b.no_more pid);
    no_more = λ p. omega (arith, a.no_more p, e.no_more p, b.no_more p);
    others = λ p d. b.no_resume p ∙ (e.others p d ∙ a.no_resume p);
  }

  pub nt_suspend-Suspends :
      (h : Handle) (s : P)
      → Suspends h.target s (ps.nt_suspend_process h s).0 (ps.nt_suspend_process h s).1
  nt_suspend-Suspends h s = record {
    one_more = laws.suspend_self h s;
    if_failed = laws.suspend_failed h s;
    others = λ q d. laws.suspend_other h q s d;
    no_resume = λ q. laws.suspend_no_resume h q s;
  }

  pub nt_resume-Resumes :
      (h : Handle) (s : P)
      → Resumes h.target s (ps.nt_resume_process h s).0 (ps.nt_resume_process h s).1
  nt_resume-Resumes h s = record {
    one_less = laws.resume_self h s;
    no_more = λ q. laws.resume_no_more h q s;
    others = λ q d. laws.resume_other h q s d;
  }

  pub apply_policies-Quiet :
      (h : Handle) (on : Bool) (config : AppConfig) (s : P)
      → Quiet suspensions resumes s (apply_policies h on config s)
  unfolding apply_policies
  apply_policies-Quiet h on config s =
      let s1 = if config.lower_memory_priority then ps.set_memory_priority h on s else s in
      Quiet-trans
        (Quiet-if config.lower_memory_priority s (ps.set_memory_priority h on s) s
          (laws.priority_quiet h on s) (Quiet-refl s))
        (Quiet-if config.enable_power_throttling s1 (ps.set_power_throttling h on s1) s1
          (laws.throttling_quiet h on s1) (Quiet-refl s1))

  pub trim_if-Quiet :
      (test : Bool) (h : Handle) (s : P) → Quiet suspensions resumes s (trim_if test h s)
  unfolding trim_if
  trim_if-Quiet test h s =
      Quiet-if test s (ps.empty_working_set h s).1 s (laws.trim_quiet h s) (Quiet-refl s)

  find_procedures-Quiet : (s : P) → Quiet suspensions resumes s (find_procedures s).1
  unfolding find_procedures
  find_procedures-Quiet s =
      let name = codes "ntdll.dll" in
      let s1 = (ps.has_proc name (codes "NtSuspendProcess") s).1 in
      Quiet-trans (laws.proc_quiet name (codes "NtSuspendProcess") s)
        (laws.proc_quiet name (codes "NtResumeProcess") s1)

  -- Two quiet tests stand before the call.
  module _ (h : Handle) (s : P) where
    s1 : P
    s1 = (ps.has_module (codes "ntdll.dll") s).1

    s2 : P
    unfolding s1
    s2 = (find_procedures s1).1

    looked_up : Quiet suspensions resumes s s2
    unfolding s2
    looked_up = Quiet-trans (laws.module_quiet (codes "ntdll.dll") s) (find_procedures-Quiet s1)

    pub invoke-Suspends :
        Suspends h.target s
          (invoke_suspend_or_resume h true s).0
          (invoke_suspend_or_resume h true s).1
    unfolding invoke_suspend_or_resume call_suspend_or_resume s2
    invoke-Suspends = elim (Bool-cases (ps.has_module (codes "ntdll.dll") s).0) [
      | inr e ↦
          rw (e, invoke_suspend_or_resume)
            (Suspends-Quiet h.target (laws.module_quiet (codes "ntdll.dll") s))
      | inl e ↦
          rw (e, invoke_suspend_or_resume)
            (elim (Bool-cases (find_procedures s1).0) [
              | inr e' ↦ rw e' (Suspends-Quiet h.target looked_up)
              | inl e' ↦ rw e' (
                  Suspends-between looked_up (nt_suspend-Suspends h s2)
                    (Quiet-refl (ps.nt_suspend_process h s2).1))
            ])
    ]

    pub invoke-Resumes :
        Resumes h.target s
          (invoke_suspend_or_resume h false s).0
          (invoke_suspend_or_resume h false s).1
    unfolding invoke_suspend_or_resume call_suspend_or_resume s2
    invoke-Resumes = elim (Bool-cases (ps.has_module (codes "ntdll.dll") s).0) [
      | inr e ↦
          rw (e, invoke_suspend_or_resume)
            (Resumes-Quiet h.target (laws.module_quiet (codes "ntdll.dll") s))
      | inl e ↦
          rw (e, invoke_suspend_or_resume)
            (elim (Bool-cases (find_procedures s1).0) [
              | inr e' ↦ rw e' (Resumes-Quiet h.target looked_up)
              | inl e' ↦ rw e' (
                  Resumes-between looked_up (nt_resume-Resumes h s2)
                    (Quiet-refl (ps.nt_resume_process h s2).1))
            ])
    ]
