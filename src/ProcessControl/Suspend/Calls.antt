-- ===== src/ProcessControl/Suspend/Calls.antt =====
-- What the functions of src/process_control.c that the guard calls do to suspensions.
use browser_guard.Prelude.{
  ℕ, ◌≡◌, Bool, true, false, ◌&&◌, some, inl, inr, subst, if◌then◌else◌, Option-cases, Bool-cases,
}
use browser_guard.Windows.{Processes, Handle}
use browser_guard.Windows.Laws.{ProcessLaws, Quiet}
use browser_guard.Windows.Quiet.{Quiet-refl, Quiet-trans, Quiet-if, Quiet-option}
use browser_guard.Config.{AppConfig}
use browser_guard.ProcessControl.Suspend.{
  apply_policies, open_process_for_management, trim_if, invoke_suspend_or_resume,
  set_process_background_mode, restore_process_foreground_mode, before_call, after_failure,
  after_success, set_opened_suspended, set_process_suspended, maintain_opened,
  maintain_suspended_process,
}
use browser_guard.ProcessControl.Suspend.Effects
use browser_guard.ProcessControl.Suspend.Effects.{
  Suspends-Quiet, Resumes-Quiet, Suspends-between, Resumes-between, apply_policies-Quiet,
  trim_if-Quiet, invoke-Suspends, invoke-Resumes,
}

module _ {P : Type 0} ⦃ps : Processes P⦄ (laws : ProcessLaws ps) where
  open laws use {suspensions, resumes}

  after_success-Quiet :
      (h : Handle) (suspend : Bool) (config : AppConfig) (s : P)
      → Quiet suspensions resumes s (after_success h suspend config s)
  unfolding after_success
  after_success-Quiet h suspend config s =
      let s1 = trim_if (suspend && config.trim_working_set) h s in
      let s2 = if suspend then s1 else apply_policies h false config s1 in
      Quiet-trans (trim_if-Quiet laws (suspend && config.trim_working_set) h s) (
        Quiet-trans
          (Quiet-if suspend s1 s1 (apply_policies h false config s1) (Quiet-refl s1)
            (apply_policies-Quiet laws h false config s1))
          (laws.close_quiet h s2))

  after_failure-Quiet :
      (h : Handle) (suspend : Bool) (config : AppConfig) (s : P)
      → Quiet suspensions resumes s (after_failure h suspend config s)
  unfolding after_failure
  after_failure-Quiet h suspend config s =
      let s1 = if suspend then apply_policies h false config s else s in
      Quiet-trans
        (Quiet-if suspend s (apply_policies h false config s) s
          (apply_policies-Quiet laws h false config s) (Quiet-refl s))
        (laws.close_quiet h s1)

  after_call-Quiet :
      (success : Bool) (h : Handle) (suspend : Bool) (config : AppConfig) (s : P)
      → Quiet suspensions resumes s
          (if success then after_success h suspend config s else after_failure h suspend config s)
  after_call-Quiet success h suspend config s =
      Quiet-if success s (after_success h suspend config s) (after_failure h suspend config s)
        (after_success-Quiet h suspend config s) (after_failure-Quiet h suspend config s)

  before_call-Quiet :
      (h : Handle) (suspend : Bool) (config : AppConfig) (s : P)
      → Quiet suspensions resumes s (before_call h suspend config s)
  unfolding before_call
  before_call-Quiet h suspend config s =
      Quiet-if suspend s (apply_policies h true config s) s
        (apply_policies-Quiet laws h true config s) (Quiet-refl s)

  set_opened-Suspends :
      (h : Handle) (config : AppConfig) (s : P)
      → let o = set_opened_suspended h true config s in Effects.Suspends laws h.target s o.0 o.1
  unfolding set_opened_suspended
  set_opened-Suspends h config s =
      let s1 = before_call h true config s in
      let o = invoke_suspend_or_resume h true s1 in
      Suspends-between laws (before_call-Quiet h true config s) (invoke-Suspends laws h s1)
        (after_call-Quiet o.0 h true config o.1)

  set_opened-Resumes :
      (h : Handle) (config : AppConfig) (s : P)
      → let o = set_opened_suspended h false config s in Effects.Resumes laws h.target s o.0 o.1
  unfolding set_opened_suspended
  set_opened-Resumes h config s =
      let s1 = before_call h false config s in
      let o = invoke_suspend_or_resume h false s1 in
      Resumes-between laws (before_call-Quiet h false config s) (invoke-Resumes laws h s1)
        (after_call-Quiet o.0 h false config o.1)

  open-Quiet :
      (pid : ℕ) (needs_quota : Bool) (s : P)
      → Quiet suspensions resumes s (open_process_for_management pid needs_quota s).1
  unfolding open_process_for_management
  open-Quiet pid needs_quota s = laws.open_quiet _ pid s

  open-target :
      (pid : ℕ) (needs_quota : Bool) (s : P) (h : Handle)
      → (open_process_for_management pid needs_quota s).0 ≡ some h
      → h.target ≡ pid
  unfolding open_process_for_management
  open-target pid needs_quota s h e = laws.open_target _ pid s h e

  -- An attempt to suspend a process suspends that process at most, at most once, and not at all
  -- where it reports failure.
  pub set_process_suspended-Suspends :
      (pid : ℕ) (config : AppConfig) (s : P)
      → let o = set_process_suspended pid true config s in Effects.Suspends laws pid s o.0 o.1
  unfolding set_process_suspended
  set_process_suspended-Suspends pid config s =
      let o = open_process_for_management pid config.trim_working_set s in
      let quiet = open-Quiet pid config.trim_working_set s in
      elim (Option-cases o.0) [
        | inl e ↦ rw (e, set_process_suspended) (Suspends-Quiet laws pid quiet)
        | inr (h, e) ↦
            rw (e, set_process_suspended)
              (Suspends-between laws quiet
                (subst
                  (λ n.
                    let r = set_opened_suspended h true config o.1 in
                    Effects.Suspends laws n o.1 r.0 r.1)
                  (open-target pid config.trim_working_set s h e)
                  (set_opened-Suspends h config o.1))
                (Quiet-refl (set_opened_suspended h true config o.1).1))
      ]

  -- An attempt to resume a process suspends nothing, takes one suspension of it away where it
  -- reports success, and resumes no other process.
  pub set_process_suspended-Resumes :
      (pid : ℕ) (config : AppConfig) (s : P)
      → let o = set_process_suspended pid false config s in Effects.Resumes laws pid s o.0 o.1
  unfolding set_process_suspended
  set_process_suspended-Resumes pid config s =
      let o = open_process_for_management pid config.trim_working_set s in
      let quiet = open-Quiet pid config.trim_working_set s in
      elim (Option-cases o.0) [
        | inl e ↦ rw (e, set_process_suspended) (Resumes-Quiet laws pid quiet)
        | inr (h, e) ↦
            rw (e, set_process_suspended)
              (Resumes-between laws quiet
                (subst
                  (λ n.
                    let r = set_opened_suspended h false config o.1 in
                    Effects.Resumes laws n o.1 r.0 r.1)
                  (open-target pid config.trim_working_set s h e) (set_opened-Resumes h config o.1))
                (Quiet-refl (set_opened_suspended h false config o.1).1))
      ]

  -- The other calls suspend and resume nothing.
  pub set_process_background_mode-Quiet :
      (pid : ℕ) (config : AppConfig) (s : P)
      → Quiet suspensions resumes s (set_process_background_mode pid config s).1
  unfolding set_process_background_mode
  set_process_background_mode-Quiet pid config s =
      let o = open_process_for_management pid config.trim_working_set s in
      Quiet-trans (open-Quiet pid config.trim_working_set s) (
        Quiet-option o.0 o.1 _ _ (Quiet-refl o.1) (λ h.
          let s2 = apply_policies h true config o.1 in
          Quiet-trans (apply_policies-Quiet laws h true config o.1) (
            Quiet-trans (trim_if-Quiet laws config.trim_working_set h s2)
              (laws.close_quiet h (trim_if config.trim_working_set h s2)))))

  pub restore_process_foreground_mode-Quiet :
      (pid : ℕ) (config : AppConfig) (s : P)
      → Quiet suspensions resumes s (restore_process_foreground_mode pid config s).1
  unfolding restore_process_foreground_mode
  restore_process_foreground_mode-Quiet pid config s =
      let o = open_process_for_management pid false s in
      Quiet-trans (open-Quiet pid false s) (
        Quiet-option o.0 o.1 _ _ (Quiet-refl o.1) (λ h.
          Quiet-trans (apply_policies-Quiet laws h false config o.1)
            (laws.close_quiet h (apply_policies h false config o.1))))

  pub maintain_suspended_process-Quiet :
      (pid : ℕ) (config : AppConfig) (s : P)
      → Quiet suspensions resumes s (maintain_suspended_process pid config s).1
  unfolding maintain_suspended_process maintain_opened
  maintain_suspended_process-Quiet pid config s =
      let o = open_process_for_management pid true s in
      elim (Bool-cases config.trim_working_set) [
        | inr e ↦ rw (e, maintain_suspended_process) (Quiet-refl s)
        | inl e ↦
            rw (e, maintain_suspended_process)
              (Quiet-trans (open-Quiet pid true s) (
                Quiet-option o.0 o.1 _ _ (Quiet-refl o.1) (λ h.
                  let s2 = apply_policies h true config o.1 in
                  Quiet-trans (apply_policies-Quiet laws h true config o.1) (
                    Quiet-trans (laws.trim_quiet h s2)
                      (laws.close_quiet h (ps.empty_working_set h s2).1)))))
      ]
