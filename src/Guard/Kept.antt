-- ===== src/Guard/Kept.antt =====
-- The steps of a pass of src/browser_guard.c on one tracked process and its entry.
use browser_guard.Prelude.{
  ℕ, ◌<◌, ◌≡◌, refl, sym, subst, Bool, true, false, ◌&&◌, arith, inl, inr, Bool-cases, ◌==◌,
  if◌then◌else◌, dword_mod,
}
use mathlib.Core.Bool.{xor}
use browser_guard.Windows.{Files, Processes, Desktop}
use browser_guard.Windows.Laws.{FileLaws, ProcessLaws, ProcessRanges}
use browser_guard.Config.{AppConfig}
use browser_guard.ProcessControl.{BrowserGroup}
use browser_guard.ProcessControl.Suspend.{maintain_suspended_process}
use browser_guard.ProcessControl.Suspend.Calls.{
  set_process_background_mode-Quiet, restore_process_foreground_mode-Quiet,
  maintain_suspended_process-Quiet,
}
use browser_guard.Guard.{
  TrackedProcess, Env, suspend_in, unregister_in, window_restores_to_maximized,
}
use browser_guard.Guard.Entry.{
  touch_entry, probe_window, update_background_mode, maintain_entry, register_in, suspend_entry,
  resume_entry, should_use_background_mode, trim_is_due,
}
use browser_guard.Guard.Holds
use browser_guard.Guard.Holds.{
  bit, Holds-weaken, Holds-desktop, Holds-Quiet, Holds-resume, Holds-suspend, Holds-unregister,
  Holds-register,
}

module _ {P F D : Type 0} ⦃ps : Processes P⦄ ⦃fs : Files F⦄ (process_laws : ProcessLaws ps)
    (file_laws : FileLaws fs) where
  -- An entry of the process and the state it stands in.
  pub record Kept (base : Env P F D) (pid : ℕ) (o : TrackedProcess × Env P F D) : Type 0 where
    pub same_pid : o.0.pid ≡ pid
    pub holds : Holds.Holds process_laws file_laws base pid (bit o.0.suspended) o.0.suspended o.1

  module _ {base : Env P F D} {pid : ℕ} where
    pub Kept-if :
        (test : Bool) {o o' : TrackedProcess × Env P F D}
        → (test ≡ true → Kept base pid o)
        → (test ≡ false → Kept base pid o')
        → Kept base pid (if test then o else o')
    Kept-if true h h' = h refl
    Kept-if false h h' = h' refl

    pub touch_entry-Kept :
        ⦃ds : Desktop D⦄ (g : BrowserGroup) (now_tick : ℕ) (e : TrackedProcess) (env : Env P F D)
        → Kept base pid (e, env)
        → Kept base pid (touch_entry g now_tick e env)
    unfolding touch_entry
    touch_entry-Kept g now_tick e env h =
        Kept-if (g.anchor_window == 0) (λ _. record { same_pid = h.same_pid; holds = h.holds })
          (λ _. record {
            same_pid = h.same_pid;
            holds =
                Holds-desktop process_laws file_laws env h.holds
                  (window_restores_to_maximized g.anchor_window env.desktop).1;
          })

    pub probe_window-Kept :
        ⦃ds : Desktop D⦄ (e : TrackedProcess) (env : Env P F D)
        → Kept base pid (e, env)
        → Kept base pid (probe_window e env)
    unfolding probe_window
    probe_window-Kept e env h =
        Kept-if _
          (λ _. record {
            same_pid = h.same_pid;
            holds = Holds-desktop process_laws file_laws env h.holds _;
          })
          (λ _. record {
            same_pid = h.same_pid;
            holds = Holds-desktop process_laws file_laws env h.holds _;
          })

    -- A test chooses between two versions of the entry.
    pub Kept-choice :
        (test : Bool) {e e' : TrackedProcess} {env : Env P F D}
        → (test ≡ true → Kept base pid (e, env))
        → (test ≡ false → Kept base pid (e', env))
        → Kept base pid ((if test then e else e'), env)
    Kept-choice true h h' = h refl
    Kept-choice false h h' = h' refl

    -- What is shown at the entry's own id holds at the id that the entry keeps.
    pub own_pid :
        (e : TrackedProcess) (env : Env P F D) (o : TrackedProcess × Env P F D)
        → (Kept base e.pid (e, env) → Kept base e.pid o)
        → Kept base pid (e, env)
        → Kept base pid o
    own_pid e env o step h =
        subst (λ n. Kept base n o) h.same_pid
          (step (subst (λ n. Kept base n (e, env)) (sym h.same_pid) h))

    pub maintain_entry-Kept :
        (suspend : Bool) (config : AppConfig) (now_tick : ℕ) (e : TrackedProcess) (env : Env P F D)
        → Kept base pid (e, env)
        → Kept base pid (maintain_entry suspend config now_tick e env)
    unfolding maintain_entry
    maintain_entry-Kept suspend config now_tick e env h =
        Kept-if (suspend && trim_is_due config now_tick e)
          (λ _. record {
            same_pid = h.same_pid;
            holds =
                Holds-Quiet process_laws file_laws env h.holds
                  (maintain_suspended_process e.pid config env.processes).1
                  (maintain_suspended_process-Quiet process_laws e.pid config env.processes);
          })
          (λ _. h)

    pub update_background_mode-Kept :
        (g : BrowserGroup) (config : AppConfig) (now_tick : ℕ) (e : TrackedProcess)
        (env : Env P F D)
        → Kept base pid (e, env)
        → Kept base pid (update_background_mode g config now_tick e env)
    unfolding update_background_mode
    update_background_mode-Kept g config now_tick e env h =
        let wanted = should_use_background_mode g in
        let quiet = set_process_background_mode-Quiet process_laws e.pid config env.processes in
        let back = restore_process_foreground_mode-Quiet process_laws e.pid config env.processes in
        Kept-if (xor e.background_mode wanted)
          (λ _. elim (Bool-cases wanted) [
            | inl on ↦ rw on (
                Kept-choice _
                  (λ _. record {
                    same_pid = h.same_pid;
                    holds = Holds-Quiet process_laws file_laws env h.holds _ quiet;
                  })
                  (λ _. record {
                    same_pid = h.same_pid;
                    holds = Holds-Quiet process_laws file_laws env h.holds _ quiet;
                  }))
            | inr off ↦ rw off (
                Kept-choice _
                  (λ _. record {
                    same_pid = h.same_pid;
                    holds = Holds-Quiet process_laws file_laws env h.holds _ back;
                  })
                  (λ _. record {
                    same_pid = h.same_pid;
                    holds = Holds-Quiet process_laws file_laws env h.holds _ back;
                  }))
          ])
          (λ _.
            Kept-if (wanted && trim_is_due config now_tick e)
              (λ _. record {
                same_pid = h.same_pid;
                holds = Holds-Quiet process_laws file_laws env h.holds _ quiet;
              })
              (λ _. h))

  module _ {base : Env P F D} (config : AppConfig) (now_tick : ℕ) (e : TrackedProcess)
      (env : Env P F D) (h : Kept base e.pid (e, env)) where
    pub suspend_entry-Kept :
        ProcessRanges ps
        → e.pid < dword_mod
        → e.suspended ≡ false
        → Kept base e.pid (suspend_entry config now_tick e env)
    unfolding suspend_entry
    suspend_entry-Kept ranges small runs =
        let free =
          Holds-weaken process_laws file_laws env h.holds {c' = 0} {r' = false} (ground arith)
            (ground arith) in
        let (registered, env1) = register_in e.pid env in
        let known = Holds-register process_laws file_laws env ranges small free in
        let (success, env2) = suspend_in e.pid true config env1 in
        let held = Holds-suspend process_laws file_laws env1 known config in
        Kept-if registered
          (λ ok.
            Kept-if success
              (λ done. record {
                same_pid = refl;
                holds = Holds-weaken process_laws file_laws env2 held (ground arith) (ground arith);
              })
              (λ failed. record {
                same_pid = refl;
                holds =
                    Holds-weaken process_laws file_laws (unregister_in e.pid env2)
                      (Holds-unregister process_laws file_laws env2 (
                        Holds-weaken process_laws file_laws env2 held {c' = 0} {r' = false}
                          (ground arith) (ground arith)))
                      (ground arith) (ground arith);
              }))
          (λ refused. record {
            same_pid = refl;
            holds = Holds-weaken process_laws file_laws env1 known (ground arith) (ground arith);
          })

    pub resume_entry-Kept : Kept base e.pid (resume_entry config now_tick e env)
    unfolding resume_entry
    resume_entry-Kept =
        let (success, env1) = suspend_in e.pid false config env in
        let freed = Holds-resume process_laws file_laws env h.holds config (ground arith) in
        Kept-if success
          (λ done. record {
            same_pid = refl;
            holds = Holds-unregister process_laws file_laws env1 (
                Holds-weaken process_laws file_laws env1 freed {c' = 0} {r' = e.suspended}
                  (ground arith) (λ x. x));
          })
          (λ failed. record {
            same_pid = refl;
            holds = Holds-weaken process_laws file_laws env1 freed (ground arith) (λ x. x);
          })
