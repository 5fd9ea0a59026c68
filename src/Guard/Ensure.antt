-- ===== src/Guard/Ensure.antt =====
-- The heartbeat and the loop body of `ensure_group_state` in src/browser_guard.c, for one entry.
use browser_guard.Prelude.{
  ℕ, ◌<◌, ◌≡◌, refl, sym, subst, ◌∙◌, Bool, true, false, ◌&&◌, arith, if◌then◌else◌, dword_mod,
}
use mathlib.Core.Bool.{xor}
use browser_guard.Windows.{Files, Processes, Desktop}
use browser_guard.Windows.Laws.{FileLaws, ProcessLaws, ProcessRanges}
use browser_guard.Config.{AppConfig}
use browser_guard.ProcessControl.{BrowserGroup}
use browser_guard.ProcessControl.Probe.{probe_browser_window}
use browser_guard.Guard.{TrackedProcess, Env, suspend_in, unregister_in}
use browser_guard.Guard.Entry.{
  touch_entry, probe_window, update_background_mode, suspend_entry, resume_entry, probe_entry,
  run_suspend_heartbeat, ensure_entry, should_suspend, heartbeat_is_due, disable_suspension,
}
use browser_guard.Guard.Holds
use browser_guard.Guard.Holds.{
  bit, Holds-weaken, Holds-desktop, Holds-resume, Holds-suspend, Holds-unregister,
}
use browser_guard.Guard.Kept
use browser_guard.Guard.Kept.{
  Kept-if, own_pid, touch_entry-Kept, update_background_mode-Kept, maintain_entry-Kept,
  suspend_entry-Kept, resume_entry-Kept,
}

xor-false : (a b : Bool) → xor a b ≡ true → b ≡ true → a ≡ false
unfolding xor
xor-false true true h h' = sym h
xor-false true false h h' = sym h'
xor-false false b h h' = refl

module _ {P F D : Type 0} where
  -- A probe looks at the desktop only.
  record Probed (e : TrackedProcess) (env : Env P F D) (o : TrackedProcess × Env P F D)
      : Type 0 where
    pub same_pid : o.0.pid ≡ e.pid
    pub same_suspended : o.0.suspended ≡ e.suspended
    pub only_desktop : o.1 ≡ record env { desktop = o.1.desktop }

  Probed-if :
      {e : TrackedProcess} {env : Env P F D} (test : Bool) {o o' : TrackedProcess × Env P F D}
      → Probed e env o
      → Probed e env o'
      → Probed e env (if test then o else o')
  Probed-if true h h' = h
  Probed-if false h h' = h'

module _ {P F D : Type 0} ⦃ds : Desktop D⦄ where
  probe_window-Probed : (e : TrackedProcess) (env : Env P F D) → Probed e env (probe_window e env)
  unfolding probe_window
  probe_window-Probed e env =
      Probed-if _ (record { same_pid = refl; same_suspended = refl; only_desktop = refl })
        (record { same_pid = refl; same_suspended = refl; only_desktop = refl })

module _ {P F D : Type 0} ⦃ps : Processes P⦄ ⦃fs : Files F⦄ ⦃ds : Desktop D⦄
    (process_laws : ProcessLaws ps) (file_laws : FileLaws fs) (base : Env P F D) where
  -- A process that was resumed, with its record in the journal and its entry still suspended.
  abbrev Resumed : TrackedProcess → Env P F D → Type 0
  Resumed e env = (e.suspended ≡ true) × Holds.Holds process_laws file_laws base e.pid 0 true env

  probe_window-Resumed :
      (e : TrackedProcess) (env : Env P F D)
      → Resumed e env
      → Resumed (probe_window e env).0 (probe_window e env).1
  probe_window-Resumed e env h =
      let p = probe_window-Probed e env in
      let d = (probe_window e env).1.desktop in
      (
        p.same_suspended ∙ h.0,
        subst (λ x. Holds.Holds process_laws file_laws base (probe_window e env).0.pid 0 true x)
            (sym p.only_desktop)
            (subst
              (λ n. Holds.Holds process_laws file_laws base n 0 true (record env { desktop = d }))
              (sym p.same_pid) (Holds-desktop process_laws file_laws env h.1 d)),
      )

  probe_entry-Kept :
      (config : AppConfig) (now_tick : ℕ) (e : TrackedProcess) (env : Env P F D)
      → Resumed e env
      → Kept.Kept process_laws file_laws base e.pid (probe_entry config now_tick e env)
  unfolding probe_entry disable_suspension
  probe_entry-Kept config now_tick e env h =
      let (e1, env1) = probe_window e env in
      let (answers, d) =
        probe_browser_window e1.last_known_window config.window_probe_timeout_ms env1.desktop in
      let env2 : Env P F D = record env1 { desktop = d } in
      let known = probe_window-Resumed e env h in
      let same = (probe_window-Probed e env).same_pid in
      let ready = Holds-desktop process_laws file_laws env1 known.1 d in
      let (success, env3) = suspend_in e1.pid true config env2 in
      let held = Holds-suspend process_laws file_laws env2 ready config in
      Kept-if process_laws file_laws answers
        (λ yes_it_does.
          Kept-if process_laws file_laws success
            (λ done. record {
              same_pid = same;
              holds =
                  subst
                    (λ n.
                      Holds.Holds process_laws file_laws base n (bit e1.suspended) e1.suspended
                        env3)
                    same
                    (Holds-weaken process_laws file_laws env3 held (ground (arith, known.0))
                      (λ _. refl));
            })
            (λ failed. record {
              same_pid = same;
              holds =
                  subst
                    (λ n.
                      Holds.Holds process_laws file_laws base n 0 false (unregister_in e1.pid env3))
                    same
                    (Holds-unregister process_laws file_laws env3 (
                      Holds-weaken process_laws file_laws env3 held {c' = 0} {r' = true}
                        (ground arith) (λ _. refl)));
            }))
        (λ silent. record {
          same_pid = same;
          holds =
              subst
                (λ n. Holds.Holds process_laws file_laws base n 0 false (unregister_in e1.pid env2))
                same (Holds-unregister process_laws file_laws env2 ready);
        })

  pub run_suspend_heartbeat-Kept :
      (config : AppConfig) (now_tick : ℕ) (e : TrackedProcess) (env : Env P F D)
      → Kept.Kept process_laws file_laws base e.pid (e, env)
      → Kept.Kept process_laws file_laws base e.pid (run_suspend_heartbeat config now_tick e env)
  unfolding run_suspend_heartbeat disable_suspension
  run_suspend_heartbeat-Kept config now_tick e env h =
      let e1 : TrackedProcess = record e { last_heartbeat_tick = now_tick } in
      let (resumed, env1) = suspend_in e.pid false config env in
      let freed = Holds-resume process_laws file_laws env h.holds config (ground arith) in
      Kept-if process_laws file_laws (e.suspended && heartbeat_is_due config now_tick e)
        (λ due.
          Kept-if process_laws file_laws resumed
            (λ done. probe_entry-Kept config now_tick e1 env1 (
              ground arith,
              Holds-weaken process_laws file_laws env1 freed (ground arith) (ground arith),
            ))
            (λ failed. record {
              same_pid = refl;
              holds = Holds-weaken process_laws file_laws env1 freed (ground arith) (λ x. x);
            }))
        (λ _. h)

  pub ensure_entry-Kept :
      (g : BrowserGroup) (config : AppConfig) (now_tick : ℕ) (e : TrackedProcess) (env : Env P F D)
      → ProcessRanges ps
      → e.pid < dword_mod
      → Kept.Kept process_laws file_laws base e.pid (e, env)
      → Kept.Kept process_laws file_laws base e.pid (ensure_entry g config now_tick e env)
  unfolding ensure_entry
  ensure_entry-Kept g config now_tick e0 env0 ranges small h =
      let (e1, env1) = touch_entry g now_tick e0 env0 in
      let suspend = should_suspend g config now_tick e1 in
      let (e2, env2) = update_background_mode g config now_tick e1 env1 in
      let (e3, env3) = run_suspend_heartbeat config now_tick e2 env2 in
      let h1 = touch_entry-Kept process_laws file_laws g now_tick e0 env0 h in
      let h2 = update_background_mode-Kept process_laws file_laws g config now_tick e1 env1 h1 in
      let fits : e2.pid < dword_mod = ground (arith, h2.same_pid) in
      Kept-if process_laws file_laws (xor e2.suspended suspend)
        (λ differs.
          Kept-if process_laws file_laws suspend
            (λ on.
              own_pid process_laws file_laws e2 env2 (suspend_entry config now_tick e2 env2)
                (λ k.
                  suspend_entry-Kept process_laws file_laws config now_tick e2 env2 k ranges fits
                    (xor-false e2.suspended suspend differs on))
                h2)
            (λ off.
              own_pid process_laws file_laws e2 env2 (resume_entry config now_tick e2 env2)
                (λ k. resume_entry-Kept process_laws file_laws config now_tick e2 env2 k) h2))
        (λ same. maintain_entry-Kept process_laws file_laws suspend config now_tick e3 env3 (
          own_pid process_laws file_laws e2 env2 (e3, env3)
            (λ k. run_suspend_heartbeat-Kept config now_tick e2 env2 k) h2))
