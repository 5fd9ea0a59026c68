-- ===== src/Guard/Entry.antt =====
-- What a pass of src/browser_guard.c does to one tracked process. Ticks wrap at 2 ^ 32.
mod Decide
use browser_guard.Prelude.{
  ℕ, Bool, true, false, not, ◌&&◌, ◌||◌, none, some, leb, ◌==◌, if◌then◌else◌, add32, sub32,
  size_add,
}
use mathlib.Core.Bool.{xor}
use browser_guard.Windows.{Files, Processes, Desktop}
use browser_guard.Config.{AppConfig}
use browser_guard.Policy.{
  evaluate_suspend_policy, browser_windows_are_minimized_only, SuspendPolicyInput,
}
use browser_guard.Journal.Register.{recovery_journal_register}
use browser_guard.ProcessControl.{BrowserGroup}
use browser_guard.ProcessControl.Suspend.{
  set_process_background_mode, restore_process_foreground_mode, maintain_suspended_process,
}
use browser_guard.ProcessControl.Probe.{find_browser_window_for_pid, probe_browser_window}
use browser_guard.Guard.{
  TrackedProcess, Env, tick_deadline_reached, on_processes, suspend_in, unregister_in,
  window_restores_to_maximized,
}
unfoldable pub use Decide.*

module _ {P F D : Type 0} ⦃ds : Desktop D⦄ where
  unfoldable pub new_entry : BrowserGroup → ℕ → ℕ → Env P F D → TrackedProcess × Env P F D
  new_entry g now_tick pid env =
      let (maximized, d) = window_restores_to_maximized g.anchor_window env.desktop in
      (
        record {
          pid = pid;
          exe_name = g.exe_name;
          last_known_window = g.anchor_window;
          last_known_window_was_maximized = maximized;
          suspended = false;
          background_mode = false;
          suspend_disabled = false;
          seen_this_pass = false;
          last_trim_tick = 0;
          last_active_tick = now_tick;
          manual_resume_until_tick = now_tick;
          last_heartbeat_tick = now_tick;
        },
        record env { desktop = d },
      )

  -- The entry is seen, and takes the group's window and activity.
  unfoldable pub touch_entry :
      BrowserGroup → ℕ → TrackedProcess → Env P F D → TrackedProcess × Env P F D
  touch_entry g now_tick e env =
      let active_tick = if group_is_active g then now_tick else e.last_active_tick in
      let (maximized, d) = window_restores_to_maximized g.anchor_window env.desktop in
      if g.anchor_window == 0
      then (record e { seen_this_pass = true; last_active_tick = active_tick }, env)
      else (
        record e {
          seen_this_pass = true;
          last_active_tick = active_tick;
          last_known_window = g.anchor_window;
          last_known_window_was_maximized = maximized;
        },
        record env { desktop = d },
      )

  -- The window that is probed: the last known one if it still exists, or one that is looked up.
  unfoldable pub probe_window : TrackedProcess → Env P F D → TrackedProcess × Env P F D
  probe_window e env =
      let (is_window, d1) = ds.is_window e.last_known_window env.desktop in
      let (window, d2) =
        find_browser_window_for_pid e.pid (if e.last_known_window == 0 then env.desktop else d1) in
      if e.last_known_window == 0 || not is_window
      then (record e { last_known_window = window }, record env { desktop = d2 })
      else (e, record env { desktop = d1 })

module _ {P F D : Type 0} ⦃ps : Processes P⦄ where
  -- Switching background mode on or off, or trimming again.
  unfoldable pub update_background_mode :
      BrowserGroup → AppConfig → ℕ → TrackedProcess → Env P F D → TrackedProcess × Env P F D
  update_background_mode g config now_tick e env =
      let wanted = should_use_background_mode g in
      let (mode_ok, env1) =
        on_processes
          (if wanted
            then set_process_background_mode e.pid config
            else restore_process_foreground_mode e.pid config)
          env in
      let (_, env2) = on_processes (set_process_background_mode e.pid config) env in
      if xor e.background_mode wanted
      then ((if mode_ok then record e { background_mode = wanted } else e), env1)
      else if wanted && trim_is_due config now_tick e
      then (record e { last_trim_tick = now_tick }, env2)
      else (e, env)

  -- Trimming a suspended process again.
  unfoldable pub maintain_entry :
      Bool → AppConfig → ℕ → TrackedProcess → Env P F D → TrackedProcess × Env P F D
  maintain_entry suspend config now_tick e env =
      if suspend && trim_is_due config now_tick e
      then (
        record e { last_trim_tick = now_tick },
        (on_processes (maintain_suspended_process e.pid config) env).1,
      )
      else (e, env)

module _ {P F D : Type 0} ⦃ps : Processes P⦄ ⦃fs : Files F⦄ where
  -- `recovery_journal != NULL && bg_recovery_journal_register (…)`.
  unfoldable pub register_in : ℕ → Env P F D → Bool × Env P F D
  register_in pid env = elim env.journal [
    | none ↦ (false, env)
    | some j ↦
        (let o = recovery_journal_register j pid env.processes env.files in
          (o.0, record env { journal = some o.1; processes = o.2; files = o.3 }))
  ]

  -- Suspending a process that runs: only with a record in the journal.
  unfoldable pub suspend_entry :
      AppConfig → ℕ → TrackedProcess → Env P F D → TrackedProcess × Env P F D
  suspend_entry config now_tick e env =
      let (registered, env1) = register_in e.pid env in
      if registered
      then (let (success, env2) = suspend_in e.pid true config env1 in
          if success
          then (
            record e {
              suspended = true;
              last_trim_tick = now_tick;
              last_heartbeat_tick = now_tick;
            },
            env2,
          )
          else (e, unregister_in e.pid env2))
      else (record e { suspend_disabled = true }, env1)

  -- Resuming a process that is suspended: only then its record goes.
  unfoldable pub resume_entry :
      AppConfig → ℕ → TrackedProcess → Env P F D → TrackedProcess × Env P F D
  resume_entry config now_tick e env =
      let (success, env1) = suspend_in e.pid false config env in
      if success
      then (
        record e {
          suspended = false;
          last_trim_tick = now_tick;
          last_heartbeat_tick = now_tick;
          last_active_tick = now_tick;
        },
        unregister_in e.pid env1,
      )
      else (e, env1)

module _ {P F D : Type 0} ⦃ps : Processes P⦄ ⦃fs : Files F⦄ ⦃ds : Desktop D⦄ where
  -- The heartbeat of a resumed process: it is suspended again only if its window answers.
  unfoldable pub probe_entry :
      AppConfig → ℕ → TrackedProcess → Env P F D → TrackedProcess × Env P F D
  probe_entry config now_tick e env =
      let (e1, env1) = probe_window e env in
      let (answers, d) =
        probe_browser_window e1.last_known_window config.window_probe_timeout_ms env1.desktop in
      let env2 : Env P F D = record env1 { desktop = d } in
      let awake = disable_suspension config now_tick (record e1 { suspended = false }) in
      if answers
      then (let (success, env3) = suspend_in e1.pid true config env2 in
          if success then (e1, env3) else (awake, unregister_in e1.pid env3))
      else (awake, unregister_in e1.pid env2)

  unfoldable pub run_suspend_heartbeat :
      AppConfig → ℕ → TrackedProcess → Env P F D → TrackedProcess × Env P F D
  run_suspend_heartbeat config now_tick e env =
      let e1 : TrackedProcess = record e { last_heartbeat_tick = now_tick } in
      if e.suspended && heartbeat_is_due config now_tick e
      then (let (resumed, env1) = suspend_in e.pid false config env in
          if resumed
          then probe_entry config now_tick e1 env1
          else (disable_suspension config now_tick e1, env1))
      else (e, env)

  -- The body of the loop of `ensure_group_state`, for a tracked process.
  unfoldable pub ensure_entry :
      BrowserGroup → AppConfig → ℕ → TrackedProcess → Env P F D → TrackedProcess × Env P F D
  ensure_entry g config now_tick e0 env0 =
      let (e1, env1) = touch_entry g now_tick e0 env0 in
      let suspend = should_suspend g config now_tick e1 in
      let (e2, env2) = update_background_mode g config now_tick e1 env1 in
      let (e3, env3) = run_suspend_heartbeat config now_tick e2 env2 in
      if xor e2.suspended suspend
      then (if suspend
          then suspend_entry config now_tick e2 env2
          else resume_entry config now_tick e2 env2)
      else maintain_entry suspend config now_tick e3 env3
