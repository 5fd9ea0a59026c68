-- ===== src/Guard/Pass.antt =====
-- The passes of src/browser_guard.c over all tracked processes: resuming them, keeping the entries of
-- a group up to date, and dropping those that are gone.
use browser_guard.Prelude.{
  ℕ, Bool, false, none, some, List, [], ◌∷◌, ◌++◌, length, leb, if◌then◌else◌,
}
use browser_guard.Windows.{Files, Processes, Desktop}
use browser_guard.Config.{AppConfig}
use browser_guard.ProcessControl.{BrowserGroup, max_tracked_processes}
use browser_guard.ProcessControl.Suspend.{restore_process_foreground_mode}
use browser_guard.Guard.{TrackedProcess, Env, on_processes, suspend_in, unregister_in}
use browser_guard.Guard.Tracked.{find_tracked_process, put_tracked, hold_resumed_processes}
use browser_guard.Guard.Entry.{new_entry, ensure_entry}

module _ {P F D : Type 0} ⦃ps : Processes P⦄ ⦃fs : Files F⦄ where
  -- `set_process_suspended (…, false, …)`, and on success the record goes.
  unfoldable pub release : AppConfig → ℕ → Env P F D → Bool × Env P F D
  release config pid env =
      let (success, env1) = suspend_in pid false config env in
      (success, (if success then unregister_in pid env1 else env1))

  unfoldable pub resume_if_suspended :
      AppConfig → TrackedProcess → Env P F D → TrackedProcess × Env P F D
  resume_if_suspended config e env =
      let (success, env1) = release config e.pid env in
      if e.suspended
      then ((if success then record e { suspended = false } else e), env1)
      else (e, env)

  unfoldable pub resume_tracked :
      AppConfig → TrackedProcess → Env P F D → TrackedProcess × Env P F D
  resume_tracked config e env =
      let (e1, env1) = resume_if_suspended config e env in
      if e.background_mode
      then (
        record e1 { background_mode = false },
        (on_processes (restore_process_foreground_mode e.pid config) env1).1,
      )
      else (e1, env1)

  unfoldable pub resume_all_tracked :
      AppConfig → List TrackedProcess → Env P F D → List TrackedProcess × Env P F D
  resume_all_tracked config [] env = ([], env)
  resume_all_tracked config (e ∷ es) env =
      let (e1, env1) = resume_tracked config e env in
      let (es1, env2) = resume_all_tracked config es env1 in (e1 ∷ es1, env2)

  -- What dropping an entry does to its process.
  unfoldable pub release_if_suspended : AppConfig → TrackedProcess → Env P F D → Env P F D
  release_if_suspended config e env = if e.suspended then (release config e.pid env).1 else env

  unfoldable pub drop_tracked : AppConfig → TrackedProcess → Env P F D → Env P F D
  drop_tracked config e env =
      let env1 = release_if_suspended config e env in
      if e.background_mode
      then (on_processes (restore_process_foreground_mode e.pid config) env1).1
      else env1

  -- The entries that this pass did not see are dropped.
  unfoldable pub cleanup_tracked_processes :
      AppConfig → List TrackedProcess → Env P F D → List TrackedProcess × Env P F D
  cleanup_tracked_processes config [] env = ([], env)
  cleanup_tracked_processes config (e ∷ es) env =
      let env1 = if e.seen_this_pass then env else drop_tracked config e env in
      let (es1, env2) = cleanup_tracked_processes config es env1 in
      ((if e.seen_this_pass then record e { seen_this_pass = false } ∷ es1 else es1), env2)

  -- A request to resume, from the hotkey or a click.
  unfoldable pub resume_requested :
      AppConfig → ℕ → List TrackedProcess → Env P F D → List TrackedProcess × Env P F D
  resume_requested config now_tick tracked env =
      let (tracked1, env1) = resume_all_tracked config tracked env in
      (hold_resumed_processes now_tick config.manual_resume_grace_ms tracked1, env1)

module _ {P F D : Type 0} ⦃ps : Processes P⦄ ⦃fs : Files F⦄ ⦃ds : Desktop D⦄ where
  -- The body of the loop of `ensure_group_state`. A new process is left alone once the array is full.
  unfoldable pub ensure_pid :
      BrowserGroup
      → AppConfig
      → ℕ
      → ℕ
      → List TrackedProcess
      → Env P F D
      → List TrackedProcess × Env P F D
  ensure_pid g config now_tick pid tracked env = elim (find_tracked_process pid tracked) [
    | some e ↦
        (let (e1, env1) = ensure_entry g config now_tick e env in (put_tracked e1 tracked, env1))
    | none ↦
        (let (e, env1) = new_entry g now_tick pid env in
          let (e1, env2) = ensure_entry g config now_tick e env1 in
          if leb max_tracked_processes (length tracked)
          then (tracked, env)
          else (tracked ++ e1 ∷ [], env2))
  ]

  unfoldable pub ensure_pids :
      BrowserGroup
      → AppConfig
      → ℕ
      → List ℕ
      → List TrackedProcess
      → Env P F D
      → List TrackedProcess × Env P F D
  ensure_pids g config now_tick [] tracked env = (tracked, env)
  ensure_pids g config now_tick (pid ∷ pids) tracked env =
      let (tracked1, env1) = ensure_pid g config now_tick pid tracked env in
      ensure_pids g config now_tick pids tracked1 env1

  unfoldable pub ensure_group_state :
      BrowserGroup
      → AppConfig
      → ℕ
      → List TrackedProcess
      → Env P F D
      → List TrackedProcess × Env P F D
  ensure_group_state g config now_tick tracked env =
      ensure_pids g config now_tick g.pids tracked env

  unfoldable pub ensure_groups :
      List BrowserGroup
      → AppConfig
      → ℕ
      → List TrackedProcess
      → Env P F D
      → List TrackedProcess × Env P F D
  ensure_groups [] config now_tick tracked env = (tracked, env)
  ensure_groups (g ∷ gs) config now_tick tracked env =
      let (tracked1, env1) = ensure_group_state g config now_tick tracked env in
      ensure_groups gs config now_tick tracked1 env1

  -- One turn of the loop of `run_browser_guard`, given the groups that were collected: a resume
  -- request is served, the groups are brought up to date and the unseen entries dropped.
  unfoldable pub run_pass :
      Bool
      → List BrowserGroup
      → AppConfig
      → ℕ
      → List TrackedProcess
      → Env P F D
      → List TrackedProcess × Env P F D
  run_pass requested groups config now_tick tracked env =
      let (tracked1, env1) =
        if requested then resume_requested config now_tick tracked env else (tracked, env) in
      let (tracked2, env2) = ensure_groups groups config now_tick tracked1 env1 in
      cleanup_tracked_processes config tracked2 env2
