-- ===== src/Guard/Sweep/Freed.antt =====
-- `resume_all_tracked` of src/browser_guard.c leaves no tracked process suspended.
use browser_guard.Prelude.{
  ℕ, ◌≤◌, ◌≡◌, true, false, List, [], ◌∷◌, arith, inl, inr, Bool-cases, ◌==◌, ◌&&◌,
}
use browser_guard.Windows.{Files, Processes}
use browser_guard.Windows.Laws.{FileLaws, ProcessLaws}
use browser_guard.Config.{AppConfig}
use browser_guard.ProcessControl.Suspend.Calls.{
  set_process_suspended-Resumes, restore_process_foreground_mode-Quiet,
}
use browser_guard.Guard.{TrackedProcess, Env, suspend_in, unregister_in}
use browser_guard.Guard.Tracked.{is_pid_suspended}
use browser_guard.Guard.Pass.{release, resume_if_suspended, resume_tracked, resume_all_tracked}
use browser_guard.Guard.Covered.{Covered}
use browser_guard.Guard.Release.{FailsOnlyIfGone}

module _ {P F D : Type 0} ⦃ps : Processes P⦄ ⦃fs : Files F⦄ (process_laws : ProcessLaws ps)
    (config : AppConfig) where
  open process_laws use {suspensions}

  processes-unregister_in :
      (pid : ℕ) (env : Env P F D) → (unregister_in pid env).processes ≡ env.processes
  unfolding unregister_in
  processes-unregister_in pid env = ground arith

  release-no_more :
      (pid q : ℕ) (env : Env P F D)
      → suspensions (release config pid env).1.processes q ≤ suspensions env.processes q
  unfolding release suspend_in
  release-no_more pid q env =
      let (success, env1) = suspend_in pid false config env in
      ground (
        arith,
        (set_process_suspended-Resumes process_laws pid config env.processes).no_more q,
        processes-unregister_in pid env1,
      )

  resume_tracked-no_more :
      (q : ℕ) (e : TrackedProcess) (env : Env P F D)
      → suspensions (resume_tracked config e env).1.processes q ≤ suspensions env.processes q
  unfolding resume_tracked resume_if_suspended
  resume_tracked-no_more q e env =
      let (e1, env1) = resume_if_suspended config e env in
      ground (
        arith,
        release-no_more e.pid q env,
        (restore_process_foreground_mode-Quiet process_laws e.pid config env1.processes).no_more q,
      )

  resume_all_tracked-no_more :
      (q : ℕ) (es : List TrackedProcess) (env : Env P F D)
      → suspensions (resume_all_tracked config es env).1.processes q ≤ suspensions env.processes q
  unfolding resume_all_tracked
  resume_all_tracked-no_more q [] env = omega arith
  resume_all_tracked-no_more q (e ∷ es) env =
      let env1 = (resume_tracked config e env).1 in
      omega (arith, resume_tracked-no_more q e env, resume_all_tracked-no_more q es env1)

  module _ (ends : FailsOnlyIfGone process_laws config) where
    release-frees :
        (pid : ℕ) (env : Env P F D)
        → suspensions env.processes pid ≤ 1
        → suspensions (release config pid env).1.processes pid ≡ 0
    unfolding release suspend_in
    release-frees pid env once =
        let (success, env1) = suspend_in pid false config env in
        let r = set_process_suspended-Resumes process_laws pid config env.processes in
        ground (arith, r.one_less, ends.gone pid env.processes, processes-unregister_in pid env1)

    resume_tracked-frees :
        (e : TrackedProcess) (env : Env P F D)
        → e.suspended ≡ true
        → suspensions env.processes e.pid ≤ 1
        → suspensions (resume_tracked config e env).1.processes e.pid ≡ 0
    unfolding resume_tracked resume_if_suspended
    resume_tracked-frees e env on once =
        let (e1, env1) = resume_if_suspended config e env in
        ground (
          arith,
          release-frees e.pid env once,
          (restore_process_foreground_mode-Quiet process_laws e.pid config env1.processes).no_more
              e.pid,
        )

    resume_all_tracked-frees :
        (q : ℕ) (es : List TrackedProcess) (env : Env P F D)
        → suspensions env.processes q ≤ 1
        → is_pid_suspended q es ≡ true
        → suspensions (resume_all_tracked config es env).1.processes q ≡ 0
    unfolding resume_all_tracked is_pid_suspended
    resume_all_tracked-frees q [] env once on = cc
    resume_all_tracked-frees q (e ∷ es) env once on =
        let env1 = (resume_tracked config e env).1 in
        elim (Bool-cases (e.pid == q && e.suspended)) [
          | inl it ↦
              ground (arith, resume_tracked-frees e env, resume_all_tracked-no_more q es env1)
          | inr other ↦
              resume_all_tracked-frees q es env1
                (omega (arith, resume_tracked-no_more q e env, once)) (ground arith)
        ]

module _ {P F D : Type 0} ⦃ps : Processes P⦄ ⦃fs : Files F⦄ (process_laws : ProcessLaws ps)
    (file_laws : FileLaws fs) (config : AppConfig)
    (ends : FailsOnlyIfGone process_laws config) where
  open process_laws use {suspensions}

  -- Where every process that stands suspended is known, and a process that cannot be resumed has ended,
  -- no process stands suspended after all tracked ones were resumed.
  pub resume_all_tracked-none_left :
      (es : List TrackedProcess) (env : Env P F D)
      → Covered process_laws file_laws es env
      → (q : ℕ) → suspensions (resume_all_tracked config es env).1.processes q ≡ 0
  resume_all_tracked-none_left es env c q = elim (Bool-cases (is_pid_suspended q es)) [
    | inl on ↦
        resume_all_tracked-frees process_laws config ends q es env
          (ground (arith, c.covered.count q)) on
    | inr off ↦
        ground (arith, c.covered.count q, resume_all_tracked-no_more process_laws config q es env)
  ]
