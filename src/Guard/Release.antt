-- ===== src/Guard/Release.antt =====
-- Resuming all tracked processes and dropping those that are gone, in src/browser_guard.c.
use browser_guard.Prelude.{ℕ, ◌≤◌, ◌≡◌, refl, false, arith, inl, inr, Bool-cases, if◌then◌else◌}
use browser_guard.Windows.{Files, Processes}
use browser_guard.Windows.Laws.{FileLaws, ProcessLaws}
use browser_guard.Config.{AppConfig}
use browser_guard.ProcessControl.Suspend.{set_process_suspended}
use browser_guard.ProcessControl.Suspend.Calls.{restore_process_foreground_mode-Quiet}
use browser_guard.Guard.{TrackedProcess, Env, suspend_in}
use browser_guard.Guard.Pass.{
  release, resume_if_suspended, release_if_suspended, resume_tracked, drop_tracked,
}
use browser_guard.Guard.Holds
use browser_guard.Guard.Holds.{
  bit, Holds-if, Holds-weaken, Holds-Quiet, Holds-resume, Holds-unregister,
}
use browser_guard.Guard.Kept
use browser_guard.Guard.Kept.{Kept-if, Kept-choice}

-- A process that cannot be resumed does not stand suspended: it has ended.
pub record FailsOnlyIfGone {P : Type 0} ⦃ps : Processes P⦄ (process_laws : ProcessLaws ps)
    (config : AppConfig) : Type 0 where
  pub gone :
      (pid : ℕ) (s : P)
      → (set_process_suspended pid false config s).0 ≡ false
      → process_laws.suspensions (set_process_suspended pid false config s).1 pid ≡ 0

module _ {P F D : Type 0} ⦃ps : Processes P⦄ ⦃fs : Files F⦄ (process_laws : ProcessLaws ps)
    (file_laws : FileLaws fs) {base : Env P F D} (config : AppConfig) (e : TrackedProcess)
    (env : Env P F D) (h : Kept.Kept process_laws file_laws base e.pid (e, env)) where
  release-Holds :
      let o = release config e.pid env in
      Holds.Holds process_laws file_laws base e.pid
        (if o.0 then 0 else bit e.suspended)
        (if o.0 then false else e.suspended)
        o.1
  unfolding release
  release-Holds =
      let (success, env1) = suspend_in e.pid false config env in
      let freed = Holds-resume process_laws file_laws env h.holds config (ground arith) in
      elim (Bool-cases success) [
        | inl done ↦ rw done (
            Holds-unregister process_laws file_laws env1 (
              Holds-weaken process_laws file_laws env1 freed {c' = 0} {r' = e.suspended}
                (ground arith) (λ x. x)))
        | inr failed ↦
            rw failed (Holds-weaken process_laws file_laws env1 freed (ground arith) (λ x. x))
      ]

  resume_if_suspended-Kept :
      Kept.Kept process_laws file_laws base e.pid (resume_if_suspended config e env)
  unfolding resume_if_suspended
  resume_if_suspended-Kept =
      let (success, env1) = release config e.pid env in
      Kept-if process_laws file_laws e.suspended
        (λ on.
          Kept-choice process_laws file_laws success {e = record e { suspended = false }}
            (λ done. record {
              same_pid = refl;
              holds =
                  Holds-weaken process_laws file_laws env1 release-Holds (ground arith)
                    (ground arith);
            })
            (λ failed. record {
              same_pid = refl;
              holds =
                  Holds-weaken process_laws file_laws env1 release-Holds (ground arith)
                    (ground arith);
            }))
        (λ off. h)

  pub resume_tracked-Kept :
      Kept.Kept process_laws file_laws base e.pid (resume_tracked config e env)
  unfolding resume_tracked
  resume_tracked-Kept =
      let (e1, env1) = resume_if_suspended config e env in
      let k = resume_if_suspended-Kept in
      let quiet = restore_process_foreground_mode-Quiet process_laws e.pid config env1.processes in
      Kept-if process_laws file_laws e.background_mode
        (λ _. record {
          same_pid = k.same_pid;
          holds = Holds-Quiet process_laws file_laws env1 k.holds _ quiet;
        })
        (λ _. k)

  released-count :
      FailsOnlyIfGone process_laws config
      → process_laws.suspensions (release config e.pid env).1.processes e.pid ≤ 0
  released-count ends = elim (Bool-cases (release config e.pid env).0) [
    | inl done ↦ ground (arith, release-Holds.count)
    | inr failed ↦ unfold release suspend_in in ground (arith, ends.gone e.pid env.processes)
  ]

  released :
      FailsOnlyIfGone process_laws config
      → Holds.Holds process_laws file_laws base e.pid 0 false (release config e.pid env).1
  released ends =
      let known = release-Holds in
      record {
        count = released-count ends;
        in_journal = λ x. cc;
        good = known.good;
        others = known.others;
        others_recorded = known.others_recorded;
      }

  release_if_suspended-Holds :
      FailsOnlyIfGone process_laws config
      → Holds.Holds process_laws file_laws base e.pid 0 false (release_if_suspended config e env)
  unfolding release_if_suspended
  release_if_suspended-Holds ends =
      Holds-if process_laws file_laws e.suspended (λ on. released ends)
        (λ off. Holds-weaken process_laws file_laws env h.holds (ground arith) (ground arith))

  -- A dropped entry leaves no suspended process behind.
  pub drop_tracked-Holds :
      FailsOnlyIfGone process_laws config
      → Holds.Holds process_laws file_laws base e.pid 0 false (drop_tracked config e env)
  unfolding drop_tracked
  drop_tracked-Holds ends =
      let env1 = release_if_suspended config e env in
      let held = release_if_suspended-Holds ends in
      let quiet = restore_process_foreground_mode-Quiet process_laws e.pid config env1.processes in
      Holds-if process_laws file_laws e.background_mode
        (λ _. Holds-Quiet process_laws file_laws env1 held _ quiet) (λ _. held)
