-- ===== src/Guard/Sweep.antt =====
-- The loops of src/browser_guard.c over all tracked processes: resuming them and dropping the unseen.
pub mod Freed
use browser_guard.Prelude.{
  ℕ, ◌<◌, ◌≡◌, refl, sym, subst, Bool, false, ◌&&◌, ◌||◌, none, List, [], ◌∷◌, arith, ◌==◌, All,
  dword_mod,
}
use browser_guard.Windows.{Files, Processes}
use browser_guard.Windows.Laws.{FileLaws, ProcessLaws}
use browser_guard.Config.{AppConfig}
use browser_guard.Guard.{TrackedProcess, Env}
use browser_guard.Guard.Tracked.{find_tracked_process, is_pid_suspended}
use browser_guard.Guard.Pass.{resume_if_suspended, resume_tracked, resume_all_tracked}
use browser_guard.Guard.Covered.{
  but, CoveredBy, Covered, CoveredBy-same, CoveredBy-Holds, Holds-CoveredBy,
}
use browser_guard.Guard.Entries.{DistinctPids, SmallPids, is_pid_suspended-none, other_pids}
use browser_guard.Guard.Release.{resume_tracked-Kept}

-- The processes of `k` and those that the entries say are suspended.
abbrev pub with_tracked : (ℕ → Bool) → List TrackedProcess → ℕ → Bool
with_tracked k es q = k q || is_pid_suspended q es

-- `k` and the process of an entry that was worked on.
abbrev pub with_entry : (ℕ → Bool) → TrackedProcess → ℕ → Bool
with_entry k e q = k q || e.pid == q && e.suspended

-- None of the entries' processes is in `k`.
abbrev pub Apart : (ℕ → Bool) → List TrackedProcess → Type 0
Apart k = All (λ e. k e.pid ≡ false)

pub Apart-with_entry :
    (k : ℕ → Bool) (e : TrackedProcess) (es : List TrackedProcess)
    → Apart k es
    → All (λ x. (e.pid == x.pid) ≡ false) es
    → Apart (with_entry k e) es
Apart-with_entry k e [] a d = tt
Apart-with_entry k e (x ∷ es) a d = (ground (arith, a.0, d.0), Apart-with_entry k e es a.1 d.1)

-- The entry's own part of what is covered, and the entries behind it.
pub own_part :
    (k : ℕ → Bool) (e : TrackedProcess) (es : List TrackedProcess)
    → k e.pid ≡ false
    → find_tracked_process e.pid es ≡ none
    → with_tracked k (e ∷ es) e.pid ≡ e.suspended
unfolding is_pid_suspended
own_part k e es a d = ground (arith, a, is_pid_suspended-none e.pid es d)

pub after_entry :
    (k : ℕ → Bool) (e e1 : TrackedProcess) (es : List TrackedProcess)
    → k e.pid ≡ false
    → find_tracked_process e.pid es ≡ none
    → e1.pid ≡ e.pid
    → (q : ℕ)
    → but (with_tracked k (e ∷ es)) e.pid e1.suspended q ≡ with_tracked (with_entry k e1) es q
unfolding is_pid_suspended
after_entry k e e1 es a d same q = ground (arith, a, is_pid_suspended-none e.pid es d)

pub joined :
    (k : ℕ → Bool) (e : TrackedProcess) (es : List TrackedProcess) (q : ℕ)
    → with_tracked (with_entry k e) es q ≡ with_tracked k (e ∷ es) q
unfolding is_pid_suspended
joined k e es q = ground arith

pub none-Apart : (es : List TrackedProcess) → Apart (λ _. false) es
none-Apart [] = tt
none-Apart (e ∷ es) = (refl, none-Apart es)

module _ {P F D : Type 0} ⦃ps : Processes P⦄ ⦃fs : Files F⦄ (process_laws : ProcessLaws ps)
    (file_laws : FileLaws fs) (config : AppConfig) where
  resume_all_tracked-CoveredBy :
      (k : ℕ → Bool) (es : List TrackedProcess) (env : Env P F D)
      → DistinctPids es
      → Apart k es
      → CoveredBy process_laws file_laws (with_tracked k es) env
      → let o = resume_all_tracked config es env in
        CoveredBy process_laws file_laws (with_tracked k o.0) o.1
  unfolding resume_all_tracked
  resume_all_tracked-CoveredBy k [] env d a c = c
  resume_all_tracked-CoveredBy k (e ∷ es) env d a c =
      let (e1, env1) = resume_tracked config e env in
      let (es1, env2) = resume_all_tracked config es env1 in
      let known =
        CoveredBy-Holds process_laws file_laws (with_tracked k (e ∷ es)) env e.pid e.suspended c
          (own_part k e es a.0 d.0) in
      let kept =
        resume_tracked-Kept process_laws file_laws config e env
          (record { same_pid = refl; holds = known }) in
      let step =
        Holds-CoveredBy process_laws file_laws (with_tracked k (e ∷ es)) env env1 e.pid e1.suspended
          c kept.holds in
      let next =
        CoveredBy-same process_laws file_laws _ (with_tracked (with_entry k e1) es) env1
          (after_entry k e e1 es a.0 d.0 kept.same_pid) step in
      let others =
        subst (λ n. All (λ x. (n == x.pid) ≡ false) es) (sym kept.same_pid)
          (other_pids e.pid es d.0) in
      CoveredBy-same process_laws file_laws _ (with_tracked k (e1 ∷ es1)) env2 (joined k e1 es1) (
        resume_all_tracked-CoveredBy (with_entry k e1) es env1 d.1
          (Apart-with_entry k e1 es a.1 others) next)

  pid-resume_tracked :
      (e : TrackedProcess) (env : Env P F D) → (resume_tracked config e env).0.pid ≡ e.pid
  unfolding resume_tracked resume_if_suspended
  pid-resume_tracked e env = ground arith

  find-resume_all_tracked :
      (q : ℕ) (es : List TrackedProcess) (env : Env P F D)
      → find_tracked_process q es ≡ none
      → find_tracked_process q (resume_all_tracked config es env).0 ≡ none
  unfolding resume_all_tracked find_tracked_process
  find-resume_all_tracked q [] env h = refl
  find-resume_all_tracked q (e ∷ es) env h = ground (
    arith,
    pid-resume_tracked e env,
    find-resume_all_tracked q es (resume_tracked config e env).1,
  )

  DistinctPids-resume_all_tracked :
      (es : List TrackedProcess) (env : Env P F D)
      → DistinctPids es
      → DistinctPids (resume_all_tracked config es env).0
  unfolding resume_all_tracked
  DistinctPids-resume_all_tracked [] env d = tt
  DistinctPids-resume_all_tracked (e ∷ es) env d =
      let env1 = (resume_tracked config e env).1 in
      (
        subst (λ n. find_tracked_process n (resume_all_tracked config es env1).0 ≡ none)
            (sym (pid-resume_tracked e env)) (find-resume_all_tracked e.pid es env1 d.0),
        DistinctPids-resume_all_tracked es env1 d.1,
      )

  SmallPids-resume_all_tracked :
      (es : List TrackedProcess) (env : Env P F D)
      → SmallPids es
      → SmallPids (resume_all_tracked config es env).0
  unfolding resume_all_tracked
  SmallPids-resume_all_tracked [] env h = tt
  SmallPids-resume_all_tracked (e ∷ es) env h = (
    subst (λ n. n < dword_mod) (sym (pid-resume_tracked e env)) h.0,
    SmallPids-resume_all_tracked es (resume_tracked config e env).1 h.1,
  )

  -- Resuming everything, whichever calls fail, keeps every process that stays suspended known,
  -- suspended once, and recorded on disk.
  pub resume_all_tracked-Covered :
      (tracked : List TrackedProcess) (env : Env P F D)
      → Covered process_laws file_laws tracked env
      → let o = resume_all_tracked config tracked env in Covered process_laws file_laws o.0 o.1
  resume_all_tracked-Covered tracked env c = record {
    covered =
        resume_all_tracked-CoveredBy (λ _. false) tracked env c.distinct (none-Apart tracked)
          c.covered;
    distinct = DistinctPids-resume_all_tracked tracked env c.distinct;
    small = SmallPids-resume_all_tracked tracked env c.small;
  }
