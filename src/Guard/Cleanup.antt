-- ===== src/Guard/Cleanup.antt =====
-- Dropping the entries of processes that a pass of src/browser_guard.c did not see.
use browser_guard.Prelude.{
  ℕ, ◌≡◌, refl, Bool, true, false, ◌&&◌, none, List, [], ◌∷◌, arith, inl, inr, Bool-cases,
  if◌then◌else◌,
}
use browser_guard.Windows.{Files, Processes}
use browser_guard.Windows.Laws.{FileLaws, ProcessLaws}
use browser_guard.Config.{AppConfig}
use browser_guard.Guard.{TrackedProcess, Env}
use browser_guard.Guard.Tracked.{find_tracked_process, is_pid_suspended}
use browser_guard.Guard.Pass.{drop_tracked, cleanup_tracked_processes}
use browser_guard.Guard.Holds.{Holds-weaken}
use browser_guard.Guard.Covered.{
  CoveredBy, Covered, CoveredBy-same, CoveredBy-Holds, Holds-CoveredBy,
}
use browser_guard.Guard.Entries.{DistinctPids, SmallPids, other_pids}
use browser_guard.Guard.Release.{FailsOnlyIfGone, drop_tracked-Holds}
use browser_guard.Guard.Sweep.{
  with_tracked, with_entry, Apart, Apart-with_entry, own_part, after_entry, none-Apart,
}

-- An entry as it counts after the clean-up: an unseen one is not suspended.
abbrev swept : TrackedProcess → TrackedProcess
swept e = record e { suspended = e.seen_this_pass && e.suspended }

left :
    (k : ℕ → Bool) (e : TrackedProcess) (es : List TrackedProcess) (q : ℕ)
    → with_tracked (with_entry k (swept e)) es q
      ≡ with_tracked k (if e.seen_this_pass then record e { seen_this_pass = false } ∷ es else es) q
left k e es q = elim (Bool-cases e.seen_this_pass) [
  | inl seen ↦ unfold is_pid_suspended in rw seen (ground arith)
  | inr unseen ↦ rw unseen (ground arith)
]

find-cleanup :
    {P F D : Type 0} ⦃ps : Processes P⦄ ⦃fs : Files F⦄ (config : AppConfig) (q : ℕ)
    (es : List TrackedProcess) (env : Env P F D)
    → find_tracked_process q es ≡ none
    → find_tracked_process q (cleanup_tracked_processes config es env).0 ≡ none
unfolding cleanup_tracked_processes find_tracked_process
find-cleanup config q [] env h = refl
find-cleanup config q (e ∷ es) env h =
    let env1 = if e.seen_this_pass then env else drop_tracked config e env in
    ground (arith, find-cleanup config q es env1)

module _ {P F D : Type 0} ⦃ps : Processes P⦄ ⦃fs : Files F⦄ (process_laws : ProcessLaws ps)
    (file_laws : FileLaws fs) (config : AppConfig)
    (ends : FailsOnlyIfGone process_laws config) where
  CoveredBy-if :
      {k : ℕ → Bool} (test : Bool) {env env' : Env P F D}
      → (test ≡ true → CoveredBy process_laws file_laws k env)
      → (test ≡ false → CoveredBy process_laws file_laws k env')
      → CoveredBy process_laws file_laws k (if test then env else env')
  CoveredBy-if true h h' = h refl
  CoveredBy-if false h h' = h' refl

  one_swept :
      (k : ℕ → Bool) (e : TrackedProcess) (es : List TrackedProcess) (env : Env P F D)
      → k e.pid ≡ false
      → find_tracked_process e.pid es ≡ none
      → CoveredBy process_laws file_laws (with_tracked k (e ∷ es)) env
      → CoveredBy process_laws file_laws
          (with_tracked (with_entry k (swept e)) es)
          (if e.seen_this_pass then env else drop_tracked config e env)
  one_swept k e es env a d c =
      CoveredBy-if {k = with_tracked (with_entry k (swept e)) es} e.seen_this_pass
        (λ seen.
          CoveredBy-same process_laws file_laws (with_tracked k (e ∷ es))
            (with_tracked (with_entry k (swept e)) es) env
            (λ q. unfold is_pid_suspended in ground arith) c)
        (λ unseen.
          let known =
            CoveredBy-Holds process_laws file_laws (with_tracked k (e ∷ es)) env e.pid e.suspended c
              (own_part k e es a d) in
          let gone =
            drop_tracked-Holds process_laws file_laws config e env
              (record { same_pid = refl; holds = known }) ends in
          CoveredBy-same process_laws file_laws _ _ (drop_tracked config e env)
            (λ q. after_entry k e (swept e) es a d refl q)
            (Holds-CoveredBy process_laws file_laws (with_tracked k (e ∷ es)) env
              (drop_tracked config e env) e.pid (swept e).suspended c
              (Holds-weaken process_laws file_laws (drop_tracked config e env) gone (ground arith)
                (ground arith))))

  cleanup-CoveredBy :
      (k : ℕ → Bool) (es : List TrackedProcess) (env : Env P F D)
      → DistinctPids es
      → Apart k es
      → CoveredBy process_laws file_laws (with_tracked k es) env
      → let o = cleanup_tracked_processes config es env in
        CoveredBy process_laws file_laws (with_tracked k o.0) o.1
  unfolding cleanup_tracked_processes
  cleanup-CoveredBy k [] env d a c = c
  cleanup-CoveredBy k (e ∷ es) env d a c =
      let env1 = if e.seen_this_pass then env else drop_tracked config e env in
      let (es1, env2) = cleanup_tracked_processes config es env1 in
      CoveredBy-same process_laws file_laws _ _ env2 (left k e es1) (
        cleanup-CoveredBy (with_entry k (swept e)) es env1 d.1
          (Apart-with_entry k (swept e) es a.1 (other_pids e.pid es d.0))
          (one_swept k e es env a.0 d.0 c))

  DistinctPids-cleanup :
      (es : List TrackedProcess) (env : Env P F D)
      → DistinctPids es
      → DistinctPids (cleanup_tracked_processes config es env).0
  unfolding cleanup_tracked_processes
  DistinctPids-cleanup [] env d = tt
  DistinctPids-cleanup (e ∷ es) env d =
      let env1 = if e.seen_this_pass then env else drop_tracked config e env in
      let rest = DistinctPids-cleanup es env1 d.1 in
      ground (arith, find-cleanup config e.pid es env1 d.0, rest)

  SmallPids-cleanup :
      (es : List TrackedProcess) (env : Env P F D)
      → SmallPids es
      → SmallPids (cleanup_tracked_processes config es env).0
  unfolding cleanup_tracked_processes
  SmallPids-cleanup [] env h = tt
  SmallPids-cleanup (e ∷ es) env h =
      let env1 = if e.seen_this_pass then env else drop_tracked config e env in
      let rest = SmallPids-cleanup es env1 h.1 in ground (arith, h.0, rest)

  -- Where a process that cannot be resumed has ended, dropping the unseen entries keeps every process
  -- that stands suspended known, suspended once, and recorded on disk.
  pub cleanup_tracked_processes-Covered :
      (tracked : List TrackedProcess) (env : Env P F D)
      → Covered process_laws file_laws tracked env
      → let o = cleanup_tracked_processes config tracked env in
        Covered process_laws file_laws o.0 o.1
  cleanup_tracked_processes-Covered tracked env c = record {
    covered = cleanup-CoveredBy (λ _. false) tracked env c.distinct (none-Apart tracked) c.covered;
    distinct = DistinctPids-cleanup tracked env c.distinct;
    small = SmallPids-cleanup tracked env c.small;
  }
