-- ===== src/Guard/Groups.antt =====
-- The loop of `ensure_group_state` in src/browser_guard.c.
use browser_guard.Prelude.{
  ℕ, ◌<◌, ◌≡◌, refl, sym, subst, ◌∙◌, Bool, true, false, none, some, List, [], ◌∷◌, ◌++◌, inl, inr,
  Option-cases, if◌then◌else◌, All, All-append, dword_mod, leb, length,
}
use browser_guard.Windows.{Files, Processes, Desktop}
use browser_guard.Windows.Laws.{FileLaws, ProcessLaws, ProcessRanges}
use browser_guard.Config.{AppConfig}
use browser_guard.ProcessControl.{BrowserGroup, max_tracked_processes}
use browser_guard.Guard.{TrackedProcess, Env, window_restores_to_maximized}
use browser_guard.Guard.Tracked.{find_tracked_process, put_tracked, is_pid_suspended}
use browser_guard.Guard.Entry.{new_entry, ensure_entry}
use browser_guard.Guard.Pass.{ensure_pid, ensure_pids, ensure_group_state}
use browser_guard.Guard.Holds
use browser_guard.Guard.Holds.{bit, recorded, IsGood, Holds-desktop}
use browser_guard.Guard.Kept
use browser_guard.Guard.Ensure.{ensure_entry-Kept}
use browser_guard.Guard.Entries.{
  find_tracked_process-pid, is_pid_suspended-none, is_pid_suspended-some, is_pid_suspended-put,
  DistinctPids-put, SmallPids-put, is_pid_suspended-append, DistinctPids-append,
}
use browser_guard.Guard.Covered.{
  but, CoveredBy, Covered, CoveredBy-same, CoveredBy-Holds, Holds-CoveredBy,
}

module _ {P F D : Type 0} ⦃ps : Processes P⦄ ⦃fs : Files F⦄ ⦃ds : Desktop D⦄
    (process_laws : ProcessLaws ps) (file_laws : FileLaws fs) (ranges : ProcessRanges ps)
    (g : BrowserGroup) (config : AppConfig) (now_tick : ℕ) where
  abbrev Keeps : List TrackedProcess × Env P F D → Type 0
  Keeps o = Covered process_laws file_laws o.0 o.1

  Keeps-if :
      (test : Bool) {o o' : List TrackedProcess × Env P F D}
      → Keeps o
      → Keeps o'
      → Keeps (if test then o else o')
  Keeps-if true h h' = h
  Keeps-if false h h' = h'

  -- An entry that was worked on covers its process, whatever list the others stand in.
  ensured :
      (tracked : List TrackedProcess) (base env : Env P F D) (e : TrackedProcess)
      → Covered process_laws file_laws tracked base
      → Kept.Kept process_laws file_laws base e.pid (e, env)
      → e.pid < dword_mod
      → let o = ensure_entry g config now_tick e env in
        (o.0.pid ≡ e.pid)
        × CoveredBy process_laws file_laws
            (but (λ q. is_pid_suspended q tracked) o.0.pid o.0.suspended)
            o.1
  ensured tracked base env e c k small =
      let o = ensure_entry g config now_tick e env in
      let kept =
        ensure_entry-Kept process_laws file_laws base g config now_tick e env ranges small k in
      (
        kept.same_pid,
        Holds-CoveredBy process_laws file_laws (λ q. is_pid_suspended q tracked) base o.1 o.0.pid
            o.0.suspended c.covered
            (subst
              (λ n. Holds.Holds process_laws file_laws base n (bit o.0.suspended) o.0.suspended o.1)
              (sym kept.same_pid) kept.holds),
      )

  tracked_entry :
      (pid : ℕ) (tracked : List TrackedProcess) (env : Env P F D) (e : TrackedProcess)
      → Keeps (tracked, env)
      → find_tracked_process pid tracked ≡ some e
      → pid < dword_mod
      → let o = ensure_entry g config now_tick e env in Keeps (put_tracked o.0 tracked, o.1)
  tracked_entry pid tracked env e c found small =
      let o = ensure_entry g config now_tick e env in
      let same = find_tracked_process-pid pid tracked e found in
      let fits : e.pid < dword_mod = subst (λ n. n < dword_mod) (sym same) small in
      let here = is_pid_suspended-some pid tracked e c.distinct found in
      let known =
        CoveredBy-Holds process_laws file_laws (λ q. is_pid_suspended q tracked) env e.pid
          e.suspended c.covered
          (subst (λ n. is_pid_suspended n tracked ≡ e.suspended) (sym same) here) in
      let (same', done) =
        ensured tracked env env e c (record { same_pid = refl; holds = known }) fits in
      let there : find_tracked_process o.0.pid tracked ≡ some e =
        subst (λ n. find_tracked_process n tracked ≡ some e) (sym (same' ∙ same)) found in
      record {
        covered =
            CoveredBy-same process_laws file_laws _ _ o.1
              (λ q. sym (is_pid_suspended-put q o.0 e tracked c.distinct there)) done;
        distinct = DistinctPids-put o.0 tracked c.distinct;
        small = SmallPids-put o.0 tracked (subst (λ n. n < dword_mod) (sym same') fits) c.small;
      }

  new_tracked :
      (pid : ℕ) (tracked : List TrackedProcess) (env : Env P F D)
      → Keeps (tracked, env)
      → find_tracked_process pid tracked ≡ none
      → pid < dword_mod
      → let n = new_entry g now_tick pid env in
        let o = ensure_entry g config now_tick n.0 n.1 in Keeps (tracked ++ o.0 ∷ [], o.1)
  unfolding new_entry
  new_tracked pid tracked env c absent small =
      let n = new_entry g now_tick pid env in
      let o = ensure_entry g config now_tick n.0 n.1 in
      let known =
        CoveredBy-Holds process_laws file_laws (λ q. is_pid_suspended q tracked) env pid false
          c.covered (is_pid_suspended-none pid tracked absent) in
      let (same, done) =
        ensured tracked env n.1 n.0 c
          (record {
            same_pid = refl;
            holds =
                Holds-desktop process_laws file_laws env known
                  (window_restores_to_maximized g.anchor_window env.desktop).1;
          })
          small in
      let there : find_tracked_process o.0.pid tracked ≡ none =
        subst (λ q. find_tracked_process q tracked ≡ none) (sym same) absent in
      record {
        covered =
            CoveredBy-same process_laws file_laws _ _ o.1
              (λ q. sym (is_pid_suspended-append q o.0 tracked there)) done;
        distinct = DistinctPids-append o.0 tracked there c.distinct;
        small =
            All-append (λ e. e.pid < dword_mod) tracked (o.0 ∷ []) c.small
              (subst (λ q. q < dword_mod) (sym same) small, tt);
      }

  ensure_pid-Covered :
      (pid : ℕ) (tracked : List TrackedProcess) (env : Env P F D)
      → pid < dword_mod
      → Keeps (tracked, env)
      → Keeps (ensure_pid g config now_tick pid tracked env)
  unfolding ensure_pid
  ensure_pid-Covered pid tracked env small c =
      elim (Option-cases (find_tracked_process pid tracked)) [
        | inr (e, found) ↦ rw (found, ensure_pid) (tracked_entry pid tracked env e c found small)
        | inl absent ↦
            rw (absent, ensure_pid)
              (Keeps-if (leb max_tracked_processes (length tracked)) c
                (new_tracked pid tracked env c absent small))
      ]

  ensure_pids-Covered :
      (pids : List ℕ) (tracked : List TrackedProcess) (env : Env P F D)
      → All (λ pid. pid < dword_mod) pids
      → Keeps (tracked, env)
      → Keeps (ensure_pids g config now_tick pids tracked env)
  unfolding ensure_pids
  ensure_pids-Covered [] tracked env small c = c
  ensure_pids-Covered (pid ∷ pids) tracked env small c =
      let (tracked1, env1) = ensure_pid g config now_tick pid tracked env in
      ensure_pids-Covered pids tracked1 env1 small.1 (ensure_pid-Covered pid tracked env small.0 c)

  -- Bringing a group up to date, whatever the policy decides and whichever calls fail, keeps every
  -- suspended process known, suspended once, and recorded on disk, where the group's ids are DWORDs and
  -- query results fit their C types and buffers.
  pub ensure_group_state-Covered :
      (tracked : List TrackedProcess) (env : Env P F D)
      → All (λ pid. pid < dword_mod) g.pids
      → Covered process_laws file_laws tracked env
      → let o = ensure_group_state g config now_tick tracked env in
        Covered process_laws file_laws o.0 o.1
  unfolding ensure_group_state
  ensure_group_state-Covered tracked env small c = ensure_pids-Covered g.pids tracked env small c
