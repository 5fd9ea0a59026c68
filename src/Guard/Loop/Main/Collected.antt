-- ===== src/Guard/Loop/Main/Collected.antt =====
-- The groups that a turn of the main loop in src/browser_guard.c works on.
use browser_guard.Prelude.{◌<◌, inl, inr, Option-cases, dword_mod}
use browser_guard.Windows.{Processes, Desktop}
use browser_guard.Windows.Laws.{ProcessLaws, Quiet}
use browser_guard.Windows.Kept.{Quiet-queries}
use browser_guard.Windows.Quiet.{Quiet-trans}
use browser_guard.Windows.Session.{Session}
use browser_guard.Windows.Session.Laws.{QuietSession}
use browser_guard.Windows.Input.{Input}
use browser_guard.ProcessControl.Groups.{
  SecurityContext, collect_browser_groups, max_browser_groups,
}
use browser_guard.ProcessControl.Groups.Pids.{
  OfSnapshot, collect_browser_groups-OfAll, mark_foreground_groups-OfAll, mark_audio_groups-OfAll,
}
use browser_guard.ProcessControl.Kept.{collect_browser_groups-kept, mark_foreground_groups-kept}
use browser_guard.ProcessControl.Marks.{mark_foreground_groups}
use browser_guard.Guard.Crash.{SmallGroups}
use browser_guard.Guard.Loop.Main.{collect_groups}

module _ {P : Type 0} ⦃ps : Processes P⦄ ⦃ss : Session P⦄ (laws : ProcessLaws ps)
    (quiet : QuietSession laws ss) where
  small_snapshot : (p : P) → OfSnapshot (λ pid. pid < dword_mod) (ss.snapshot p).0
  small_snapshot p = elim (Option-cases (ss.snapshot p).0) [
    | inl e ↦ rw e tt
    | inr (entries, e) ↦ rw e (quiet.snapshot_ids p entries e)
  ]

module _ {P D : Type 0} ⦃ps : Processes P⦄ ⦃ss : Session P⦄ ⦃ds : Desktop D⦄ ⦃is : Input D⦄
    (laws : ProcessLaws ps) (quiet : QuietSession laws ss) (context : SecurityContext) where
  open laws use {suspensions, resumes}

  pub collect_groups-Quiet :
      (p : P) (d : D) → Quiet suspensions resumes p (collect_groups context p d).1
  unfolding collect_groups
  collect_groups-Quiet p d =
      let queries = Quiet-queries laws in
      let (snapshot, p1) = ss.snapshot p in
      let (groups, p2) = collect_browser_groups context max_browser_groups snapshot p1 in
      Quiet-trans (quiet.snapshot_quiet p) (
        Quiet-trans (collect_browser_groups-kept queries context max_browser_groups snapshot p1)
          (mark_foreground_groups-kept queries groups p2 d))

  pub collect_groups-SmallGroups : (p : P) (d : D) → SmallGroups (collect_groups context p d).0
  unfolding collect_groups
  collect_groups-SmallGroups p d =
      let (snapshot, p1) = ss.snapshot p in
      let (groups, p2) = collect_browser_groups context max_browser_groups snapshot p1 in
      let (marked, p3, d1) = mark_foreground_groups groups p2 d in
      mark_audio_groups-OfAll (λ pid. pid < dword_mod) (is.active_audio_pids d1).0 marked
        (mark_foreground_groups-OfAll (λ pid. pid < dword_mod) groups p2 d
          (collect_browser_groups-OfAll (λ pid. pid < dword_mod) context max_browser_groups snapshot
            p1 (small_snapshot laws quiet p)))
