-- ===== src/Guard/Crash.antt =====
-- A whole pass of src/browser_guard.c, and what a crash between two passes leaves to recovery.
use browser_guard.Prelude.{
  ℕ, ◌<◌, ◌≡◌, ◌≢◌, refl, Bool, true, false, Option, none, some, List, [], ◌∷◌, arith, inl, inr,
  Bool-cases, if◌then◌else◌, All, dword_mod,
}
use browser_guard.Windows.{Files, Processes, Desktop, opened}
use browser_guard.Windows.Laws.{FileLaws, ProcessLaws, IdentityLaws, ProcessRanges, Answers}
use browser_guard.Config.{AppConfig}
use browser_guard.ProcessControl.{BrowserGroup}
use browser_guard.Journal.{BgRecoveryJournal}
use browser_guard.Journal.Layout.{BgRecoveryRecord}
use browser_guard.Journal.Entries.{has_pid-find_record}
use browser_guard.Journal.Durable
use browser_guard.Broker.{recover_journal_file}
use browser_guard.Broker.Complete.{IsLive, ResumeWorks}
use browser_guard.Broker.Crash.{recover_journal_file-OnDisk}
use browser_guard.Guard.{TrackedProcess, Env}
use browser_guard.Guard.Tracked.{hold_resumed_processes, is_pid_suspended, find_tracked_process}
use browser_guard.Guard.Pass.{
  resume_all_tracked, resume_requested, ensure_groups, ensure_group_state, run_pass,
}
use browser_guard.Guard.Holds.{recorded, IsGood}
use browser_guard.Guard.Entries.{DistinctPids, SmallPids}
use browser_guard.Guard.Covered.{Covered, CoveredBy-same}
use browser_guard.Guard.Groups.{ensure_group_state-Covered}
use browser_guard.Guard.Release.{FailsOnlyIfGone}
use browser_guard.Guard.Sweep.{resume_all_tracked-Covered}
use browser_guard.Guard.Cleanup.{cleanup_tracked_processes-Covered}

is_pid_suspended-hold :
    (q now_tick hold : ℕ) (es : List TrackedProcess)
    → is_pid_suspended q es ≡ is_pid_suspended q (hold_resumed_processes now_tick hold es)
unfolding is_pid_suspended hold_resumed_processes
is_pid_suspended-hold q now_tick hold [] = refl
is_pid_suspended-hold q now_tick hold (e ∷ es) =
    ground (arith, is_pid_suspended-hold q now_tick hold es)

find-hold :
    (q now_tick hold : ℕ) (es : List TrackedProcess)
    → find_tracked_process q es ≡ none
    → find_tracked_process q (hold_resumed_processes now_tick hold es) ≡ none
unfolding find_tracked_process hold_resumed_processes
find-hold q now_tick hold [] h = refl
find-hold q now_tick hold (e ∷ es) h = ground (arith, find-hold q now_tick hold es)

DistinctPids-hold :
    (now_tick hold : ℕ) (es : List TrackedProcess)
    → DistinctPids es
    → DistinctPids (hold_resumed_processes now_tick hold es)
unfolding hold_resumed_processes
DistinctPids-hold now_tick hold [] d = tt
DistinctPids-hold now_tick hold (e ∷ es) d =
    (find-hold e.pid now_tick hold es d.0, DistinctPids-hold now_tick hold es d.1)

SmallPids-hold :
    (now_tick hold : ℕ) (es : List TrackedProcess)
    → SmallPids es
    → SmallPids (hold_resumed_processes now_tick hold es)
unfolding hold_resumed_processes
SmallPids-hold now_tick hold [] h = tt
SmallPids-hold now_tick hold (e ∷ es) h = (h.0, SmallPids-hold now_tick hold es h.1)

-- The ids of the groups are DWORDs.
abbrev pub SmallGroups : List BrowserGroup → Type 0
SmallGroups = All (λ g. All (λ pid. pid < dword_mod) g.pids)

module _ {P F D : Type 0} ⦃ps : Processes P⦄ ⦃fs : Files F⦄ ⦃ds : Desktop D⦄
    (process_laws : ProcessLaws ps) (file_laws : FileLaws fs) (ranges : ProcessRanges ps)
    (config : AppConfig) (now_tick : ℕ) where
  abbrev Keeps : List TrackedProcess × Env P F D → Type 0
  Keeps o = Covered process_laws file_laws o.0 o.1

  pub resume_requested-Covered :
      (tracked : List TrackedProcess) (env : Env P F D)
      → Keeps (tracked, env)
      → Keeps (resume_requested config now_tick tracked env)
  unfolding resume_requested
  resume_requested-Covered tracked env c =
      let (es, env1) = resume_all_tracked config tracked env in
      let d = resume_all_tracked-Covered process_laws file_laws config tracked env c in
      let hold = config.manual_resume_grace_ms in
      record {
        covered =
            CoveredBy-same process_laws file_laws _ _ env1
              (λ q. is_pid_suspended-hold q now_tick hold es) d.covered;
        distinct = DistinctPids-hold now_tick hold es d.distinct;
        small = SmallPids-hold now_tick hold es d.small;
      }

  pub ensure_groups-Covered :
      (groups : List BrowserGroup) (tracked : List TrackedProcess) (env : Env P F D)
      → SmallGroups groups
      → Keeps (tracked, env)
      → Keeps (ensure_groups groups config now_tick tracked env)
  unfolding ensure_groups
  ensure_groups-Covered [] tracked env small c = c
  ensure_groups-Covered (g ∷ gs) tracked env small c =
      let (tracked1, env1) = ensure_group_state g config now_tick tracked env in
      ensure_groups-Covered gs tracked1 env1 small.1 (
        ensure_group_state-Covered process_laws file_laws ranges g config now_tick tracked env
          small.0 c)

  Keeps-if :
      (test : Bool) {o o' : List TrackedProcess × Env P F D}
      → Keeps o
      → Keeps o'
      → Keeps (if test then o else o')
  Keeps-if true h h' = h
  Keeps-if false h h' = h'

  pub run_pass-Covered :
      (requested : Bool) (groups : List BrowserGroup) (tracked : List TrackedProcess)
      (env : Env P F D)
      → FailsOnlyIfGone process_laws config
      → SmallGroups groups
      → Covered process_laws file_laws tracked env
      → let o = run_pass requested groups config now_tick tracked env in
        Covered process_laws file_laws o.0 o.1
  unfolding run_pass
  run_pass-Covered requested groups tracked env ends small c =
      let o = if requested then resume_requested config now_tick tracked env else (tracked, env) in
      let (tracked2, env2) = ensure_groups groups config now_tick o.0 o.1 in
      cleanup_tracked_processes-Covered process_laws file_laws config ends tracked2 env2 (
        ensure_groups-Covered groups o.0 o.1 small
          (Keeps-if requested (resume_requested-Covered tracked env c) c))

module _ {P F D : Type 0} ⦃ps : Processes P⦄ ⦃fs : Files F⦄ (process_laws : ProcessLaws ps)
    (file_laws : FileLaws fs) where
  open process_laws use {suspensions}

  -- The record of a process on disk, in the file of the journal in use.
  pub record RecordOnDisk (env : Env P F D) (pid : ℕ) : Type 0 where
    pub journal : BgRecoveryJournal
    pub in_use : env.journal ≡ some journal
    pub entry : BgRecoveryRecord
    pub on_disk : Durable.OnDisk file_laws journal env.files pid entry

  on_disk_parts :
      (pid : ℕ) (journal : Option BgRecoveryJournal) (p : P) (f : F) (d : D)
      → let env : Env P F D = record { journal = journal; processes = p; files = f; desktop = d } in
        recorded pid env ≡ true → IsGood process_laws file_laws env → RecordOnDisk env pid
  unfolding recorded IsGood
  on_disk_parts pid none p f d h good = cc
  on_disk_parts pid (some j) p f d h good =
      let (r, found) = has_pid-find_record pid j.records h in
      record { journal = j; in_use = refl; entry = r; on_disk = good.1.at pid r found }

  pub Covered-RecordOnDisk :
      (tracked : List TrackedProcess) (env : Env P F D) (pid : ℕ)
      → Covered process_laws file_laws tracked env
      → suspensions env.processes pid ≢ 0
      → (suspensions env.processes pid ≡ 1) × RecordOnDisk env pid
  Covered-RecordOnDisk tracked env pid c stopped =
      let most = c.covered.count pid in
      elim (Bool-cases (is_pid_suspended pid tracked)) [
        | inr runs ↦ absurd (ground arith)
        | inl known ↦ (
          ground arith,
          on_disk_parts pid env.journal env.processes env.files env.desktop
              (c.covered.in_journal pid known) c.covered.good,
        )
      ]

  no_record : (pid : ℕ) (env : Env P F D) → env.journal ≡ none → recorded pid env ≡ false
  unfolding recorded
  no_record pid env e = ground arith

  -- Between the steps of the program, without a journal no process stands suspended: suspension needs
  -- a record.
  pub Covered-none :
      (tracked : List TrackedProcess) (env : Env P F D) (pid : ℕ)
      → Covered process_laws file_laws tracked env
      → env.journal ≡ none
      → suspensions env.processes pid ≡ 0
  Covered-none tracked env pid c without =
      let most = c.covered.count pid in
      let known = c.covered.in_journal pid in ground (arith, no_record pid env without)

  module _ (identity : IdentityLaws ps) (works : ResumeWorks ps)
      (no_read_fails : (h n : ℕ) (s : F) → (fs.read_file h n s).0.0 ≡ true) where
    -- A crash between two steps: where a process stands suspended, and its recorded process is alive,
    -- every process of the file can be queried, the file opens and reads, and the resumption itself
    -- works, recovery reports success and the process runs again.
    pub recover_journal_file-Covered :
        (tracked : List TrackedProcess) (env : Env P F D) (pid h : ℕ)
        → Covered process_laws file_laws tracked env
        → (d : RecordOnDisk env pid) → IsLive process_laws identity d.entry
        → All (λ x. Answers ps x.pid) d.on_disk.on_disk
        → (fs.open_file d.journal.path env.files).0 ≡ opened h
        → let o = recover_journal_file d.journal.path env.processes env.files in
          (o.0 ≡ true) × (suspensions o.1 pid ≡ 0)
    recover_journal_file-Covered tracked env pid h c d live answers is_open =
        let done =
          recover_journal_file-OnDisk process_laws file_laws identity works no_read_fails d.journal
            env.processes env.files pid h d.entry d.on_disk live answers is_open in
        let most = c.covered.count pid in (done.0, ground (arith, done.1, most))
