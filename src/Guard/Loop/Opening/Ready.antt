-- ===== src/Guard/Loop/Opening/Ready.antt =====
-- The start of `run_browser_guard` in src/browser_guard.c: nothing is suspended by it, and the journal
-- that it opens is empty and durable.
use browser_guard.Prelude.{ℕ, ◌≤◌, ◌≡◌, subst, Option, none, some, Text, arith, on_if, on_option}
use browser_guard.Windows.{Files, Processes}
use browser_guard.Windows.Laws.{FileLaws, ProcessLaws, Quiet}
use browser_guard.Windows.Session.{Session}
use browser_guard.Windows.Session.Laws.{QuietSession}
use browser_guard.Journal.Layout.{max_path}
use browser_guard.Journal.{BgRecoveryJournal, recovery_journal_init}
use browser_guard.Journal.Entries.{IsSound}
use browser_guard.Journal.Durable
use browser_guard.Broker.{recover_journal_file}
use browser_guard.Broker.Start.{start_recovery_broker}
use browser_guard.Broker.Start.Kept.{start_recovery_broker-Quiet, recover_journal_file-no_more}
use browser_guard.Guard.Paths.{build_sibling_path}
use browser_guard.Guard.Run.{new_journal, empty_journal-IsDurable}
use browser_guard.Guard.Loop.Opening.{
  recovery_exe_name, recovery_journal_name, start_broker_for, renew_journal, open_journal,
}

module _ {P F : Type 0} ⦃ps : Processes P⦄ ⦃fs : Files F⦄ (laws : ProcessLaws ps)
    (file_laws : FileLaws fs) where
  open laws use {suspensions}

  -- No process is suspended more often than before, and a journal is sound and on disk.
  pub record Ready (s : P) (o : Option BgRecoveryJournal × P × F) : Type 0 where
    pub fewer : (q : ℕ) → suspensions o.1 q ≤ suspensions s q
    pub good :
        (j : BgRecoveryJournal) → o.0 ≡ some j → IsSound j × Durable.IsDurable file_laws j o.2

  without_journal :
      (s t : P) (f : F) → ((q : ℕ) → suspensions t q ≤ suspensions s q) → Ready s (none, t, f)
  without_journal s t f fewer = record { fewer = fewer; good = λ j e. cc }

  initialized-good :
      (path : Text) (f : F) (j : BgRecoveryJournal)
      → (recovery_journal_init path f).0 ≡ some j
      → IsSound j × Durable.IsDurable file_laws j (recovery_journal_init path f).1
  initialized-good path f j made =
      let f1 = (recovery_journal_init path f).1 in
      subst (λ x. IsSound x × Durable.IsDurable file_laws x f1)
        (new_journal file_laws path f j made) (empty_journal-IsDurable file_laws path f1)

module _ {P F : Type 0} ⦃ps : Processes P⦄ ⦃ss : Session P⦄ ⦃fs : Files F⦄ (laws : ProcessLaws ps)
    (quiet : QuietSession laws ss) (file_laws : FileLaws fs) where
  open laws use {suspensions}

  abbrev IsReady : P → Option BgRecoveryJournal × P × F → Type 0
  IsReady s o = Ready laws file_laws s o

  start_broker_for-IsReady :
      (broker_path journal_path : Text) (journal : Option BgRecoveryJournal) (s t : P) (f : F)
      → ((q : ℕ) → suspensions t q ≤ suspensions s q)
      → ((j : BgRecoveryJournal) → journal ≡ some j → IsSound j × Durable.IsDurable file_laws j f)
      → IsReady s (start_broker_for broker_path journal_path journal t f)
  unfolding start_broker_for
  start_broker_for-IsReady broker_path journal_path journal s t f fewer good =
      let (started, t1) = start_recovery_broker broker_path journal_path t in
      let q1 = start_recovery_broker-Quiet laws quiet broker_path journal_path t in
      let fewer1 : (q : ℕ) → suspensions t1 q ≤ suspensions s q =
        λ q. omega (arith, fewer q, q1.no_more q) in
      on_option (IsReady s) journal _ _ (λ _. without_journal laws file_laws s t f fewer)
        (λ j e.
          on_if (λ (o : Option BgRecoveryJournal). IsReady s (o, t1, f)) started _ _
            (λ _. record { fewer = fewer1; good = λ k e1. good k (ground (arith, e, e1)) })
            (λ _. without_journal laws file_laws s t1 f fewer1))

  renew_journal-IsReady :
      (broker_path journal_path : Text) (s t : P) (f : F)
      → ((q : ℕ) → suspensions t q ≤ suspensions s q)
      → IsReady s (renew_journal broker_path journal_path t f)
  unfolding renew_journal
  renew_journal-IsReady broker_path journal_path s t f fewer =
      let (recovered, t1, f1) = recover_journal_file journal_path t f in
      let (journal, f2) = recovery_journal_init journal_path f1 in
      let fewer1 : (q : ℕ) → suspensions t1 q ≤ suspensions s q =
        λ q. omega (arith, fewer q, recover_journal_file-no_more laws q journal_path t f) in
      on_if (IsReady s) recovered _ _
        (λ _.
          start_broker_for-IsReady broker_path journal_path journal s t1 f2 fewer1
            (initialized-good laws file_laws journal_path f1))
        (λ _. without_journal laws file_laws s t1 f1 fewer1)

  build_sibling_path-Quiet :
      (name : Text) (n : ℕ) (s : P)
      → Quiet laws.suspensions laws.resumes s (build_sibling_path name n s).1
  unfolding build_sibling_path
  build_sibling_path-Quiet name n s = quiet.module_quiet n s

  pub open_journal-IsReady : (s : P) (f : F) → IsReady s (open_journal s f)
  unfolding open_journal
  open_journal-IsReady s f =
      let (broker, s1) = build_sibling_path recovery_exe_name max_path s in
      let (journal, s2) = build_sibling_path recovery_journal_name max_path s1 in
      let first = build_sibling_path-Quiet recovery_exe_name max_path s in
      let second = build_sibling_path-Quiet recovery_journal_name max_path s1 in
      let fewer : (q : ℕ) → suspensions s2 q ≤ suspensions s q =
        λ q. omega (arith, first.no_more q, second.no_more q) in
      on_option (IsReady s) broker _ _
        (λ _. without_journal laws file_laws s s1 f (λ q. first.no_more q))
        (λ broker_path _.
          on_option (IsReady s) journal _ _ (λ _. without_journal laws file_laws s s2 f fewer)
            (λ journal_path _. renew_journal-IsReady broker_path journal_path s s2 f fewer))
