-- ===== src/Guard/Loop/Opening.antt =====
-- The journal at the start of `run_browser_guard` in src/browser_guard.c: the recovery from the old
-- one, the new one, and its broker.
pub mod Ready
use browser_guard.Prelude.{Bool, Option, none, some, if◌then◌else◌, Text, codes}
use browser_guard.Windows.{Files, Processes}
use browser_guard.Windows.Session.{Session}
use browser_guard.Journal.Layout.{max_path}
use browser_guard.Journal.{BgRecoveryJournal, recovery_journal_init}
use browser_guard.Broker.{recover_journal_file}
use browser_guard.Broker.Start.{start_recovery_broker}
use browser_guard.Guard.Paths.{build_sibling_path}

-- BG_RECOVERY_EXE_NAME and BG_RECOVERY_JOURNAL_NAME
abbrev pub recovery_exe_name : Text
recovery_exe_name = codes "browser_guard_recovery.exe"

abbrev pub recovery_journal_name : Text
recovery_journal_name = codes "browser_guard.recovery.journal"

module _ {P F : Type 0} ⦃ps : Processes P⦄ ⦃ss : Session P⦄ ⦃fs : Files F⦄ where
  -- The broker for a new journal, or no journal.
  unfoldable pub start_broker_for :
      Text → Text → Option BgRecoveryJournal → P → F → Option BgRecoveryJournal × P × F
  start_broker_for broker_path journal_path journal p f = elim journal [
    | none ↦ (none, p, f)
    | some j ↦
        (let (started, p1) = start_recovery_broker broker_path journal_path p in
          ((if started then some j else none), p1, f))
  ]

  -- The old journal is recovered, and a new one made.
  unfoldable pub renew_journal : Text → Text → P → F → Option BgRecoveryJournal × P × F
  renew_journal broker_path journal_path p f =
      let (recovered, p1, f1) = recover_journal_file journal_path p f in
      let (journal, f2) = recovery_journal_init journal_path f1 in
      if recovered then start_broker_for broker_path journal_path journal p1 f2 else (none, p1, f1)

  -- `active_recovery_journal`: every step is made only if the one before succeeded.
  unfoldable pub open_journal : P → F → Option BgRecoveryJournal × P × F
  open_journal p f =
      let (broker, p1) = build_sibling_path recovery_exe_name max_path p in
      elim broker [
        | none ↦ (none, p1, f)
        | some broker_path ↦
            (let (journal, p2) = build_sibling_path recovery_journal_name max_path p1 in
              elim journal [
                | none ↦ (none, p2, f)
                | some journal_path ↦ renew_journal broker_path journal_path p2 f
              ])
      ]
