-- ===== src/Broker/Start/Kept.antt =====
-- The start of the broker in src/recovery_broker.c, and its recovery, suspend no process.
use browser_guard.Prelude.{ℕ, ◌≤◌, ◌*◌, Bool, none, Text, printed, arith, on_option, true}
use browser_guard.Windows.{Files, Processes, Handle}
use browser_guard.Windows.Laws.{ProcessLaws, Quiet}
use browser_guard.Windows.Quiet.{Quiet-trans}
use browser_guard.Windows.Session.{Session, SecurityAttributes, Launch}
use browser_guard.Windows.Session.Laws.{QuietSession}
use browser_guard.Journal.Layout.{max_recovery_records, record_size}
use browser_guard.Journal.{recovery_journal_load}
use browser_guard.Broker.{recover_loaded, recover_journal_file}
use browser_guard.Broker.Complete.{recover_records-no_more}
use browser_guard.Broker.Start.{
  command_line_capacity, create_no_window, ready_timeout_ms, broker_command_line, await_ready,
  launch_broker, start_recovery_broker,
}

module _ {P : Type 0} ⦃ps : Processes P⦄ ⦃ss : Session P⦄ (laws : ProcessLaws ps)
    (quiet : QuietSession laws ss) where
  open laws use {suspensions, resumes}

  abbrev IsQuiet : P → Bool × P → Type 0
  IsQuiet s r = Quiet suspensions resumes s r.1

  await_ready-Quiet :
      (event : ℕ) (process thread : Handle) (s : P) → IsQuiet s (await_ready event process thread s)
  unfolding await_ready
  await_ready-Quiet event process thread s =
      let s1 = ps.close_handle thread s in
      let s2 = (ss.wait_either event process ready_timeout_ms s1).1 in
      Quiet-trans (laws.close_quiet thread s) (
        Quiet-trans (quiet.wait_quiet event process ready_timeout_ms s1) (
          Quiet-trans (laws.close_quiet process s2)
            (quiet.close_quiet event (ps.close_handle process s2))))

  launch_broker-Quiet :
      (broker_path line : Text) (event : ℕ) (s : P)
      → IsQuiet s (launch_broker broker_path line event s)
  unfolding launch_broker
  launch_broker-Quiet broker_path line event s =
      let l : Launch = record {
        image = broker_path;
        command_line = line;
        inherit_handles = true;
        flags = create_no_window;
        directory = none;
      } in
      let (created, s1) = ss.create_process l s in
      let launched = quiet.launch_quiet l s in
      on_option (IsQuiet s) created _ _ (λ _. Quiet-trans launched (quiet.close_quiet event s1))
        (λ (process, thread) _. Quiet-trans launched (await_ready-Quiet event process thread s1))

  pub start_recovery_broker-Quiet :
      (broker_path journal_path : Text) (s : P)
      → IsQuiet s (start_recovery_broker broker_path journal_path s)
  unfolding start_recovery_broker
  start_recovery_broker-Quiet broker_path journal_path s =
      let a : SecurityAttributes = record { inherit = true; descriptor = none } in
      let s1 = (ss.create_event a none s).1 in
      let created = quiet.create_quiet a none s in
      on_option (IsQuiet s) (ss.create_event a none s).0.0 _ _ (λ _. created)
        (λ event _.
          on_option (IsQuiet s)
            (printed command_line_capacity
              (broker_command_line broker_path (ps.current_process_id s1) journal_path event))
            _ _ (λ _. Quiet-trans created (quiet.close_quiet event s1))
            (λ line _. Quiet-trans created (launch_broker-Quiet broker_path line event s1)))

module _ {P F : Type 0} ⦃ps : Processes P⦄ ⦃fs : Files F⦄ (laws : ProcessLaws ps) where
  open laws use {suspensions}

  pub recover_journal_file-no_more :
      (q : ℕ) (path : Text) (s : P) (f : F)
      → suspensions (recover_journal_file path s f).1 q ≤ suspensions s q
  unfolding recover_journal_file recover_loaded
  recover_journal_file-no_more q path s f =
      let s1 = (ps.heap_alloc (max_recovery_records * record_size) s).1 in
      let records = (recovery_journal_load path max_recovery_records f).0.1 in
      ground (
        arith,
        (laws.alloc_quiet (max_recovery_records * record_size) s).no_more q,
        recover_records-no_more laws q records s1,
      )
