-- ===== src/Broker/Start.antt =====
-- `bg_start_recovery_broker` of src/recovery_broker.c: the broker's command line, its process, and
-- the wait for its ready event.
pub mod Kept
use browser_guard.Prelude.{
  ℕ, ◌+◌, Bool, true, false, Option, none, some, ◌∷◌, ◌++◌, [], ◌==◌, Text, codes, printed, decimal,
}
use browser_guard.Windows.{Processes, Handle}
use browser_guard.Windows.Session.{Session, SecurityAttributes, Launch}

abbrev pub command_line_capacity : ℕ
command_line_capacity = 2048

-- CREATE_NO_WINDOW
abbrev pub create_no_window : ℕ
create_no_window = 0x08000000

-- WAIT_OBJECT_0, and the limit of the wait.
abbrev pub wait_object_0 : ℕ
wait_object_0 = 0

abbrev pub ready_timeout_ms : ℕ
ready_timeout_ms = 5000

-- `L"\"%ls\" --guard-pid %lu --journal \"%ls\" --ready-handle %llu"`
unfoldable pub broker_command_line : Text → ℕ → Text → ℕ → Text
broker_command_line broker_path guard_pid journal_path ready_event =
    b'"'
    ∷ (broker_path
        ++ (codes "\" --guard-pid "
            ++ (decimal guard_pid
                ++ (codes " --journal \""
                    ++ (journal_path ++ (codes "\" --ready-handle " ++ decimal ready_event))))))

module _ {P : Type 0} ⦃ps : Processes P⦄ ⦃ss : Session P⦄ where
  -- The wait for the event or the end of the broker, and the closing of all handles.
  unfoldable pub await_ready : ℕ → Handle → Handle → P → Bool × P
  await_ready ready_event process thread s =
      let s1 = ps.close_handle thread s in
      let (wait_result, s2) = ss.wait_either ready_event process ready_timeout_ms s1 in
      (wait_result == wait_object_0, ss.close_event ready_event (ps.close_handle process s2))

  unfoldable pub launch_broker : Text → Text → ℕ → P → Bool × P
  launch_broker broker_path command_line ready_event s =
      let (created, s1) =
        ss.create_process
          (record {
            image = broker_path;
            command_line = command_line;
            inherit_handles = true;
            flags = create_no_window;
            directory = none;
          })
          s in
      elim created [
        | none ↦ (false, ss.close_event ready_event s1)
        | some (process, thread) ↦ await_ready ready_event process thread s1
      ]

  unfoldable pub start_recovery_broker : Text → Text → P → Bool × P
  start_recovery_broker broker_path journal_path s =
      let ((event, code), s1) =
        ss.create_event (record { inherit = true; descriptor = none }) none s in
      elim event [
        | none ↦ (false, s1)
        | some ready_event ↦
            elim (printed command_line_capacity (
              broker_command_line broker_path (ps.current_process_id s1) journal_path
                ready_event)) [
                  | none ↦ (false, ss.close_event ready_event s1)
                  | some command_line ↦ launch_broker broker_path command_line ready_event s1
                ]
      ]
