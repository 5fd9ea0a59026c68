-- ===== src/Recovery.antt =====
-- src/recovery_main.c: the program that waits for the guard's end and then recovers its journal.
pub mod Handshake
mod Tests
use browser_guard.Prelude.{
  ℕ, Bool, true, false, ◌&&◌, not, Option, none, some, List, [], ◌∷◌, ◌==◌, if◌then◌else◌, Text,
  codes, text_ieq,
}
use browser_guard.Windows.{Files, Processes, Handle}
use browser_guard.Windows.Session.{Session}
use browser_guard.Config.Number.{wcstoul, wcstoui64}
use browser_guard.Broker.{recover_journal_file}

-- The variables that the options set: 0 and `none` are NULL.
pub record Arguments : Type 0 where
  pub guard_pid : ℕ
  pub journal_path : Option Text
  pub ready_event : ℕ

abbrev pub no_arguments : Arguments
no_arguments = record { guard_pid = 0; journal_path = none; ready_event = 0 }

-- The loop over `argv[i]` and `argv[i + 1]`, while both are there.
unfoldable pub read_arguments : List Text → Arguments → Arguments
read_arguments [] a = a
read_arguments (option ∷ []) a = a
read_arguments (option ∷ value ∷ rest) a =
    let with_pid = read_arguments rest (record a { guard_pid = wcstoul value }) in
    let with_journal = read_arguments rest (record a { journal_path = some value }) in
    let with_event = read_arguments rest (record a { ready_event = wcstoui64 value }) in
    let skipped = read_arguments (value ∷ rest) a in
    if text_ieq option (codes "--guard-pid")
    then with_pid
    else if text_ieq option (codes "--journal")
    then with_journal
    else if text_ieq option (codes "--ready-handle")
    then with_event
    else skipped

-- What stands behind the program's name.
unfoldable pub behind_name : List Text → List Text
behind_name [] = []
behind_name (name ∷ rest) = rest

-- SYNCHRONIZE
abbrev pub synchronize : ℕ
synchronize = 0x00100000

module _ {P F : Type 0} ⦃ps : Processes P⦄ ⦃ss : Session P⦄ ⦃fs : Files F⦄ where
  -- The exit code.
  unfoldable pub run_recovery_broker : ℕ → Text → ℕ → P → F → ℕ × P × F
  run_recovery_broker guard_pid journal_path ready_event s f =
      let (guard, s1) = ps.open_process synchronize guard_pid s in
      elim guard [
        | none ↦ (1, s1, f)
        | some guard_process ↦
            (let s2 = (ss.set_event ready_event s1).1 in
              let s3 = ps.close_handle guard_process (ss.wait_process guard_process s2) in
              let (recovered, s4, f1) = recover_journal_file journal_path s3 f in
              ((if recovered then 0 else 1), s4, f1))
      ]

  -- It runs only with a process id, a path and an event.
  unfoldable pub run_with : Arguments → P → F → ℕ × P × F
  run_with a s f = elim a.journal_path [
    | none ↦ (1, s, f)
    | some journal_path ↦
        (if not (a.guard_pid == 0) && not (a.ready_event == 0)
          then run_recovery_broker a.guard_pid journal_path a.ready_event s f
          else (1, s, f))
  ]

  unfoldable pub recovery_main : P → F → ℕ × P × F
  recovery_main s f =
      let (argv, s1) = ss.to_argv (ss.command_line s) s in
      elim argv [
        | none ↦ (1, s1, f)
        | some arguments ↦ run_with (read_arguments (behind_name arguments) no_arguments) s1 f
      ]
