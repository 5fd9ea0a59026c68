-- ===== src/Recovery/Handshake.antt =====
-- The command line of `bg_start_recovery_broker` in src/recovery_broker.c, read by src/recovery_main.c.
use mathlib.Core.List.{append_assoc}
use browser_guard.Prelude.{
  ℕ, ◌<◌, ◌≡◌, ◌≢◌, refl, sym, ap, ◌∙◌, some, List, [], ◌∷◌, ◌++◌, arith, Text, codes, All,
  dword_mod, size_mod, decimal, digits_lem, numeral, AreDigits, ◌==◌, false, text_ieq,
}
use browser_guard.Windows.{Files, Processes}
use browser_guard.Windows.Session.{Session}
use browser_guard.Windows.Session.Laws.{CommandLineLaws, quoted, HasNoQuote, EndsPlain, IsWord}
use browser_guard.Config.Number.Decimal.{wcstoul-decimal, wcstoui64-decimal}
use browser_guard.Broker.Start.{broker_command_line}
use browser_guard.Recovery.{
  Arguments, no_arguments, read_arguments, behind_name, run_with, run_recovery_broker,
  recovery_main,
}

-- A printed number is one word.
abbrev IsWordUnit : ℕ → Type 0
IsWordUnit d = (d ≢ 32) × (d ≢ 9) × (d ≢ b'"')

numeral-IsWordUnit : (ds : List ℕ) → AreDigits ds → All IsWordUnit (numeral ds)
numeral-IsWordUnit [] h = tt
numeral-IsWordUnit (d ∷ ds) h =
    ((λ e. omega arith, λ e. omega arith, λ e. omega arith), numeral-IsWordUnit ds h.1)

decimal-IsWord : (n : ℕ) → n < size_mod → IsWord (decimal n)
unfolding decimal
decimal-IsWord n h =
    let (d, ds, e, are, value) = digits_lem n h in rw e (numeral-IsWordUnit (d ∷ ds) are)

-- The words behind the program's name.
abbrev options : ℕ → Text → ℕ → Text
options guard_pid journal_path ready_event =
    codes "--guard-pid"
    ++ (32
        ∷ (decimal guard_pid
            ++ (32
                ∷ (codes "--journal"
                    ++ (32
                        ∷ (quoted journal_path
                            ++ (32 ∷ (codes "--ready-handle" ++ (32 ∷ decimal ready_event)))))))))

broker_command_line_lem :
    (broker_path : Text) (guard_pid : ℕ) (journal_path : Text) (ready_event : ℕ)
    → broker_command_line broker_path guard_pid journal_path ready_event
      ≡ quoted broker_path ++ 32 ∷ options guard_pid journal_path ready_event
unfolding broker_command_line
broker_command_line_lem broker_path guard_pid journal_path ready_event = simp append_assoc

module _ {P : Type 0} ⦃ss : Session P⦄ (laws : CommandLineLaws ss) where
  open laws use {words}

  words-options :
      (guard_pid : ℕ) (journal_path : Text) (ready_event : ℕ)
      → guard_pid < size_mod
      → HasNoQuote journal_path
      → EndsPlain journal_path
      → ready_event < size_mod
      → words (options guard_pid journal_path ready_event)
        ≡ codes "--guard-pid"
          ∷ decimal guard_pid
          ∷ codes "--journal"
          ∷ journal_path
          ∷ codes "--ready-handle"
          ∷ decimal ready_event
          ∷ []
  words-options guard_pid journal_path ready_event small no_quote ends small' =
      laws.plain_word (codes "--guard-pid") _ (omega arith)
      ∙ ap (◌∷◌ (codes "--guard-pid")) (
          laws.plain_word (decimal guard_pid) _ (decimal-IsWord guard_pid small)
          ∙ ap (◌∷◌ (decimal guard_pid)) (
              laws.plain_word (codes "--journal") _ (omega arith)
              ∙ ap (◌∷◌ (codes "--journal")) (
                  laws.quoted_word journal_path _ no_quote ends
                  ∙ ap (◌∷◌ journal_path) (
                      laws.plain_word (codes "--ready-handle") _ (omega arith)
                      ∙ ap (◌∷◌ (codes "--ready-handle")) (
                          laws.last_word (decimal ready_event)
                            (decimal-IsWord ready_event small'))))))

-- The options that the command line gives, as the program reads them.
read_options :
    (guard_pid : ℕ) (journal_path : Text) (ready_event : ℕ)
    → guard_pid < dword_mod
    → ready_event < size_mod
    → read_arguments
        (codes "--guard-pid"
          ∷ decimal guard_pid
          ∷ codes "--journal"
          ∷ journal_path
          ∷ codes "--ready-handle"
          ∷ decimal ready_event
          ∷ [])
        no_arguments
      ≡ record {
        guard_pid = guard_pid;
        journal_path = some journal_path;
        ready_event = ready_event;
      }
unfolding read_arguments text_ieq
read_options guard_pid journal_path ready_event small small' =
    rw (wcstoul-decimal guard_pid small, wcstoui64-decimal ready_event small') refl

module _ {P F : Type 0} ⦃ps : Processes P⦄ ⦃ss : Session P⦄ ⦃fs : Files F⦄ where
  recovery_main-argv :
      (s : P) (f : F) (argv : List Text)
      → (ss.to_argv (ss.command_line s) s).0 ≡ some argv
      → recovery_main s f
        ≡ run_with
            (read_arguments (behind_name argv) no_arguments)
            (ss.to_argv (ss.command_line s) s).1
            f
  unfolding recovery_main
  recovery_main-argv s f argv split = rw (split, recovery_main) refl

  run_with-all :
      (guard_pid : ℕ) (journal_path : Text) (ready_event : ℕ) (s : P) (f : F)
      → 0 < guard_pid
      → 0 < ready_event
      → run_with
          (record {
            guard_pid = guard_pid;
            journal_path = some journal_path;
            ready_event = ready_event;
          })
          s
          f
        ≡ run_recovery_broker guard_pid journal_path ready_event s f
  unfolding run_with
  run_with-all guard_pid journal_path ready_event s f pos pos' =
      let e : (guard_pid == 0) ≡ false = ground arith in
      let e' : (ready_event == 0) ≡ false = ground arith in rw (e, e') refl

module _ {P F : Type 0} ⦃ps : Processes P⦄ ⦃ss : Session P⦄ ⦃fs : Files F⦄
    (laws : CommandLineLaws ss) where
  -- Started with the command line that `bg_start_recovery_broker` prints, the recovery program reads
  -- back the guard's process id, the journal's path and the event, and does its work with them: for
  -- a process id that is a DWORD, an event handle of 64 bits, neither of them 0, and paths without
  -- quotation marks, the journal's not ending in a backslash, if CommandLineToArgvW succeeds.
  pub recovery_main-broker_command_line :
      (broker_path : Text) (guard_pid : ℕ) (journal_path : Text) (ready_event : ℕ) (s : P) (f : F)
      (argv : List Text)
      → ss.command_line s ≡ broker_command_line broker_path guard_pid journal_path ready_event
      → (ss.to_argv (ss.command_line s) s).0 ≡ some argv
      → 0 < guard_pid
      → guard_pid < dword_mod
      → 0 < ready_event
      → ready_event < size_mod
      → HasNoQuote broker_path
      → HasNoQuote journal_path
      → EndsPlain journal_path
      → recovery_main s f
        ≡ run_recovery_broker guard_pid journal_path ready_event
            (ss.to_argv (ss.command_line s) s).1
            f
  unfolding behind_name
  recovery_main-broker_command_line broker_path guard_pid journal_path ready_event s f argv line
        split pos small pos' small' no_quote no_quote' ends =
      let divided : argv ≡ broker_path ∷ laws.words (options guard_pid journal_path ready_event) =
        laws.program broker_path (options guard_pid journal_path ready_event) s argv no_quote (
          ap (λ (l : Text). (ss.to_argv l s).0)
            (sym (line ∙ broker_command_line_lem broker_path guard_pid journal_path ready_event))
          ∙ split) in
      let s1 = (ss.to_argv (ss.command_line s) s).1 in
      recovery_main-argv s f argv split
      ∙ ap (λ (a : List Text). run_with (read_arguments (behind_name a) no_arguments) s1 f)
          (divided
            ∙ ap (◌∷◌ broker_path) (
                words-options laws guard_pid journal_path ready_event (omega arith) no_quote' ends
                  small'))
      ∙ ap (λ (a : Arguments). run_with a s1 f)
          (read_options guard_pid journal_path ready_event small small')
      ∙ run_with-all guard_pid journal_path ready_event s1 f pos pos'
