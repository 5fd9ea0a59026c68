-- ===== src/Control/Refines.antt =====
-- The modes of src/control_main.c against the switch of `Control.Switch`.
use browser_guard.Prelude.{
  ℕ, ◌≡◌, ◌≢◌, refl, ◌∙◌, ap, Bool, true, false, Option, none, some, List, ◌∷◌, arith, inl, inr,
  ◌⊎◌, Bool-cases, Option-cases, on_if, on_option, ◌==◌, Text,
}
use browser_guard.Windows.{Files, Processes}
use browser_guard.Windows.Laws.{FileLaws}
use browser_guard.Windows.Session.{Session}
use browser_guard.Windows.Session.Laws.{LaunchLaws}
use browser_guard.Control.{ControlMode, toggle, launch, shutdown}
use browser_guard.Control.Guards.{count_guard_processes}
use browser_guard.Control.Start.{start_guard_process}
use browser_guard.Control.Modes.{
  Exit, write_disabled_flag, is_disabled, launch_guard, run_launch_mode, turn_off, turn_on,
  run_toggle_mode, run_shutdown_mode, run_mode,
}
use browser_guard.Control.Kept.{count_guard_processes-kept, request_guard_shutdown-kept}
use browser_guard.Control.Switch.{
  Switch, Runs, nothing, launches, switches_off, switches_on, is_there, view, FlagAnswers,
  AtMostOne, Started, start_guard_process-Started,
}

is_there-none : (c : Option (List ℕ)) → (c ≢ none → ⊥) → is_there c ≡ false
is_there-none none h = refl
is_there-none (some bytes) h = absurd (h (λ e. cc))

module _ {F : Type 0} ⦃fs : Files F⦄ (file_laws : FileLaws fs) (flag : Text) where
  open file_laws use {contents}

  is_disabled-off :
      (f : F)
      → FlagAnswers file_laws flag
      → (is_disabled flag f).0 ≡ false
      → is_there (contents f flag) ≡ false
  unfolding is_disabled
  is_disabled-off f answers e = elim (Option-cases (contents f flag)) [
    | inl gone ↦ rw gone refl
    | inr (bytes, there) ↦
        (let (a, told) = answers.readable f (λ gone. cc) in
          let plain = file_laws.attributes_file flag f a bytes told there in ground arith)
  ]

  -- The flag file is there afterwards, or nothing has changed.
  flagged :
      (f : F)
      → let f1 = (write_disabled_flag flag true f).1 in
        (is_there (contents f1 flag) ≡ true) ⊎ (contents f1 flag ≡ contents f flag)
  unfolding write_disabled_flag
  flagged f =
      let f1 = (fs.create_file flag f).1 in
      on_option
        (λ (r : Bool × F).
          (is_there (contents r.1 flag) ≡ true) ⊎ (contents r.1 flag ≡ contents f flag))
        (fs.create_file flag f).0 _ _ (λ e. inr (file_laws.create_failed flag flag f e))
        (λ h e.
          inl (ap is_there (file_laws.close_same h flag f1 ∙ (file_laws.create_self flag f h e).0)))

  unflagged :
      (f : F)
      → FlagAnswers file_laws flag
      → is_there (contents (write_disabled_flag flag false f).1 flag) ≡ false
  unfolding write_disabled_flag
  unflagged f answers = elim (Bool-cases (fs.delete_file flag f).0) [
    | inl e ↦ ap is_there (file_laws.delete_self flag f e)
    | inr e ↦ ap is_there (file_laws.delete_failed flag f e ∙ answers.deletable f e)
  ]

module _ {P F : Type 0} ⦃ps : Processes P⦄ ⦃ss : Session P⦄ ⦃fs : Files F⦄ (file_laws : FileLaws fs)
    (launch_laws : LaunchLaws ps ss) (flag : Text) where
  open file_laws use {contents}
  open launch_laws use {launched}

  abbrev seen : P → F → Switch
  seen s f = view file_laws launch_laws flag s f

  at_most_one :
      (directory : Text) (s s1 s2 : P)
      → launched s1 ≡ launched s
      → AtMostOne file_laws launch_laws flag directory s1 s2
      → AtMostOne file_laws launch_laws flag directory s s2
  at_most_one directory s s1 s2 same (inl e) = inl (e ∙ same)
  at_most_one directory s s1 s2 same (inr (l, guard, e)) = inr (l, guard, e ∙ ap (◌∷◌ l) same)

  run_launch_mode-Runs :
      (directory guard_path : Text) (s : P) (f : F)
      → FlagAnswers file_laws flag
      → let r = run_launch_mode directory flag guard_path s f in
        Runs directory (seen s f) (seen r.1 r.2) launch
  unfolding run_launch_mode launch_guard is_disabled Started
  run_launch_mode-Runs directory guard_path s f answers =
      let Q : ℕ × P × F → Type 0 = λ r. Runs directory (seen s f) (seen r.1 r.2) launch in
      let f1 = (fs.file_attributes flag f).1 in
      let kept = file_laws.attributes_same flag flag f in
      let s1 = (count_guard_processes guard_path s).1 in
      let counted = count_guard_processes-kept launch_laws.others guard_path s in
      on_if Q (is_disabled flag f).0 _ _ (λ _. nothing (ap is_there kept) refl)
        (λ e.
          on_if Q ((count_guard_processes guard_path s).0 == 0) _ _
            (λ _.
              let (started, kept1) =
                start_guard_process-Started file_laws launch_laws flag directory s1 f1 in
              let off = is_disabled-off file_laws flag f answers e in
              launches off (ap is_there (kept1 ∙ kept) ∙ off) (
                at_most_one directory s s1 (start_guard_process directory s1 f1).1 counted started))
            (λ _. nothing (ap is_there kept) counted))

  turn_off-Runs :
      (directory guard_path : Text) (s s1 : P) (f : F)
      → launched s1 ≡ launched s
      → let r = turn_off flag guard_path s1 f in Runs directory (seen s f) (seen r.1 r.2) toggle
  unfolding turn_off
  turn_off-Runs directory guard_path s s1 f same =
      let asked =
        request_guard_shutdown-kept launch_laws.others launch_laws.sleep_same guard_path s1
        ∙ same in
      elim (flagged file_laws flag f) [
        | inl there ↦ switches_off there asked
        | inr kept ↦ nothing (ap is_there kept) asked
      ]

  turn_on-Runs :
      (directory : Text) (s s1 : P) (f : F)
      → FlagAnswers file_laws flag
      → launched s1 ≡ launched s
      → let r = turn_on directory flag s1 f in Runs directory (seen s f) (seen r.1 r.2) toggle
  unfolding turn_on Started
  turn_on-Runs directory s s1 f answers same =
      let f1 = (write_disabled_flag flag false f).1 in
      let (started, kept) =
        start_guard_process-Started file_laws launch_laws flag directory s1 f1 in
      switches_on (ap is_there kept ∙ unflagged file_laws flag f answers)
        (at_most_one directory s s1 (start_guard_process directory s1 f1).1 same started)

  run_toggle_mode-Runs :
      (directory guard_path : Text) (s : P) (f : F)
      → FlagAnswers file_laws flag
      → let r = run_toggle_mode directory flag guard_path s f in
        Runs directory (seen s f) (seen r.1 r.2) toggle
  unfolding run_toggle_mode
  run_toggle_mode-Runs directory guard_path s f answers =
      let Q : Option Exit × P × F → Type 0 = λ r. Runs directory (seen s f) (seen r.1 r.2) toggle in
      let s1 = (count_guard_processes guard_path s).1 in
      let counted = count_guard_processes-kept launch_laws.others guard_path s in
      on_if Q ((count_guard_processes guard_path s).0 == 0) _ _
        (λ _. turn_on-Runs directory s s1 f answers counted)
        (λ _. turn_off-Runs directory guard_path s s1 f counted)

  run_shutdown_mode-kept :
      (guard_path : Text) (s : P) → launched (run_shutdown_mode guard_path s).1 ≡ launched s
  unfolding run_shutdown_mode
  run_shutdown_mode-kept guard_path s =
      let s1 = (count_guard_processes guard_path s).1 in
      let counted = count_guard_processes-kept launch_laws.others guard_path s in
      on_if (λ (r : Option ℕ × P). launched r.1 ≡ launched s)
        ((count_guard_processes guard_path s).0 == 0) _ _ (λ _. counted)
        (λ _.
          request_guard_shutdown-kept launch_laws.others launch_laws.sleep_same guard_path s1
          ∙ counted)

  pub run_mode-Runs :
      (mode : ControlMode) (directory guard_path : Text) (s : P) (f : F)
      → FlagAnswers file_laws flag
      → let r = run_mode mode directory flag guard_path s f in
        Runs directory (seen s f) (seen r.1 r.2) mode
  unfolding run_mode
  run_mode-Runs launch directory guard_path s f answers =
      run_launch_mode-Runs directory guard_path s f answers
  run_mode-Runs shutdown directory guard_path s f answers =
      nothing refl (run_shutdown_mode-kept guard_path s)
  run_mode-Runs toggle directory guard_path s f answers =
      run_toggle_mode-Runs directory guard_path s f answers
