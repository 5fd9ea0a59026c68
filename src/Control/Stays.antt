-- ===== src/Control/Stays.antt =====
-- Toggling protection off in src/control_main.c, and launching afterwards.
use browser_guard.Prelude.{
  ℕ, ◌≡◌, refl, ◌∙◌, ap, true, false, Option, none, some, List, arith, inl, inr, Option-cases, ◌==◌,
  Text,
}
use browser_guard.Windows.{Files, Processes}
use browser_guard.Windows.Laws.{FileLaws}
use browser_guard.Windows.Session.{Session}
use browser_guard.Control.Guards.{count_guard_processes}
use browser_guard.Control.Modes.{
  write_disabled_flag, is_disabled, run_launch_mode, turn_off, run_toggle_mode,
}
use browser_guard.Control.Switch.{is_there, FlagAnswers}

not_there : (c : Option (List ℕ)) → c ≡ none → is_there c ≡ true → ⊥
not_there none e t = cc
not_there (some bytes) e t = cc

module _ {F : Type 0} ⦃fs : Files F⦄ (file_laws : FileLaws fs) (flag : Text) where
  open file_laws use {contents}

  there_is_disabled :
      (f : F)
      → FlagAnswers file_laws flag
      → is_there (contents f flag) ≡ true
      → (is_disabled flag f).0 ≡ true
  unfolding is_disabled
  there_is_disabled f answers there = elim (Option-cases (contents f flag)) [
    | inl gone ↦ absurd (not_there (contents f flag) gone there)
    | inr (bytes, stored) ↦
        (let (a, told) =
            answers.readable f (λ gone. absurd (not_there (contents f flag) gone there)) in
          let plain = file_laws.attributes_file flag f a bytes told stored in
          rw told (ground arith))
  ]

module _ {P F : Type 0} ⦃ps : Processes P⦄ ⦃ss : Session P⦄ ⦃fs : Files F⦄ (file_laws : FileLaws fs)
    (flag : Text) where
  open file_laws use {contents}

  launch_when_disabled :
      (directory guard_path : Text) (s : P) (f : F)
      → (is_disabled flag f).0 ≡ true
      → ((run_launch_mode directory flag guard_path s f).0 ≡ 0)
        × ((run_launch_mode directory flag guard_path s f).1 ≡ s)
  unfolding run_launch_mode
  launch_when_disabled directory guard_path s f e = (rw e refl, rw e refl)

  turn_off_there :
      (guard_path : Text) (s : P) (f : F) (h : ℕ)
      → (fs.create_file flag f).0 ≡ some h
      → is_there (contents (turn_off flag guard_path s f).2 flag) ≡ true
  unfolding turn_off write_disabled_flag
  turn_off_there guard_path s f h e =
      let f1 = (fs.create_file flag f).1 in
      rw (e, turn_off)
        (ap is_there (file_laws.close_same h flag f1 ∙ (file_laws.create_self flag f h e).0))

  -- Protection that was toggled off while a guard ran stays off: a launch at any later time starts
  -- nothing, makes no call on processes and exits with 0, while the files are as the toggle left
  -- them. The flag file could be created, and its attributes can be read.
  pub run_launch_mode-run_toggle_mode :
      (directory guard_path : Text) (s s' : P) (f : F) (h : ℕ)
      → FlagAnswers file_laws flag
      → ((count_guard_processes guard_path s).0 == 0) ≡ false
      → (fs.create_file flag f).0 ≡ some h
      → let f' = (run_toggle_mode directory flag guard_path s f).2 in
        ((run_launch_mode directory flag guard_path s' f').0 ≡ 0)
        × ((run_launch_mode directory flag guard_path s' f').1 ≡ s')
  unfolding run_toggle_mode
  run_launch_mode-run_toggle_mode directory guard_path s s' f h answers runs created =
      let s1 = (count_guard_processes guard_path s).1 in
      let f' = (turn_off flag guard_path s1 f).2 in
      rw runs (
        launch_when_disabled directory guard_path s' f'
          (there_is_disabled file_laws flag f' answers (turn_off_there guard_path s1 f h created)))
