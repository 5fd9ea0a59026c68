-- ===== src/Control.antt =====
-- src/control_main.c: the program that starts the guard and asks it to stop. What its windows draw is
-- not modelled.
pub mod Arguments
pub mod Guards
pub mod Start
pub mod Modes
pub mod Notification
pub mod Kept
pub mod Switch
pub mod Refines
pub mod Stays
mod Tests
use browser_guard.Prelude.{
  ℕ, ◌+◌, Bool, true, false, ◌||◌, Option, none, some, List, [], ◌∷◌, ◌++◌, ◌==◌, leb,
  if◌then◌else◌, Text, codes, text_ieq, printed,
}
use browser_guard.Windows.Session.{Session}
use browser_guard.Journal.Layout.{max_path}

pub data ControlMode : Type 0 where
  toggle : ControlMode
  launch : ControlMode
  shutdown : ControlMode

-- BG_INSTALLED_EXE_NAME, BG_DISABLED_FILE_NAME and BG_ARGUMENTS_FILE_NAME.
abbrev pub installed_exe_name : Text
installed_exe_name = codes "browser_guard.exe"

abbrev pub disabled_file_name : Text
disabled_file_name = codes "browser_guard.disabled"

abbrev pub arguments_file_name : Text
arguments_file_name = codes "browser_guard.args.txt"

-- The loop over the arguments behind the program's name.
unfoldable pub find_mode : List Text → ControlMode
find_mode [] = toggle
find_mode (argument ∷ rest) =
    let next = find_mode rest in
    if text_ieq argument (codes "--launch")
    then launch
    else if text_ieq argument (codes "--shutdown")
    then shutdown
    else next

unfoldable pub mode_of : List Text → ControlMode
mode_of [] = toggle
mode_of (name ∷ rest) = find_mode rest

-- The text in front of the last backslash, if there is one.
unfoldable pub before_last_slash : Text → Option Text
before_last_slash [] = none
before_last_slash (c ∷ cs) = elim (before_last_slash cs) [
  | some t ↦ some (c ∷ t)
  | none ↦ (if c == b'\\' then some [] else none)
]

-- `L"%ls\\%ls"`
unfoldable pub build_path : ℕ → Text → Text → Option Text
build_path buffer_count directory file_name = printed buffer_count (directory ++ b'\\' ∷ file_name)

module _ {P : Type 0} ⦃ss : Session P⦄ where
  unfoldable pub parse_mode : P → ControlMode × P
  parse_mode s =
      let (argv, s1) = ss.to_argv (ss.command_line s) s in
      (elim argv [ none ↦ toggle | some arguments ↦ mode_of arguments ], s1)

  unfoldable pub get_module_directory : ℕ → P → Option Text × P
  get_module_directory buffer_count s =
      let ((length, path), s1) = ss.module_file_name buffer_count s in
      ((if length == 0 || leb buffer_count length then none else before_last_slash path), s1)
