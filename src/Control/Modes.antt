-- ===== src/Control/Modes.antt =====
-- The modes of src/control_main.c and its main function.
use browser_guard.Prelude.{
  ℕ, ◌/◌, ◌%◌, Bool, true, false, Option, none, some, ◌==◌, if◌then◌else◌, Text, codes,
}
use browser_guard.Windows.{Files, Processes}
use browser_guard.Windows.Session.{Session}
use browser_guard.Journal.Layout.{max_path}
use browser_guard.Control.{
  ControlMode, toggle, launch, shutdown, installed_exe_name, disabled_file_name, build_path,
  parse_mode, get_module_directory,
}
use browser_guard.Control.Guards.{count_guard_processes, request_guard_shutdown}
use browser_guard.Control.Start.{start_guard_process}

-- What a notification says.
pub record Notice : Type 0 where
  pub message : Text
  pub is_error : Bool

abbrev pub timed_out : Notice
timed_out = record {
  message =
      codes
        "Safe shutdown timed out. The guard was not force-terminated; try again or resume browsers manually.";
  is_error = true;
}

abbrev pub turned_off : Notice
turned_off = record {
  message = codes "Background protection has been turned off.";
  is_error = false;
}

abbrev pub not_started : Notice
not_started = record {
  message = codes "browser_guard did not start successfully.";
  is_error = true;
}

abbrev pub now_running : Notice
now_running = record { message = codes "Background protection is now running."; is_error = false }

-- The exit code, with the notification that was shown.
pub record Exit : Type 0 where
  pub code : ℕ
  pub notice : Option Notice

module _ {F : Type 0} ⦃fs : Files F⦄ where
  -- The file's contents do not matter.
  unfoldable pub write_disabled_flag : Text → Bool → F → Bool × F
  write_disabled_flag path disabled f =
      let (file, f1) = fs.create_file path f in
      if disabled
      then elim file [ none ↦ (false, f1) | some h ↦ (true, fs.close_file h f1) ]
      else (true, (fs.delete_file path f).1)

  -- FILE_ATTRIBUTE_DIRECTORY is 0x10.
  unfoldable pub is_disabled : Text → F → Bool × F
  is_disabled path f =
      let (attributes, f1) = fs.file_attributes path f in
      (elim attributes [ none ↦ false | some a ↦ a / 16 % 2 == 0 ], f1)

module _ {P : Type 0} ⦃ps : Processes P⦄ ⦃ss : Session P⦄ where
  unfoldable pub run_shutdown_mode : Text → P → Option ℕ × P
  run_shutdown_mode guard_path s =
      let (count, s1) = count_guard_processes guard_path s in
      let (stopped, s2) = request_guard_shutdown guard_path s1 in
      if count == 0
      then (some 0, s1)
      else (elim stopped [ none ↦ none | some success ↦ some (if success then 0 else 1) ], s2)

module _ {P F : Type 0} ⦃ps : Processes P⦄ ⦃ss : Session P⦄ ⦃fs : Files F⦄ where
  -- The start, with the exit code for its result.
  unfoldable pub launch_guard : Text → P → F → ℕ × P × F
  launch_guard install_directory s f =
      let (started, s1, f1) = start_guard_process install_directory s f in
      ((if started then 0 else 1), s1, f1)

  unfoldable pub run_launch_mode : Text → Text → Text → P → F → ℕ × P × F
  run_launch_mode install_directory disabled_path guard_path s f =
      let (disabled, f1) = is_disabled disabled_path f in
      let (count, s1) = count_guard_processes guard_path s in
      if disabled
      then (0, s, f1)
      else if count == 0
      then launch_guard install_directory s1 f1
      else (0, s1, f1)

  -- The guard runs: the flag is written and the guard asked to stop. The result of the write is unread.
  unfoldable pub turn_off : Text → Text → P → F → Option Exit × P × F
  turn_off disabled_path guard_path s f =
      let f1 = (write_disabled_flag disabled_path true f).1 in
      let (stopped, s1) = request_guard_shutdown guard_path s in
      (
        elim stopped [
          | none ↦ none
          | some success ↦ some (
              if success
              then record { code = 0; notice = some turned_off }
              else record { code = 1; notice = some timed_out })
        ],
        s1,
        f1,
      )

  unfoldable pub turn_on : Text → Text → P → F → Exit × P × F
  turn_on install_directory disabled_path s f =
      let f1 = (write_disabled_flag disabled_path false f).1 in
      let (started, s1, f2) = start_guard_process install_directory s f1 in
      (
        (if started
            then record { code = 0; notice = some now_running }
            else record { code = 1; notice = some not_started }),
        s1,
        f2,
      )

  unfoldable pub run_toggle_mode : Text → Text → Text → P → F → Option Exit × P × F
  run_toggle_mode install_directory disabled_path guard_path s f =
      let (running_count, s1) = count_guard_processes guard_path s in
      let (started, s2, f2) = turn_on install_directory disabled_path s1 f in
      if running_count == 0 then (some started, s2, f2) else turn_off disabled_path guard_path s1 f

  unfoldable pub run_mode : ControlMode → Text → Text → Text → P → F → Option ℕ × P × F
  run_mode launch install_directory disabled_path guard_path s f =
      let (code, s1, f1) = run_launch_mode install_directory disabled_path guard_path s f in
      (some code, s1, f1)
  run_mode shutdown install_directory disabled_path guard_path s f =
      let (code, s1) = run_shutdown_mode guard_path s in (code, s1, f)
  run_mode toggle install_directory disabled_path guard_path s f =
      let (exit, s1, f1) = run_toggle_mode install_directory disabled_path guard_path s f in
      (elim exit [ none ↦ none | some e ↦ some e.code ], s1, f1)

  -- wWinMain. `none` is a wait that did not end.
  unfoldable pub control_main : P → F → Option ℕ × P × F
  control_main s f =
      let (directory, s1) = get_module_directory max_path s in
      elim directory [
        | none ↦ (some 1, s1, f)
        | some install_directory ↦ elim (build_path max_path install_directory disabled_file_name) [
          | none ↦ (some 1, s1, f)
          | some disabled_path ↦ elim (build_path max_path install_directory installed_exe_name) [
            | none ↦ (some 1, s1, f)
            | some guard_path ↦
                (let (mode, s2) = parse_mode s1 in
                  run_mode mode install_directory disabled_path guard_path s2 f)
          ]
        ]
      ]
