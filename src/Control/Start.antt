-- ===== src/Control/Start.antt =====
-- `start_guard_process` of src/control_main.c.
use browser_guard.Prelude.{
  ℕ, Bool, true, false, Option, none, some, [], ◌∷◌, ◌++◌, if◌then◌else◌, Text, printed,
}
use browser_guard.Windows.{Files, Processes}
use browser_guard.Windows.Session.{Session}
use browser_guard.Identity.{is_empty}
use browser_guard.Journal.Layout.{max_path}
use browser_guard.Control.{installed_exe_name, arguments_file_name, build_path}
use browser_guard.Control.Arguments.{read_arguments_file}

abbrev pub arguments_capacity : ℕ
arguments_capacity = 2048

abbrev pub command_line_capacity : ℕ
command_line_capacity = 4096

-- CREATE_NEW_PROCESS_GROUP
abbrev pub create_new_process_group : ℕ
create_new_process_group = 0x200

-- `L"\"%ls\""`, and `L"\"%ls\" %ls"` where there are arguments.
unfoldable pub guard_command_line : Text → Text → Text
guard_command_line exe_path arguments =
    b'"' ∷ (exe_path ++ (if is_empty arguments then b'"' ∷ [] else b'"' ∷ 32 ∷ arguments))

module _ {P : Type 0} ⦃ps : Processes P⦄ ⦃ss : Session P⦄ where
  unfoldable pub create_guard : Text → Text → Text → P → Bool × P
  create_guard exe_path install_directory command_line s =
      let (created, s1) =
        ss.create_process
          (record {
            image = exe_path;
            command_line = command_line;
            inherit_handles = false;
            flags = create_new_process_group;
            directory = some install_directory;
          })
          s in
      elim created [
        | none ↦ (false, s1)
        | some (process, thread) ↦ (true, ps.close_handle process (ps.close_handle thread s1))
      ]

  unfoldable pub create_with : Text → Text → Option Text → P → Bool × P
  create_with exe_path install_directory arguments s = elim arguments [
    | none ↦ (false, s)
    | some given ↦ elim (printed command_line_capacity (guard_command_line exe_path given)) [
      | none ↦ (false, s)
      | some command_line ↦ create_guard exe_path install_directory command_line s
    ]
  ]

module _ {P F : Type 0} ⦃ps : Processes P⦄ ⦃ss : Session P⦄ ⦃fs : Files F⦄ where
  unfoldable pub start_with_paths : Text → Text → Text → P → F → Bool × P × F
  start_with_paths exe_path args_path install_directory s f =
      let (attributes, f1) = fs.file_attributes exe_path f in
      elim attributes [
        | none ↦ (false, s, f1)
        | some a ↦
            (let (arguments, s1, f2) = read_arguments_file args_path arguments_capacity s f1 in
              let (created, s2) = create_with exe_path install_directory arguments s1 in
              (created, s2, f2))
      ]

  unfoldable pub start_guard_process : Text → P → F → Bool × P × F
  start_guard_process install_directory s f =
      elim (build_path max_path install_directory installed_exe_name) [
        | none ↦ (false, s, f)
        | some exe_path ↦ elim (build_path max_path install_directory arguments_file_name) [
          | none ↦ (false, s, f)
          | some args_path ↦ start_with_paths exe_path args_path install_directory s f
        ]
      ]
