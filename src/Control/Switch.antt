-- ===== src/Control/Switch.antt =====
-- What a run of src/control_main.c does, seen from outside: a switch that is the flag file, and the
-- guards that were started.
use browser_guard.Prelude.{
  ℕ, ◌-◌, ◌≡◌, ◌≢◌, refl, ◌∙◌, Bool, true, false, Option, none, some, List, ◌∷◌, inl, inr, ◌⊎◌,
  on_if, on_option, Text, printed,
}
use browser_guard.Windows.{Files, Processes, Opened-cases}
use browser_guard.Windows.Laws.{FileLaws}
use browser_guard.Windows.Session.{Session, Launch}
use browser_guard.Windows.Session.Laws.{LaunchLaws}
use browser_guard.Journal.Layout.{max_path}
use browser_guard.Control.{
  ControlMode, toggle, launch, build_path, installed_exe_name, arguments_file_name,
}
use browser_guard.Control.Arguments.{
  read_arguments_file, bytes_capacity, c_string, trim_line_ends, strip_mark,
}
use browser_guard.Control.Start.{
  create_guard, create_with, start_with_paths, start_guard_process, create_new_process_group,
  guard_command_line, command_line_capacity, arguments_capacity,
}

-- Whether protection is switched off, and the processes that were started.
pub record Switch : Type 0 where
  pub off : Bool
  pub starts : List Launch

-- A start of the guard that is installed in a directory.
pub record StartsGuard (directory : Text) (l : Launch) : Type 0 where
  pub installed : build_path max_path directory installed_exe_name ≡ some l.image
  pub inside : l.directory ≡ some directory

-- One more start, or none.
abbrev pub StartsAtMostOne : Text → Switch → Switch → Type 0
StartsAtMostOne directory w w' =
    (w'.starts ≡ w.starts) ⊎ ((l : Launch) × StartsGuard directory l × (w'.starts ≡ l ∷ w.starts))

-- What each mode may do.
pub data Runs (directory : Text) (w w' : Switch) : ControlMode → Type 0 where
  nothing : {mode : ControlMode} → w'.off ≡ w.off → w'.starts ≡ w.starts → Runs directory w w' mode
  launches :
      w.off ≡ false → w'.off ≡ false → StartsAtMostOne directory w w' → Runs directory w w' launch
  switches_off : w'.off ≡ true → w'.starts ≡ w.starts → Runs directory w w' toggle
  switches_on : w'.off ≡ false → StartsAtMostOne directory w w' → Runs directory w w' toggle

abbrev pub is_there : Option (List ℕ) → Bool
is_there none = false
is_there (some bytes) = true

module _ {F : Type 0} ⦃fs : Files F⦄ (file_laws : FileLaws fs) (flag : Text) where
  open file_laws use {contents}

  -- The attributes of the flag file can be read, and it can be deleted.
  pub record FlagAnswers : Type 0 where
    pub readable :
        (f : F) → contents f flag ≢ none → (a : ℕ) × ((fs.file_attributes flag f).0 ≡ some a)
    pub deletable : (f : F) → (fs.delete_file flag f).0 ≡ false → contents f flag ≡ none

module _ {P F : Type 0} ⦃ps : Processes P⦄ ⦃ss : Session P⦄ ⦃fs : Files F⦄ (file_laws : FileLaws fs)
    (launch_laws : LaunchLaws ps ss) (flag : Text) where
  open file_laws use {contents}
  open launch_laws use {launched}

  abbrev pub view : P → F → Switch
  view s f = record { off = is_there (contents f flag); starts = launched s }

  abbrev Quietly : P → F → P → F → Type 0
  Quietly s f s' f' = (launched s' ≡ launched s) × (contents f' flag ≡ contents f flag)

  read_arguments_file-Quietly :
      (path : Text) (n : ℕ) (s : P) (f : F)
      → Quietly s f (read_arguments_file path n s f).1 (read_arguments_file path n s f).2
  unfolding read_arguments_file
  read_arguments_file-Quietly path n s f =
      let f1 = (fs.open_file path f).1 in
      let kept = file_laws.open_same path flag f in
      elim (Opened-cases (fs.open_file path f).0) [
        | inl (h, e) ↦
            (let f2 = (fs.read_file h (bytes_capacity - 1) f1).1 in
              let bytes = (fs.read_file h (bytes_capacity - 1) f1).0.1 in
              let closed : contents (fs.close_file h f2) flag ≡ contents f flag =
                file_laws.close_same h flag f2
                ∙ file_laws.read_same h (bytes_capacity - 1) flag f1
                ∙ kept in
              rw (e, read_arguments_file)
                (on_if (λ (r : Option Text × P × F). Quietly s f r.1 r.2)
                  (fs.read_file h (bytes_capacity - 1) f1).0.0 _ _
                  (λ _. (
                    launch_laws.others.multi_byte_to_wide
                        (c_string (trim_line_ends (strip_mark bytes))) n s,
                    closed,
                  ))
                  (λ _. (refl, closed))))
        | inr (code, e) ↦ rw (e, read_arguments_file) (refl, kept)
      ]

  abbrev pub AtMostOne : Text → P → P → Type 0
  AtMostOne directory s s' =
      (launched s' ≡ launched s)
      ⊎ ((l : Launch) × StartsGuard directory l × (launched s' ≡ l ∷ launched s))

  create_guard-AtMostOne :
      (directory exe_path line : Text) (s : P)
      → build_path max_path directory installed_exe_name ≡ some exe_path
      → AtMostOne directory s (create_guard exe_path directory line s).1
  unfolding create_guard
  create_guard-AtMostOne directory exe_path line s path =
      let l : Launch = record {
        image = exe_path;
        command_line = line;
        inherit_handles = false;
        flags = create_new_process_group;
        directory = some directory;
      } in
      let s1 = (ss.create_process l s).1 in
      on_option (λ (r : Bool × P). AtMostOne directory s r.1) (ss.create_process l s).0 _ _
        (λ e. inl (launch_laws.create_failed l s e))
        (λ h e. inr (
          l,
          record { installed = path; inside = refl },
          launch_laws.others.queries.close_handle h.0 (ps.close_handle h.1 s1)
              ∙ launch_laws.others.queries.close_handle h.1 s1
              ∙ launch_laws.create_counts l s h e,
        ))

  create_with-AtMostOne :
      (directory exe_path : Text) (arguments : Option Text) (s t : P)
      → build_path max_path directory installed_exe_name ≡ some exe_path
      → launched t ≡ launched s
      → AtMostOne directory s (create_with exe_path directory arguments t).1
  unfolding create_with
  create_with-AtMostOne directory exe_path arguments s t path same =
      on_option (λ (r : Bool × P). AtMostOne directory s r.1) arguments _ _ (λ _. inl same)
        (λ given _.
          on_option (λ (r : Bool × P). AtMostOne directory s r.1)
            (printed command_line_capacity (guard_command_line exe_path given)) _ _ (λ _. inl same)
            (λ line _. rw (← same) (create_guard-AtMostOne directory exe_path line t path)))

  unfoldable pub Started : Text → P → F → Bool × P × F → Type 0
  Started directory s f r = AtMostOne directory s r.1 × (contents r.2 flag ≡ contents f flag)

  pub start_guard_process-Started :
      (directory : Text) (s : P) (f : F) → Started directory s f (start_guard_process directory s f)
  unfolding start_guard_process start_with_paths Started
  start_guard_process-Started directory s f =
      on_option (Started directory s f) (build_path max_path directory installed_exe_name) _ _
        (λ _. (inl refl, refl))
        (λ exe_path path.
          on_option (Started directory s f) (build_path max_path directory arguments_file_name) _ _
            (λ _. (inl refl, refl))
            (λ args_path _.
              let f1 = (fs.file_attributes exe_path f).1 in
              let kept = file_laws.attributes_same exe_path flag f in
              let (quiet, kept1) = read_arguments_file-Quietly args_path arguments_capacity s f1 in
              let read = read_arguments_file args_path arguments_capacity s f1 in
              on_option (Started directory s f) (fs.file_attributes exe_path f).0 _ _
                (λ _. (inl refl, kept))
                (λ a _. (
                  create_with-AtMostOne directory exe_path read.0 s read.1 path quiet,
                  kept1 ∙ kept,
                ))))
