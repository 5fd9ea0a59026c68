-- ===== src/Guard/Paths.antt =====
-- `build_sibling_path` of src/browser_guard.c, beside the paths of src/control_main.c.
use mathlib.Core.List.{append_assoc}
use browser_guard.Prelude.{
  ℕ, ◌≡◌, refl, ◌||◌, Option, none, some, [], ◌∷◌, ◌++◌, ◌==◌, leb, if◌then◌else◌, inl, inr, Text,
  printed, Option-cases, Bool-cases, ap, sym, ◌∙◌, arith,
}
use browser_guard.Windows.Session.{Session}
use browser_guard.Control.{before_last_slash, build_path, get_module_directory}

-- The text up to the last backslash and with it, if there is one.
unfoldable pub through_last_slash : Text → Option Text
through_last_slash [] = none
through_last_slash (c ∷ cs) = elim (through_last_slash cs) [
  | some t ↦ some (c ∷ t)
  | none ↦ (if c == b'\\' then some (c ∷ []) else none)
]

-- `wcscat_s` gives 0 only if the whole path and its zero fit the buffer.
unfoldable pub append_name : ℕ → Text → Option Text → Option Text
append_name path_count file_name directory = elim directory [
  | none ↦ none
  | some d ↦ printed path_count (d ++ file_name)
]

module _ {P : Type 0} ⦃ss : Session P⦄ where
  unfoldable pub build_sibling_path : Text → ℕ → P → Option Text × P
  build_sibling_path file_name path_count s =
      let ((length, path), s1) = ss.module_file_name path_count s in
      (
        (if length == 0 || leb path_count length
            then none
            else append_name path_count file_name (through_last_slash path)),
        s1,
      )

-- The path of a file beside the program, as src/control_main.c builds it.
unfoldable pub path_beside : ℕ → Text → Option Text → Option Text
path_beside buffer_count file_name directory = elim directory [
  | none ↦ none
  | some d ↦ build_path buffer_count d file_name
]

with_slash : Option Text → Option Text
with_slash none = none
with_slash (some t) = some (t ++ b'\\' ∷ [])

before_step : ℕ → Option Text → Option Text
before_step c (some t) = some (c ∷ t)
before_step c none = if c == b'\\' then some [] else none

through_step : ℕ → Option Text → Option Text
through_step c (some t) = some (c ∷ t)
through_step c none = if c == b'\\' then some (c ∷ []) else none

with_slash-step :
    (c : ℕ) (o : Option Text) → with_slash (before_step c o) ≡ through_step c (with_slash o)
unfolding with_slash before_step through_step
with_slash-step c (some t) = refl
with_slash-step c none = ground arith

before_last_slash_cons :
    (c : ℕ) (cs : Text) → before_last_slash (c ∷ cs) ≡ before_step c (before_last_slash cs)
unfolding before_last_slash before_step
before_last_slash_cons c cs = elim (Option-cases (before_last_slash cs)) [
  | inl e ↦ rw e refl
  | inr (t, e) ↦ rw e refl
]

through_last_slash_cons :
    (c : ℕ) (cs : Text) → through_last_slash (c ∷ cs) ≡ through_step c (through_last_slash cs)
unfolding through_last_slash through_step
through_last_slash_cons c cs = elim (Option-cases (through_last_slash cs)) [
  | inl e ↦ rw e refl
  | inr (t, e) ↦ rw e refl
]

through_last_slash-before : (s : Text) → through_last_slash s ≡ with_slash (before_last_slash s)
unfolding through_last_slash before_last_slash with_slash
through_last_slash-before [] = refl
through_last_slash-before (c ∷ cs) =
    through_last_slash_cons c cs
    ∙ ap (through_step c) (through_last_slash-before cs)
    ∙ sym (with_slash-step c (before_last_slash cs))
    ∙ ap with_slash (sym (before_last_slash_cons c cs))

append_name-with_slash :
    (path_count : ℕ) (file_name : Text) (directory : Option Text)
    → append_name path_count file_name (with_slash directory)
      ≡ path_beside path_count file_name directory
unfolding append_name with_slash path_beside build_path
append_name-with_slash path_count file_name none = refl
append_name-with_slash path_count file_name (some d) = rw append_assoc refl

-- The guard and the control program name the same files. Of a program at any path, and into a buffer
-- of any size, `build_sibling_path` gives what `get_module_directory` and `build_path` give, and
-- fails exactly where one of these fails.
pub build_sibling_path-build_path :
    {P : Type 0} ⦃ss : Session P⦄ (file_name : Text) (path_count : ℕ) (s : P)
    → (build_sibling_path file_name path_count s).0
      ≡ path_beside path_count file_name (get_module_directory path_count s).0
unfolding build_sibling_path get_module_directory
build_sibling_path-build_path ⦃ss⦄ file_name path_count s =
    let ((length, path), s1) = ss.module_file_name path_count s in
    elim (Bool-cases (length == 0 || leb path_count length)) [
      | inl e ↦ rw e (unfold path_beside in refl)
      | inr e ↦ rw e (
          ap (append_name path_count file_name) (through_last_slash-before path)
          ∙ append_name-with_slash path_count file_name (before_last_slash path))
    ]
