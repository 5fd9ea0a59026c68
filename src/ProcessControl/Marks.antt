-- ===== src/ProcessControl/Marks.antt =====
-- The windows of the browser groups in src/process_control.c: which group a window belongs to, and what
-- each visible window counts for.
pub mod Counts
mod Tests
use browser_guard.Prelude.{
  ℕ, Bool, true, false, not, ◌&&◌, Option, none, some, List, [], ◌∷◌, ◌==◌, if◌then◌else◌, Text,
  size_add,
}
use browser_guard.Windows.{Processes, Desktop}
use browser_guard.Identity.{query_limited_information}
use browser_guard.Journal.Layout.{max_path}
use browser_guard.ProcessControl.{BrowserGroup}
use browser_guard.ProcessControl.Groups.{
  SecurityContext, find_group_by_name, change_group, is_manageable_browser_process,
}

-- `wcsrchr` for a backslash: the text behind the last one, if there is one.
unfoldable pub behind_last_slash : Text → Option Text
behind_last_slash [] = none
behind_last_slash (c ∷ cs) =
    let rest = behind_last_slash cs in
    elim rest [ some t ↦ some t | none ↦ (if c == b'\\' then some cs else none) ]

unfoldable pub base_name : Text → Text
base_name path = elim (behind_last_slash path) [ none ↦ path | some name ↦ name ]

module _ {P : Type 0} ⦃ps : Processes P⦄ where
  unfoldable pub query_process_base_name : ℕ → P → Option Text × P
  query_process_base_name pid s =
      let (process, s1) = ps.open_process query_limited_information pid s in
      elim process [
        | none ↦ (none, s1)
        | some h ↦
            (let (path, s2) = ps.image_name h max_path s1 in
              (elim path [ none ↦ none | some p ↦ some (base_name p) ], ps.close_handle h s2))
      ]

  unfoldable pub is_manageable_browser_pid : SecurityContext → ℕ → P → Bool × P
  is_manageable_browser_pid context pid s =
      let (name, s1) = query_process_base_name pid s in
      elim name [
        | none ↦ (false, s1)
        | some exe_name ↦ is_manageable_browser_process context pid exe_name s1
      ]

module _ {D : Type 0} ⦃ds : Desktop D⦄ where
  unfoldable pub take_anchor : ℕ → BrowserGroup → D → BrowserGroup × D
  take_anchor hwnd g d =
      let (root, d1) = ds.root_window hwnd d in (record g { anchor_window = root }, d1)

  -- The first restored window becomes the anchor.
  unfoldable pub mark_anchor : ℕ → BrowserGroup → D → BrowserGroup × D
  mark_anchor hwnd g d =
      let (iconic, d1) = ds.is_iconic hwnd d in
      if g.anchor_window == 0 then (if iconic then (g, d1) else take_anchor hwnd g d1) else (g, d)

  unfoldable pub count_window : ℕ → BrowserGroup → D → BrowserGroup × D
  count_window hwnd g d =
      let (iconic, d1) = ds.is_iconic hwnd d in
      (
        (if iconic
            then record g { minimized_window_count = size_add g.minimized_window_count 1 }
            else record g {
              visible_restored_window_count = size_add g.visible_restored_window_count 1;
            }),
        d1,
      )

  -- A restored foreground window is the anchor in any case.
  unfoldable pub mark_foreground : ℕ → ℕ → BrowserGroup → D → BrowserGroup × D
  mark_foreground foreground hwnd g d =
      let (iconic, d1) = ds.is_iconic hwnd d in
      if hwnd == foreground
      then (if iconic
          then (g, d1)
          else take_anchor hwnd (record g { has_foreground_window = true }) d1)
      else (g, d)

  -- What a visible window does to its group.
  unfoldable pub mark_window : ℕ → ℕ → BrowserGroup → D → BrowserGroup × D
  mark_window foreground hwnd g d =
      let (g1, d1) = mark_anchor hwnd (record g { has_visible_window = true }) d in
      let (g2, d2) = count_window hwnd g1 d1 in mark_foreground foreground hwnd g2 d2

  -- A window of the process with that image name.
  unfoldable pub mark_named : ℕ → ℕ → Text → List BrowserGroup → D → List BrowserGroup × D
  mark_named foreground hwnd exe_name groups d = elim (find_group_by_name exe_name groups) [
    | none ↦ (groups, d)
    | some g ↦
        (let (marked, d1) = mark_window foreground hwnd g d in
          (change_group (λ _. marked) exe_name groups, d1))
  ]

module _ {P D : Type 0} ⦃ps : Processes P⦄ ⦃ds : Desktop D⦄ where
  unfoldable pub enum_windows_callback :
      ℕ → ℕ → List BrowserGroup → P → D → List BrowserGroup × P × D
  enum_windows_callback foreground hwnd groups s d =
      let (visible, d1) = ds.is_visible hwnd d in
      let (pid, d2) = ds.window_pid hwnd d1 in
      let (name, s1) = query_process_base_name pid s in
      if visible
      then (if pid == 0 then (groups, s, d2) else (elim name [
        | none ↦ (groups, s1, d2)
        | some exe_name ↦
            (let (marked, d3) = mark_named foreground hwnd exe_name groups d2 in (marked, s1, d3))
      ]))
      else (groups, s, d1)

  unfoldable pub mark_windows : ℕ → List ℕ → List BrowserGroup → P → D → List BrowserGroup × P × D
  mark_windows foreground [] groups s d = (groups, s, d)
  mark_windows foreground (hwnd ∷ rest) groups s d =
      let (groups1, s1, d1) = enum_windows_callback foreground hwnd groups s d in
      mark_windows foreground rest groups1 s1 d1

  unfoldable pub mark_foreground_groups : List BrowserGroup → P → D → List BrowserGroup × P × D
  mark_foreground_groups groups s d =
      let (foreground, d1) = ds.foreground_window d in
      let (windows, d2) = ds.enum_windows d1 in mark_windows foreground windows groups s d2
