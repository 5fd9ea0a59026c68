-- ===== src/ProcessControl/Probe.antt =====
-- The windows of a process and whether one answers, in src/process_control.c.
use browser_guard.Prelude.{ℕ, Bool, true, false, List, [], ◌∷◌, ◌==◌, if◌then◌else◌}
use browser_guard.Windows.{Desktop, ◌and◌}

module _ {D : Type 0} ⦃ds : Desktop D⦄ where
  -- `find_window_by_pid_callback`: whether the window is a root window of the process.
  unfoldable pub is_root_window_of : ℕ → ℕ → D → Bool × D
  is_root_window_of pid hwnd =
      ds.is_window hwnd
      and (λ s. let (owner, s1) = ds.window_pid hwnd s in (owner == pid, s1))
      and (λ s. let (root, s1) = ds.root_window hwnd s in (root == hwnd, s1))

  -- The enumeration stops at the first such window.
  unfoldable pub first_window_of : ℕ → List ℕ → D → ℕ × D
  first_window_of pid [] s = (0, s)
  first_window_of pid (hwnd ∷ rest) s =
      let (found, s1) = is_root_window_of pid hwnd s in
      elim found [ true ↦ (hwnd, s1) | false ↦ first_window_of pid rest s1 ]

  unfoldable pub find_browser_window_for_pid : ℕ → D → ℕ × D
  find_browser_window_for_pid pid s =
      let (windows, s1) = ds.enum_windows s in first_window_of pid windows s1

  unfoldable pub probe_browser_window : ℕ → ℕ → D → Bool × D
  probe_browser_window hwnd timeout_ms s =
      if hwnd == 0
      then (false, s)
      else (ds.is_window hwnd and ds.send_null_message hwnd timeout_ms) s
