-- ===== src/ProcessControl.antt =====
-- src/process_control.c and include/process_control.h: the adapter to Windows.
pub mod Suspend
pub mod Probe
pub mod Groups
pub mod Marks
pub mod Kept
pub mod Memory
mod Tests
use browser_guard.Prelude.{ℕ, Bool, List, Text}

-- `pids` holds the `pid_count` ids in use.
pub record BrowserGroup : Type 0 where
  pub exe_name : Text
  pub pids : List ℕ
  pub anchor_window : ℕ
  pub has_foreground_window : Bool
  pub has_visible_window : Bool
  pub minimized_window_count : ℕ
  pub visible_restored_window_count : ℕ
  pub has_audio : Bool

abbrev pub max_tracked_processes : ℕ
max_tracked_processes = 512
