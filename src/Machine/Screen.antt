-- ===== src/Machine/Screen.antt =====
-- A desktop on which every window exists, is minimized, answers, and belongs to one process; the left
-- button is down and the cursor is over window 77.
use browser_guard.Prelude.{ℕ, true, some, List, [], ◌==◌}
use browser_guard.Windows.{Desktop}
use browser_guard.Windows.Input.{Input, Notifications}

pub record Screen : Type 0 where
  pub windows : List ℕ
  pub owner : ℕ

instance unfoldable pub screen_desktop : Desktop Screen
screen_desktop = record {
  is_window = λ hwnd s. (true, s);
  is_visible = λ hwnd s. (true, s);
  is_iconic = λ hwnd s. (true, s);
  is_zoomed = λ hwnd s. (true, s);
  restores_to_maximized = λ hwnd s. (some true, s);
  window_pid = λ hwnd s. (s.owner, s);
  root_window = λ hwnd s. (hwnd, s);
  foreground_window = λ s. (0, s);
  enum_windows = λ s. (s.windows, s);
  send_null_message = λ hwnd ms s. (true, s);
}

instance unfoldable pub screen_input : Input Screen
screen_input = record {
  key_down = λ key s. (key == 1, s);
  cursor_position = λ s. (some (3, 4), s);
  window_from_point = λ point s. (77, s);
  waiting_messages = λ s. ([], s);
  default_message = λ m s. s;
  console_signals = λ s. ([], s);
  register_class = λ s. (true, s);
  create_window = λ s. (6, s);
  destroy_window = λ hwnd s. s;
  window_rect = λ hwnd s. (some (10, 20), s);
  show_at = λ hwnd x y s. s;
  show_window = λ hwnd command s. s;
  set_foreground_window = λ hwnd s. s;
  active_audio_pids = λ s. ([], s);
  co_initialize = λ s. (true, s);
  co_uninitialize = λ s. s;
  set_console_handler = λ s. (true, s);
}

instance unfoldable pub screen_notifications : Notifications Screen
screen_notifications = record {
  register_notification = λ s. (true, s);
  work_area = λ s. (some (1920, 1040), s);
  screen_size = λ s. ((1920, 1080), s);
  create_notification = λ x y message is_error s. (7, s);
  show_for = λ hwnd ms s. s;
  message_box = λ message s. s;
}
