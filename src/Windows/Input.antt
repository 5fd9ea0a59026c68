-- ===== src/Windows/Input.antt =====
-- The Windows calls about keys, the mouse, messages, console signals and the overlay window, on the
-- state `D` of the desktop.
use browser_guard.Prelude.{ℕ, Bool, Option, List}

-- MSG, as far as it is read: the window and the message.
pub record Message : Type 0 where
  pub hwnd : ℕ
  pub message : ℕ

pub record Input (D : Type 0) : Type 0 where
  -- GetAsyncKeyState: whether the key is down (the bit 0x8000)
  pub key_down : ℕ → D → Bool × D
  -- GetCursorPos and WindowFromPoint
  pub cursor_position : D → Option (ℕ × ℕ) × D
  pub window_from_point : ℕ × ℕ → D → ℕ × D
  -- PeekMessageW with PM_REMOVE until none is left: the messages, in order
  pub waiting_messages : D → List Message × D
  -- What DefWindowProcW and painting do for a message
  pub default_message : Message → D → D
  -- The console signals for which the handler ran since the last question
  pub console_signals : D → List ℕ × D
  -- RegisterClassExW, or the class was there; CreateWindowExW, where 0 is NULL; DestroyWindow
  pub register_class : D → Bool × D
  pub create_window : D → ℕ × D
  pub destroy_window : ℕ → D → D
  -- GetWindowRect: the left and top edges, modulo 2 ^ 32
  pub window_rect : ℕ → D → Option (ℕ × ℕ) × D
  -- SetWindowPos at a place, with ShowWindow, InvalidateRect and UpdateWindow
  pub show_at : ℕ → ℕ → ℕ → D → D
  -- ShowWindow with a command, and SetForegroundWindow
  pub show_window : ℕ → ℕ → D → D
  pub set_foreground_window : ℕ → D → D
  -- The processes with an active audio session, by the COM calls
  pub active_audio_pids : D → List ℕ × D
  -- CoInitializeEx as far as it succeeds, CoUninitialize, and SetConsoleCtrlHandler
  pub co_initialize : D → Bool × D
  pub co_uninitialize : D → D
  pub set_console_handler : D → Bool × D

-- The calls about the window of a notification.
pub record Notifications (D : Type 0) : Type 0 where
  -- RegisterClassExW, or the class was there
  pub register_notification : D → Bool × D
  -- SystemParametersInfoW with SPI_GETWORKAREA, and GetSystemMetrics of the screen: the right and the
  -- bottom edge
  pub work_area : D → Option (ℕ × ℕ) × D
  pub screen_size : D → (ℕ × ℕ) × D
  -- CreateWindowExW at a place, with a text and whether it is an error; 0 is NULL
  pub create_notification : ℕ → ℕ → List ℕ → Bool → D → ℕ × D
  -- ShowWindow, UpdateWindow and SetTimer with a time
  pub show_for : ℕ → ℕ → D → D
  pub message_box : List ℕ → D → D
