-- ===== src/Control/Notification.antt =====
-- `show_notification` of src/control_main.c, and what its window procedure does but for the drawing.
pub mod Ends
mod Tests
use browser_guard.Prelude.{
  ℕ, ◌+◌, ◌^◌, Bool, true, false, not, ◌&&◌, ◌||◌, Option, none, some, List, [], ◌∷◌, ◌==◌, ltb,
  leb, if◌then◌else◌, sub32, poll,
}
use browser_guard.Windows.{Processes, Desktop}
use browser_guard.Windows.Session.{Session}
use browser_guard.Windows.Input.{Input, Message, Notifications}
use browser_guard.Control.Modes.{Notice}

-- BG_NOTIFICATION_TIMEOUT_MS, and the slack after it.
abbrev pub notification_timeout_ms : ℕ
notification_timeout_ms = 2200

abbrev pub notification_limit_ms : ℕ
notification_limit_ms = 2450

abbrev pub notification_pause_ms : ℕ
notification_pause_ms = 25

-- BG_NOTIFICATION_WIDTH, BG_NOTIFICATION_HEIGHT and BG_NOTIFICATION_MARGIN
abbrev pub notification_width : ℕ
notification_width = 360

abbrev pub notification_height : ℕ
notification_height = 108

abbrev pub notification_margin : ℕ
notification_margin = 16

-- `(LONG)(tick - start_tick) >= 2450`
unfoldable pub is_late : ℕ → ℕ → Bool
is_late tick start_tick =
    leb notification_limit_ms (sub32 tick start_tick) && ltb (sub32 tick start_tick) (2 ^ 31)

-- WM_TIMER, WM_LBUTTONDOWN, WM_RBUTTONDOWN and WM_MBUTTONDOWN
unfoldable pub closes : ℕ → Bool
closes message = message == 0x0113 || message == 0x0201 || message == 0x0204 || message == 0x0207

module _ {D : Type 0} ⦃is : Input D⦄ where
  unfoldable pub notification_window_proc : Message → D → D
  notification_window_proc m d =
      if closes m.message then is.destroy_window m.hwnd d else is.default_message m d

  unfoldable pub dispatch_notification : List Message → D → D
  dispatch_notification [] d = d
  dispatch_notification (m ∷ ms) d = dispatch_notification ms (notification_window_proc m d)

module _ {D : Type 0} ⦃ns : Notifications D⦄ where
  -- The right and the bottom edge, from the work area or the screen.
  unfoldable pub find_corner : D → (ℕ × ℕ) × D
  find_corner d =
      let (area, d1) = ns.work_area d in
      elim area [ some corner ↦ (corner, d1) | none ↦ ns.screen_size d1 ]

  -- int arithmetic modulo 2 ^ 32
  unfoldable pub place_notification : Notice → D → ℕ × D
  place_notification notice d =
      let ((right, bottom), d1) = find_corner d in
      ns.create_notification (sub32 (sub32 right notification_width) notification_margin)
        (sub32 (sub32 bottom notification_height) notification_margin) notice.message
        notice.is_error d1

-- What the loop works on.
pub record NotificationState (P D : Type 0) : Type 0 where
  pub processes : P
  pub desktop : D

module _ {P D : Type 0} ⦃ps : Processes P⦄ ⦃ss : Session P⦄ ⦃ds : Desktop D⦄ ⦃is : Input D⦄ where
  -- A turn of the loop, its test included.
  unfoldable pub notification_turn :
      ℕ → ℕ → NotificationState P D → Option (Unit {0}) × NotificationState P D
  notification_turn hwnd start_tick s =
      let (exists, d1) = ds.is_window hwnd s.desktop in
      let (messages, d2) = is.waiting_messages d1 in
      let d3 = dispatch_notification messages d2 in
      let (tick, p1) = ss.tick_count s.processes in
      if not exists
      then (some tt, record s { desktop = d1 })
      else if is_late tick start_tick
      then (some tt, record { processes = p1; desktop = is.destroy_window hwnd d3 })
      else (none, record { processes = ps.sleep notification_pause_ms p1; desktop = d3 })

-- Turns that suffice.
abbrev pub notification_turns : ℕ
notification_turns = notification_limit_ms + 1

module _ {P D : Type 0} ⦃ps : Processes P⦄ ⦃ss : Session P⦄ ⦃ds : Desktop D⦄ ⦃is : Input D⦄
    ⦃ns : Notifications D⦄ where
  unfoldable pub run_notification : ℕ → ℕ → P → D → Option (Unit {0}) × NotificationState P D
  run_notification hwnd start_tick p d =
      poll notification_turns (notification_turn hwnd start_tick)
        (record { processes = p; desktop = ns.show_for hwnd notification_timeout_ms d })

  -- `none` is a loop that did not end.
  unfoldable pub show_notification : Notice → P → D → Option (Unit {0}) × NotificationState P D
  show_notification notice p d =
      let (start_tick, p1) = ss.tick_count p in
      let (registered, d1) = ns.register_notification d in
      let (hwnd, d2) = place_notification notice d1 in
      if not registered
      then (some tt, record { processes = p1; desktop = ns.message_box notice.message d1 })
      else if hwnd == 0
      then (some tt, record { processes = p1; desktop = ns.message_box notice.message d2 })
      else run_notification hwnd start_tick p1 d2
