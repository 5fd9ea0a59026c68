-- ===== src/Guard/Loop/Pump.antt =====
-- The wait between two turns of the main loop in src/browser_guard.c: messages, the hotkey, clicks on
-- the window of a suspended browser, and the request to stop.
pub mod Ends
pub mod Clicks
use browser_guard.Prelude.{
  ℕ, ◌+◌, Bool, true, false, not, ◌&&◌, ◌||◌, Option, none, some, List, [], ◌∷◌, ◌==◌, ltb,
  if◌then◌else◌, add32, poll,
}
use browser_guard.Windows.{Processes, Desktop, ◌and◌}
use browser_guard.Windows.Session.{Session}
use browser_guard.Windows.Input.{Input}
use browser_guard.ProcessControl.Groups.{SecurityContext}
use browser_guard.ProcessControl.Marks.{is_manageable_browser_pid}
use browser_guard.Guard.{TrackedProcess}
use browser_guard.Guard.Tracked.{is_pid_suspended, find_tracked_process}
use browser_guard.Guard.Loop.{Globals, read_should_stop, dispatch_messages}

-- VK_LBUTTON, VK_CONTROL, VK_MENU and 'B'
abbrev pub vk_lbutton : ℕ
vk_lbutton = 0x01

abbrev pub vk_control : ℕ
vk_control = 0x11

abbrev pub vk_menu : ℕ
vk_menu = 0x12

abbrev pub vk_b : ℕ
vk_b = b'B'

abbrev pub slice_ms : ℕ
slice_ms = 50

module _ {P D : Type 0} ⦃ps : Processes P⦄ ⦃ds : Desktop D⦄ where
  -- The root window belongs to a suspended process that may be managed.
  unfoldable pub is_suspended_browser :
      SecurityContext → List TrackedProcess → ℕ → P → D → Option ℕ × P × D
  is_suspended_browser context tracked root p d =
      let (pid, d1) = ds.window_pid root d in
      let (manageable, p1) = is_manageable_browser_pid context pid p in
      if pid == 0 || not (is_pid_suspended pid tracked)
      then (none, p, d1)
      else ((if manageable then some root else none), p1, d1)

module _ {P D : Type 0} ⦃ps : Processes P⦄ ⦃ds : Desktop D⦄ ⦃is : Input D⦄ where
  -- The window under the cursor, and the root above it, which is not the overlay.
  unfoldable pub window_under_cursor :
      SecurityContext → List TrackedProcess → ℕ → P → D → Option ℕ × P × D
  window_under_cursor context tracked overlay p d =
      let (cursor, d1) = is.cursor_position d in
      elim cursor [
        | none ↦ (none, p, d1)
        | some point ↦
            (let (target, d2) = is.window_from_point point d1 in
              let (root, d3) = ds.root_window target d2 in
              if target == 0
              then (none, p, d2)
              else if root == overlay
              then (none, p, d3)
              else is_suspended_browser context tracked root p d3)
      ]

  -- The target window, if the button was pressed since the last question.
  unfoldable pub clicked_suspended_browser_window :
      SecurityContext → List TrackedProcess → Globals → P → D → Option ℕ × Globals × P × D
  clicked_suspended_browser_window context tracked g p d =
      let (pressed, d1) = is.key_down vk_lbutton d in
      let g1 : Globals = record g { previous_left_button = pressed } in
      let (target, p1, d2) = window_under_cursor context tracked g.overlay_window p d1 in
      if not pressed || g.previous_left_button then (none, g1, p, d1) else (target, g1, p1, d2)

module _ {D : Type 0} ⦃ds : Desktop D⦄ where
  unfoldable pub find_tracked_window_restore_mode : List TrackedProcess → ℕ → D → Bool × D
  find_tracked_window_restore_mode tracked target_window d =
      let (is_window, d1) = ds.is_window target_window d in
      let (pid, d2) = ds.window_pid target_window d1 in
      if target_window == 0 then (false, d) else if not is_window then (false, d1) else (
        (if pid == 0 then false else elim (find_tracked_process pid tracked) [
          | none ↦ false
          | some e ↦ e.last_known_window_was_maximized
        ]),
        d2,
      )

module _ {D : Type 0} ⦃is : Input D⦄ where
  -- Control, Alt and B are down, and B was not.
  unfoldable pub hotkey_pressed : Globals → D → Bool × Globals × D
  hotkey_pressed g d =
      let (down, d1) = is.key_down vk_b d in
      let (modifiers, d2) = (is.key_down vk_control and is.key_down vk_menu) d1 in
      (modifiers && down && not g.previous_hotkey, record g { previous_hotkey = down }, d2)

-- What the loop works on.
pub record PumpState (P D : Type 0) : Type 0 where
  pub elapsed : ℕ
  pub globals : Globals
  pub processes : P
  pub desktop : D

-- Turns that suffice for an interval.
abbrev pub pump_turns : ℕ → ℕ
pump_turns interval_ms = interval_ms + 1

module _ {P D : Type 0} ⦃ps : Processes P⦄ ⦃ds : Desktop D⦄ ⦃is : Input D⦄
    (context : SecurityContext) (tracked : List TrackedProcess) where
  -- A click on the window of a suspended browser, or the pause.
  unfoldable pub pump_click : PumpState P D → Option (Unit {0}) × PumpState P D
  pump_click s =
      let (target, g, p, d) =
        clicked_suspended_browser_window context tracked s.globals s.processes s.desktop in
      elim target [
        | some hwnd ↦
            (let (maximized, d1) = find_tracked_window_restore_mode tracked hwnd d in
              (
                some tt,
                record s {
                  globals = record g {
                    resume_target_window = hwnd;
                    resume_target_was_maximized = maximized;
                    resume_requested = true;
                  };
                  processes = p;
                  desktop = d1;
                },
              ))
        | none ↦ (
          none,
          record {
            elapsed = add32 s.elapsed slice_ms;
            globals = g;
            processes = ps.sleep slice_ms p;
            desktop = d;
          },
        )
      ]

  -- The messages and the hotkey.
  unfoldable pub pump_input : PumpState P D → Option (Unit {0}) × PumpState P D
  pump_input s =
      let (messages, d) = is.waiting_messages s.desktop in
      let (g1, d1) = dispatch_messages messages s.globals d in
      let (pressed, g2, d2) = hotkey_pressed g1 d1 in
      if pressed
      then (some tt, record s { globals = record g2 { resume_requested = true }; desktop = d2 })
      else pump_click (record s { globals = g2; desktop = d2 })

module _ {P D : Type 0} ⦃ps : Processes P⦄ ⦃ss : Session P⦄ ⦃ds : Desktop D⦄ ⦃is : Input D⦄
    (context : SecurityContext) (tracked : List TrackedProcess) where
  -- A turn of the loop, its test included.
  unfoldable pub pump_turn : ℕ → ℕ → PumpState P D → Option (Unit {0}) × PumpState P D
  pump_turn interval_ms shutdown_event s =
      let (g, d) = read_should_stop s.globals s.desktop in
      let s1 : PumpState P D = record s { globals = g; desktop = d } in
      let (set, p) = ss.is_set shutdown_event s.processes in
      let s2 : PumpState P D = record s1 { processes = p } in
      if g.should_stop || not (ltb s.elapsed interval_ms)
      then (some tt, s1)
      else if set
      then (some tt, record s2 { globals = record g { should_stop = true } })
      else pump_input context tracked s2

  unfoldable pub pump_ui_messages : ℕ → ℕ → Globals → P → D → Option (Unit {0}) × PumpState P D
  pump_ui_messages interval_ms shutdown_event g p d =
      poll (pump_turns interval_ms) (pump_turn interval_ms shutdown_event)
        (record { elapsed = 0; globals = g; processes = p; desktop = d })
