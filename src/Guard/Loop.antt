-- ===== src/Guard/Loop.antt =====
-- The user interface and the main loop of src/browser_guard.c: its global variables, the overlay window,
-- clicks, the pump of messages, and `run_browser_guard`.
pub mod Overlay
pub mod Pump
pub mod Opening
pub mod Main
pub mod Tests
use browser_guard.Prelude.{
  ℕ, ◌+◌, Bool, true, false, not, ◌&&◌, ◌||◌, Option, none, some, List, [], ◌∷◌, ◌==◌,
  if◌then◌else◌,
}
use browser_guard.Windows.Input.{Input, Message}

-- The global and the static variables. 0 is NULL, and of a key's state only the bit 0x8000 is used.
pub record Globals : Type 0 where
  pub should_stop : Bool
  pub resume_requested : Bool
  pub overlay_window : ℕ
  pub resume_target_window : ℕ
  pub overlay_target_window : ℕ
  pub resume_target_was_maximized : Bool
  pub previous_left_button : Bool
  pub previous_hotkey : Bool

abbrev pub initial_globals : Globals
initial_globals = record {
  should_stop = false;
  resume_requested = false;
  overlay_window = 0;
  resume_target_window = 0;
  overlay_target_window = 0;
  resume_target_was_maximized = false;
  previous_left_button = false;
  previous_hotkey = false;
}

-- WM_LBUTTONUP
abbrev pub wm_lbuttonup : ℕ
wm_lbuttonup = 0x0202

-- CTRL_C_EVENT, CTRL_BREAK_EVENT and CTRL_CLOSE_EVENT are 0, 1 and 2.
unfoldable pub handle_console_signal : ℕ → Globals → Globals
handle_console_signal signal g =
    if signal == 0 || signal == 1 || signal == 2 then record g { should_stop = true } else g

unfoldable pub handle_signals : List ℕ → Globals → Globals
handle_signals [] g = g
handle_signals (signal ∷ signals) g = handle_signals signals (handle_console_signal signal g)

module _ {D : Type 0} ⦃is : Input D⦄ where
  -- A read of `g_should_stop`, behind the signals that were handled before it.
  unfoldable pub read_should_stop : Globals → D → Globals × D
  read_should_stop g d = let (signals, d1) = is.console_signals d in (handle_signals signals g, d1)

  -- The messages of this thread go to the overlay window.
  unfoldable pub overlay_window_proc : Message → Globals → D → Globals × D
  overlay_window_proc m g d =
      if m.hwnd == g.overlay_window && m.message == wm_lbuttonup
      then (record g { resume_requested = true }, d)
      else (g, is.default_message m d)

  unfoldable pub dispatch_messages : List Message → Globals → D → Globals × D
  dispatch_messages [] g d = (g, d)
  dispatch_messages (m ∷ ms) g d =
      let (g1, d1) = overlay_window_proc m g d in dispatch_messages ms g1 d1

  -- `register_overlay_window_class` and `create_overlay_window`
  unfoldable pub create_overlay_window : Globals → D → Bool × Globals × D
  create_overlay_window g d =
      let (registered, d1) = is.register_class d in
      let (hwnd, d2) = is.create_window d1 in
      if registered
      then (not (hwnd == 0), record g { overlay_window = hwnd }, d2)
      else (false, g, d1)

  unfoldable pub destroy_overlay_window : Globals → D → Globals × D
  destroy_overlay_window g d =
      if g.overlay_window == 0
      then (g, d)
      else (record g { overlay_window = 0 }, is.destroy_window g.overlay_window d)
