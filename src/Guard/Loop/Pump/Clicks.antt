-- ===== src/Guard/Loop/Pump/Clicks.antt =====
-- Which clicks resume the browsers in src/browser_guard.c, and what the pump keeps of the kernel.
use browser_guard.Prelude.{
  ℕ, ◌≡◌, ◌≢◌, true, false, not, ◌||◌, Option, some, List, inl, inr, ◌==◌, ltb, on_if, on_option,
  arith, Option-cases, subst, poll_keeps,
}
use browser_guard.Windows.{Processes, Desktop}
use browser_guard.Windows.Kept.{QueriesKept}
use browser_guard.Windows.Session.{Session}
use browser_guard.Windows.Input.{Input}
use browser_guard.ProcessControl.Groups.{SecurityContext}
use browser_guard.ProcessControl.Marks.{is_manageable_browser_pid}
use browser_guard.ProcessControl.Kept.{is_manageable_browser_pid-kept}
use browser_guard.Guard.{TrackedProcess}
use browser_guard.Guard.Tracked.{is_pid_suspended}
use browser_guard.Guard.Loop.{Globals, read_should_stop, dispatch_messages}
use browser_guard.Guard.Loop.Pump.{
  is_suspended_browser, window_under_cursor, clicked_suspended_browser_window, hotkey_pressed,
  PumpState, slice_ms, pump_click, pump_input, pump_turn, pump_turns, pump_ui_messages, vk_lbutton,
}

module _ (P D : Type 0) ⦃ps : Processes P⦄ ⦃ds : Desktop D⦄ (context : SecurityContext)
    (tracked : List TrackedProcess) where
  -- A window that is not the overlay, of a process that is suspended and, when asked, may be managed.
  pub record IsSuspendedBrowser (overlay hwnd : ℕ) : Type 0 where
    pub not_overlay : hwnd ≢ overlay
    pub asked : D
    pub at : P
    pub is_process : (ds.window_pid hwnd asked).0 ≢ 0
    pub suspended : is_pid_suspended (ds.window_pid hwnd asked).0 tracked ≡ true
    pub manageable : (is_manageable_browser_pid context (ds.window_pid hwnd asked).0 at).0 ≡ true

some_number : {m n : ℕ} → some m ≡ some n → m ≡ n
some_number e = cc

module _ {P D : Type 0} ⦃ps : Processes P⦄ ⦃ds : Desktop D⦄ (context : SecurityContext)
    (tracked : List TrackedProcess) where
  is_suspended_browser-tells :
      (overlay root : ℕ) (p : P) (d : D)
      → root ≢ overlay
      → (hwnd : ℕ) → (is_suspended_browser context tracked root p d).0 ≡ some hwnd
      → IsSuspendedBrowser P D context tracked overlay hwnd
  unfolding is_suspended_browser
  is_suspended_browser-tells overlay root p d other hwnd =
      let Q : Option ℕ × P × D → Type 0 =
        λ r. r.0 ≡ some hwnd → IsSuspendedBrowser P D context tracked overlay hwnd in
      let pid = (ds.window_pid root d).0 in
      on_if Q (pid == 0 || not (is_pid_suspended pid tracked)) _ _ (λ _ f. cc)
        (λ e.
          on_if
            (λ (o : Option ℕ). o ≡ some hwnd → IsSuspendedBrowser P D context tracked overlay hwnd)
            (is_manageable_browser_pid context pid p).0 _ _
            (λ manageable f.
              subst (IsSuspendedBrowser P D context tracked overlay) (some_number f) (record {
                not_overlay = other;
                asked = d;
                at = p;
                is_process = ground arith;
                suspended = ground arith;
                manageable = manageable;
              }))
            (λ _ f. cc))

module _ {P D : Type 0} ⦃ps : Processes P⦄ ⦃ds : Desktop D⦄ ⦃is : Input D⦄
    (context : SecurityContext) (tracked : List TrackedProcess) where
  window_under_cursor-tells :
      (overlay : ℕ) (p : P) (d : D) (hwnd : ℕ)
      → (window_under_cursor context tracked overlay p d).0 ≡ some hwnd
      → IsSuspendedBrowser P D context tracked overlay hwnd
  unfolding window_under_cursor
  window_under_cursor-tells overlay p d hwnd =
      let Q : Option ℕ × P × D → Type 0 =
        λ r. r.0 ≡ some hwnd → IsSuspendedBrowser P D context tracked overlay hwnd in
      let d1 = (is.cursor_position d).1 in
      on_option Q (is.cursor_position d).0 _ _ (λ _ f. cc)
        (λ point _.
          let (target, d2) = is.window_from_point point d1 in
          let (root, d3) = ds.root_window target d2 in
          on_if Q (target == 0) _ _ (λ _ f. cc)
            (λ _.
              on_if Q (root == overlay) _ _ (λ _ f. cc)
                (λ other.
                  is_suspended_browser-tells context tracked overlay root p d3 (λ e. ground arith)
                    hwnd)))

  pub clicked_suspended_browser_window-tells :
      (g : Globals) (p : P) (d : D) (hwnd : ℕ)
      → let r = clicked_suspended_browser_window context tracked g p d in
        r.0 ≡ some hwnd
        → IsSuspendedBrowser P D context tracked g.overlay_window hwnd
          × (g.previous_left_button ≡ false)
          × (r.1.previous_left_button ≡ true)
  unfolding clicked_suspended_browser_window
  clicked_suspended_browser_window-tells g p d hwnd =
      let Q : Option ℕ × Globals × P × D → Type 0 = λ r.
        r.0 ≡ some hwnd
        → IsSuspendedBrowser P D context tracked g.overlay_window hwnd
          × (g.previous_left_button ≡ false)
          × (r.1.previous_left_button ≡ true) in
      let (pressed, d1) = is.key_down vk_lbutton d in
      on_if Q (not pressed || g.previous_left_button) _ _ (λ _ f. cc)
        (λ e f.
          (window_under_cursor-tells g.overlay_window p d1 hwnd f, ground arith, ground arith))

module _ {P D : Type 0} ⦃ps : Processes P⦄ ⦃ds : Desktop D⦄ ⦃is : Input D⦄ {R : P → P → Type 0}
    (kept : QueriesKept ps R) (context : SecurityContext) (tracked : List TrackedProcess) where
  abbrev AfterClick : P → Option ℕ × P × D → Type 0
  AfterClick p r = R p r.1

  is_suspended_browser-kept :
      (root : ℕ) (p : P) (d : D) → R p (is_suspended_browser context tracked root p d).1
  unfolding is_suspended_browser
  is_suspended_browser-kept root p d =
      let pid = (ds.window_pid root d).0 in
      on_if (AfterClick p) (pid == 0 || not (is_pid_suspended pid tracked)) _ _ (λ _. kept.same p)
        (λ _. is_manageable_browser_pid-kept kept context pid p)

  window_under_cursor-kept :
      (overlay : ℕ) (p : P) (d : D) → R p (window_under_cursor context tracked overlay p d).1
  unfolding window_under_cursor
  window_under_cursor-kept overlay p d =
      let d1 = (is.cursor_position d).1 in
      on_option (AfterClick p) (is.cursor_position d).0 _ _ (λ _. kept.same p)
        (λ point _.
          let (target, d2) = is.window_from_point point d1 in
          let (root, d3) = ds.root_window target d2 in
          on_if (AfterClick p) (target == 0) _ _ (λ _. kept.same p)
            (λ _.
              on_if (AfterClick p) (root == overlay) _ _ (λ _. kept.same p)
                (λ _. is_suspended_browser-kept root p d3)))

  clicked-kept :
      (g : Globals) (p : P) (d : D) → R p (clicked_suspended_browser_window context tracked g p d).2
  unfolding clicked_suspended_browser_window
  clicked-kept g p d =
      let (pressed, d1) = is.key_down vk_lbutton d in
      on_if (λ (r : Option ℕ × Globals × P × D). R p r.2) (not pressed || g.previous_left_button) _
        _ (λ _. kept.same p) (λ _. window_under_cursor-kept g.overlay_window p d1)

module _ {P D : Type 0} ⦃ps : Processes P⦄ ⦃ds : Desktop D⦄ ⦃is : Input D⦄ {R : P → P → Type 0}
    (kept : QueriesKept ps R) (sleeps : (ms : ℕ) (p : P) → R p (ps.sleep ms p))
    (context : SecurityContext) (tracked : List TrackedProcess) where
  abbrev AfterTurn : P → Option (Unit {0}) × PumpState P D → Type 0
  AfterTurn p r = R p r.1.processes

  pump_click-kept : (s : PumpState P D) → AfterTurn s.processes (pump_click context tracked s)
  unfolding pump_click
  pump_click-kept s =
      let clicked =
        clicked_suspended_browser_window context tracked s.globals s.processes s.desktop in
      let click = clicked-kept kept context tracked s.globals s.processes s.desktop in
      elim (Option-cases clicked.0) [
        | inl e ↦ rw (e, pump_click) (kept.then_on click (sleeps slice_ms clicked.2))
        | inr (hwnd, e) ↦ rw (e, pump_click) click
      ]

  pump_input-kept : (s : PumpState P D) → AfterTurn s.processes (pump_input context tracked s)
  unfolding pump_input
  pump_input-kept s =
      let (messages, d) = is.waiting_messages s.desktop in
      let (g1, d1) = dispatch_messages messages s.globals d in
      let (pressed, g2, d2) = hotkey_pressed g1 d1 in
      on_if (AfterTurn s.processes) pressed _ _ (λ _. kept.same s.processes)
        (λ _. pump_click-kept (record s { globals = g2; desktop = d2 }))

module _ {P D : Type 0} ⦃ps : Processes P⦄ ⦃ss : Session P⦄ ⦃ds : Desktop D⦄ ⦃is : Input D⦄
    {R : P → P → Type 0} (kept : QueriesKept ps R) (sleeps : (ms : ℕ) (p : P) → R p (ps.sleep ms p))
    (waits : (h : ℕ) (p : P) → R p (ss.is_set h p).1) (context : SecurityContext)
    (tracked : List TrackedProcess) where
  pump_turn-kept :
      (interval_ms shutdown_event : ℕ) (s : PumpState P D)
      → R s.processes (pump_turn context tracked interval_ms shutdown_event s).1.processes
  unfolding pump_turn
  pump_turn-kept interval_ms shutdown_event s =
      let (g, d) = read_should_stop s.globals s.desktop in
      let s1 : PumpState P D = record s { globals = g; desktop = d } in
      let (set, p) = ss.is_set shutdown_event s.processes in
      let s2 : PumpState P D = record s1 { processes = p } in
      let asked = waits shutdown_event s.processes in
      let Q : Option (Unit {0}) × PumpState P D → Type 0 = λ r. R s.processes r.1.processes in
      on_if Q (g.should_stop || not (ltb s.elapsed interval_ms)) _ _ (λ _. kept.same s.processes)
        (λ _.
          on_if Q set _ _ (λ _. asked)
            (λ _. kept.then_on asked (pump_input-kept kept sleeps context tracked s2)))

  pub pump_ui_messages-kept :
      (interval_ms shutdown_event : ℕ) (g : Globals) (p : P) (d : D)
      → R p (pump_ui_messages context tracked interval_ms shutdown_event g p d).1.processes
  unfolding pump_ui_messages
  pump_ui_messages-kept interval_ms shutdown_event g p d =
      poll_keeps (λ (s t : PumpState P D). R s.processes t.processes)
        (pump_turn context tracked interval_ms shutdown_event) (λ s. kept.same s.processes)
        (λ s t u. kept.then_on {s = s.processes} {t = t.processes} {u = u.processes})
        (pump_turn-kept interval_ms shutdown_event) (pump_turns interval_ms)
        (record { elapsed = 0; globals = g; processes = p; desktop = d })
