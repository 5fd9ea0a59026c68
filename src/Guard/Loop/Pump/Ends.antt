-- ===== src/Guard/Loop/Pump/Ends.antt =====
-- The end of `pump_ui_messages` in src/browser_guard.c.
use browser_guard.Prelude.{
  ℕ, ◌+◌, ◌-◌, ◌≤◌, ◌<◌, ◌≡◌, ◌⊎◌, refl, true, not, ◌||◌, Option, none, some, List, inl, inr, ltb,
  on_if, add32, dword_mod, arith, poll_ends, Bool-cases, Option-cases,
}
use browser_guard.Windows.{Processes, Desktop}
use browser_guard.Windows.Session.{Session}
use browser_guard.Windows.Input.{Input}
use browser_guard.ProcessControl.Groups.{SecurityContext}
use browser_guard.Guard.{TrackedProcess}
use browser_guard.Guard.Loop.{Globals, read_should_stop, dispatch_messages}
use browser_guard.Guard.Loop.Pump.{
  clicked_suspended_browser_window, hotkey_pressed, PumpState, slice_ms, pump_click, pump_input,
  pump_turn, pump_turns, pump_ui_messages,
}

module _ {P D : Type 0} ⦃ps : Processes P⦄ ⦃ss : Session P⦄ ⦃ds : Desktop D⦄ ⦃is : Input D⦄
    (context : SecurityContext) (tracked : List TrackedProcess) where
  -- A part of a turn requests the resumption, or lets the pause pass.
  abbrev Goes : ℕ → Option (Unit {0}) × PumpState P D → Type 0
  Goes elapsed r =
      ((r.0 ≡ some tt) × (r.1.globals.resume_requested ≡ true))
      ⊎ ((r.0 ≡ none) × (r.1.elapsed ≡ add32 elapsed slice_ms))

  pump_click-Goes : (s : PumpState P D) → Goes s.elapsed (pump_click context tracked s)
  unfolding pump_click
  pump_click-Goes s =
      let clicked =
        clicked_suspended_browser_window context tracked s.globals s.processes s.desktop in
      elim (Option-cases clicked.0) [
        | inl e ↦ rw (e, pump_click) (inr (refl, refl))
        | inr (hwnd, e) ↦ rw (e, pump_click) (inl (refl, refl))
      ]

  pump_input-Goes : (s : PumpState P D) → Goes s.elapsed (pump_input context tracked s)
  unfolding pump_input
  pump_input-Goes s =
      let (messages, d) = is.waiting_messages s.desktop in
      let (g1, d1) = dispatch_messages messages s.globals d in
      let (pressed, g2, d2) = hotkey_pressed g1 d1 in
      on_if (Goes s.elapsed) pressed _ _ (λ _. inl (refl, refl))
        (λ _. pump_click-Goes (record s { globals = g2; desktop = d2 }))

  -- Why the pump ends.
  abbrev pub IsOver : ℕ → Unit {0} → PumpState P D → Type 0
  IsOver interval_ms r s =
      (s.globals.should_stop ≡ true)
      ⊎ (s.globals.resume_requested ≡ true)
      ⊎ (interval_ms ≤ s.elapsed)

  abbrev Turned : ℕ → PumpState P D → Option (Unit {0}) × PumpState P D → Type 0
  Turned interval_ms s r =
      ((r.0 ≡ some tt) × IsOver interval_ms tt r.1)
      ⊎ ((r.0 ≡ none) × (s.elapsed < interval_ms) × (r.1.elapsed ≡ add32 s.elapsed slice_ms))

  Goes→Turned :
      (interval_ms : ℕ) (s : PumpState P D) (r : Option (Unit {0}) × PumpState P D)
      → s.elapsed < interval_ms
      → Goes s.elapsed r
      → Turned interval_ms s r
  Goes→Turned interval_ms s r early (inl (e, f)) = inl (e, inr (inl f))
  Goes→Turned interval_ms s r early (inr (e, f)) = inr (e, early, f)

  stopped :
      (interval_ms : ℕ) (s : PumpState P D)
      → (s.globals.should_stop || not (ltb s.elapsed interval_ms)) ≡ true
      → IsOver interval_ms tt s
  stopped interval_ms s over = elim (Bool-cases s.globals.should_stop) [
    | inl e ↦ inl e
    | inr e ↦ inr (inr (ground arith))
  ]

  pump_turn-Turned :
      (interval_ms shutdown_event : ℕ) (s : PumpState P D)
      → Turned interval_ms s (pump_turn context tracked interval_ms shutdown_event s)
  unfolding pump_turn
  pump_turn-Turned interval_ms shutdown_event s =
      let (g, d) = read_should_stop s.globals s.desktop in
      let s1 : PumpState P D = record s { globals = g; desktop = d } in
      let (set, p) = ss.is_set shutdown_event s.processes in
      let s2 : PumpState P D = record s1 { processes = p } in
      on_if (Turned interval_ms s) (g.should_stop || not (ltb s.elapsed interval_ms)) _ _
        (λ over. inl (refl, stopped interval_ms s1 over))
        (λ e.
          on_if (Turned interval_ms s) set _ _ (λ _. inl (refl, inl refl))
            (λ _.
              Goes→Turned interval_ms s (pump_input context tracked s2) (ground arith)
                (pump_input-Goes s2)))

  abbrev Before : ℕ → PumpState P D → Type 0
  Before interval_ms s = s.elapsed < interval_ms + slice_ms

  abbrev left : ℕ → PumpState P D → ℕ
  left interval_ms s = interval_ms - s.elapsed

  goes_on :
      (interval_ms : ℕ)
      → interval_ms + slice_ms < dword_mod
      → (s : PumpState P D) (r : Option (Unit {0}) × PumpState P D) → Turned interval_ms s r
      → r.0 ≡ none
      → Before interval_ms r.1 × (left interval_ms r.1 < left interval_ms s)
  unfolding add32
  goes_on interval_ms small s r (inl (e, over)) f = cc
  goes_on interval_ms small s r (inr (e, early, passed)) f = (omega arith, omega arith)

  ends :
      (interval_ms : ℕ) (s : PumpState P D) (r : Option (Unit {0}) × PumpState P D)
      → Turned interval_ms s r
      → r.0 ≡ some tt
      → IsOver interval_ms tt r.1
  ends interval_ms s r (inl (e, over)) f = over
  ends interval_ms s r (inr (e, early, passed)) f = cc

  -- The pump ends, within as many turns as the interval has milliseconds and one more, whatever keys,
  -- clicks and messages come: because the program should stop, because a resumption was requested, or
  -- because the interval is over. The interval is at most 2 ^ 32 - 51 ms, so the DWORD that
  -- counts it does not wrap.
  pub pump_ui_messages-ends :
      (interval_ms shutdown_event : ℕ) (g : Globals) (p : P) (d : D)
      → interval_ms + slice_ms < dword_mod
      → let r = pump_ui_messages context tracked interval_ms shutdown_event g p d in
        (r.0 ≡ some tt) × IsOver interval_ms tt r.1
  unfolding pump_ui_messages
  pump_ui_messages-ends interval_ms shutdown_event g p d small =
      let turn = pump_turn context tracked interval_ms shutdown_event in
      let (r, e, over) =
        poll_ends turn (Before interval_ms) (left interval_ms) (IsOver interval_ms)
          (λ s b e.
            goes_on interval_ms small s (turn s) (pump_turn-Turned interval_ms shutdown_event s) e)
          (λ s r b e. ends interval_ms s (turn s) (pump_turn-Turned interval_ms shutdown_event s) e)
          (pump_turns interval_ms) (record { elapsed = 0; globals = g; processes = p; desktop = d })
          (omega arith) (omega arith) in
      (e, over)
