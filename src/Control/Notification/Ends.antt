-- ===== src/Control/Notification/Ends.antt =====
-- The end of `show_notification` in src/control_main.c.
use browser_guard.Prelude.{
  ℕ, ◌+◌, ◌-◌, ◌≤◌, ◌<◌, ◌%◌, ◌^◌, ◌≡◌, refl, not, ◌==◌, Option, none, some, arith, sub32,
  dword_mod, poll_ends, on_if,
}
use browser_guard.Windows.{Processes, Desktop}
use browser_guard.Windows.Session.{Session}
use browser_guard.Windows.Session.Laws.{ClockLaws}
use browser_guard.Windows.Input.{Input, Notifications}
use browser_guard.Control.Guards.Wait.{elapsed_ticks}
use browser_guard.Control.Modes.{Notice}
use browser_guard.Control.Notification.{
  notification_limit_ms, notification_pause_ms, notification_timeout_ms, notification_turns,
  is_late, NotificationState, place_notification, notification_turn, run_notification,
  show_notification,
}

module _ {P D : Type 0} ⦃ps : Processes P⦄ ⦃ss : Session P⦄ ⦃ds : Desktop D⦄ ⦃is : Input D⦄
    (laws : ClockLaws ps ss) (hwnd start : ℕ) where
  open laws use {now}

  -- The notification began at `start`, and its time is not over by much.
  abbrev Shows : NotificationState P D → Type 0
  Shows s = (start ≤ now s.processes) × (now s.processes < start + 2 ^ 30)

  abbrev left : NotificationState P D → ℕ
  left s = start + notification_limit_ms - now s.processes

  tells :
      (s : NotificationState P D)
      → Shows s
      → sub32 (ss.tick_count s.processes).0 (start % dword_mod) ≡ now s.processes - start
  tells s shows =
      rw (laws.tick_tells s.processes)
        (elapsed_ticks start (now s.processes) (omega (arith, shows)) (omega (arith, shows)))

  goes_on :
      (s : NotificationState P D)
      → Shows s
      → (notification_turn hwnd (start % dword_mod) s).0 ≡ none
      → Shows (notification_turn hwnd (start % dword_mod) s).1
        × (left (notification_turn hwnd (start % dword_mod) s).1 < left s)
  unfolding notification_turn is_late
  goes_on s shows =
      let Q : Option (Unit {0}) × NotificationState P D → Type 0 =
        λ r. r.0 ≡ none → Shows r.1 × (left r.1 < left s) in
      let tick = (ss.tick_count s.processes).0 in
      let p1 = (ss.tick_count s.processes).1 in
      on_if Q (not (ds.is_window hwnd s.desktop).0) _ _ (λ _ f. cc)
        (λ _.
          on_if Q (is_late tick (start % dword_mod)) _ _ (λ _ f. cc)
            (λ early f.
              let soon : now s.processes - start < notification_limit_ms =
                ground (arith, early, tells s shows, shows.1) in
              let t = laws.tick_takes s.processes in
              let z = laws.sleep_takes notification_pause_ms p1 (omega arith) in
              (omega (arith, soon, shows, t, z), omega (arith, soon, shows, t, z))))

module _ {P D : Type 0} ⦃ps : Processes P⦄ ⦃ss : Session P⦄ ⦃ds : Desktop D⦄ ⦃is : Input D⦄
    ⦃ns : Notifications D⦄ (laws : ClockLaws ps ss) where
  open laws use {now}

  run_notification-ends :
      (hwnd start : ℕ) (p : P) (d : D)
      → start ≤ now p
      → now p < start + 2 ^ 28
      → (run_notification hwnd (start % dword_mod) p d).0 ≡ some tt
  unfolding run_notification
  run_notification-ends hwnd start p d early small =
      let turn = notification_turn hwnd (start % dword_mod) in
      let s : NotificationState P D = record {
        processes = p;
        desktop = ns.show_for hwnd notification_timeout_ms d;
      } in
      let (r, e, over) =
        poll_ends turn (Shows laws hwnd start) (left laws hwnd start) (λ r s. Unit {0})
          (goes_on laws hwnd start) (λ s r b e. tt) notification_turns s
          (early, omega (arith, small)) (omega arith) in
      e

  -- A notification is over within 2451 turns, for every start tick and also where the tick count wraps,
  -- whatever messages come and whether or not its window can be made. Each call takes less than three
  -- days, and a Sleep passes time.
  pub show_notification-ends :
      (notice : Notice) (p : P) (d : D) → (show_notification notice p d).0 ≡ some tt
  unfolding show_notification
  show_notification-ends notice p d =
      let p1 = (ss.tick_count p).1 in
      let (registered, d1) = ns.register_notification d in
      let (hwnd, d2) = place_notification notice d1 in
      let Q : Option (Unit {0}) × NotificationState P D → Type 0 = λ r. r.0 ≡ some tt in
      let shown : (run_notification hwnd (ss.tick_count p).0 p1 d2).0 ≡ some tt =
        rw (laws.tick_tells p)
          (run_notification-ends hwnd (now p) p1 d2 (laws.tick_takes p).0 (laws.tick_takes p).1) in
      on_if Q (not registered) _ _ (λ _. refl)
        (λ _. on_if Q (hwnd == 0) _ _ (λ _. refl) (λ _. shown))
