-- ===== src/Guard/Loop/Main/Stops.antt =====
-- How the main loop of src/browser_guard.c ends once its shutdown event is set.
use browser_guard.Prelude.{
  ℕ, ◌<◌, ◌≡◌, refl, true, not, ◌||◌, Option, none, some, List, [], ◌∷◌, ltb, arith, poll_once,
  poll_twice, on_if, subst, sym, ◌==◌, ◌&&◌,
}
use browser_guard.Windows.{Files, Processes, Desktop}
use browser_guard.Windows.Session.{Session}
use browser_guard.Windows.Input.{Input}
use browser_guard.Config.{AppConfig}
use browser_guard.ProcessControl.{BrowserGroup}
use browser_guard.ProcessControl.Groups.{SecurityContext}
use browser_guard.Guard.{TrackedProcess}
use browser_guard.Guard.Tracked.{count_suspended_processes, choose_overlay_target_window}
use browser_guard.Guard.Loop.{Globals, handle_console_signal, handle_signals, read_should_stop}
use browser_guard.Guard.Loop.Overlay.{OverlayState, update_overlay_window}
use browser_guard.Guard.Loop.Pump.{PumpState, pump_turn, pump_turns, pump_ui_messages}
use browser_guard.Guard.Loop.Main.{
  GuardState, serve_request, update_tracked, show_and_wait, main_turn, run_loop,
}

handle_signals-stop :
    (signals : List ℕ) (g : Globals)
    → g.should_stop ≡ true
    → (handle_signals signals g).should_stop ≡ true
unfolding handle_signals handle_console_signal
handle_signals-stop [] g e = e
handle_signals-stop (signal ∷ signals) g e =
    handle_signals-stop signals (handle_console_signal signal g) (ground (arith, e))

module _ {P D : Type 0} ⦃ps : Processes P⦄ ⦃ss : Session P⦄ ⦃ds : Desktop D⦄ ⦃is : Input D⦄
    (context : SecurityContext) (tracked : List TrackedProcess) (interval_ms event : ℕ)
    (some_time : 0 < interval_ms) (set : (p : P) → (ss.is_set event p).0 ≡ true) where
  pump_turn-stop :
      (s : PumpState P D)
      → s.elapsed ≡ 0
      → let r = pump_turn context tracked interval_ms event s in
        (r.0 ≡ some tt) × (r.1.globals.should_stop ≡ true)
  unfolding pump_turn
  pump_turn-stop s start =
      let (g, d) = read_should_stop s.globals s.desktop in
      on_if
        (λ (r : Option (Unit {0}) × PumpState P D).
          (r.0 ≡ some tt) × (r.1.globals.should_stop ≡ true))
        (g.should_stop || not (ltb s.elapsed interval_ms)) _ _
        (λ e. (refl, ground (arith, e, start, some_time))) (λ _. rw (set s.processes) (refl, refl))

  pump_ui_messages-stop :
      (g : Globals) (p : P) (d : D)
      → (pump_ui_messages context tracked interval_ms event g p d).1.globals.should_stop ≡ true
  unfolding pump_ui_messages
  pump_ui_messages-stop g p d =
      let s : PumpState P D = record { elapsed = 0; globals = g; processes = p; desktop = d } in
      let (ended, stopped) = pump_turn-stop s refl in
      let (over, same) =
        poll_once (pump_turn context tracked interval_ms event) (pump_turns interval_ms) s tt
          (omega arith) ended in
      subst (λ (t : PumpState P D). t.globals.should_stop ≡ true) (sym same) stopped

module _ {P F D : Type 0} ⦃ps : Processes P⦄ ⦃ss : Session P⦄ ⦃fs : Files F⦄ ⦃ds : Desktop D⦄
    ⦃is : Input D⦄ (config : AppConfig) (context : SecurityContext) (event : ℕ)
    (some_time : 0 < config.interval_ms) (set : (p : P) → (ss.is_set event p).0 ≡ true) where
  show_and_wait-stop :
      (groups : List BrowserGroup) (s : GuardState P F D)
      → (show_and_wait config context event groups s).globals.should_stop ≡ true
  unfolding show_and_wait
  show_and_wait-stop groups s =
      let suspended_count = count_suspended_processes s.tracked in
      let target_window = choose_overlay_target_window groups s.tracked in
      let overlay : OverlayState = record {
        visible = ltb 0 suspended_count && not (target_window == 0);
        suspended_count = suspended_count;
        target_window = target_window;
      } in
      let (g1, d1) = update_overlay_window overlay s.globals s.env.desktop in
      pump_ui_messages-stop context s.tracked config.interval_ms event some_time set g1
        s.env.processes d1

  abbrev StopsNow : Option (Unit {0}) × GuardState P F D → Type 0
  StopsNow r = r.0 ≡ some tt

  -- A turn is the last one, or the next one is.
  main_turn-stop :
      (s : GuardState P F D)
      → s.globals.should_stop ≡ true
      → (main_turn config context event s).0 ≡ some tt
  unfolding main_turn read_should_stop
  main_turn-stop s e =
      let signals = (is.console_signals s.env.desktop).0 in
      rw (handle_signals-stop signals s.globals e) refl

  main_turn-next :
      (s : GuardState P F D)
      → (main_turn config context event s).0 ≡ none
      → (main_turn config context event s).1.globals.should_stop ≡ true
  unfolding main_turn
  main_turn-next s =
      let (g, d) = read_should_stop s.globals s.env.desktop in
      let s1 : GuardState P F D = record s { globals = g; env = record s.env { desktop = d } } in
      let (now_tick, p) = ss.tick_count s1.env.processes in
      let s2 =
        serve_request config now_tick (record s1 { env = record s1.env { processes = p } }) in
      let (groups, s3) = update_tracked config context now_tick s2 in
      on_if
        (λ (r : Option (Unit {0}) × GuardState P F D). r.0 ≡ none → r.1.globals.should_stop ≡ true)
        g.should_stop _ _ (λ _ f. cc) (λ _ _. show_and_wait-stop groups s3)

  -- Once the shutdown event is set, and however the kernel, the files and the desktop behave, the guard
  -- ends with exit code 0 after at most one more turn of its loop and the test of the next. The
  -- event stays set, and the interval is not 0.
  pub run_loop-stops :
      (turns : ℕ) (s : GuardState P F D)
      → 1 < turns
      → (run_loop turns config context event s).0 ≡ some 0
  unfolding run_loop
  run_loop-stops turns s enough =
      let turn = main_turn config context event in
      let over =
        poll_twice turn turns s tt enough (λ e. main_turn-stop (turn s).1 (main_turn-next s e))
          (λ a _. refl) in
      rw (over, run_loop) refl
