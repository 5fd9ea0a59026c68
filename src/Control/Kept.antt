-- ===== src/Control/Kept.antt =====
-- The parts of src/control_main.c that create no process.
use browser_guard.Prelude.{
  ℕ, Bool, Option, List, [], ◌∷◌, Text, if◌then◌else◌, on_if, on_option, ◌==◌, leb, sub32, add32,
  text_ieq,
}
use browser_guard.Windows.{Processes}
use browser_guard.Windows.Session.{Session}
use browser_guard.Windows.Session.Kept.{IsKept}
use browser_guard.Windows.Kept.{poll-kept}
use browser_guard.Identity.Queries.{process_matches_current_identity-kept}
use browser_guard.Protocol.{build_shutdown_event_name, open_shutdown_event}
use browser_guard.Control.{parse_mode, get_module_directory, installed_exe_name}
use browser_guard.Control.Guards.{
  is_guard, count_entries, count_guard_processes, wait_turn, request_guard_shutdown, shutdown_turns,
  poll_interval_ms, graceful_shutdown_timeout_ms,
}

module _ {P : Type 0} ⦃ps : Processes P⦄ ⦃ss : Session P⦄ {R : P → P → Type 0}
    (kept : IsKept ps ss R) where
  is_guard-kept : (entry : ℕ × Text) (path : Text) (s : P) → R s (is_guard entry path s).1
  unfolding is_guard
  is_guard-kept entry path s =
      on_if (λ (r : Bool × P). R s r.1) (text_ieq entry.1 installed_exe_name) _ _
        (λ _. process_matches_current_identity-kept kept.queries entry.0 path s)
        (λ _. kept.queries.same s)

  count_entries-kept :
      (entries : List (ℕ × Text)) (path : Text) (count : ℕ) (s : P)
      → R s (count_entries entries path count s).1
  unfolding count_entries
  count_entries-kept [] path count s = kept.queries.same s
  count_entries-kept (entry ∷ entries) path count s =
      let (matches, s1) = is_guard entry path s in
      kept.queries.then_on (is_guard-kept entry path s)
        (count_entries-kept entries path (if matches then add32 count 1 else count) s1)

  pub count_guard_processes-kept : (path : Text) (s : P) → R s (count_guard_processes path s).1
  unfolding count_guard_processes
  count_guard_processes-kept path s =
      on_option (λ (r : ℕ × P). R s r.1) (ss.snapshot s).0 _ _ (λ _. kept.snapshot s)
        (λ entries _.
          kept.queries.then_on (kept.snapshot s)
            (count_entries-kept entries path 0 (ss.snapshot s).1))

  open_shutdown_event-kept : (s : P) → R s (open_shutdown_event s).1
  unfolding open_shutdown_event build_shutdown_event_name
  open_shutdown_event-kept s =
      let built = kept.queries.session_of (ps.current_process_id s) s in
      let s1 = (build_shutdown_event_name s).1 in
      on_option (λ (r : Option ℕ × P). R s r.1) (build_shutdown_event_name s).0 _ _ (λ _. built)
        (λ name _. kept.queries.then_on built (kept.open_event name s1))

  pub parse_mode-kept : (s : P) → R s (parse_mode s).1
  unfolding parse_mode
  parse_mode-kept s = kept.to_argv (ss.command_line s) s

  pub get_module_directory-kept : (n : ℕ) (s : P) → R s (get_module_directory n s).1
  unfolding get_module_directory
  get_module_directory-kept n s = kept.module_file_name n s

module _ {P : Type 0} ⦃ps : Processes P⦄ ⦃ss : Session P⦄ {R : P → P → Type 0}
    (kept : IsKept ps ss R) (sleeps : (ms : ℕ) (s : P) → R s (ps.sleep ms s)) where
  wait_turn-kept : (path : Text) (start : ℕ) (s : P) → R s (wait_turn path start s).1
  unfolding wait_turn
  wait_turn-kept path start s =
      let s1 = (count_guard_processes path s).1 in
      let s2 = (ss.tick_count s1).1 in
      let counted = count_guard_processes-kept kept path s in
      let ticked = kept.queries.then_on counted (kept.tick_count s1) in
      on_if (λ (r : Option Bool × P). R s r.1) ((count_guard_processes path s).0 == 0) _ _
        (λ _. counted)
        (λ _.
          on_if (λ (r : Option Bool × P). R s r.1)
            (leb graceful_shutdown_timeout_ms (sub32 (ss.tick_count s1).0 start)) _ _ (λ _. ticked)
            (λ _. kept.queries.then_on ticked (sleeps poll_interval_ms s2)))

  pub request_guard_shutdown-kept : (path : Text) (s : P) → R s (request_guard_shutdown path s).1
  unfolding request_guard_shutdown
  request_guard_shutdown-kept path s =
      let s1 = (open_shutdown_event s).1 in
      let s2 = (ss.tick_count s1).1 in
      let start = (ss.tick_count s1).0 in
      let begun = kept.queries.then_on (open_shutdown_event-kept kept s) (kept.tick_count s1) in
      on_option (λ (r : Option Bool × P). R s r.1) (open_shutdown_event s).0 _ _ (λ _. begun)
        (λ h _.
          let s3 = (ss.set_event h s2).1 in
          let s4 = ss.close_event h s3 in
          let asked =
            kept.queries.then_on begun
              (kept.queries.then_on (kept.set_event h s2) (kept.close_event h s3)) in
          on_if (λ (r : Option Bool × P). R s r.1) (ss.set_event h s2).0 _ _
            (λ _. kept.queries.then_on asked (
              poll-kept kept.queries (wait_turn path start) (wait_turn-kept path start)
                shutdown_turns s4))
            (λ _. asked))
