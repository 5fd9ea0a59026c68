-- ===== src/Control/Guards.antt =====
-- Counting the guards that run, and asking them to stop: `count_guard_processes` and
-- `request_guard_shutdown` of src/control_main.c.
pub mod Wait
use browser_guard.Prelude.{
  ℕ, ◌+◌, Bool, true, false, not, ◌&&◌, Option, none, some, List, [], ◌∷◌, ◌==◌, leb, if◌then◌else◌,
  Text, text_ieq, add32, sub32, poll,
}
use browser_guard.Windows.{Processes}
use browser_guard.Windows.Session.{Session}
use browser_guard.Identity.{process_matches_current_identity}
use browser_guard.Protocol.{open_shutdown_event}
use browser_guard.Control.{installed_exe_name}

-- BG_GRACEFUL_SHUTDOWN_TIMEOUT_MS, and the pause between two counts.
abbrev pub graceful_shutdown_timeout_ms : ℕ
graceful_shutdown_timeout_ms = 5000

abbrev pub poll_interval_ms : ℕ
poll_interval_ms = 50

-- Turns that suffice, as every turn but the last takes a millisecond.
abbrev pub shutdown_turns : ℕ
shutdown_turns = 5001

module _ {P : Type 0} ⦃ps : Processes P⦄ where
  unfoldable pub is_guard : ℕ × Text → Text → P → Bool × P
  is_guard entry expected_path s =
      if text_ieq entry.1 installed_exe_name
      then process_matches_current_identity entry.0 expected_path s
      else (false, s)

  -- The loop over the entries of a snapshot, counting in an `unsigned int`.
  unfoldable pub count_entries : List (ℕ × Text) → Text → ℕ → P → ℕ × P
  count_entries [] expected_path count s = (count, s)
  count_entries (entry ∷ entries) expected_path count s =
      let (matches, s1) = is_guard entry expected_path s in
      count_entries entries expected_path (if matches then add32 count 1 else count) s1

module _ {P : Type 0} ⦃ps : Processes P⦄ ⦃ss : Session P⦄ where
  unfoldable pub count_guard_processes : Text → P → ℕ × P
  count_guard_processes expected_path s =
      let (snapshot, s1) = ss.snapshot s in
      elim snapshot [ none ↦ (0, s1) | some entries ↦ count_entries entries expected_path 0 s1 ]

  -- A turn of the loop that waits: whether all guards have gone, or the time is over.
  unfoldable pub wait_turn : Text → ℕ → P → Option Bool × P
  wait_turn expected_path start_tick s =
      let (count, s1) = count_guard_processes expected_path s in
      let (now_tick, s2) = ss.tick_count s1 in
      if count == 0
      then (some true, s1)
      else if leb graceful_shutdown_timeout_ms (sub32 now_tick start_tick)
      then (some false, s2)
      else (none, ps.sleep poll_interval_ms s2)

  -- `none` means that the turns did not suffice.
  unfoldable pub request_guard_shutdown : Text → P → Option Bool × P
  request_guard_shutdown expected_path s =
      let (event, s1) = open_shutdown_event s in
      let (start_tick, s2) = ss.tick_count s1 in
      elim event [
        | none ↦ (some false, s2)
        | some shutdown_event ↦
            (let (set, s3) = ss.set_event shutdown_event s2 in
              let s4 = ss.close_event shutdown_event s3 in
              if set
              then poll shutdown_turns (wait_turn expected_path start_tick) s4
              else (some false, s4))
      ]
