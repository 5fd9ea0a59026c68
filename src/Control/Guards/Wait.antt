-- ===== src/Control/Guards/Wait.antt =====
-- The wait of `request_guard_shutdown` in src/control_main.c.
use browser_guard.Prelude.{
  ℕ, ◌+◌, ◌-◌, ◌≤◌, ◌<◌, ◌%◌, ◌^◌, ◌≡◌, refl, Bool, true, false, Option, none, some, ◌==◌, leb,
  arith, inl, inr, Text, sub32, dword_mod, poll, poll_ends, ◌⊎◌, on_if, on_option, subst,
}
use browser_guard.Windows.{Processes}
use browser_guard.Windows.Session.{Session}
use browser_guard.Windows.Session.Laws.{ClockLaws}
use browser_guard.Protocol.{open_shutdown_event}
use browser_guard.Control.Guards.{
  count_guard_processes, wait_turn, request_guard_shutdown, shutdown_turns, poll_interval_ms,
  graceful_shutdown_timeout_ms,
}

-- Ticks measure the time that has passed, if it is less than 2 ^ 32 ms.
pub elapsed_ticks :
    (start now : ℕ)
    → start ≤ now
    → now < start + dword_mod
    → sub32 (now % dword_mod) (start % dword_mod) ≡ now - start
unfolding sub32
elapsed_ticks start now h small = omega arith

some_inj : {a b : Bool} → some a ≡ some b → a ≡ b
some_inj e = cc

module _ {P : Type 0} ⦃ps : Processes P⦄ ⦃ss : Session P⦄ (laws : ClockLaws ps ss) where
  open laws use {now}

  -- How long a count of the guards takes.
  abbrev pub CountsInTime : Text → Type 0
  CountsInTime path =
      (s : P)
      → (now s ≤ now (count_guard_processes path s).1)
        × (now (count_guard_processes path s).1 < now s + 2 ^ 28)

  module _ (path : Text) (in_time : CountsInTime path) (start : ℕ) where
    -- The wait began at `start` and its time is not over by much.
    abbrev Waits : P → Type 0
    Waits s = (start ≤ now s) × (now s < start + 2 ^ 30)

    abbrev left : P → ℕ
    left s = start + graceful_shutdown_timeout_ms - now s

    -- What the last turn tells: all guards have gone, or the time is over and some guard was there.
    abbrev pub Told : Bool → P → Type 0
    Told true s =
        (t : P) × ((count_guard_processes path t).0 ≡ 0) × (s ≡ (count_guard_processes path t).1)
    Told false s =
        (t : P) × (((count_guard_processes path t).0 == 0) ≡ false)
        × (start + graceful_shutdown_timeout_ms ≤ now s)

    turn_tick :
        (s : P)
        → Waits s
        → sub32 (ss.tick_count (count_guard_processes path s).1).0 (start % dword_mod)
          ≡ now (count_guard_processes path s).1 - start
    turn_tick s w =
        let s1 = (count_guard_processes path s).1 in
        rw (laws.tick_tells s1)
          (elapsed_ticks start (now s1) (omega (arith, in_time s)) (omega (arith, in_time s)))

    goes_on :
        (s : P)
        → Waits s
        → (wait_turn path (start % dword_mod) s).0 ≡ none
        → Waits (wait_turn path (start % dword_mod) s).1
          × (left (wait_turn path (start % dword_mod) s).1 < left s)
    unfolding wait_turn
    goes_on s w e =
        let Q : Option Bool × P → Type 0 = λ r. r.0 ≡ none → Waits r.1 × (left r.1 < left s) in
        let s1 = (count_guard_processes path s).1 in
        let tick = (ss.tick_count s1).0 in
        let s2 = (ss.tick_count s1).1 in
        on_if Q ((count_guard_processes path s).0 == 0) _ _ (λ z f. cc)
          (λ z.
            on_if Q (leb graceful_shutdown_timeout_ms (sub32 tick (start % dword_mod))) _ _
              (λ d f. cc)
              (λ d f.
                let early : now s1 - start < graceful_shutdown_timeout_ms =
                  ground (arith, turn_tick s w) in
                (
                  omega (
                    arith,
                    early,
                    in_time s,
                    laws.tick_takes s1,
                    laws.sleep_takes poll_interval_ms s2 (omega arith),
                  ),
                  omega (
                    arith,
                    early,
                    in_time s,
                    laws.tick_takes s1,
                    laws.sleep_takes poll_interval_ms s2 (omega arith),
                  ),
                )))
          e

    ends :
        (s : P) (r : Bool)
        → Waits s
        → (wait_turn path (start % dword_mod) s).0 ≡ some r
        → Told r (wait_turn path (start % dword_mod) s).1
    unfolding wait_turn
    ends s r w e =
        let Q : Option Bool × P → Type 0 = λ x. x.0 ≡ some r → Told r x.1 in
        let s1 = (count_guard_processes path s).1 in
        let tick = (ss.tick_count s1).0 in
        on_if Q ((count_guard_processes path s).0 == 0) _ _
          (λ z f. subst (λ b. Told b s1) (some_inj f) (s, ground arith, refl))
          (λ z.
            on_if Q (leb graceful_shutdown_timeout_ms (sub32 tick (start % dword_mod))) _ _
              (λ d f.
                let late : graceful_shutdown_timeout_ms ≤ now s1 - start =
                  ground (arith, turn_tick s w) in
                subst (λ b. Told b (ss.tick_count s1).1) (some_inj f)
                  (s, z, omega (arith, late, laws.tick_takes s1)))
              (λ d f. cc))
          e

  -- The event could not be opened, or it could not be set.
  abbrev pub NotAsked : P → Type 0
  NotAsked s =
      ((open_shutdown_event s).0 ≡ none)
      ⊎ ((h : ℕ) × ((open_shutdown_event s).0 ≡ some h)
          × ((ss.set_event h (ss.tick_count (open_shutdown_event s).1).1).0 ≡ false))

  -- What the result of `request_guard_shutdown` tells of the state after it.
  abbrev pub Reports : Text → P → Bool → P → Type 0
  Reports path s true s' =
      (t : P) × ((count_guard_processes path t).0 ≡ 0) × (s' ≡ (count_guard_processes path t).1)
  Reports path s false s' =
      NotAsked s
      ⊎ ((t : P) × (((count_guard_processes path t).0 == 0) ≡ false)
          × (now (open_shutdown_event s).1 + graceful_shutdown_timeout_ms ≤ now s'))

  Told→Reports :
      (path : Text) (in_time : CountsInTime path) (s : P) (r : Bool) (s' : P)
      → Told path in_time (now (open_shutdown_event s).1) r s'
      → Reports path s r s'
  Told→Reports path in_time s true s' t = t
  Told→Reports path in_time s false s' t = inr t

  abbrev Ended : Text → P → Option Bool × P → Type 0
  Ended path s x = (r : Bool) × (x.0 ≡ some r) × Reports path s r x.1

  waited :
      (path : Text) (in_time : CountsInTime path) (s t : P)
      → Waits path in_time (now (open_shutdown_event s).1) t
      → Ended path s
          (poll shutdown_turns (wait_turn path (ss.tick_count (open_shutdown_event s).1).0) t)
  waited path in_time s t w =
      let start = now (open_shutdown_event s).1 in
      rw (laws.tick_tells (open_shutdown_event s).1) (
        let (r, e, told) =
          poll_ends (wait_turn path (start % dword_mod)) (Waits path in_time start)
            (left path in_time start) (Told path in_time start) (goes_on path in_time start)
            (ends path in_time start) shutdown_turns t w (omega (arith, w)) in
        (r, e, Told→Reports path in_time s r _ told))

  -- `request_guard_shutdown` ends, within 5001 turns, for every start tick and also where the tick
  -- count wraps. Its result true tells that the last count found no guard; false tells that the event
  -- could not be opened or set, or that 5000 ms have passed and a count still found a guard. Each
  -- count of the guards, and each call, takes less than three days, and a Sleep passes time.
  pub request_guard_shutdown-ends :
      (path : Text)
      → CountsInTime path
      → (s : P)
      → (r : Bool) × ((request_guard_shutdown path s).0 ≡ some r)
        × Reports path s r (request_guard_shutdown path s).1
  unfolding request_guard_shutdown
  request_guard_shutdown-ends path in_time s =
      let s1 = (open_shutdown_event s).1 in
      let s2 = (ss.tick_count s1).1 in
      on_option (Ended path s) (open_shutdown_event s).0 _ _ (λ e. (false, refl, inl (inl e)))
        (λ h e.
          let s3 = (ss.set_event h s2).1 in
          on_if (Ended path s) (ss.set_event h s2).0 _ _
            (λ _.
              waited path in_time s (ss.close_event h s3)
                (omega (arith, laws.tick_takes s1, laws.set_takes h s2, laws.close_takes h s3)))
            (λ f. (false, refl, inl (inr (h, e, f)))))
