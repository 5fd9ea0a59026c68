-- ===== src/Guard/Ticks.antt =====
-- `tick_deadline_reached` of src/browser_guard.c on the 32-bit tick count, which wraps.
use browser_guard.Prelude.{ℕ, ◌+◌, ◌^◌, ◌≤◌, ◌<◌, ◌≡◌, false, arith, leb, add32, sub32, dword_mod}
use browser_guard.Guard.{tick_deadline_reached}

-- A wait of 2 ^ 31 ms at most, begun at any tick, is over exactly when so much time has passed, also
-- across the wrap of the tick count: for the first 2 ^ 31 ms after the deadline.
pub tick_deadline_reached-elapsed :
    (start wait elapsed : ℕ)
    → start < dword_mod
    → wait ≤ 2 ^ 31
    → elapsed < wait + 2 ^ 31
    → tick_deadline_reached (add32 start elapsed) (add32 start wait) ≡ leb wait elapsed
unfolding tick_deadline_reached add32 sub32
tick_deadline_reached-elapsed start wait elapsed a b c = ground arith

-- A deadline that is from 2 ^ 31 to 2 ^ 32 - 1 ms old counts as not reached.
pub tick_deadline_reached-stale :
    (start wait elapsed : ℕ)
    → start < dword_mod
    → wait ≤ 2 ^ 31
    → wait + 2 ^ 31 ≤ elapsed
    → elapsed < wait + dword_mod
    → tick_deadline_reached (add32 start elapsed) (add32 start wait) ≡ false
unfolding tick_deadline_reached add32 sub32
tick_deadline_reached-stale start wait elapsed a b c d = ground arith
