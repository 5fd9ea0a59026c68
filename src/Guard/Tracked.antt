-- ===== src/Guard/Tracked.antt =====
-- The array of tracked processes in src/browser_guard.c.
use browser_guard.Prelude.{
  ℕ, ◌+◌, Bool, true, false, ◌&&◌, Option, none, some, List, [], ◌∷◌, ◌==◌, if◌then◌else◌, add32,
}
use browser_guard.ProcessControl.{BrowserGroup}
use browser_guard.Guard.{TrackedProcess}

unfoldable pub find_tracked_process : ℕ → List TrackedProcess → Option TrackedProcess
find_tracked_process pid [] = none
find_tracked_process pid (e ∷ es) = if e.pid == pid then some e else find_tracked_process pid es

-- A write through the pointer that `find_tracked_process` gave.
unfoldable pub put_tracked : TrackedProcess → List TrackedProcess → List TrackedProcess
put_tracked e [] = []
put_tracked e (x ∷ xs) = let rest = put_tracked e xs in if x.pid == e.pid then e ∷ xs else x ∷ rest

unfoldable pub is_pid_suspended : ℕ → List TrackedProcess → Bool
is_pid_suspended pid [] = false
is_pid_suspended pid (e ∷ es) =
    if e.pid == pid && e.suspended then true else is_pid_suspended pid es

unfoldable pub count_suspended_processes : List TrackedProcess → ℕ
count_suspended_processes [] = 0
count_suspended_processes (e ∷ es) =
    let rest = count_suspended_processes es in if e.suspended then rest + 1 else rest

-- `now_tick` and the hold in DWORD arithmetic.
unfoldable pub hold_resumed_processes : ℕ → ℕ → List TrackedProcess → List TrackedProcess
hold_resumed_processes now_tick hold_duration_ms [] = []
hold_resumed_processes now_tick hold_duration_ms (e ∷ es) =
    record e {
      manual_resume_until_tick = add32 now_tick hold_duration_ms;
      last_active_tick = now_tick;
    }
    ∷ hold_resumed_processes now_tick hold_duration_ms es

any_suspended : List ℕ → List TrackedProcess → Bool
any_suspended [] tracked = false
any_suspended (pid ∷ pids) tracked =
    if is_pid_suspended pid tracked then true else any_suspended pids tracked

-- The anchor window of the first group that has one and a suspended process, or NULL.
unfoldable pub choose_overlay_target_window : List BrowserGroup → List TrackedProcess → ℕ
unfolding any_suspended
choose_overlay_target_window [] tracked = 0
choose_overlay_target_window (g ∷ gs) tracked =
    let rest = choose_overlay_target_window gs tracked in
    if g.anchor_window == 0
    then rest
    else if any_suspended g.pids tracked
    then g.anchor_window
    else rest
