-- ===== src/Guard/Entry/Decide.antt =====
-- The tests that a pass of src/browser_guard.c makes on a group and an entry: activity, the question to
-- the policy, and what is due at a tick.
use browser_guard.Prelude.{ℕ, Bool, true, not, ◌&&◌, ◌||◌, some, leb, add32, sub32, size_add}
use browser_guard.Config.{AppConfig}
use browser_guard.Policy.{
  evaluate_suspend_policy, browser_windows_are_minimized_only, SuspendPolicyInput,
}
use browser_guard.ProcessControl.{BrowserGroup}
use browser_guard.Guard.{TrackedProcess, tick_deadline_reached}

unfoldable pub group_is_active : BrowserGroup → Bool
group_is_active g = g.has_foreground_window || g.has_audio

unfoldable pub should_use_background_mode : BrowserGroup → Bool
unfolding group_is_active
should_use_background_mode g =
    let visible = size_add g.minimized_window_count g.visible_restored_window_count in
    not (group_is_active g)
    && g.has_visible_window
    && not (
        browser_windows_are_minimized_only visible g.minimized_window_count
          g.visible_restored_window_count)

-- What the policy is asked about a process.
unfoldable pub policy_input : BrowserGroup → AppConfig → ℕ → TrackedProcess → SuspendPolicyInput
policy_input g config now_tick e = record {
  policy = config.suspend_policy;
  minimized_window_count = g.minimized_window_count;
  visible_restored_window_count = g.visible_restored_window_count;
  has_foreground_window = g.has_foreground_window;
  has_audio = g.has_audio;
  suspend_disabled = e.suspend_disabled;
  manual_resume_grace_elapsed = tick_deadline_reached now_tick e.manual_resume_until_tick;
  background_grace_elapsed =
      tick_deadline_reached now_tick (add32 e.last_active_tick config.background_grace_ms);
}

unfoldable pub should_suspend : BrowserGroup → AppConfig → ℕ → TrackedProcess → Bool
should_suspend g config now_tick e =
    (evaluate_suspend_policy (some (policy_input g config now_tick e))).should_suspend

-- `now_tick - entry->last_trim_tick >= config->trim_interval_ms`, where trimming is on.
unfoldable pub trim_is_due : AppConfig → ℕ → TrackedProcess → Bool
trim_is_due config now_tick e =
    config.trim_working_set && leb config.trim_interval_ms (sub32 now_tick e.last_trim_tick)

unfoldable pub heartbeat_is_due : AppConfig → ℕ → TrackedProcess → Bool
heartbeat_is_due config now_tick e =
    tick_deadline_reached now_tick (add32 e.last_heartbeat_tick config.heartbeat_interval_ms)

-- After a failed heartbeat the process is left alone.
unfoldable pub disable_suspension : AppConfig → ℕ → TrackedProcess → TrackedProcess
disable_suspension config now_tick e = record e {
  suspend_disabled = true;
  manual_resume_until_tick = add32 now_tick config.manual_resume_grace_ms;
  last_active_tick = now_tick;
}
