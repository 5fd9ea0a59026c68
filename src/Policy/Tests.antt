-- ===== src/Policy/Tests.antt =====
-- tests/test_suspend_policy.c, and the theorems at concrete inputs.
use browser_guard.Prelude.{◌≡◌, ◌↔◌, refl, true, false, some, arith}
use browser_guard.Config.{minimized_only}
use browser_guard.Policy.{SuspendPolicyInput, visible_window, evaluate_suspend_policy}
use browser_guard.Policy.Eligibility.{IsUnprotected, WindowsAllow, should_suspend_iff}

abbrev one_minimized : SuspendPolicyInput
one_minimized = record {
  policy = minimized_only;
  minimized_window_count = 1;
  visible_restored_window_count = 0;
  has_foreground_window = false;
  has_audio = false;
  suspend_disabled = false;
  manual_resume_grace_elapsed = true;
  background_grace_elapsed = true;
}

mixed_windows_stay :
    evaluate_suspend_policy (some (record one_minimized { visible_restored_window_count = 1 }))
    ≡ record { should_suspend = false; reason = visible_window }
unfolding evaluate_suspend_policy
mixed_windows_stay = refl

should_suspend_iff_example :
    ((evaluate_suspend_policy (some one_minimized)).should_suspend ≡ true)
    ↔ (IsUnprotected one_minimized × WindowsAllow one_minimized)
should_suspend_iff_example = should_suspend_iff one_minimized (omega arith)
