-- ===== src/Policy.antt =====
-- src/suspend_policy.c and include/suspend_policy.h: when a browser family may be suspended.
pub mod Eligibility
mod Tests
use browser_guard.Prelude.{
  ℕ, size_add, Bool, true, false, ◌&&◌, Option, none, some, ltb, ◌==◌, if◌then◌else◌, Text, codes,
}
use browser_guard.Config.{SuspendPolicy, minimized_only, all_background}

pub data SuspendReason : Type 0 where
  eligible foreground audio disabled manual_resume_grace background_grace : SuspendReason
  visible_window no_visible_windows : SuspendReason

pub record SuspendPolicyInput : Type 0 where
  pub policy : SuspendPolicy
  pub minimized_window_count : ℕ
  pub visible_restored_window_count : ℕ
  pub has_foreground_window : Bool
  pub has_audio : Bool
  pub suspend_disabled : Bool
  pub manual_resume_grace_elapsed : Bool
  pub background_grace_elapsed : Bool

pub record SuspendDecision : Type 0 where
  pub should_suspend : Bool
  pub reason : SuspendReason

unfoldable pub browser_windows_are_minimized_only : ℕ → ℕ → ℕ → Bool
browser_windows_are_minimized_only visible_window_count minimized_window_count restored_count =
    ltb 0 visible_window_count
    && minimized_window_count == visible_window_count
    && restored_count == 0

refuse : SuspendReason → SuspendDecision
refuse r = record { should_suspend = false; reason = r }

allow : SuspendDecision
allow = record { should_suspend = true; reason = eligible }

is_all_background : SuspendPolicy → Bool
is_all_background all_background = true
is_all_background minimized_only = false

-- The tests after the policy's own: the window counts.
evaluate_windows : SuspendPolicyInput → SuspendDecision
unfolding refuse allow browser_windows_are_minimized_only size_add
evaluate_windows input =
    let visible = size_add input.minimized_window_count input.visible_restored_window_count in
    if visible == 0
    then refuse no_visible_windows
    else if browser_windows_are_minimized_only visible input.minimized_window_count
        input.visible_restored_window_count
    then allow
    else refuse visible_window

evaluate_input : SuspendPolicyInput → SuspendDecision
unfolding refuse allow is_all_background evaluate_windows
evaluate_input input =
    if input.has_foreground_window
    then refuse foreground
    else if input.has_audio
    then refuse audio
    else if input.suspend_disabled
    then refuse disabled
    else if input.manual_resume_grace_elapsed
    then (if input.background_grace_elapsed
        then (if is_all_background input.policy then allow else evaluate_windows input)
        else refuse background_grace)
    else refuse manual_resume_grace

-- A null input is `none`.
unfoldable pub evaluate_suspend_policy : Option SuspendPolicyInput → SuspendDecision
unfolding evaluate_input refuse
evaluate_suspend_policy none = refuse disabled
evaluate_suspend_policy (some input) = evaluate_input input

unfoldable pub suspend_reason_name : SuspendReason → Text
suspend_reason_name eligible = codes "eligible"
suspend_reason_name foreground = codes "foreground"
suspend_reason_name audio = codes "audio"
suspend_reason_name disabled = codes "disabled"
suspend_reason_name manual_resume_grace = codes "manual-resume-grace"
suspend_reason_name background_grace = codes "background-grace"
suspend_reason_name visible_window = codes "visible-window"
suspend_reason_name no_visible_windows = codes "no-visible-windows"
