-- ===== src/Policy/Eligibility.antt =====
-- The decisions of src/suspend_policy.c against a description of them.
use browser_guard.Prelude.{◌<◌, ◌≡◌, ◌↔◌, ◌⊎◌, true, false, some, arith, size_mod}
use browser_guard.Config.{all_background}
use browser_guard.Policy.{SuspendPolicyInput, evaluate_suspend_policy}

-- Nothing protects the family, and both grace periods are over.
pub record IsUnprotected (i : SuspendPolicyInput) : Type 0 where
  pub background : i.has_foreground_window ≡ false
  pub silent : i.has_audio ≡ false
  pub enabled : i.suspend_disabled ≡ false
  pub manual : i.manual_resume_grace_elapsed ≡ true
  pub grace : i.background_grace_elapsed ≡ true

-- The policy's own condition on the windows.
abbrev pub WindowsAllow : SuspendPolicyInput → Type 0
WindowsAllow i =
    (i.policy ≡ all_background)
    ⊎ ((0 < i.minimized_window_count) × (i.visible_restored_window_count ≡ 0))

-- Where the minimized windows are counted in a size_t, a family is suspended exactly when it is
-- unprotected and either the policy is all-background or it has a minimized window and no restored
-- one.
pub should_suspend_iff :
    (i : SuspendPolicyInput)
    → i.minimized_window_count < size_mod
    → ((evaluate_suspend_policy (some i)).should_suspend ≡ true)
      ↔ (IsUnprotected i × WindowsAllow i)
unfolding evaluate_suspend_policy
should_suspend_iff i fits = (λ h. ground arith, λ h. ground arith)
