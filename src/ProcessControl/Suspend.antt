-- ===== src/ProcessControl/Suspend.antt =====
-- The part of src/process_control.c that changes processes: suspension, memory priority, power
-- throttling and working sets.
pub mod Effects
pub mod Calls
use browser_guard.Prelude.{
  ℕ, ◌+◌, Bool, true, false, ◌&&◌, Option, none, some, if◌then◌else◌, Text, codes,
}
use browser_guard.Windows.{Processes, Handle, ◌and◌}
use browser_guard.Config.{AppConfig}

-- PROCESS_QUERY_LIMITED_INFORMATION, PROCESS_SUSPEND_RESUME and PROCESS_SET_INFORMATION together,
-- and PROCESS_SET_QUOTA, which they do not contain.
abbrev pub management_access : ℕ
management_access = 0x1000 + 0x0800 + 0x0200

abbrev pub set_quota : ℕ
set_quota = 0x0100

module _ {P : Type 0} ⦃ps : Processes P⦄ where
  unfoldable pub apply_memory_priority : Handle → Bool → P → P
  apply_memory_priority process lower s = ps.set_memory_priority process lower s

  unfoldable pub apply_power_throttling : Handle → Bool → P → P
  apply_power_throttling process enable s = ps.set_power_throttling process enable s

  -- The pair of tests that the callers share: what the settings ask for is switched on or off.
  unfoldable pub apply_policies : Handle → Bool → AppConfig → P → P
  unfolding apply_memory_priority apply_power_throttling
  apply_policies process on config s =
      let s1 = if config.lower_memory_priority then apply_memory_priority process on s else s in
      if config.enable_power_throttling then apply_power_throttling process on s1 else s1

  unfoldable pub open_process_for_management : ℕ → Bool → P → Option Handle × P
  open_process_for_management pid needs_quota s =
      ps.open_process (if needs_quota then management_access + set_quota else management_access) pid
        s

  unfoldable pub trim_if : Bool → Handle → P → P
  trim_if test process s = if test then (ps.empty_working_set process s).1 else s

  -- Both procedures are looked up, whichever is called.
  unfoldable pub find_procedures : P → Bool × P
  find_procedures s =
      let (has_suspend, s1) = ps.has_proc (codes "ntdll.dll") (codes "NtSuspendProcess") s in
      let (has_resume, s2) = ps.has_proc (codes "ntdll.dll") (codes "NtResumeProcess") s1 in
      (has_suspend && has_resume, s2)

  unfoldable pub call_suspend_or_resume : Handle → Bool → P → Bool × P
  call_suspend_or_resume process suspend s =
      if suspend then ps.nt_suspend_process process s else ps.nt_resume_process process s

  unfoldable pub invoke_suspend_or_resume : Handle → Bool → P → Bool × P
  invoke_suspend_or_resume process suspend =
      ps.has_module (codes "ntdll.dll")
      and find_procedures
      and call_suspend_or_resume process suspend

  unfoldable pub set_process_background_mode : ℕ → AppConfig → P → Bool × P
  set_process_background_mode pid config s =
      let (process, s1) = open_process_for_management pid config.trim_working_set s in
      elim process [
        | none ↦ (false, s1)
        | some h ↦ (
          true,
          ps.close_handle h (trim_if config.trim_working_set h (apply_policies h true config s1)),
        )
      ]

  unfoldable pub restore_process_foreground_mode : ℕ → AppConfig → P → Bool × P
  restore_process_foreground_mode pid config s =
      let (process, s1) = open_process_for_management pid false s in
      elim process [
        | none ↦ (false, s1)
        | some h ↦ (true, ps.close_handle h (apply_policies h false config s1))
      ]

  -- Before the call: only a suspension applies the policies.
  unfoldable pub before_call : Handle → Bool → AppConfig → P → P
  before_call process suspend config s = if suspend then apply_policies process true config s else s

  -- After a call that failed: a suspension takes the policies back.
  unfoldable pub after_failure : Handle → Bool → AppConfig → P → P
  after_failure process suspend config s =
      ps.close_handle process (if suspend then apply_policies process false config s else s)

  -- After a call that succeeded: a suspension may trim, a resumption takes the policies back.
  unfoldable pub after_success : Handle → Bool → AppConfig → P → P
  after_success process suspend config s =
      let s1 = trim_if (suspend && config.trim_working_set) process s in
      ps.close_handle process (if suspend then s1 else apply_policies process false config s1)

  unfoldable pub set_opened_suspended : Handle → Bool → AppConfig → P → Bool × P
  set_opened_suspended process suspend config s =
      let (success, s1) =
        invoke_suspend_or_resume process suspend (before_call process suspend config s) in
      (
        success,
        (if success
            then after_success process suspend config s1
            else after_failure process suspend config s1),
      )

  unfoldable pub set_process_suspended : ℕ → Bool → AppConfig → P → Bool × P
  set_process_suspended pid suspend config s =
      let (process, s1) = open_process_for_management pid config.trim_working_set s in
      elim process [ none ↦ (false, s1) | some h ↦ set_opened_suspended h suspend config s1 ]

  unfoldable pub maintain_opened : Handle → AppConfig → P → Bool × P
  maintain_opened process config s =
      let (success, s1) = ps.empty_working_set process (apply_policies process true config s) in
      (success, ps.close_handle process s1)

  unfoldable pub maintain_suspended_process : ℕ → AppConfig → P → Bool × P
  maintain_suspended_process pid config s =
      if config.trim_working_set
      then (let (process, s1) = open_process_for_management pid true s in
          elim process [ none ↦ (false, s1) | some h ↦ maintain_opened h config s1 ])
      else (true, s)
