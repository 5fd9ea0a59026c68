-- ===== src/ProcessControl/Groups/Tests.antt =====
-- Grouping on the machine of `Machine`, and the theorems on it at concrete inputs.
use browser_guard.Prelude.{
  ℕ, ◌≤◌, ◌≡◌, refl, some, List, [], ◌∷◌, codes, All, length, Text, text_ieq, text_eq,
}
use browser_guard.Machine.Kernel.{quiet_kernel, kernel_processes, kernel_identity}
use browser_guard.ProcessControl.Groups.{
  SecurityContext, init_security_context, collect_browser_groups, new_group, max_browser_groups,
  collect_entries, collect_process, is_manageable_browser_process, session_is, opened_is_ours,
  process_matches_current_user, is_supported_browser_name, is_one_of, find_group_by_name,
  change_group, add_pid,
}
use browser_guard.Identity.{equal_sid}
use browser_guard.ProcessControl.Groups.Ours.{IsOwn, IsManageable, init_security_context-IsOwn}
use browser_guard.ProcessControl.Groups.Collect.{Holding, collect_browser_groups-IsManageable}

abbrev own : SecurityContext
own = record { current_session_id = 1; current_user_sid = 1 ∷ 5 ∷ [] }

context_made : (init_security_context quiet_kernel).0 ≡ some own
unfolding init_security_context kernel_processes
context_made = refl

own-IsOwn : IsOwn kernel_identity own
own-IsOwn = init_security_context-IsOwn kernel_identity quiet_kernel own context_made

-- Two processes of one browser, in different case, and another program.
abbrev snapshot : List (ℕ × Text)
snapshot = (5, codes "chrome.exe") ∷ (7, codes "notepad.exe") ∷ (6, codes "Chrome.exe") ∷ []

grouped :
    (collect_browser_groups own max_browser_groups (some snapshot) quiet_kernel).0
    ≡ record (new_group (codes "chrome.exe")) { pids = 5 ∷ 6 ∷ [] } ∷ []
unfolding collect_browser_groups collect_entries collect_process is_manageable_browser_process
    session_is opened_is_ours process_matches_current_user is_supported_browser_name is_one_of
    find_group_by_name change_group add_pid equal_sid kernel_processes text_ieq text_eq new_group
grouped = refl

collect_browser_groups-IsManageable_example :
    let o = collect_browser_groups own max_browser_groups (some snapshot) quiet_kernel in
    All (Holding (IsManageable kernel_identity snapshot)) o.0 × (length o.0 ≤ max_browser_groups)
collect_browser_groups-IsManageable_example =
    collect_browser_groups-IsManageable kernel_identity own max_browser_groups own-IsOwn snapshot
      quiet_kernel
