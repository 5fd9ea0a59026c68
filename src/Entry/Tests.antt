-- ===== src/Entry/Tests.antt =====
-- src/main.c on the machine of `Machine`.
use browser_guard.Prelude.{◌≡◌, some, [], ◌∷◌, codes, some}
use browser_guard.Machine.Disk.{disk_files, disk_laws}
use browser_guard.Machine.Kernel.{kernel_processes, kernel_laws, kernel_ranges, kernel_suspensions}
use browser_guard.Machine.Screen.{screen_desktop, screen_input}
use browser_guard.Machine.Station.{kernel_session, kernel_quiet}
use browser_guard.Journal.Tests.{blank}
use browser_guard.Guard.Loop.Tests.{busy_kernel, minimized, stops}
use browser_guard.Guard.Tests.{never_fails_with}
use browser_guard.Config.{init_app_config, parse_app_config}
use browser_guard.Guard.Loop.Main.{run_browser_guard}
use browser_guard.Entry.{run_entrypoint, run_entrypoint-none_left}

no_options-stops :
    (run_entrypoint 2 (codes "browser_guard.exe" ∷ []) busy_kernel blank minimized).0 ≡ some 0
unfolding run_entrypoint parse_app_config init_app_config run_browser_guard
no_options-stops = stops

run_entrypoint-none_left_example :
    kernel_laws.suspensions
      (run_entrypoint 2
        (codes "browser_guard.exe" ∷ [])
        busy_kernel
        blank
        minimized).1.env.processes
      5
    ≡ 0
run_entrypoint-none_left_example =
    run_entrypoint-none_left kernel_laws disk_laws kernel_ranges kernel_quiet never_fails_with 2
      (codes "browser_guard.exe" ∷ []) busy_kernel blank minimized 0
      (λ pid. kernel_suspensions busy_kernel pid) no_options-stops 5
