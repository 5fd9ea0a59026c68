-- ===== src/Control/Notification/Tests.antt =====
-- Notifications of src/control_main.c on the machine of `Machine`.
use browser_guard.Prelude.{◌≡◌, some, [], ◌∷◌}
use browser_guard.Machine.Kernel.{quiet_kernel, kernel_processes}
use browser_guard.Machine.Screen.{Screen, screen_desktop, screen_input, screen_notifications}
use browser_guard.Machine.Station.{kernel_session, kernel_clock}
use browser_guard.Control.Modes.{turned_off}
use browser_guard.Control.Notification.{show_notification}
use browser_guard.Control.Notification.Ends.{show_notification-ends}

abbrev desk : Screen
desk = record { windows = 77 ∷ []; owner = 5 }

show_notification-ends_example : (show_notification turned_off quiet_kernel desk).0 ≡ some tt
show_notification-ends_example = show_notification-ends kernel_clock turned_off quiet_kernel desk
