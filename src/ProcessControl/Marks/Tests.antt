-- ===== src/ProcessControl/Marks/Tests.antt =====
-- A window of the machine's screen, and the theorem on it.
use browser_guard.Prelude.{◌+◌, ◌≡◌, true, [], ◌∷◌, arith, codes}
use browser_guard.Machine.Screen.{Screen, screen_desktop}
use browser_guard.ProcessControl.{BrowserGroup}
use browser_guard.ProcessControl.Groups.{new_group}
use browser_guard.ProcessControl.Marks.{mark_window}
use browser_guard.ProcessControl.Marks.Counts.{mark_window-counts}

abbrev chrome : BrowserGroup
chrome = record (new_group (codes "chrome.exe")) { pids = 5 ∷ 6 ∷ []; minimized_window_count = 2 }

abbrev screen : Screen
screen = record { windows = 77 ∷ []; owner = 5 }

mark_window-counts_example :
    let m = (mark_window 0 77 chrome screen).0 in
    (m.minimized_window_count + m.visible_restored_window_count
      ≡ chrome.minimized_window_count + chrome.visible_restored_window_count + 1)
    × (m.pids ≡ chrome.pids)
    × (m.has_audio ≡ chrome.has_audio)
    × (m.has_visible_window ≡ true)
unfolding new_group
mark_window-counts_example = mark_window-counts 0 77 chrome screen (omega arith)
