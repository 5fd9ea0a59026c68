-- ===== src/Windows/Session/Kept.antt =====
-- Relations between two states of the kernel that the calls of src/control_main.c keep, all but
-- CreateProcessW and Sleep.
use browser_guard.Prelude.{ℕ, List, Text}
use browser_guard.Windows.{Processes}
use browser_guard.Windows.Session.{Session}
use browser_guard.Windows.Kept.{QueriesKept}

pub record IsKept {P : Type 0} (ps : Processes P) (ss : Session P) (R : P → P → Type 0)
    : Type 0 where
  pub queries : QueriesKept ps R
  pub module_file_name : (n : ℕ) (s : P) → R s (ss.module_file_name n s).1
  pub to_argv : (line : Text) (s : P) → R s (ss.to_argv line s).1
  pub multi_byte_to_wide :
      (bytes : List ℕ) (n : ℕ) (s : P) → R s (ss.multi_byte_to_wide bytes n s).1
  pub snapshot : (s : P) → R s (ss.snapshot s).1
  pub open_event : (name : Text) (s : P) → R s (ss.open_event name s).1
  pub set_event : (h : ℕ) (s : P) → R s (ss.set_event h s).1
  pub close_event : (h : ℕ) (s : P) → R s (ss.close_event h s)
  pub tick_count : (s : P) → R s (ss.tick_count s).1
