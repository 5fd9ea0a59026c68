-- ===== src/Guard.antt =====
-- src/browser_guard.c: the tracked processes and the passes over them. The log lines of verbose mode
-- are not modelled.
pub mod Tracked
pub mod Entry
pub mod Pass
pub mod Holds
pub mod Kept
pub mod Ensure
pub mod Entries
pub mod Covered
pub mod Groups
pub mod Release
pub mod Sweep
pub mod Cleanup
pub mod Crash
pub mod Run
pub mod Ticks
pub mod Paths
pub mod Loop
pub mod Tests
use browser_guard.Prelude.{
  ℕ, ◌^◌, Bool, true, false, not, ◌||◌, Option, none, some, ltb, ◌==◌, if◌then◌else◌, Text, sub32,
}
use browser_guard.Windows.{Files, Processes, Desktop}
use browser_guard.Config.{AppConfig}
use browser_guard.Journal.{BgRecoveryJournal}
use browser_guard.Journal.Register.{recovery_journal_unregister}
use browser_guard.ProcessControl.Suspend.{set_process_suspended}

pub record TrackedProcess : Type 0 where
  pub pid : ℕ
  pub exe_name : Text
  pub last_known_window : ℕ
  pub last_known_window_was_maximized : Bool
  pub suspended : Bool
  pub background_mode : Bool
  pub suspend_disabled : Bool
  pub seen_this_pass : Bool
  pub last_trim_tick : ℕ
  pub last_active_tick : ℕ
  pub manual_resume_until_tick : ℕ
  pub last_heartbeat_tick : ℕ

-- What a pass works on beside the tracked processes. No journal is `active_recovery_journal == NULL`.
pub record Env (P F D : Type 0) : Type 0 where
  pub journal : Option BgRecoveryJournal
  pub processes : P
  pub files : F
  pub desktop : D

-- `(LONG)(now_tick - deadline_tick) >= 0`.
unfoldable pub tick_deadline_reached : ℕ → ℕ → Bool
unfolding sub32
tick_deadline_reached now_tick deadline_tick = ltb (sub32 now_tick deadline_tick) (2 ^ 31)

module _ {P F D : Type 0} ⦃ps : Processes P⦄ where
  -- A call on processes that gives a result.
  abbrev pub on_processes : (P → Bool × P) → Env P F D → Bool × Env P F D
  on_processes call env = let (r, p) = call env.processes in (r, record env { processes = p })

  unfoldable pub suspend_in : ℕ → Bool → AppConfig → Env P F D → Bool × Env P F D
  suspend_in pid suspend config = on_processes (set_process_suspended pid suspend config)

module _ {P F D : Type 0} ⦃fs : Files F⦄ where
  -- `if (recovery_journal != NULL) bg_recovery_journal_unregister (…)`, the result unread.
  unfoldable pub unregister_in : ℕ → Env P F D → Env P F D
  unregister_in pid env = elim env.journal [
    | none ↦ env
    | some j ↦
        (let o = recovery_journal_unregister j pid env.files in
          record env { journal = some o.1; files = o.2 })
  ]

module _ {D : Type 0} ⦃ds : Desktop D⦄ where
  unfoldable pub window_restores_to_maximized : ℕ → D → Bool × D
  window_restores_to_maximized hwnd s =
      if hwnd == 0
      then (false, s)
      else (let (is_window, s1) = ds.is_window hwnd s in
          if is_window
          then (let (placement, s2) = ds.restores_to_maximized hwnd s1 in
              let (zoomed, s3) = ds.is_zoomed hwnd s2 in
              (elim placement [ none ↦ zoomed | some flag ↦ zoomed || flag ], s3))
          else (false, s1))
