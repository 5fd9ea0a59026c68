-- ===== src/ProcessControl/Memory.antt =====
-- `snapshot_memory_totals` of src/process_control.c.
use browser_guard.Prelude.{ℕ, ◌+◌, Option, none, some, List, [], ◌∷◌, size_add, on_option}
use browser_guard.Windows.{Processes, Handle}
use browser_guard.Windows.Kept.{QueriesKept}
use browser_guard.Windows.Session.{Session}
use browser_guard.ProcessControl.{BrowserGroup}

pub record MemoryTotals : Type 0 where
  pub process_count : ℕ
  pub working_set_bytes : ℕ
  pub private_bytes : ℕ

abbrev pub no_totals : MemoryTotals
no_totals = record { process_count = 0; working_set_bytes = 0; private_bytes = 0 }

-- PROCESS_QUERY_LIMITED_INFORMATION and PROCESS_VM_READ together.
abbrev pub memory_access : ℕ
memory_access = 0x1000 + 0x0010

unfoldable pub add_counters : Option (ℕ × ℕ) → MemoryTotals → MemoryTotals
add_counters none totals = totals
add_counters (some (working_set, private)) totals = record {
  process_count = size_add totals.process_count 1;
  working_set_bytes = size_add totals.working_set_bytes working_set;
  private_bytes = size_add totals.private_bytes private;
}

module _ {P : Type 0} ⦃ps : Processes P⦄ ⦃ss : Session P⦄ where
  -- A process that cannot be opened or queried counts for nothing.
  unfoldable pub add_process : ℕ → MemoryTotals → P → MemoryTotals × P
  add_process pid totals s =
      let (process, s1) = ps.open_process memory_access pid s in
      elim process [
        | none ↦ (totals, s1)
        | some h ↦
            (let (counters, s2) = ss.memory_info h s1 in
              (add_counters counters totals, ps.close_handle h s2))
      ]

  unfoldable pub add_processes : List ℕ → MemoryTotals → P → MemoryTotals × P
  add_processes [] totals s = (totals, s)
  add_processes (pid ∷ pids) totals s =
      let (totals1, s1) = add_process pid totals s in add_processes pids totals1 s1

  unfoldable pub add_groups : List BrowserGroup → MemoryTotals → P → MemoryTotals × P
  add_groups [] totals s = (totals, s)
  add_groups (g ∷ gs) totals s =
      let (totals1, s1) = add_processes g.pids totals s in add_groups gs totals1 s1

  unfoldable pub snapshot_memory_totals : List BrowserGroup → P → MemoryTotals × P
  snapshot_memory_totals groups s = add_groups groups no_totals s

module _ {P : Type 0} ⦃ps : Processes P⦄ ⦃ss : Session P⦄ {R : P → P → Type 0}
    (kept : QueriesKept ps R) (measured : (h : Handle) (s : P) → R s (ss.memory_info h s).1) where
  add_process-kept : (pid : ℕ) (totals : MemoryTotals) (s : P) → R s (add_process pid totals s).1
  unfolding add_process
  add_process-kept pid totals s =
      let opened = kept.open_process memory_access pid s in
      let s1 = (ps.open_process memory_access pid s).1 in
      on_option (λ (r : MemoryTotals × P). R s r.1) (ps.open_process memory_access pid s).0 _ _
        (λ _. opened)
        (λ h _.
          kept.then_on opened
            (kept.then_on (measured h s1) (kept.close_handle h (ss.memory_info h s1).1)))

  add_processes-kept :
      (pids : List ℕ) (totals : MemoryTotals) (s : P) → R s (add_processes pids totals s).1
  unfolding add_processes
  add_processes-kept [] totals s = kept.same s
  add_processes-kept (pid ∷ pids) totals s =
      let (totals1, s1) = add_process pid totals s in
      kept.then_on (add_process-kept pid totals s) (add_processes-kept pids totals1 s1)

  add_groups-kept :
      (groups : List BrowserGroup) (totals : MemoryTotals) (s : P)
      → R s (add_groups groups totals s).1
  unfolding add_groups
  add_groups-kept [] totals s = kept.same s
  add_groups-kept (g ∷ gs) totals s =
      let (totals1, s1) = add_processes g.pids totals s in
      kept.then_on (add_processes-kept g.pids totals s) (add_groups-kept gs totals1 s1)

  pub snapshot_memory_totals-kept :
      (groups : List BrowserGroup) (s : P) → R s (snapshot_memory_totals groups s).1
  unfolding snapshot_memory_totals
  snapshot_memory_totals-kept groups s = add_groups-kept groups no_totals s
