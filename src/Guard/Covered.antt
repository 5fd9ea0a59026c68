-- ===== src/Guard/Covered.antt =====
-- Between the steps of src/browser_guard.c: which processes may stand suspended, and the journal.
use browser_guard.Prelude.{ℕ, ◌≤◌, ◌≡◌, subst, ◌∙◌, Bool, true, List, arith, ◌==◌, if◌then◌else◌}
use browser_guard.Windows.{Files, Processes}
use browser_guard.Windows.Laws.{FileLaws, ProcessLaws}
use browser_guard.Guard.{TrackedProcess, Env}
use browser_guard.Guard.Tracked.{is_pid_suspended}
use browser_guard.Guard.Holds
use browser_guard.Guard.Holds.{bit, recorded, IsGood, Holds-desktop}
use browser_guard.Guard.Entries.{DistinctPids, SmallPids}

-- A set of process ids with one of them put in or taken out.
abbrev pub but : (ℕ → Bool) → ℕ → Bool → ℕ → Bool
but k pid b q = if pid == q then b else k q

module _ {P F D : Type 0} ⦃ps : Processes P⦄ ⦃fs : Files F⦄ (process_laws : ProcessLaws ps)
    (file_laws : FileLaws fs) where
  open process_laws use {suspensions}

  -- The processes of `k` may stand suspended, once, and have records; no other stands suspended.
  pub record CoveredBy (k : ℕ → Bool) (env : Env P F D) : Type 0 where
    pub count : (q : ℕ) → suspensions env.processes q ≤ bit (k q)
    pub in_journal : (q : ℕ) → k q ≡ true → recorded q env ≡ true
    pub good : IsGood process_laws file_laws env

  -- What the program knows between its steps: at most the processes whose entries say so stand
  -- suspended, each once, and each has its record in a journal that the disk covers.
  pub record Covered (tracked : List TrackedProcess) (env : Env P F D) : Type 0 where
    pub covered : CoveredBy (λ q. is_pid_suspended q tracked) env
    pub distinct : DistinctPids tracked
    pub small : SmallPids tracked

  pub CoveredBy-same :
      (k k' : ℕ → Bool) (env : Env P F D)
      → ((q : ℕ) → k q ≡ k' q)
      → CoveredBy k env
      → CoveredBy k' env
  CoveredBy-same k k' env same c = record {
    count = λ q. subst (λ b. suspensions env.processes q ≤ bit b) (same q) (c.count q);
    in_journal = λ q e. c.in_journal q (same q ∙ e);
    good = c.good;
  }

  pub CoveredBy-Holds :
      (k : ℕ → Bool) (env : Env P F D) (pid : ℕ) (b : Bool)
      → CoveredBy k env
      → k pid ≡ b
      → Holds.Holds process_laws file_laws env pid (bit b) b env
  CoveredBy-Holds k env pid b c same = record {
    count = subst (λ x. suspensions env.processes pid ≤ bit x) same (c.count pid);
    in_journal = λ e. c.in_journal pid (same ∙ e);
    good = c.good;
    others = λ q d. omega arith;
    others_recorded = λ q d e. e;
  }

  pub Holds-CoveredBy :
      (k : ℕ → Bool) (base env : Env P F D) (pid : ℕ) (b : Bool)
      → CoveredBy k base
      → Holds.Holds process_laws file_laws base pid (bit b) b env
      → CoveredBy (but k pid b) env
  Holds-CoveredBy k base env pid b c h = record {
    count = λ q. ground (arith, h.count, h.others q, c.count q);
    in_journal = λ q e. ground (arith, h.in_journal, h.others_recorded q, c.in_journal q);
    good = h.good;
  }
