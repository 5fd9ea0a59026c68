-- ===== src/Guard/Holds.antt =====
-- What src/browser_guard.c knows of one process while it works on it: how often the process may stand
-- suspended, and whether the journal has its record. Every call says how it changes that knowledge.
use browser_guard.Prelude.{
  ℕ, ◌≤◌, ◌<◌, ◌≡◌, ◌≢◌, refl, Bool, true, false, Option, none, some, arith, inl, inr, Bool-cases,
  ◌==◌, if◌then◌else◌, dword_mod,
}
use browser_guard.Windows.{Files, Processes}
use browser_guard.Windows.Laws.{FileLaws, ProcessLaws, ProcessRanges, Quiet}
use browser_guard.Config.{AppConfig}
use browser_guard.Journal.{BgRecoveryJournal}
use browser_guard.Journal.Register.{has_pid, recovery_journal_register, recovery_journal_unregister}
use browser_guard.Journal.Entries.{IsSound}
use browser_guard.Journal.Sound.{
  register-IsSound, unregister-IsSound, has_pid-register, has_pid-unregister,
}
use browser_guard.Journal.Durable
use browser_guard.Journal.Durable.{register-IsDurable, unregister-IsDurable}
use browser_guard.Journal.Queries.{recovery_journal_register-Quiet}
use browser_guard.ProcessControl.Suspend.Calls.{
  set_process_suspended-Suspends, set_process_suspended-Resumes,
}
use browser_guard.Guard.{Env, suspend_in, unregister_in}
use browser_guard.Guard.Entry.{register_in}

-- 1 for a process that may stand suspended once, 0 for one that runs.
abbrev pub bit : Bool → ℕ
bit b = if b then 1 else 0

unfoldable pub recorded : {P F D : Type 0} → ℕ → Env P F D → Bool
recorded pid env = elim env.journal [ none ↦ false | some j ↦ has_pid pid j.records ]

module _ {F : Type 0} ⦃fs : Files F⦄ where
  -- Removal keeps the records of the other processes.
  still_recorded :
      (j : BgRecoveryJournal) (pid q : ℕ) (f : F)
      → IsSound j
      → q ≢ pid
      → has_pid q j.records ≡ true
      → has_pid q (recovery_journal_unregister j pid f).1.records ≡ true
  still_recorded j pid q f sound other e = elim (Bool-cases (pid == 0)) [
    | inl zero ↦ unfold recovery_journal_unregister in ground arith
    | inr nonzero ↦ ground (arith, has_pid-unregister j pid q f sound (ground arith))
  ]

module _ {P F D : Type 0} ⦃ps : Processes P⦄ ⦃fs : Files F⦄ (process_laws : ProcessLaws ps)
    (file_laws : FileLaws fs) where
  open process_laws use {suspensions, resumes}

  -- The journal, where there is one, is sound, and the disk covers it.
  unfoldable pub IsGood : Env P F D → Type 0
  IsGood env = elim env.journal [
    | none ↦ Unit {0}
    | some j ↦ IsSound j × Durable.IsDurable file_laws j env.files
  ]

  -- The process stands suspended `c` times at most and has a record if `r` says so, and for the others
  -- nothing is worse than in `base`.
  pub record Holds (base : Env P F D) (pid c : ℕ) (r : Bool) (env : Env P F D) : Type 0 where
    pub count : suspensions env.processes pid ≤ c
    pub in_journal : r ≡ true → recorded pid env ≡ true
    pub good : IsGood env
    pub others : (q : ℕ) → q ≢ pid → suspensions env.processes q ≤ suspensions base.processes q
    pub others_recorded : (q : ℕ) → q ≢ pid → recorded q base ≡ true → recorded q env ≡ true

  pub Holds-if :
      {base : Env P F D} {pid c : ℕ} {r : Bool} (test : Bool) {env env' : Env P F D}
      → (test ≡ true → Holds base pid c r env)
      → (test ≡ false → Holds base pid c r env')
      → Holds base pid c r (if test then env else env')
  Holds-if true h h' = h refl
  Holds-if false h h' = h' refl

  module _ {base : Env P F D} {pid c : ℕ} {r : Bool} (env : Env P F D)
      (h : Holds base pid c r env) where
    -- Knowing less.
    pub Holds-weaken :
        {c' : ℕ} {r' : Bool} → c ≤ c' → (r' ≡ true → r ≡ true) → Holds base pid c' r' env
    Holds-weaken more fewer = record {
      count = omega (arith, h.count, more);
      in_journal = λ e. h.in_journal (fewer e);
      good = h.good;
      others = h.others;
      others_recorded = h.others_recorded;
    }

    pub Holds-desktop : (d : D) → Holds base pid c r (record env { desktop = d })
    unfolding recorded IsGood
    Holds-desktop d = record {
      count = h.count;
      in_journal = h.in_journal;
      good = h.good;
      others = h.others;
      others_recorded = h.others_recorded;
    }

    pub Holds-Quiet :
        (p : P)
        → Quiet suspensions resumes env.processes p
        → Holds base pid c r (record env { processes = p })
    unfolding recorded IsGood
    Holds-Quiet p quiet = record {
      count = omega (arith, h.count, quiet.no_more pid);
      in_journal = h.in_journal;
      good = h.good;
      others = λ q d. omega (arith, h.others q d, quiet.no_more q);
      others_recorded = h.others_recorded;
    }

    pub Holds-resume :
        (config : AppConfig)
        → c ≤ 1
        → let o = suspend_in pid false config env in Holds base pid (if o.0 then 0 else c) r o.1
    unfolding recorded IsGood suspend_in
    Holds-resume config small =
        let e = set_process_suspended-Resumes process_laws pid config env.processes in
        record {
          count = ground (arith, h.count, e.one_less, e.no_more pid);
          in_journal = h.in_journal;
          good = h.good;
          others = λ q d. omega (arith, h.others q d, e.no_more q);
          others_recorded = h.others_recorded;
        }

  pub Holds-suspend :
      {base : Env P F D} {pid : ℕ} {r : Bool} (env : Env P F D)
      → Holds base pid 0 r env
      → (config : AppConfig)
      → let o = suspend_in pid true config env in Holds base pid (bit o.0) r o.1
  unfolding recorded IsGood suspend_in
  Holds-suspend {pid = pid} env h config =
      let e = set_process_suspended-Suspends process_laws pid config env.processes in
      record {
        count = ground (arith, h.count, e.one_more, e.if_failed);
        in_journal = h.in_journal;
        good = h.good;
        others = λ q d. omega (arith, h.others q d, e.others q d);
        others_recorded = h.others_recorded;
      }

  unregister_in_parts :
      {base : Env P F D} {pid : ℕ} {r : Bool} (journal : Option BgRecoveryJournal) (p : P) (f : F)
      (d : D)
      → Holds base pid 0 r (record { journal = journal; processes = p; files = f; desktop = d })
      → Holds base pid 0 false
          (unregister_in pid (record { journal = journal; processes = p; files = f; desktop = d }))
  unfolding recorded IsGood unregister_in
  unregister_in_parts none p f d h = record {
    count = h.count;
    in_journal = λ e. cc;
    good = tt;
    others = h.others;
    others_recorded = h.others_recorded;
  }
  unregister_in_parts {pid = pid} (some j) p f d h = record {
    count = h.count;
    in_journal = λ e. cc;
    good = (
      unregister-IsSound j pid f h.good.0,
      unregister-IsDurable file_laws j pid f h.good.0 h.good.1,
    );
    others = h.others;
    others_recorded =
        λ q other e. still_recorded j pid q f h.good.0 other (h.others_recorded q other e);
  }

  -- The record goes only when the process is known to run.
  pub Holds-unregister :
      {base : Env P F D} {pid : ℕ} {r : Bool} (env : Env P F D)
      → Holds base pid 0 r env
      → Holds base pid 0 false (unregister_in pid env)
  Holds-unregister env h = unregister_in_parts env.journal env.processes env.files env.desktop h

  register_in_parts :
      {base : Env P F D} {pid c : ℕ} {r : Bool} (journal : Option BgRecoveryJournal) (p : P) (f : F)
      (d : D)
      → ProcessRanges ps
      → pid < dword_mod
      → Holds base pid c r (record { journal = journal; processes = p; files = f; desktop = d })
      → let o =
          register_in pid (record { journal = journal; processes = p; files = f; desktop = d }) in
        Holds base pid c (if o.0 then true else r) o.1
  unfolding recorded IsGood register_in
  register_in_parts none p f d ranges small h = h
  register_in_parts {pid = pid} (some j) p f d ranges small h =
      let o = recovery_journal_register j pid p f in
      let quiet = recovery_journal_register-Quiet process_laws j pid p f in
      record {
        count = omega (arith, h.count, quiet.no_more pid);
        in_journal = λ e. ground (arith, h.in_journal, has_pid-register ranges j pid p f pid small);
        good = (
          register-IsSound ranges j pid p f small h.good.0,
          register-IsDurable file_laws ranges j pid p f small h.good.0 h.good.1,
        );
        others = λ q other. omega (arith, h.others q other, quiet.no_more q);
        others_recorded = λ q other e.
            ground (arith, h.others_recorded q other e, has_pid-register ranges j pid p f q small);
      }

  pub Holds-register :
      {base : Env P F D} {pid c : ℕ} {r : Bool} (env : Env P F D)
      → ProcessRanges ps
      → pid < dword_mod
      → Holds base pid c r env
      → let o = register_in pid env in Holds base pid c (if o.0 then true else r) o.1
  Holds-register env ranges small h =
      register_in_parts env.journal env.processes env.files env.desktop ranges small h
