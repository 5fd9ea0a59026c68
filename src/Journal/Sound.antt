-- ===== src/Journal/Sound.antt =====
-- The journal in memory under registration and removal in src/recovery_journal.c.
use browser_guard.Prelude.{
  ℕ, ◌<◌, ◌≡◌, ◌≢◌, refl, Bool, true, false, [], ◌∷◌, arith, inl, inr, Bool-cases, ◌&&◌, ◌==◌,
  if◌then◌else◌, length, All-append, dword_mod, length-append,
}
use browser_guard.Windows.{Files, Processes}
use browser_guard.Windows.Laws.{ProcessRanges}
use browser_guard.Journal.Layout.{BgRecoveryRecord, max_recovery_records}
use browser_guard.Journal.Roundtrip.{IsWellFormed}
use browser_guard.Journal.Entries.{
  IsSound, Distinct-append, Distinct-remove_pid, length-remove_pid, All-remove_pid, has_pid-append,
  has_pid-remove_pid,
}
use browser_guard.Journal.Fields.{query_recovery_record-IsWellFormed}
use browser_guard.Journal.Cases.{extended, register_cases, register_record_cases}
use browser_guard.Journal.Register.{
  has_pid, remove_pid, query_recovery_record, recovery_journal_register,
  recovery_journal_unregister,
}
use browser_guard.Journal.{BgRecoveryJournal, persist_journal}

pub extended-IsSound :
    (j : BgRecoveryJournal) (r : BgRecoveryRecord)
    → IsSound j
    → IsWellFormed r
    → has_pid r.pid j.records ≡ false
    → length j.records < max_recovery_records
    → IsSound (extended j r)
extended-IsSound j r v w fresh room = record {
  distinct = Distinct-append j.records r fresh v.distinct;
  bounded = omega (arith, length-append j.records (r ∷ []));
  well_formed = All-append IsWellFormed j.records (r ∷ []) v.well_formed (w, tt);
}

unfoldable pub removed : ℕ → BgRecoveryJournal → BgRecoveryJournal
removed pid j = record j { records = remove_pid pid j.records }

pub removed-IsSound : (pid : ℕ) (j : BgRecoveryJournal) → IsSound j → IsSound (removed pid j)
unfolding removed
removed-IsSound pid j v = record {
  distinct = Distinct-remove_pid pid j.records v.distinct;
  bounded = omega (arith, length-remove_pid pid j.records);
  well_formed = All-remove_pid IsWellFormed pid j.records v.well_formed;
}

module _ {F : Type 0} ⦃fs : Files F⦄ where
  pub unregister_cases {ℓ} :
      (Q : Bool × BgRecoveryJournal × F → Type ℓ) (j : BgRecoveryJournal) (pid : ℕ) (f : F)
      → (pid ≡ 0 → Q (false, j, f))
      → (has_pid pid j.records ≡ false → Q (true, j, f))
      → (pid ≢ 0
          → Q (
            (persist_journal (removed pid j) f).0,
            removed pid j,
            (persist_journal (removed pid j) f).1,
          ))
      → Q (recovery_journal_unregister j pid f)
  unfolding recovery_journal_unregister removed
  unregister_cases Q j pid f refused absent there = elim (Bool-cases (pid == 0)) [
    | inl e ↦ rw (e, recovery_journal_unregister) (refused (ground arith))
    | inr nonzero ↦
        rw (nonzero, recovery_journal_unregister)
          (elim (Bool-cases (has_pid pid j.records)) [
            | inl e ↦ rw e (there (ground arith))
            | inr e ↦ rw e (absent e)
          ])
  ]

  -- Removal keeps the journal sound, whether it succeeds or fails.
  pub unregister-IsSound :
      (j : BgRecoveryJournal) (pid : ℕ) (f : F)
      → IsSound j
      → IsSound (recovery_journal_unregister j pid f).1
  unregister-IsSound j pid f v =
      unregister_cases (λ o. IsSound o.1) j pid f (λ _. v) (λ _. v) (λ _. removed-IsSound pid j v)

  -- After its removal a process has no record, and the others have theirs.
  pub has_pid-unregister :
      (j : BgRecoveryJournal) (pid q : ℕ) (f : F)
      → IsSound j
      → pid ≢ 0
      → has_pid q (recovery_journal_unregister j pid f).1.records
        ≡ (if pid == q then false else has_pid q j.records)
  has_pid-unregister j pid q f v nonzero =
      unregister_cases
        (λ o. has_pid q o.1.records ≡ (if pid == q then false else has_pid q j.records)) j pid f
        (λ e. absurd (nonzero e)) (λ e. ground arith)
        (λ _. unfold removed in has_pid-remove_pid pid q j.records v.distinct)

module _ {P F : Type 0} ⦃ps : Processes P⦄ ⦃fs : Files F⦄ (ranges : ProcessRanges ps)
    (j : BgRecoveryJournal) (pid : ℕ) (s : P) (f : F) where
  -- Registration keeps the journal sound, whether it succeeds or fails.
  pub register-IsSound :
      pid < dword_mod → IsSound j → IsSound (recovery_journal_register j pid s f).1
  register-IsSound small v =
      register_cases j pid s f (λ o. IsSound o.1) v (λ _. v) v
        (λ r nonzero absent room found.
          let w = query_recovery_record-IsWellFormed ranges pid s r small found in
          register_record_cases j pid (query_recovery_record pid s).1 f (λ o. IsSound o.1) r
            (λ _. extended-IsSound j r v w.0 (ground arith) room) (λ _. v))

  -- A registration that reports success has put the process in the journal and kept the others; one
  -- that reports failure has changed nothing in memory.
  pub has_pid-register :
      (q : ℕ)
      → pid < dword_mod
      → has_pid q (recovery_journal_register j pid s f).1.records ≡ (
          if (recovery_journal_register j pid s f).0 && pid == q then true else has_pid q j.records)
  has_pid-register q small =
      register_cases j pid s f
        (λ o. has_pid q o.1.records ≡ (if o.0 && pid == q then true else has_pid q j.records)) refl
        (λ there. ground arith) refl
        (λ r nonzero absent room found.
          let w = query_recovery_record-IsWellFormed ranges pid s r small found in
          register_record_cases j pid (query_recovery_record pid s).1 f
            (λ o. has_pid q o.1.records ≡ (if o.0 && pid == q then true else has_pid q j.records)) r
            (λ _. ground (arith, has_pid-append q j.records r)) (λ _. refl))
