-- ===== src/Journal/Cases.antt =====
-- The ways through the registration of src/recovery_journal.c.
use browser_guard.Prelude.{
  ℕ, ◌≡◌, ◌≢◌, ◌<◌, true, false, some, [], ◌∷◌, ◌++◌, inl, inr, arith, Option-cases, Bool-cases,
  ◌==◌, leb, length,
}
use browser_guard.Windows.{Files, Processes}
use browser_guard.Journal.Layout.{BgRecoveryRecord, max_recovery_records}
use browser_guard.Journal.{BgRecoveryJournal, persist_journal}
use browser_guard.Journal.Register.{
  has_pid, query_recovery_record, register_record, recovery_journal_register, Outcome,
}

abbrev pub extended : BgRecoveryJournal → BgRecoveryRecord → BgRecoveryJournal
extended j r = record j { records = j.records ++ r ∷ [] }

module _ {P F : Type 0} ⦃ps : Processes P⦄ ⦃fs : Files F⦄ (j : BgRecoveryJournal) (pid : ℕ) (s : P)
    (f : F) where
  -- Nothing is done, or the process is there, or a new record is persisted, or that fails.
  pub register_cases {ℓ} :
      (Q : Outcome P F → Type ℓ)
      → Q (false, j, s, f)
      → (has_pid pid j.records ≡ true → Q (true, j, s, f))
      → Q (false, j, (query_recovery_record pid s).1, f)
      → ((r : BgRecoveryRecord)
          → pid ≢ 0
          → has_pid pid j.records ≡ false
          → length j.records < max_recovery_records
          → (query_recovery_record pid s).0 ≡ some r
          → Q (register_record j r (query_recovery_record pid s).1 f))
      → Q (recovery_journal_register j pid s f)
  unfolding recovery_journal_register
  register_cases Q refused there unknown found = elim (Bool-cases (pid == 0)) [
    | inl e ↦ rw (e, recovery_journal_register) refused
    | inr nonzero ↦
        rw (nonzero, recovery_journal_register)
          (elim (Bool-cases (has_pid pid j.records)) [
            | inl e ↦ rw e (there e)
            | inr absent ↦
                rw absent (elim (Bool-cases (leb max_recovery_records (length j.records))) [
                  | inl e ↦ rw e refused
                  | inr room ↦ rw room (elim (Option-cases (query_recovery_record pid s).0) [
                    | inl e ↦ rw e unknown
                    | inr (r, e) ↦ rw e (found r (ground arith) absent (ground arith) e)
                  ])
                ])
          ])
  ]

  pub register_record_cases {ℓ} :
      (Q : Outcome P F → Type ℓ) (r : BgRecoveryRecord)
      → let e = extended j r in
        ((persist_journal e f).0 ≡ true → Q (true, e, s, (persist_journal e f).1))
        → ((persist_journal e f).0 ≡ false → Q (false, j, s, (persist_journal e f).1))
        → Q (register_record j r s f)
  unfolding register_record
  register_record_cases Q r done failed = elim (Bool-cases (persist_journal (extended j r) f).0) [
    | inl e ↦ rw (e, register_record) (done e)
    | inr e ↦ rw (e, register_record) (failed e)
  ]
