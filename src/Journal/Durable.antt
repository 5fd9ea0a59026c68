-- ===== src/Journal/Durable.antt =====
-- The file on disk beside the journal in memory, in src/recovery_journal.c.
use browser_guard.Prelude.{
  ℕ, ◌≤◌, ◌<◌, ◌≡◌, ◌≢◌, refl, ◌∙◌, true, some, List, [], ◌∷◌, arith, inl, inr, Bool-cases, length,
  All, dword_mod,
}
use browser_guard.Windows.{Files, Processes}
use browser_guard.Windows.Laws.{FileLaws, ProcessRanges}
use browser_guard.Journal.Layout.{BgRecoveryRecord, max_recovery_records}
use browser_guard.Journal.Roundtrip.{IsWellFormed}
use browser_guard.Journal.Commit.{image, persist_journal-true, persist_journal-false}
use browser_guard.Journal.Entries.{find_record, IsSound, find_record-remove_pid}
use browser_guard.Journal.Fields.{query_recovery_record-IsWellFormed}
use browser_guard.Journal.Sound.{extended-IsSound, removed, removed-IsSound, unregister_cases}
use browser_guard.Journal.Cases.{extended, register_cases, register_record_cases}
use browser_guard.Journal.Register.{
  query_recovery_record, recovery_journal_register, recovery_journal_unregister,
}
use browser_guard.Journal.{BgRecoveryJournal, persist_journal}

module _ {F : Type 0} ⦃fs : Files F⦄ (laws : FileLaws fs) where
  open laws use {contents}

  -- The journal's file is the image of records that a load accepts, `r` the first of its process.
  pub record OnDisk (j : BgRecoveryJournal) (f : F) (pid : ℕ) (r : BgRecoveryRecord) : Type 0 where
    pub on_disk : List BgRecoveryRecord
    pub is_image : contents f j.path ≡ some (image on_disk)
    pub fits : length on_disk ≤ max_recovery_records
    pub well_formed : All IsWellFormed on_disk
    pub holds : find_record pid on_disk ≡ some r

  pub record IsDurable (j : BgRecoveryJournal) (f : F) : Type 0 where
    pub at :
        (pid : ℕ) (r : BgRecoveryRecord) → find_record pid j.records ≡ some r → OnDisk j f pid r

  some_record :
      (pid : ℕ) (rs : List BgRecoveryRecord) (r : BgRecoveryRecord)
      → find_record pid rs ≡ some r
      → length rs ≢ 0
  unfolding find_record
  some_record pid [] r h = cc
  some_record pid (x ∷ rs) r h = omega arith

  -- A journal that was just written.
  persist_journal-IsDurable :
      (j : BgRecoveryJournal) (f : F)
      → IsSound j
      → (persist_journal j f).0 ≡ true
      → IsDurable j (persist_journal j f).1
  persist_journal-IsDurable j f v e = record {
    at = λ pid r h. record {
      on_disk = j.records;
      is_image = persist_journal-true laws j f (some_record pid j.records r h) e;
      fits = v.bounded;
      well_formed = v.well_formed;
      holds = h;
    };
  }

  -- A failed write of any journal at the path keeps what was durable.
  pub IsDurable-kept :
      (j j' : BgRecoveryJournal) (f f' : F)
      → j'.path ≡ j.path
      → ((pid : ℕ) (r : BgRecoveryRecord)
          → find_record pid j'.records ≡ some r
          → find_record pid j.records ≡ some r)
      → contents f' j.path ≡ contents f j.path
      → IsDurable j f
      → IsDurable j' f'
  IsDurable-kept j j' f f' same fewer kept d = record {
    at = λ pid r h.
        let old = d.at pid r (fewer pid r h) in
        record {
          on_disk = old.on_disk;
          is_image = rw same (kept ∙ old.is_image);
          fits = old.fits;
          well_formed = old.well_formed;
          holds = old.holds;
        };
  }

  -- Removal from the journal, whether it succeeds or fails, keeps memory covered by the disk: the
  -- records that are left in memory are in the file.
  pub unregister-IsDurable :
      (j : BgRecoveryJournal) (pid : ℕ) (f : F)
      → IsSound j
      → IsDurable j f
      → let o = recovery_journal_unregister j pid f in IsDurable o.1 o.2
  unregister-IsDurable j pid f v d =
      unregister_cases (λ o. IsDurable o.1 o.2) j pid f (λ _. d) (λ _. d)
        (λ _. elim (Bool-cases (persist_journal (removed pid j) f).0) [
          | inl e ↦ persist_journal-IsDurable (removed pid j) f (removed-IsSound pid j v) e
          | inr e ↦
              IsDurable-kept j (removed pid j) f (persist_journal (removed pid j) f).1
                (unfold removed in refl)
                (λ q r h. find_record-remove_pid pid q j.records r v.distinct (unfold removed in h))
                (unfold removed in persist_journal-false laws (removed pid j) f e) d
        ])

module _ {P F : Type 0} ⦃ps : Processes P⦄ ⦃fs : Files F⦄ (laws : FileLaws fs)
    (ranges : ProcessRanges ps) (j : BgRecoveryJournal) (pid : ℕ) (s : P) (f : F) where
  -- Registration, whether it succeeds or fails, keeps memory covered by the disk: with the record
  -- of a process in memory, the file is an image that loads and holds that record.
  pub register-IsDurable :
      pid < dword_mod
      → IsSound j
      → IsDurable laws j f
      → let o = recovery_journal_register j pid s f in IsDurable laws o.1 o.3
  register-IsDurable small v d =
      register_cases j pid s f (λ o. IsDurable laws o.1 o.3) d (λ _. d) d
        (λ r nonzero absent room found.
          let w = query_recovery_record-IsWellFormed ranges pid s r small found in
          register_record_cases j pid (query_recovery_record pid s).1 f
            (λ o. IsDurable laws o.1 o.3) r
            (λ e.
              persist_journal-IsDurable laws (extended j r) f
                (extended-IsSound j r v w.0 (ground arith) room) e)
            (λ e.
              IsDurable-kept laws j j f (persist_journal (extended j r) f).1 refl (λ _ _ h. h)
                (persist_journal-false laws (extended j r) f e) d))
