-- ===== src/Broker/Evidence.antt =====
-- The files that `bg_recover_journal_file` of src/recovery_broker.c touches.
use browser_guard.Prelude.{
  ℕ, ◌*◌, ◌≡◌, ◌≢◌, true, arith, inl, inr, ◌⊎◌, Text, none, text_eq, text_eq_refl, text_eq_sound,
  Bool-cases, ◌%◌, ◌^◌, drop,
}
use browser_guard.Windows.{Files, Processes, Opened-cases}
use browser_guard.Windows.Laws.{FileLaws}
use browser_guard.Journal.Layout.{max_recovery_records, record_size, header_size, dword_at}
use browser_guard.Journal.{read_all, load_contents, recovery_journal_load}
use browser_guard.Broker.{recover_loaded, recover_journal_file}

module _ {F : Type 0} ⦃fs : Files F⦄ (laws : FileLaws fs) where
  open laws use {contents}

  read_all-contents : (h n : ℕ) (q : Text) (s : F) → contents (read_all h n s).1 q ≡ contents s q
  unfolding read_all
  read_all-contents h n q s = laws.read_same h n q s

  load_contents-contents :
      (h capacity : ℕ) (q : Text) (s : F) → contents (load_contents h capacity s).1 q ≡ contents s q
  unfolding load_contents
  load_contents-contents h capacity q s =
      let first = read_all h header_size s in
      let count = dword_at (drop 8 first.0.1) in
      ground (
        arith,
        read_all-contents h header_size q s,
        read_all-contents h (count * record_size % (2 ^ 32)) q first.1,
      )

  -- Loading changes no file.
  pub recovery_journal_load-contents :
      (path : Text) (capacity : ℕ) (q : Text) (s : F)
      → contents (recovery_journal_load path capacity s).1 q ≡ contents s q
  unfolding recovery_journal_load
  recovery_journal_load-contents path capacity q s =
      let s1 = (fs.open_file path s).1 in
      let same = laws.open_same path q s in
      elim (Opened-cases (fs.open_file path s).0) [
        | inr (code, e) ↦ ground (arith, same)
        | inl (h, e) ↦
            let s2 = (load_contents h capacity s1).1 in
            ground (arith, same, load_contents-contents h capacity q s1, laws.close_same h q s2)
      ]

  -- Recovery changes no file, except that where it reports success the journal may be gone. So where
  -- it reports failure, the journal is kept byte for byte.
  pub recover_journal_file-contents :
      {P : Type 0} ⦃ps : Processes P⦄ (path : Text) (s : P) (f : F) (q : Text)
      → (contents (recover_journal_file path s f).2 q ≡ contents f q)
        ⊎ ((q ≡ path)
            × ((recover_journal_file path s f).0 ≡ true)
            × (contents (recover_journal_file path s f).2 q ≡ none))
  unfolding recover_journal_file recover_loaded
  recover_journal_file-contents path s f q =
      let f1 = (recovery_journal_load path max_recovery_records f).1 in
      let same = recovery_journal_load-contents path max_recovery_records q f in
      elim (Bool-cases (text_eq path q)) [
        | inr other ↦
            let d : q ≢ path = λ e. absurd (ground (arith, text_eq_refl path)) in
            ground (arith, same, laws.delete_other path q f1 d)
        | inl e ↦
            let here = text_eq_sound path q e in
            elim (Bool-cases (fs.delete_file path f1).0) [
              | inl gone ↦ ground (arith, same, here, laws.delete_self path f1)
              | inr kept ↦ ground (arith, same, here, laws.delete_failed path f1)
            ]
      ]
