-- ===== src/Journal/Commit.antt =====
-- What `persist_journal` of src/recovery_journal.c leaves on disk.
use browser_guard.Prelude.{
  ℕ, ◌≡◌, ◌≢◌, ◌⊎◌, inl, inr, ap, ◌∙◌, Bool, true, false, none, some, List, [], ◌++◌, arith, Text,
  codes, length, length-append, Bool-cases, Option-cases,
}
use browser_guard.Windows.{Files}
use browser_guard.Windows.Laws.{FileLaws}
use browser_guard.Journal.Layout.{BgRecoveryRecord, header_bytes, records_bytes}
use browser_guard.Journal.{
  BgRecoveryJournal, temporary_path, write_all, write_contents, replace_journal, write_journal,
  persist_journal,
}

-- The bytes of the file for a list of records.
abbrev pub image : List BgRecoveryRecord → List ℕ
image rs = header_bytes (length rs) ++ records_bytes rs

pub temporary_path-ne : (path : Text) → path ≢ temporary_path path
unfolding temporary_path
temporary_path-ne path e =
    let n : length path ≡ length (path ++ codes ".tmp") = ap length e in
    absurd (omega (arith, length-append path (codes ".tmp")))

module _ {F : Type 0} ⦃fs : Files F⦄ (laws : FileLaws fs) where
  open laws use {contents, writes_to}

  write_all-true :
      (h : ℕ) (bs old : List ℕ) (p : Text) (s : F)
      → writes_to s h ≡ some p
      → contents s p ≡ some old
      → (write_all h bs s).0 ≡ true
      → contents (write_all h bs s).1 p ≡ some (old ++ bs)
  unfolding write_all
  write_all-true h bs old p s w c e = laws.write_self h bs old p s w c (ground arith)

  write_all-other :
      (h : ℕ) (bs : List ℕ) (p q : Text) (s : F)
      → writes_to s h ≡ some p
      → q ≢ p
      → contents (write_all h bs s).1 q ≡ contents s q
  unfolding write_all
  write_all-other h bs p q s w d = laws.write_other h bs p q s w d

  write_all-handle :
      (h : ℕ) (bs : List ℕ) (p : Text) (s : F)
      → writes_to s h ≡ some p
      → writes_to (write_all h bs s).1 h ≡ some p
  unfolding write_all
  write_all-handle h bs p s w = laws.write_handle h bs s ∙ w

  write_contents-true :
      (h : ℕ) (j : BgRecoveryJournal) (p : Text) (s : F)
      → writes_to s h ≡ some p
      → contents s p ≡ some []
      → (write_contents h j s).0 ≡ true
      → contents (write_contents h j s).1 p ≡ some (image j.records)
  unfolding write_contents
  write_contents-true h j p s w c e =
      let hb = header_bytes (length j.records) in
      let rb = records_bytes j.records in
      let s1 = (write_all h hb s).1 in
      ground (
        arith,
        write_all-true h hb [] p s w c,
        write_all-handle h hb p s w,
        write_all-true h rb hb p s1,
        laws.flush_same h p (write_all h rb s1).1,
      )

  write_contents-other :
      (h : ℕ) (j : BgRecoveryJournal) (p q : Text) (s : F)
      → writes_to s h ≡ some p
      → q ≢ p
      → contents (write_contents h j s).1 q ≡ contents s q
  unfolding write_contents
  write_contents-other h j p q s w d =
      let hb = header_bytes (length j.records) in
      let rb = records_bytes j.records in
      let s1 = (write_all h hb s).1 in
      ground (
        arith,
        write_all-other h hb p q s w d,
        write_all-handle h hb p s w,
        write_all-other h rb p q s1,
        laws.flush_same h q (write_all h rb s1).1,
      )

  -- With a written temporary file the journal is replaced, or left as it was.
  replace_journal-true :
      (success : Bool) (path : Text) (bs : List ℕ) (s : F)
      → contents s (temporary_path path) ≡ some bs
      → (replace_journal success path s).0 ≡ true
      → contents (replace_journal success path s).1 path ≡ some bs
  unfolding replace_journal
  replace_journal-true success path bs s c e =
      ground (arith, laws.move_target (temporary_path path) path s)

  replace_journal-false :
      (success : Bool) (path : Text) (s : F)
      → (replace_journal success path s).0 ≡ false
      → contents (replace_journal success path s).1 path ≡ contents s path
  unfolding replace_journal
  replace_journal-false success path s e =
      let t = temporary_path path in
      ground (
        arith,
        temporary_path-ne path,
        laws.move_failed t path s,
        laws.delete_other t path s (temporary_path-ne path),
        laws.delete_other t path (fs.move_file t path s).1 (temporary_path-ne path),
      )

  replace_journal-success :
      (success : Bool) (path : Text) (s : F)
      → (replace_journal success path s).0 ≡ true
      → success ≡ true
  unfolding replace_journal
  replace_journal-success success path s e = ground arith

  module _ (h : ℕ) (j : BgRecoveryJournal) (s : F)
      (writing : writes_to s h ≡ some (temporary_path j.path))
      (created : contents s (temporary_path j.path) ≡ some []) where
    closed : F
    closed = fs.close_file h (write_contents h j s).1

    write_journal-true :
        (write_journal h j s).0 ≡ true
        → contents (write_journal h j s).1 j.path ≡ some (image j.records)
    unfolding write_journal
    write_journal-true e =
        let t = temporary_path j.path in
        let s1 = (write_contents h j s).1 in
        let ok = replace_journal-success (write_contents h j s).0 j.path (fs.close_file h s1) e in
        replace_journal-true (write_contents h j s).0 j.path (image j.records) (fs.close_file h s1)
          (laws.close_same h t s1 ∙ write_contents-true h j t s writing created ok) e

    write_journal-false :
        (write_journal h j s).0 ≡ false
        → contents (write_journal h j s).1 j.path ≡ contents s j.path
    unfolding write_journal
    write_journal-false e =
        let s1 = (write_contents h j s).1 in
        replace_journal-false (write_contents h j s).0 j.path (fs.close_file h s1) e
        ∙ (laws.close_same h j.path s1
            ∙ write_contents-other h j (temporary_path j.path) j.path s writing
                (temporary_path-ne j.path))

  -- A journal with records that reports success is on disk, byte for byte.
  pub persist_journal-true :
      (j : BgRecoveryJournal) (s : F)
      → length j.records ≢ 0
      → (persist_journal j s).0 ≡ true
      → contents (persist_journal j s).1 j.path ≡ some (image j.records)
  unfolding persist_journal
  persist_journal-true j s full e =
      elim (Option-cases (fs.create_file (temporary_path j.path) s).0) [
        | inl failed ↦ ground arith
        | inr (h, made) ↦
            let c = laws.create_self (temporary_path j.path) s h made in
            let s1 = (fs.create_file (temporary_path j.path) s).1 in
            ground (arith, write_journal-true h j s1 c.1 c.0)
      ]

  -- A journal that reports failure leaves the file on disk as it was.
  pub persist_journal-false :
      (j : BgRecoveryJournal) (s : F)
      → (persist_journal j s).0 ≡ false
      → contents (persist_journal j s).1 j.path ≡ contents s j.path
  unfolding persist_journal
  persist_journal-false j s e =
      let t = temporary_path j.path in
      let kept = laws.create_other t j.path s (temporary_path-ne j.path) in
      elim (Option-cases (fs.create_file t s).0) [
        | inl failed ↦ ground (arith, kept)
        | inr (h, made) ↦
            let c = laws.create_self t s h made in
            let s1 = (fs.create_file t s).1 in
            ground (arith, kept, write_journal-false h j s1 c.1 c.0)
      ]

  -- An empty journal always reports success, and its file is deleted or left as it was.
  pub persist_journal-empty :
      (j : BgRecoveryJournal) (s : F)
      → length j.records ≡ 0
      → ((persist_journal j s).0 ≡ true)
        × ((contents (persist_journal j s).1 j.path ≡ none)
            ⊎ (contents (persist_journal j s).1 j.path ≡ contents s j.path))
  unfolding persist_journal
  persist_journal-empty j s e = elim (Bool-cases (fs.delete_file j.path s).0) [
    | inl gone ↦ (ground arith, inl (ground (arith, laws.delete_self j.path s)))
    | inr kept ↦ (ground arith, inr (ground (arith, laws.delete_failed j.path s)))
  ]
