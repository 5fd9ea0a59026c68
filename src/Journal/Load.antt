-- ===== src/Journal/Load.antt =====
-- `bg_recovery_journal_load` of src/recovery_journal.c: what it accepts and what it gives.
use mathlib.Core.List.{append-nil}
use browser_guard.Prelude.{
  ℕ, zero, suc, ◌*◌, ◌%◌, ◌≤◌, ◌<◌, inl, inr, ◌≡◌, ◌≢◌, refl, sym, ap, ◌∙◌, true, some, List, [],
  arith, Text, length, take, drop, All, dword_mod, take-append, drop-append, length-take_le,
  take_all, length-append,
}
use browser_guard.Windows.{Files, opened, Opened-cases}
use browser_guard.Windows.Laws.{FileLaws}
use browser_guard.Journal.Layout.{
  BgRecoveryRecord, max_recovery_records, header_bytes, records_bytes, header_size, record_size,
  recovery_magic, recovery_version, dword_at, decode_records,
}
use browser_guard.Journal.Roundtrip.{
  IsWellFormed, dword_at-dword_bytes, length-header_bytes, length-records_bytes,
  decode_records-records_bytes,
}
use browser_guard.Journal.Commit.{image, persist_journal-true}
use browser_guard.Journal.{
  BgRecoveryJournal, read_all, load_contents, recovery_journal_load, persist_journal,
}

length-decode_records : (n : ℕ) (bs : List ℕ) → length (decode_records n bs) ≡ n
unfolding decode_records
length-decode_records zero bs = refl
length-decode_records (suc n) bs = ap suc (length-decode_records n (drop record_size bs))

module _ {F : Type 0} ⦃fs : Files F⦄ where
  load_contents-fits :
      (h capacity : ℕ) (s : F)
      → (length (load_contents h capacity s).0.1 ≤ capacity)
        × (length (load_contents h capacity s).0.1 ≤ max_recovery_records)
  unfolding load_contents
  load_contents-fits h capacity s =
      let n = dword_at (drop 8 (read_all h header_size s).0.1) in
      let bs = (read_all h (n * record_size % dword_mod) (read_all h header_size s).1).0.1 in
      ground (arith, length-decode_records n bs)

  -- Whatever the file holds, no more records are loaded than the caller has room for, nor more than
  -- a journal holds.
  pub recovery_journal_load-fits :
      (path : Text) (capacity : ℕ) (s : F)
      → (length (recovery_journal_load path capacity s).0.1 ≤ capacity)
        × (length (recovery_journal_load path capacity s).0.1 ≤ max_recovery_records)
  unfolding recovery_journal_load
  recovery_journal_load-fits path capacity s = elim (Opened-cases (fs.open_file path s).0) [
    | inl (h, e) ↦ ground (arith, load_contents-fits h capacity (fs.open_file path s).1)
    | inr (code, e) ↦ ground arith
  ]

header-magic : (n : ℕ) → dword_at (header_bytes n) ≡ recovery_magic
unfolding header_bytes dword_at
header-magic n = refl

header-version : (n : ℕ) → dword_at (drop 4 (header_bytes n)) ≡ recovery_version
unfolding header_bytes dword_at
header-version n = refl

header-count : (n : ℕ) → n < dword_mod → dword_at (drop 8 (header_bytes n)) ≡ n
unfolding header_bytes
header-count n h = dword_at-dword_bytes n [] h

decode_records-image :
    (rs : List BgRecoveryRecord)
    → All IsWellFormed rs
    → decode_records (length rs) (records_bytes rs) ≡ rs
decode_records-image rs wf =
    ap (decode_records (length rs)) (sym (append-nil (records_bytes rs)))
    ∙ decode_records-records_bytes rs [] wf

module _ {F : Type 0} ⦃fs : Files F⦄ (laws : FileLaws fs)
    (no_read_fails : (h n : ℕ) (s : F) → (fs.read_file h n s).0.0 ≡ true) where
  open laws use {contents, unread}

  read_all-true :
      (h n : ℕ) (bs : List ℕ) (s : F)
      → unread s h ≡ some bs
      → n ≤ length bs
      → ((read_all h n s).0 ≡ (true, take n bs)) × (unread (read_all h n s).1 h ≡ some (drop n bs))
  unfolding read_all
  read_all-true h n bs s u fits =
      let r = laws.read_bytes h n bs s u (no_read_fails h n s) in
      (ground (arith, no_read_fails h n s, r.0, length-take_le n bs fits), r.1)

  load_contents-image :
      (h capacity : ℕ) (rs : List BgRecoveryRecord) (s : F)
      → All IsWellFormed rs
      → length rs ≤ capacity
      → length rs ≤ max_recovery_records
      → unread s h ≡ some (image rs)
      → (load_contents h capacity s).0 ≡ (true, rs)
  unfolding load_contents
  load_contents-image h capacity rs s wf fits holds u =
      let n = length rs in
      let first =
        read_all-true h header_size (image rs) s u (
          omega
            (arith, length-append (header_bytes n) (records_bytes rs), length-header_bytes n)) in
      let header : take header_size (image rs) ≡ header_bytes n =
        take-append header_size (header_bytes n) (records_bytes rs) (length-header_bytes n) in
      let body : drop header_size (image rs) ≡ records_bytes rs =
        drop-append header_size (header_bytes n) (records_bytes rs) (length-header_bytes n) in
      let size : length rs * record_size % dword_mod ≡ length rs * record_size = omega arith in
      let second =
        read_all-true h (n * record_size) (records_bytes rs) (read_all h header_size s).1
          (first.1 ∙ ap some body) (omega (arith, length-records_bytes rs wf)) in
      let whole = take_all (n * record_size) (records_bytes rs) (length-records_bytes rs wf) in
      ground (
        arith,
        first.0,
        header,
        header-magic n,
        header-version n,
        header-count n (omega arith),
        size,
        second.0,
        whole,
        decode_records-image rs wf,
      )

  -- A file that holds the image of well-formed records, and can be opened, loads as those records.
  pub recovery_journal_load-image :
      (path : Text) (capacity h : ℕ) (rs : List BgRecoveryRecord) (s : F)
      → All IsWellFormed rs
      → length rs ≤ capacity
      → length rs ≤ max_recovery_records
      → contents s path ≡ some (image rs)
      → (fs.open_file path s).0 ≡ opened h
      → (recovery_journal_load path capacity s).0 ≡ (true, rs)
  unfolding recovery_journal_load
  recovery_journal_load-image path capacity h rs s wf fits holds is_image is_open =
      let s1 = (fs.open_file path s).1 in
      let u = laws.open_self path s h is_open ∙ is_image in
      ground (arith, load_contents-image h capacity rs s1 wf fits holds u)

  -- A well-formed journal with a record that was persisted and can be opened loads as it was, into
  -- room for all its records, where no read fails.
  pub recovery_journal_load-persist_journal :
      (j : BgRecoveryJournal) (capacity h : ℕ) (s : F)
      → length j.records ≢ 0
      → All IsWellFormed j.records
      → length j.records ≤ capacity
      → length j.records ≤ max_recovery_records
      → (persist_journal j s).0 ≡ true
      → (fs.open_file j.path (persist_journal j s).1).0 ≡ opened h
      → (recovery_journal_load j.path capacity (persist_journal j s).1).0 ≡ (true, j.records)
  recovery_journal_load-persist_journal j capacity h s full wf fits holds done is_open =
      recovery_journal_load-image j.path capacity h j.records (persist_journal j s).1 wf fits holds
        (persist_journal-true laws j s full done) is_open
