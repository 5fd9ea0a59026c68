-- ===== src/Journal.antt =====
-- src/recovery_journal.c and include/recovery_journal.h: the journal of suspended processes, in
-- memory and on disk. `records` holds the `record_count` records in use; the rest of the array is
-- zero. Null pointers are not passed, and `pid` may be 0.
pub mod Layout
pub mod Register
pub mod Cases
pub mod Fields
pub mod Sound
pub mod Match
pub mod Answers
pub mod Queries
pub mod Entries
pub mod Durable
pub mod Roundtrip
pub mod Commit
pub mod Load
pub mod Tests
use browser_guard.Prelude.{
  ℕ, ◌+◌, ◌*◌, ◌%◌, ◌<◌, Bool, true, false, not, ◌&&◌, ◌||◌, Option, none, some, List, [], ◌∷◌,
  ◌++◌, ltb, leb, ◌==◌, if◌then◌else◌, Text, codes, length, drop, dword_mod,
}
use browser_guard.Windows.{Files, Processes, Handle, FileTime, Opened, opened, open_error, ◌and◌}
use Layout.{
  BgRecoveryRecord, max_path, max_recovery_records, record_size, header_size, header_bytes,
  records_bytes, decode_records, dword_at, wide_string, wide_buffer, recovery_magic,
  recovery_version,
}

pub record BgRecoveryJournal : Type 0 where
  pub path : Text
  pub records : List BgRecoveryRecord

unfoldable pub temporary_path : Text → Text
temporary_path path = path ++ codes ".tmp"

-- `swprintf_s` into MAX_PATH units, with the terminating zero.
unfoldable pub temporary_path_fits : Text → Bool
unfolding temporary_path
temporary_path_fits path = ltb (length (temporary_path path)) max_path

abbrev error_file_not_found : ℕ
error_file_not_found = 2

abbrev error_path_not_found : ℕ
error_path_not_found = 3

module _ {F : Type 0} ⦃fs : Files F⦄ where
  unfoldable pub write_all : ℕ → List ℕ → F → Bool × F
  write_all file bytes s =
      let ((ok, bytes_written), s') = fs.write_file file bytes s in
      (ok && bytes_written == length bytes, s')

  unfoldable pub read_all : ℕ → ℕ → F → (Bool × List ℕ) × F
  read_all file byte_count s =
      let ((ok, bytes), s') = fs.read_file file byte_count s in
      ((ok && length bytes == byte_count, bytes), s')

  -- The header, the records and the flush, each only if the one before succeeded.
  unfoldable pub write_contents : ℕ → BgRecoveryJournal → F → Bool × F
  unfolding write_all
  write_contents file journal =
      write_all file (header_bytes (length journal.records))
      and write_all file (records_bytes journal.records)
      and fs.flush_file file

  -- The end of `persist_journal`, after the temporary file is closed.
  unfoldable pub replace_journal : Bool → Text → F → Bool × F
  replace_journal success path s =
      if success
      then (if (fs.move_file (temporary_path path) path s).0
          then (true, (fs.move_file (temporary_path path) path s).1)
          else (
            false,
            (fs.delete_file (temporary_path path) (fs.move_file (temporary_path path) path s).1).1,
          ))
      else (false, (fs.delete_file (temporary_path path) s).1)

  unfoldable pub write_journal : ℕ → BgRecoveryJournal → F → Bool × F
  unfolding write_contents replace_journal
  write_journal file journal s =
      let (success, s') = write_contents file journal s in
      replace_journal success journal.path (fs.close_file file s')

  unfoldable pub persist_journal : BgRecoveryJournal → F → Bool × F
  unfolding write_journal
  persist_journal journal s =
      if length journal.records == 0
      then (true, (fs.delete_file journal.path s).1)
      else if temporary_path_fits journal.path
      then (let (file, s') = fs.create_file (temporary_path journal.path) s in
          elim file [ none ↦ (false, s') | some h ↦ write_journal h journal s' ])
      else (false, s)

  -- The path must not be empty and must fit MAX_PATH units; the file of an earlier run is deleted.
  unfoldable pub recovery_journal_init : Text → F → Option BgRecoveryJournal × F
  recovery_journal_init path s =
      if length path == 0 || leb max_path (length path)
      then (none, s)
      else (some (record { path = path; records = [] }), (fs.delete_file path s).1)

  -- The header and the records, with every test between the two reads.
  unfoldable pub load_contents : ℕ → ℕ → F → (Bool × List BgRecoveryRecord) × F
  load_contents file capacity s =
      let ((header_read, header), s1) = read_all file header_size s in
      let record_count = dword_at (drop 8 header) in
      if header_read
        && dword_at header == recovery_magic
        && dword_at (drop 4 header) == recovery_version
        && leb record_count capacity
        && leb record_count max_recovery_records
      then (let ((records_read, bytes), s2) =
            read_all file (record_count * record_size % dword_mod) s1 in
          if records_read
          then ((true, decode_records record_count bytes), s2)
          else ((false, []), s2))
      else ((false, []), s1)

  -- The result and the records loaded. No journal is no record.
  unfoldable pub recovery_journal_load : Text → ℕ → F → (Bool × List BgRecoveryRecord) × F
  recovery_journal_load path capacity s =
      let (file, s1) = fs.open_file path s in
      elim file [
        | open_error code ↦ ((code == error_file_not_found || code == error_path_not_found, []), s1)
        | opened h ↦
            (let (result, s2) = load_contents h capacity s1 in (result, fs.close_file h s2))
      ]
