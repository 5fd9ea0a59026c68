-- ===== src/Journal/Register.antt =====
-- src/recovery_journal.c: taking a process into the journal and out of it, and whether a record
-- still names a live process.
use browser_guard.Prelude.{
  ℕ, Bool, true, false, ◌&&◌, Option, none, some, List, [], ◌∷◌, ◌++◌, leb, ◌==◌, if◌then◌else◌,
  length,
}
use browser_guard.Windows.{Files, Processes, Handle, FileTime, ◌and◌}
use browser_guard.Identity.{process_matches_current_identity, query_limited_information}
use browser_guard.Journal.Layout.{
  BgRecoveryRecord, max_path, max_recovery_records, wide_string, wide_buffer,
}
use browser_guard.Journal.{BgRecoveryJournal, persist_journal}

unfoldable pub has_pid : ℕ → List BgRecoveryRecord → Bool
has_pid pid [] = false
has_pid pid (r ∷ rs) = if r.pid == pid then true else has_pid pid rs

-- `memmove` over the first record of the process.
unfoldable pub remove_pid : ℕ → List BgRecoveryRecord → List BgRecoveryRecord
remove_pid pid [] = []
remove_pid pid (r ∷ rs) = let rest = remove_pid pid rs in if r.pid == pid then rs else r ∷ rest

-- CompareFileTime gives 0.
unfoldable pub same_time : FileTime → FileTime → Bool
same_time a b = a.low == b.low && a.high == b.high

module _ {P : Type 0} ⦃ps : Processes P⦄ where
  -- The three queries of an opened process, each made only if the one before succeeded.
  unfoldable pub query_opened : Handle → ℕ → P → Option BgRecoveryRecord × P
  query_opened process pid s =
      let (times, s1) = ps.process_times process s in
      elim times [
        | none ↦ (none, s1)
        | some creation_time ↦
            (let (session, s2) = ps.session_of pid s1 in
              elim session [
                | none ↦ (none, s2)
                | some session_id ↦
                    (let (path, s3) = ps.image_name process max_path s2 in
                      elim path [
                        | none ↦ (none, s3)
                        | some executable_path ↦ (
                          some (record {
                            pid = pid;
                            creation_time = creation_time;
                            session_id = session_id;
                            executable_path = wide_buffer executable_path;
                          }),
                          s3,
                        )
                      ])
              ])
      ]

  unfoldable pub query_recovery_record : ℕ → P → Option BgRecoveryRecord × P
  query_recovery_record pid s =
      let (process, s1) = ps.open_process query_limited_information pid s in
      elim process [
        | none ↦ (none, s1)
        | some h ↦
            (let (found, s2) = query_opened h pid s1 in
              let s3 = ps.close_handle h s2 in
              elim found [
                | none ↦ (none, s3)
                | some r ↦
                    (let (matches, s4) =
                        process_matches_current_identity pid (wide_string r.executable_path) s3 in
                      (if matches then some r else none, s4))
              ])
      ]

  -- The times and the session of an opened process are those of the record.
  unfoldable pub opened_matches : Handle → BgRecoveryRecord → P → Bool × P
  opened_matches process r s =
      let (times, s1) = ps.process_times process s in
      elim times [
        | none ↦ (false, s1)
        | some creation_time ↦
            (let (session, s2) = ps.session_of r.pid s1 in
              (
                elim session [
                  | none ↦ false
                  | some session_id ↦
                      session_id == r.session_id && same_time creation_time r.creation_time
                ],
                s2,
              ))
      ]

  unfoldable pub reopened_matches : BgRecoveryRecord → P → Bool × P
  reopened_matches r s =
      let (process, s1) = ps.open_process query_limited_information r.pid s in
      elim process [
        | none ↦ (false, s1)
        | some h ↦ (let (matches, s2) = opened_matches h r s1 in (matches, ps.close_handle h s2))
      ]

  unfoldable pub recovery_record_matches_process : BgRecoveryRecord → P → Bool × P
  recovery_record_matches_process r s =
      if r.pid == 0
      then (false, s)
      else (process_matches_current_identity r.pid (wide_string r.executable_path)
            and reopened_matches r)
          s

-- The result, the journal and the two states after it.
abbrev pub Outcome : Type 0 → Type 0 → Type 0
Outcome P F = Bool × BgRecoveryJournal × P × F

module _ {P F : Type 0} ⦃ps : Processes P⦄ ⦃fs : Files F⦄ where
  -- The record is appended, and taken back if the journal cannot be written.
  unfoldable pub register_record : BgRecoveryJournal → BgRecoveryRecord → P → F → Outcome P F
  register_record journal r s f =
      let extended = record journal { records = journal.records ++ r ∷ [] } in
      let (persisted, f1) = persist_journal extended f in
      if persisted then (true, extended, s, f1) else (false, journal, s, f1)

  unfoldable pub recovery_journal_register : BgRecoveryJournal → ℕ → P → F → Outcome P F
  unfolding register_record has_pid
  recovery_journal_register journal pid s f =
      if pid == 0
      then (false, journal, s, f)
      else if has_pid pid journal.records
      then (true, journal, s, f)
      else if leb max_recovery_records (length journal.records)
      then (false, journal, s, f)
      else (let (found, s1) = query_recovery_record pid s in
          elim found [ none ↦ (false, journal, s1, f) | some r ↦ register_record journal r s1 f ])

module _ {F : Type 0} ⦃fs : Files F⦄ where
  unfoldable pub recovery_journal_unregister :
      BgRecoveryJournal → ℕ → F → Bool × BgRecoveryJournal × F
  unfolding has_pid remove_pid
  recovery_journal_unregister journal pid f =
      if pid == 0
      then (false, journal, f)
      else if has_pid pid journal.records
      then (let shrunk = record journal { records = remove_pid pid journal.records } in
          ((persist_journal shrunk f).0, shrunk, (persist_journal shrunk f).1))
      else (true, journal, f)
