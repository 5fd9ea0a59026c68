-- ===== src/Journal/Answers.antt =====
-- `bg_recovery_record_matches_process` of src/recovery_journal.c where no query fails.
use browser_guard.Prelude.{◌≡◌, true, arith}
use browser_guard.Windows.{Processes, Handle}
use browser_guard.Windows.Laws.{IdentityLaws, Answers}
use browser_guard.Identity.{process_matches_current_identity, query_limited_information}
use browser_guard.Identity.Answers.{process_matches_current_identity-answers}
use browser_guard.Journal.Layout.{BgRecoveryRecord, wide_string}
use browser_guard.Journal.Match
use browser_guard.Journal.Register.{
  same_time, opened_matches, reopened_matches, recovery_record_matches_process,
}

module _ {P : Type 0} ⦃ps : Processes P⦄ (laws : IdentityLaws ps) (r : BgRecoveryRecord)
    (answers : Answers ps r.pid) (recorded : Match.IsRecorded laws r) where
  open laws use {created, session}

  opened_matches-answers : (h : Handle) (s : P) → h.target ≡ r.pid → (opened_matches h r s).0 ≡ true
  unfolding opened_matches same_time
  opened_matches-answers h s same =
      let (t, e) = answers.times h s in
      let s1 = (ps.process_times h s).1 in
      let (n, e') = answers.sessions r.pid s1 in
      ground (
        arith,
        laws.times_tell h s t e,
        laws.session_tells r.pid s1 n e',
        recorded.same_creation,
        recorded.recorded_session,
      )

  reopened_matches-answers : (s : P) → (reopened_matches r s).0 ≡ true
  unfolding reopened_matches
  reopened_matches-answers s =
      let (h, e) = answers.opens query_limited_information s in
      let s1 = (ps.open_process query_limited_information r.pid s).1 in
      ground (
        arith,
        opened_matches-answers h s1 (laws.open_target query_limited_information r.pid s h e),
      )

  -- The record of a process that still has its identity matches.
  pub recovery_record_matches_process-answers :
      (s : P) → (recovery_record_matches_process r s).0 ≡ true
  unfolding recovery_record_matches_process
  recovery_record_matches_process-answers s =
      let path = wide_string r.executable_path in
      let s1 = (process_matches_current_identity r.pid path s).1 in
      ground (
        arith,
        recorded.ours.is_process,
        process_matches_current_identity-answers laws r.pid answers path s recorded.ours,
        reopened_matches-answers s1,
      )
