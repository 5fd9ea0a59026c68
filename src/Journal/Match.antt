-- ===== src/Journal/Match.antt =====
-- What `bg_recovery_record_matches_process` of src/recovery_journal.c accepts.
use browser_guard.Prelude.{◌≡◌, true, inl, inr, arith, Option-cases}
use browser_guard.Windows.{Processes, Handle}
use browser_guard.Windows.Laws.{IdentityLaws}
use browser_guard.Identity.{process_matches_current_identity, query_limited_information}
use browser_guard.Identity.Sound
use browser_guard.Identity.Sound.{process_matches_current_identity-IsOurs}
use browser_guard.Journal.Layout.{BgRecoveryRecord, wide_string}
use browser_guard.Journal.Register.{
  same_time, opened_matches, reopened_matches, recovery_record_matches_process,
}

module _ {P : Type 0} ⦃ps : Processes P⦄ (laws : IdentityLaws ps) where
  open laws use {created, session}

  -- The process that now has the record's id is the one that was recorded.
  pub record IsRecorded (r : BgRecoveryRecord) : Type 0 where
    pub ours : Sound.IsOurs laws r.pid (wide_string r.executable_path)
    pub same_creation : created r.pid ≡ r.creation_time
    pub recorded_session : session r.pid ≡ r.session_id

  opened_matches-tells :
      (h : Handle) (r : BgRecoveryRecord) (s : P)
      → (opened_matches h r s).0 ≡ true
      → (created h.target ≡ r.creation_time) × (session r.pid ≡ r.session_id)
  unfolding opened_matches same_time
  opened_matches-tells h r s e = elim (Option-cases (ps.process_times h s).0) [
    | inl e' ↦ absurd (ground arith)
    | inr (t, e') ↦
        let s1 = (ps.process_times h s).1 in
        elim (Option-cases (ps.session_of r.pid s1).0) [
          | inl e'' ↦ absurd (ground arith)
          | inr (n, e'') ↦
              ground (arith, laws.times_tell h s t e', laws.session_tells r.pid s1 n e'')
        ]
  ]

  reopened_matches-tells :
      (r : BgRecoveryRecord) (s : P)
      → (reopened_matches r s).0 ≡ true
      → (created r.pid ≡ r.creation_time) × (session r.pid ≡ r.session_id)
  unfolding reopened_matches
  reopened_matches-tells r s e =
      elim (Option-cases (ps.open_process query_limited_information r.pid s).0) [
        | inl e' ↦ absurd (ground arith)
        | inr (h, e') ↦
            let s1 = (ps.open_process query_limited_information r.pid s).1 in
            ground (
              arith,
              laws.open_target query_limited_information r.pid s h e',
              opened_matches-tells h r s1,
            )
      ]

  -- A record that matches names the process that it was made for: same id, creation time, session,
  -- image path up to case, and user. So a reused id never matches.
  pub recovery_record_matches_process-IsRecorded :
      (r : BgRecoveryRecord) (s : P) → (recovery_record_matches_process r s).0 ≡ true → IsRecorded r
  unfolding recovery_record_matches_process
  recovery_record_matches_process-IsRecorded r s e =
      let path = wide_string r.executable_path in
      let s1 = (process_matches_current_identity r.pid path s).1 in
      ground (
        arith,
        process_matches_current_identity-IsOurs laws r.pid path s,
        reopened_matches-tells r s1,
      )
