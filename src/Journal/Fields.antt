-- ===== src/Journal/Fields.antt =====
-- The fields of the record that src/recovery_journal.c makes of a process.
use browser_guard.Prelude.{ℕ, ◌<◌, ◌≡◌, refl, subst, some, arith, inl, inr, Option-cases, dword_mod}
use browser_guard.Windows.{Processes, Handle}
use browser_guard.Windows.Laws.{ProcessRanges}
use browser_guard.Identity.{query_limited_information}
use browser_guard.Journal.Layout.{BgRecoveryRecord, max_path, wide_buffer}
use browser_guard.Journal.Roundtrip.{IsWellFormed}
use browser_guard.Journal.Entries.{wide_buffer-fits}
use browser_guard.Journal.Register.{query_opened, query_recovery_record}

module _ {P : Type 0} ⦃ps : Processes P⦄ (ranges : ProcessRanges ps) where
  query_opened-IsWellFormed :
      (h : Handle) (pid : ℕ) (s : P) (r : BgRecoveryRecord)
      → pid < dword_mod
      → (query_opened h pid s).0 ≡ some r
      → IsWellFormed r × (r.pid ≡ pid)
  unfolding query_opened
  query_opened-IsWellFormed h pid s r small e = elim (Option-cases (ps.process_times h s).0) [
    | inl e1 ↦ absurd (ground arith)
    | inr (t, e1) ↦
        let s1 = (ps.process_times h s).1 in
        elim (Option-cases (ps.session_of pid s1).0) [
          | inl e2 ↦ absurd (ground arith)
          | inr (n, e2) ↦
              let s2 = (ps.session_of pid s1).1 in
              elim (Option-cases (ps.image_name h max_path s2).0) [
                | inl e3 ↦ absurd (ground arith)
                | inr (path, e3) ↦
                    let times = ranges.times_fit h s t e1 in
                    let fits = wide_buffer-fits path (ranges.image_fits h max_path s2 path e3).1 in
                    let made : BgRecoveryRecord = record {
                      pid = pid;
                      creation_time = t;
                      session_id = n;
                      executable_path = wide_buffer path;
                    } in
                    let same : made ≡ r = ground arith in
                    subst (λ x. IsWellFormed x × (x.pid ≡ pid)) same
                      (
                        record {
                          pid_fits = small;
                          low_fits = times.0;
                          high_fits = times.1;
                          session_fits = ranges.session_fits pid s1 n e2;
                          path_length = fits.0;
                          units_fit = fits.1;
                        },
                        refl,
                      )
              ]
        ]
  ]

  pub query_recovery_record-IsWellFormed :
      (pid : ℕ) (s : P) (r : BgRecoveryRecord)
      → pid < dword_mod
      → (query_recovery_record pid s).0 ≡ some r
      → IsWellFormed r × (r.pid ≡ pid)
  unfolding query_recovery_record
  query_recovery_record-IsWellFormed pid s r small e =
      elim (Option-cases (ps.open_process query_limited_information pid s).0) [
        | inl e1 ↦ absurd (ground arith)
        | inr (h, e1) ↦
            let s1 = (ps.open_process query_limited_information pid s).1 in
            query_opened-IsWellFormed h pid s1 r small (ground arith)
      ]
