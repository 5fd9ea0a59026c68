-- ===== src/Identity/Queries.antt =====
-- The calls that src/process_identity.c makes, and what they keep of the kernel's state.
use browser_guard.Prelude.{ℕ, Bool, Option, List, Text, on_if, on_option, ◌||◌, ◌==◌}
use browser_guard.Windows.{Processes, Handle, ◌and◌}
use browser_guard.Windows.Laws.{ProcessLaws, Quiet}
use browser_guard.Windows.Kept.{QueriesKept, and_kept, Quiet-queries}
use browser_guard.Identity.{
  query_process_user_sid, path_matches, session_matches, user_matches, matches_with,
  process_matches_current_identity, query_limited_information, identity_path_capacity, is_empty,
}

module _ {P : Type 0} ⦃ps : Processes P⦄ {R : P → P → Type 0} (kept : QueriesKept ps R) where
  query_process_user_sid-kept : (h : Handle) (s : P) → R s (query_process_user_sid h s).1
  unfolding query_process_user_sid
  query_process_user_sid-kept h s =
      let s1 = (ps.open_token h s).1 in
      on_option (λ (r : Option (List ℕ) × P). R s r.1) (ps.open_token h s).0 _ _
        (λ _. kept.open_token h s)
        (λ t _.
          kept.then_on (kept.open_token h s)
            (kept.then_on (kept.token_user t s1) (kept.close_handle t (ps.token_user t s1).1)))

  session_matches-kept : (pid : ℕ) (s : P) → R s (session_matches pid s).1
  unfolding session_matches
  session_matches-kept pid s =
      let me = ps.current_process_id s in
      let s1 = (ps.session_of me s).1 in
      on_option (λ (r : Bool × P). R s r.1) (ps.session_of me s).0 _ _ (λ _. kept.session_of me s)
        (λ n _. kept.then_on (kept.session_of me s) (kept.session_of pid s1))

  user_matches-kept : (h : Handle) (s : P) → R s (user_matches h s).1
  unfolding user_matches
  user_matches-kept h s =
      let me = ps.current_process s in
      let s1 = (query_process_user_sid me s).1 in
      on_option (λ (r : Bool × P). R s r.1) (query_process_user_sid me s).0 _ _
        (λ _. query_process_user_sid-kept me s)
        (λ sid _.
          kept.then_on (query_process_user_sid-kept me s) (query_process_user_sid-kept h s1))

  matches_with-kept :
      (h : Handle) (pid : ℕ) (path : Text) (s : P) → R s (matches_with h pid path s).1
  unfolding matches_with path_matches
  matches_with-kept h pid path s =
      and_kept kept (path_matches h path) (session_matches pid and user_matches h) s
        (λ t. kept.image_name h identity_path_capacity t)
        (λ t.
          and_kept kept (session_matches pid) (user_matches h) t (session_matches-kept pid)
            (user_matches-kept h))

  pub process_matches_current_identity-kept :
      (pid : ℕ) (path : Text) (s : P) → R s (process_matches_current_identity pid path s).1
  unfolding process_matches_current_identity
  process_matches_current_identity-kept pid path s =
      let opened = kept.open_process query_limited_information pid s in
      let s1 = (ps.open_process query_limited_information pid s).1 in
      on_if (λ (r : Bool × P). R s r.1) (pid == 0 || is_empty path) _ _ (λ _. kept.same s)
        (λ _.
          on_option (λ (r : Bool × P). R s r.1) (ps.open_process query_limited_information pid s).0
            _ _ (λ _. opened)
            (λ h _. kept.then_on opened (
              kept.then_on (matches_with-kept h pid path s1)
                (kept.close_handle h (matches_with h pid path s1).1))))

module _ {P : Type 0} ⦃ps : Processes P⦄ (laws : ProcessLaws ps) where
  pub process_matches_current_identity-Quiet :
      (pid : ℕ) (path : Text) (s : P)
      → Quiet laws.suspensions laws.resumes s (process_matches_current_identity pid path s).1
  process_matches_current_identity-Quiet pid path s =
      process_matches_current_identity-kept (Quiet-queries laws) pid path s
