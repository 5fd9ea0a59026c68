-- ===== src/Identity/Answers.antt =====
-- `bg_process_matches_current_identity` of src/process_identity.c where no query fails.
use browser_guard.Prelude.{ℕ, ◌≡◌, true, some, arith, Text, text_ieq, text_eq_refl}
use browser_guard.Windows.{Processes, Handle}
use browser_guard.Windows.Laws.{IdentityLaws, Answers}
use browser_guard.Identity.Sound
use browser_guard.Identity.{
  query_process_user_sid, path_matches, session_matches, user_matches, matches_with,
  process_matches_current_identity, query_limited_information, identity_path_capacity, equal_sid,
}

module _ {P : Type 0} ⦃ps : Processes P⦄ (laws : IdentityLaws ps) (pid : ℕ)
    (answers : Answers ps pid) where
  open laws use {session, image, user, self}

  query_process_user_sid-answers :
      (h : Handle) (s : P) → (query_process_user_sid h s).0 ≡ some (user h.target)
  unfolding query_process_user_sid
  query_process_user_sid-answers h s =
      let (t, e) = answers.tokens h s in
      let s1 = (ps.open_token h s).1 in
      let (sid, e') = answers.users t s1 in
      ground (arith, laws.token_target h t s e, laws.user_tells t s1 sid e')

  path_matches-answers :
      (h : Handle) (path : Text) (s : P)
      → text_ieq (image h.target) path ≡ true
      → (path_matches h path s).0 ≡ true
  unfolding path_matches
  path_matches-answers h path s same =
      let (p, e) = answers.images h identity_path_capacity s (omega arith) in
      ground (arith, laws.image_tells h identity_path_capacity s p e)

  session_matches-answers : (s : P) → session pid ≡ session self → (session_matches pid s).0 ≡ true
  unfolding session_matches
  session_matches-answers s same =
      let me = ps.current_process_id s in
      let (n, e) = answers.sessions me s in
      let s1 = (ps.session_of me s).1 in
      let (m, e') = answers.sessions pid s1 in
      ground (arith, laws.current_id s, laws.session_tells me s n e, laws.session_tells pid s1 m e')

  user_matches-answers :
      (h : Handle) (s : P) → user h.target ≡ user self → (user_matches h s).0 ≡ true
  unfolding user_matches equal_sid
  user_matches-answers h s same =
      let me = ps.current_process s in
      let s1 = (query_process_user_sid me s).1 in
      ground (
        arith,
        laws.current_handle s,
        query_process_user_sid-answers me s,
        query_process_user_sid-answers h s1,
        text_eq_refl (user self),
      )

  -- A process that runs the image at a path that is not empty, in this program's session and as its
  -- user, is accepted.
  pub process_matches_current_identity-answers :
      (path : Text) (s : P)
      → Sound.IsOurs laws pid path
      → (process_matches_current_identity pid path s).0 ≡ true
  unfolding process_matches_current_identity matches_with
  process_matches_current_identity-answers path s ours =
      let (h, e) = answers.opens query_limited_information s in
      let s1 = (ps.open_process query_limited_information pid s).1 in
      let s2 = (path_matches h path s1).1 in
      let s3 = (session_matches pid s2).1 in
      ground (
        arith,
        ours.is_process,
        ours.named,
        laws.open_target query_limited_information pid s h e,
        path_matches-answers h path s1,
        session_matches-answers s2 ours.same_session,
        user_matches-answers h s3,
      )
