-- ===== src/Identity/Sound.antt =====
-- What `bg_process_matches_current_identity` of src/process_identity.c accepts.
use browser_guard.Prelude.{
  ℕ, ◌≡◌, ◌≢◌, true, false, some, List, inl, inr, arith, Text, text_ieq, text_eq_sound,
  Option-cases,
}
use browser_guard.Windows.{Processes, Handle}
use browser_guard.Windows.Laws.{IdentityLaws}
use browser_guard.Identity.{
  query_process_user_sid, path_matches, session_matches, user_matches, matches_with,
  process_matches_current_identity, query_limited_information, identity_path_capacity, is_empty,
}

module _ {P : Type 0} ⦃ps : Processes P⦄ (laws : IdentityLaws ps) where
  open laws use {session, image, user, self}

  -- The process runs the image at the path, in this program's session and as its user.
  pub record IsOurs (pid : ℕ) (path : Text) : Type 0 where
    pub is_process : pid ≢ 0
    pub named : is_empty path ≡ false
    pub same_path : text_ieq (image pid) path ≡ true
    pub same_session : session pid ≡ session self
    pub same_user : user pid ≡ user self

  query_process_user_sid-tells :
      (h : Handle) (s : P) (sid : List ℕ)
      → (query_process_user_sid h s).0 ≡ some sid
      → sid ≡ user h.target
  unfolding query_process_user_sid
  query_process_user_sid-tells h s sid e = elim (Option-cases (ps.open_token h s).0) [
    | inl e' ↦ ground arith
    | inr (t, e') ↦
        let s1 = (ps.open_token h s).1 in
        ground (arith, laws.token_target h t s e', laws.user_tells t s1 sid)
  ]

  path_matches-tells :
      (h : Handle) (path : Text) (s : P)
      → (path_matches h path s).0 ≡ true
      → text_ieq (image h.target) path ≡ true
  unfolding path_matches
  path_matches-tells h path s e = elim (Option-cases (ps.image_name h identity_path_capacity s).0) [
    | inl e' ↦ ground arith
    | inr (p, e') ↦ ground (arith, laws.image_tells h identity_path_capacity s p e')
  ]

  session_matches-tells :
      (pid : ℕ) (s : P) → (session_matches pid s).0 ≡ true → session pid ≡ session self
  unfolding session_matches
  session_matches-tells pid s e =
      let me = ps.current_process_id s in
      elim (Option-cases (ps.session_of me s).0) [
        | inl e' ↦ ground arith
        | inr (n, e') ↦
            let s1 = (ps.session_of me s).1 in
            elim (Option-cases (ps.session_of pid s1).0) [
              | inl e'' ↦ ground arith
              | inr (m, e'') ↦ ground (
                arith,
                laws.current_id s,
                laws.session_tells me s n e',
                laws.session_tells pid s1 m e'',
              )
            ]
      ]

  user_matches-tells :
      (h : Handle) (s : P) → (user_matches h s).0 ≡ true → user h.target ≡ user self
  unfolding user_matches
  user_matches-tells h s e =
      let me = ps.current_process s in
      elim (Option-cases (query_process_user_sid me s).0) [
        | inl e' ↦ ground arith
        | inr (a, e') ↦
            let s1 = (query_process_user_sid me s).1 in
            elim (Option-cases (query_process_user_sid h s1).0) [
              | inl e'' ↦ ground arith
              | inr (b, e'') ↦ ground (
                arith,
                laws.current_handle s,
                query_process_user_sid-tells me s a e',
                query_process_user_sid-tells h s1 b e'',
                text_eq_sound a b,
              )
            ]
      ]

  -- A process that is accepted has an id other than 0, the expected path up to case, which is
  -- not empty, this program's session and its user. A query that fails accepts nothing.
  pub process_matches_current_identity-IsOurs :
      (pid : ℕ) (path : Text) (s : P)
      → (process_matches_current_identity pid path s).0 ≡ true
      → IsOurs pid path
  unfolding process_matches_current_identity matches_with
  process_matches_current_identity-IsOurs pid path s e =
      elim (Option-cases (ps.open_process query_limited_information pid s).0) [
        | inl e' ↦ absurd (ground arith)
        | inr (h, e') ↦
            let s1 = (ps.open_process query_limited_information pid s).1 in
            let s2 = (path_matches h path s1).1 in
            let s3 = (session_matches pid s2).1 in
            ground (
              arith,
              laws.open_target query_limited_information pid s h e',
              path_matches-tells h path s1,
              session_matches-tells pid s2,
              user_matches-tells h s3,
            )
      ]
