-- ===== src/ProcessControl/Groups/Ours.antt =====
-- The ownership checks of src/process_control.c.
use browser_guard.Prelude.{
  ℕ, ◌≡◌, ◌⊎◌, true, some, List, [], ◌∷◌, arith, inl, inr, Option-cases, Text, text_eq_sound,
}
use browser_guard.Windows.{Processes, Handle}
use browser_guard.Windows.Laws.{IdentityLaws}
use browser_guard.Identity.{equal_sid, query_limited_information}
use browser_guard.ProcessControl.Groups.{
  SecurityContext, init_security_context, process_matches_current_user, session_is, opened_is_ours,
  is_manageable_browser_process, is_supported_browser_name,
}

-- An entry of a snapshot.
abbrev pub Listed : ℕ → Text → List (ℕ × Text) → Type 0
Listed pid name [] = ⊥
Listed pid name (e ∷ es) = ((e.0 ≡ pid) × (e.1 ≡ name)) ⊎ Listed pid name es

module _ {P : Type 0} ⦃ps : Processes P⦄ (laws : IdentityLaws ps) where
  open laws use {session, user, self}

  -- The context of this program.
  pub record IsOwn (context : SecurityContext) : Type 0 where
    pub own_session : context.current_session_id ≡ session self
    pub own_user : context.current_user_sid ≡ user self

  -- A process of the snapshot under a supported name, of this session and this user.
  pub record IsManageable (entries : List (ℕ × Text)) (pid : ℕ) : Type 0 where
    pub name : Text
    pub listed : Listed pid name entries
    pub supported : is_supported_browser_name name ≡ true
    pub same_session : session pid ≡ session self
    pub same_user : user pid ≡ user self

  -- The security context holds this program's own session and user, or the program gives up.
  pub init_security_context-IsOwn :
      (s : P) (context : SecurityContext)
      → (init_security_context s).0 ≡ some context
      → IsOwn context
  unfolding init_security_context
  init_security_context-IsOwn s context e =
      let me = ps.current_process_id s in
      elim (Option-cases (ps.session_of me s).0) [
        | inl e' ↦ absurd (ground arith)
        | inr (n, e') ↦
            let s1 = (ps.session_of me s).1 in
            let h = ps.current_process s1 in
            elim (Option-cases (ps.open_token h s1).0) [
              | inl e'' ↦ absurd (ground arith)
              | inr (t, e'') ↦
                  let s2 = (ps.open_token h s1).1 in
                  elim (Option-cases (ps.token_user t s2).0) [
                    | inl e''' ↦ absurd (ground arith)
                    | inr (sid, e''') ↦ ground (
                      arith,
                      laws.current_id s,
                      laws.current_handle s1,
                      laws.session_tells me s n e',
                      laws.token_target h t s1 e'',
                      laws.user_tells t s2 sid e''',
                    )
                  ]
            ]
      ]

  module _ (context : SecurityContext) (own : IsOwn context) where
    process_matches_current_user-tells :
        (h : Handle) (s : P)
        → (process_matches_current_user context h s).0 ≡ true
        → user h.target ≡ user self
    unfolding process_matches_current_user equal_sid
    process_matches_current_user-tells h s e = elim (Option-cases (ps.open_token h s).0) [
      | inl e' ↦ absurd (ground arith)
      | inr (t, e') ↦
          let s1 = (ps.open_token h s).1 in
          elim (Option-cases (ps.token_user t s1).0) [
            | inl e'' ↦ absurd (ground arith)
            | inr (sid, e'') ↦ ground (
              arith,
              own.own_user,
              laws.token_target h t s e',
              laws.user_tells t s1 sid e'',
              text_eq_sound context.current_user_sid sid,
            )
          ]
    ]

    session_is-tells :
        (pid : ℕ) (s : P) → (session_is context pid s).0 ≡ true → session pid ≡ session self
    unfolding session_is
    session_is-tells pid s e = elim (Option-cases (ps.session_of pid s).0) [
      | inl e' ↦ absurd (ground arith)
      | inr (n, e') ↦ ground (arith, own.own_session, laws.session_tells pid s n e')
    ]

    opened_is_ours-tells :
        (pid : ℕ) (s : P) → (opened_is_ours context pid s).0 ≡ true → user pid ≡ user self
    unfolding opened_is_ours
    opened_is_ours-tells pid s e =
        elim (Option-cases (ps.open_process query_limited_information pid s).0) [
          | inl e' ↦ absurd (ground arith)
          | inr (h, e') ↦
              let s1 = (ps.open_process query_limited_information pid s).1 in
              ground (
                arith,
                laws.open_target query_limited_information pid s h e',
                process_matches_current_user-tells h s1,
              )
        ]

    pub is_manageable_browser_process-tells :
        (pid : ℕ) (exe_name : Text) (s : P)
        → (is_manageable_browser_process context pid exe_name s).0 ≡ true
        → (is_supported_browser_name exe_name ≡ true)
          × (session pid ≡ session self)
          × (user pid ≡ user self)
    unfolding is_manageable_browser_process
    is_manageable_browser_process-tells pid exe_name s e =
        let s1 = (session_is context pid s).1 in
        ground (arith, session_is-tells pid s, opened_is_ours-tells pid s1)
