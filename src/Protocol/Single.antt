-- ===== src/Protocol/Single.antt =====
-- Which events src/control_protocol.c creates and opens.
use browser_guard.Prelude.{
  ℕ, ◌<◌, ◌≡◌, refl, ap, sym, subst, ◌∙◌, true, false, none, some, Option, List, arith, inl, inr,
  Bool-cases, Option-cases, on_if, on_option, Text, printed, drop, dword_mod, ◌==◌,
}
use browser_guard.Windows.{Processes}
use browser_guard.Windows.Laws.{IdentityLaws}
use browser_guard.Windows.Session.{Session, SecurityAttributes, error_already_exists}
use browser_guard.Windows.Session.Laws.{EventLaws}
use browser_guard.Config.Number.{wcstoul}
use browser_guard.Config.Number.Decimal.{wcstoul-decimal}
use browser_guard.Protocol.{
  security_descriptor_capacity, shutdown_event_name, event_sddl, build_shutdown_event_name,
  describe_user, build_event_security_attributes, create_named_event, create_shutdown_event,
  open_shutdown_event,
}

-- Sessions have different names.
pub shutdown_event_name_inj :
    (a b : ℕ)
    → a < dword_mod
    → b < dword_mod
    → shutdown_event_name a ≡ shutdown_event_name b
    → a ≡ b
unfolding shutdown_event_name
shutdown_event_name_inj a b ha hb e =
    sym (wcstoul-decimal a ha) ∙ ap (λ (t : Text). wcstoul (drop 28 t)) e ∙ wcstoul-decimal b hb

module _ {P : Type 0} ⦃ps : Processes P⦄ ⦃ss : Session P⦄ (identity : IdentityLaws ps)
    (laws : EventLaws ps ss) where
  open identity use {session, self}
  open laws use {is_named}

  -- The name for the session that this program runs in.
  abbrev pub own_name : Text
  own_name = shutdown_event_name (session self)

  abbrev Named : {A : Type 0} → A × P → Type 0
  Named r = is_named r.1 own_name ≡ true

  built_name : (s : P) (n : Text) → (build_shutdown_event_name s).0 ≡ some n → n ≡ own_name
  unfolding build_shutdown_event_name printed
  built_name s n e = elim (Option-cases (ps.session_of (ps.current_process_id s) s).0) [
    | inl missing ↦ ground arith
    | inr (id, found) ↦
        ground (
          arith,
          identity.current_id s,
          identity.session_tells (ps.current_process_id s) s id found,
        )
  ]

  build_keeps :
      (s : P)
      → is_named s own_name ≡ true
      → is_named (build_shutdown_event_name s).1 own_name ≡ true
  unfolding build_shutdown_event_name
  build_keeps s h = laws.session_keeps (ps.current_process_id s) own_name s h

  describe_keeps :
      (sid : List ℕ) (s : P)
      → is_named s own_name ≡ true
      → is_named (describe_user sid s).1 own_name ≡ true
  unfolding describe_user
  describe_keeps sid s h =
      let named = laws.sid_keeps sid own_name s h in
      let s1 = (ss.sid_string sid s).1 in
      on_option Named (ss.sid_string sid s).0 _ _ (λ e. named)
        (λ text e.
          on_option Named (printed security_descriptor_capacity (event_sddl text)) _ _ (λ e'. named)
            (λ sddl e'. laws.descriptor_keeps sddl own_name s1 named))

  attributes_keep :
      (s : P)
      → is_named s own_name ≡ true
      → is_named (build_event_security_attributes s).1 own_name ≡ true
  unfolding build_event_security_attributes
  attributes_keep s h =
      let me = ps.current_process s in
      let named = laws.token_keeps me own_name s h in
      let s1 = (ps.open_token me s).1 in
      on_option Named (ps.open_token me s).0 _ _ (λ e. named)
        (λ t e.
          let named2 = laws.user_keeps t own_name s1 named in
          let s2 = (ps.token_user t s1).1 in
          on_option Named (ps.token_user t s1).0 _ _ (λ e'. laws.close_keeps t own_name s2 named2)
            (λ sid e'.
              laws.close_keeps t own_name (describe_user sid s2).1 (describe_keeps sid s2 named2)))

  create_named_event-taken :
      (a : SecurityAttributes) (n : Text) (s : P)
      → is_named s n ≡ true
      → (create_named_event a n s).0 ≡ none
  unfolding create_named_event
  create_named_event-taken a n s h = elim (Option-cases (ss.create_event a (some n) s).0.0) [
    | inl missing ↦ rw (missing, create_named_event) refl
    | inr (id, found) ↦ ground (arith, laws.create_taken a n s id h)
  ]

  create_shutdown_event-taken :
      (s : P) → is_named s own_name ≡ true → (create_shutdown_event s).0 ≡ none
  unfolding create_shutdown_event
  create_shutdown_event-taken s h =
      let named = build_keeps s h in
      let s1 = (build_shutdown_event_name s).1 in
      on_option (λ (r : Option ℕ × P). r.0 ≡ none) (build_shutdown_event_name s).0 _ _ (λ e. refl)
        (λ n e.
          on_option (λ (r : Option ℕ × P). r.0 ≡ none) (build_event_security_attributes s1).0 _ _
            (λ e'. refl)
            (λ a e'. create_named_event-taken a n (build_event_security_attributes s1).1 (
              subst (λ x. is_named (build_event_security_attributes s1).1 x ≡ true)
                (sym (built_name s n e)) (attributes_keep s1 named))))

  create_named_event-named :
      (a : SecurityAttributes) (n : Text) (s : P) (h : ℕ)
      → (create_named_event a n s).0 ≡ some h
      → is_named (create_named_event a n s).1 n ≡ true
  unfolding create_named_event
  create_named_event-named a n s h =
      let ((event, code), s1) = ss.create_event a (some n) s in
      on_option (λ (r : Option ℕ × P). r.0 ≡ some h → is_named r.1 n ≡ true) event _ _ (λ e f. cc)
        (λ id e.
          on_if (λ (r : Option ℕ × P). r.0 ≡ some h → is_named r.1 n ≡ true)
            (code == error_already_exists) _ _ (λ e' f. cc) (λ e' f. laws.create_names a n s id e))

  created :
      (s : P) (h : ℕ)
      → (create_shutdown_event s).0 ≡ some h
      → is_named (create_shutdown_event s).1 own_name ≡ true
  unfolding create_shutdown_event
  created s h =
      let Q : Option ℕ × P → Type 0 = λ r. r.0 ≡ some h → is_named r.1 own_name ≡ true in
      let s1 = (build_shutdown_event_name s).1 in
      on_option Q (build_shutdown_event_name s).0 _ _ (λ e f. cc)
        (λ n e.
          on_option Q (build_event_security_attributes s1).0 _ _ (λ e' f. cc)
            (λ a e' f.
              let s2 = (build_event_security_attributes s1).1 in
              subst (λ x. is_named (create_named_event a n s2).1 x ≡ true) (built_name s n e)
                (create_named_event-named a n s2 h f)))

  opened :
      (s : P) (h : ℕ)
      → (open_shutdown_event s).0 ≡ some h
      → (ss.open_event own_name (build_shutdown_event_name s).1).0 ≡ some h
  unfolding open_shutdown_event
  opened s h =
      let s1 = (build_shutdown_event_name s).1 in
      let Q : Option ℕ × P → Type 0 = λ r. r.0 ≡ some h → (ss.open_event own_name s1).0 ≡ some h in
      on_option Q (build_shutdown_event_name s).0 _ _ (λ e f. cc)
        (λ n e f. subst (λ x. (ss.open_event x s1).0 ≡ some h) (built_name s n e) f)

  -- bg_create_shutdown_event gives a handle only if no event had the session's name, and then there is
  -- one: while one guard of a session keeps its event, no second guard of the session gets one.
  -- bg_open_shutdown_event opens the event of the same name. Names that are taken stay taken
  -- during the queries, and a process keeps its session.
  pub create_shutdown_event-single :
      (s : P) (h : ℕ)
      → ((create_shutdown_event s).0 ≡ some h
          → (is_named s own_name ≡ false) × (is_named (create_shutdown_event s).1 own_name ≡ true))
        × ((open_shutdown_event s).0 ≡ some h
            → (ss.open_event own_name (build_shutdown_event_name s).1).0 ≡ some h)
  create_shutdown_event-single s h = (
    λ made. (
      elim (Bool-cases (is_named s own_name)) [
        | inl taken ↦ cc (create_shutdown_event-taken s taken)
        | inr free ↦ free
      ],
      created s h made,
    ),
    opened s h,
  )
