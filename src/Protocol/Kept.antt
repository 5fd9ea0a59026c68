-- ===== src/Protocol/Kept.antt =====
-- The creation of the event of src/control_protocol.c suspends no process and resumes none.
use browser_guard.Prelude.{ℕ, Option, some, List, Text, printed, ◌==◌, on_if, on_option}
use browser_guard.Windows.{Processes}
use browser_guard.Windows.Laws.{ProcessLaws, Quiet}
use browser_guard.Windows.Quiet.{Quiet-trans}
use browser_guard.Windows.Session.{Session, SecurityAttributes, error_already_exists}
use browser_guard.Windows.Session.Laws.{QuietSession}
use browser_guard.Protocol.{
  build_shutdown_event_name, describe_user, build_event_security_attributes, create_named_event,
  create_shutdown_event, security_descriptor_capacity, event_sddl,
}

module _ {P : Type 0} ⦃ps : Processes P⦄ ⦃ss : Session P⦄ (laws : ProcessLaws ps)
    (quiet : QuietSession laws ss) where
  open laws use {suspensions, resumes}

  abbrev IsQuiet : {A : Type 0} → P → Option A × P → Type 0
  IsQuiet s r = Quiet suspensions resumes s r.1

  describe_user-Quiet : (sid : List ℕ) (s : P) → IsQuiet s (describe_user sid s)
  unfolding describe_user
  describe_user-Quiet sid s =
      let s1 = (ss.sid_string sid s).1 in
      let first = quiet.sid_quiet sid s in
      on_option (λ (r : Option SecurityAttributes × P). IsQuiet s r) (ss.sid_string sid s).0 _ _
        (λ _. first)
        (λ text _.
          on_option (λ (r : Option SecurityAttributes × P). IsQuiet s r)
            (printed security_descriptor_capacity (event_sddl text)) _ _ (λ _. first)
            (λ sddl _. Quiet-trans first (quiet.descriptor_quiet sddl s1)))

  build_event_security_attributes-Quiet : (s : P) → IsQuiet s (build_event_security_attributes s)
  unfolding build_event_security_attributes
  build_event_security_attributes-Quiet s =
      let (token, s1) = ps.open_token (ps.current_process s) s in
      let opened = laws.token_quiet (ps.current_process s) s in
      on_option (λ (r : Option SecurityAttributes × P). IsQuiet s r) token _ _ (λ _. opened)
        (λ t _.
          let s2 = (ps.token_user t s1).1 in
          let asked = Quiet-trans opened (laws.user_quiet t s1) in
          on_option (λ (r : Option SecurityAttributes × P). IsQuiet s r) (ps.token_user t s1).0 _ _
            (λ _. Quiet-trans asked (laws.close_quiet t s2))
            (λ sid _. Quiet-trans asked (
              Quiet-trans (describe_user-Quiet sid s2)
                (laws.close_quiet t (describe_user sid s2).1))))

  create_named_event-Quiet :
      (a : SecurityAttributes) (name : Text) (s : P) → IsQuiet s (create_named_event a name s)
  unfolding create_named_event
  create_named_event-Quiet a name s =
      let ((event, code), s1) = ss.create_event a (some name) s in
      let created = quiet.create_quiet a (some name) s in
      on_option (λ (r : Option ℕ × P). IsQuiet s r) event _ _ (λ _. created)
        (λ h _.
          on_if (λ (r : Option ℕ × P). IsQuiet s r) (code == error_already_exists) _ _
            (λ _. Quiet-trans created (quiet.close_quiet h s1)) (λ _. created))

  build_shutdown_event_name-Quiet : (s : P) → IsQuiet s (build_shutdown_event_name s)
  unfolding build_shutdown_event_name
  build_shutdown_event_name-Quiet s = laws.session_quiet (ps.current_process_id s) s

  pub create_shutdown_event-Quiet : (s : P) → IsQuiet s (create_shutdown_event s)
  unfolding create_shutdown_event
  create_shutdown_event-Quiet s =
      let (name, s1) = build_shutdown_event_name s in
      let named = build_shutdown_event_name-Quiet s in
      on_option (λ (r : Option ℕ × P). IsQuiet s r) name _ _ (λ _. named)
        (λ event_name _.
          let (attributes, s2) = build_event_security_attributes s1 in
          let described = Quiet-trans named (build_event_security_attributes-Quiet s1) in
          on_option (λ (r : Option ℕ × P). IsQuiet s r) attributes _ _ (λ _. described)
            (λ a _. Quiet-trans described (create_named_event-Quiet a event_name s2)))
