-- ===== src/Protocol.antt =====
-- src/control_protocol.c: the named event by which the control program asks a guard of its session to
-- stop. Memory that LocalFree gives back is not modelled.
pub mod Single
pub mod Kept
use browser_guard.Prelude.{
  ℕ, Bool, true, false, ◌&&◌, Option, none, some, List, ◌++◌, ◌==◌, if◌then◌else◌, Text, codes,
  printed, decimal, map,
}
use browser_guard.Windows.{Processes, Handle}
use browser_guard.Windows.Session.{Session, SecurityAttributes, error_already_exists}

abbrev pub shutdown_event_name_capacity : ℕ
shutdown_event_name_capacity = 96

abbrev pub security_descriptor_capacity : ℕ
security_descriptor_capacity = 256

-- `L"Local\\BrowserGuard.Shutdown.%lu"`
unfoldable pub shutdown_event_name : ℕ → Text
shutdown_event_name session_id = codes "Local\\BrowserGuard.Shutdown." ++ decimal session_id

-- `L"D:P(A;;GA;;;%ls)"`: only the user with this SID has access.
unfoldable pub event_sddl : Text → Text
event_sddl sid_string = codes "D:P(A;;GA;;;" ++ (sid_string ++ codes ")")

module _ {P : Type 0} ⦃ps : Processes P⦄ ⦃ss : Session P⦄ where
  unfoldable pub build_shutdown_event_name : P → Option Text × P
  build_shutdown_event_name s =
      let (session, s1) = ps.session_of (ps.current_process_id s) s in
      (
        elim session [
          | none ↦ none
          | some session_id ↦ printed shutdown_event_name_capacity (shutdown_event_name session_id)
        ],
        s1,
      )

  -- The descriptor for a SID: its text, the access list and the conversion.
  unfoldable pub describe_user : List ℕ → P → Option SecurityAttributes × P
  describe_user sid s =
      let (text, s1) = ss.sid_string sid s in
      elim text [
        | none ↦ (none, s1)
        | some sid_string ↦ elim (printed security_descriptor_capacity (event_sddl sid_string)) [
          | none ↦ (none, s1)
          | some sddl ↦
              (let (descriptor, s2) = ss.security_descriptor sddl s1 in
                (
                  elim descriptor [
                    | none ↦ none
                    | some d ↦ some (record { inherit = false; descriptor = some d })
                  ],
                  s2,
                ))
        ]
      ]

  unfoldable pub build_event_security_attributes : P → Option SecurityAttributes × P
  build_event_security_attributes s =
      let (token, s1) = ps.open_token (ps.current_process s) s in
      elim token [
        | none ↦ (none, s1)
        | some t ↦
            (let (user, s2) = ps.token_user t s1 in
              elim user [
                | none ↦ (none, ps.close_handle t s2)
                | some sid ↦
                    (let (attributes, s3) = describe_user sid s2 in
                      (attributes, ps.close_handle t s3))
              ])
      ]

  -- An event that exists already is closed again.
  unfoldable pub create_named_event : SecurityAttributes → Text → P → Option ℕ × P
  create_named_event attributes event_name s =
      let ((event, code), s1) = ss.create_event attributes (some event_name) s in
      elim event [
        | none ↦ (none, s1)
        | some h ↦
            (if code == error_already_exists then (none, ss.close_event h s1) else (some h, s1))
      ]

  unfoldable pub create_shutdown_event : P → Option ℕ × P
  create_shutdown_event s =
      let (name, s1) = build_shutdown_event_name s in
      elim name [
        | none ↦ (none, s1)
        | some event_name ↦
            (let (attributes, s2) = build_event_security_attributes s1 in
              elim attributes [ none ↦ (none, s2) | some a ↦ create_named_event a event_name s2 ])
      ]

  unfoldable pub open_shutdown_event : P → Option ℕ × P
  open_shutdown_event s =
      let (name, s1) = build_shutdown_event_name s in
      elim name [ none ↦ (none, s1) | some event_name ↦ ss.open_event event_name s1 ]
