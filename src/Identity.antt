-- ===== src/Identity.antt =====
-- src/process_identity.c: a process has the expected path, session and user.
pub mod Sound
pub mod Queries
pub mod Answers
use browser_guard.Prelude.{
  ℕ, Bool, true, false, not, ◌&&◌, ◌||◌, Option, none, some, List, [], ◌∷◌, ◌==◌, if◌then◌else◌,
  Text, text_eq, text_ieq,
}
use browser_guard.Windows.{Processes, Handle, ◌and◌}

abbrev pub query_limited_information : ℕ
query_limited_information = 0x1000

abbrev pub identity_path_capacity : ℕ
identity_path_capacity = 32768

abbrev pub is_empty : Text → Bool
is_empty [] = true
is_empty (c ∷ s) = false

-- Two SIDs are equal if their bytes are.
unfoldable pub equal_sid : List ℕ → List ℕ → Bool
unfolding text_eq
equal_sid a b = text_eq a b

module _ {P : Type 0} ⦃ps : Processes P⦄ where
  unfoldable pub query_process_user_sid : Handle → P → Option (List ℕ) × P
  query_process_user_sid process s =
      let (token, s1) = ps.open_token process s in
      elim token [
        | none ↦ (none, s1)
        | some t ↦ (let (sid, s2) = ps.token_user t s1 in (sid, ps.close_handle t s2))
      ]

  unfoldable pub path_matches : Handle → Text → P → Bool × P
  path_matches process expected_path s =
      let (actual, s1) = ps.image_name process identity_path_capacity s in
      (elim actual [ none ↦ false | some path ↦ text_ieq path expected_path ], s1)

  unfoldable pub session_matches : ℕ → P → Bool × P
  session_matches pid s =
      let (current, s1) = ps.session_of (ps.current_process_id s) s in
      elim current [
        | none ↦ (false, s1)
        | some current_session_id ↦
            (let (target, s2) = ps.session_of pid s1 in
              (
                elim target [
                  | none ↦ false
                  | some target_session_id ↦ current_session_id == target_session_id
                ],
                s2,
              ))
      ]

  unfoldable pub user_matches : Handle → P → Bool × P
  unfolding equal_sid
  user_matches process s =
      let (current, s1) = query_process_user_sid (ps.current_process s) s in
      elim current [
        | none ↦ (false, s1)
        | some current_user_sid ↦
            (let (target, s2) = query_process_user_sid process s1 in
              (
                elim target [
                  | none ↦ false
                  | some target_user_sid ↦ equal_sid current_user_sid target_user_sid
                ],
                s2,
              ))
      ]

  unfoldable pub matches_with : Handle → ℕ → Text → P → Bool × P
  matches_with process pid expected_path =
      path_matches process expected_path and session_matches pid and user_matches process

  unfoldable pub process_matches_current_identity : ℕ → Text → P → Bool × P
  process_matches_current_identity pid expected_path s =
      if pid == 0 || is_empty expected_path
      then (false, s)
      else (let (process, s1) = ps.open_process query_limited_information pid s in
          elim process [
            | none ↦ (false, s1)
            | some h ↦
                (let (matches, s2) = matches_with h pid expected_path s1 in
                  (matches, ps.close_handle h s2))
          ])
