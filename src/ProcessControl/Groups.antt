-- ===== src/ProcessControl/Groups.antt =====
-- The browser groups of src/process_control.c: which processes may be managed, how they are grouped by
-- their image name, and which groups play audio. The list of all processes and the list of processes
-- with an active audio session are what the Tool Help and audio calls of the source give; the larger
-- buffer that the source tries for a token's user is part of `token_user`.
pub mod Ours
pub mod Audio
pub mod Collect
pub mod Pids
mod Tests
use browser_guard.Prelude.{
  ℕ, Bool, true, false, ◌&&◌, Option, none, some, List, [], ◌∷◌, ◌++◌, leb, ◌==◌, if◌then◌else◌,
  Text, codes, text_ieq, length, take,
}
use browser_guard.Windows.{Processes, Handle, ◌and◌}
use browser_guard.Identity.{equal_sid, query_limited_information}
use browser_guard.ProcessControl.{BrowserGroup}

pub record SecurityContext : Type 0 where
  pub current_session_id : ℕ
  pub current_user_sid : List ℕ

abbrev pub max_browser_groups : ℕ
max_browser_groups = 16

abbrev pub max_group_pids : ℕ
max_group_pids = 256

abbrev pub supported_browsers : List Text
supported_browsers =
    codes "chrome.exe"
    ∷ codes "msedge.exe"
    ∷ codes "firefox.exe"
    ∷ codes "brave.exe"
    ∷ codes "opera.exe"
    ∷ codes "vivaldi.exe"
    ∷ []

unfoldable pub is_one_of : Text → List Text → Bool
is_one_of name [] = false
is_one_of name (n ∷ ns) = if text_ieq name n then true else is_one_of name ns

unfoldable pub is_supported_browser_name : Text → Bool
is_supported_browser_name exe_name = is_one_of exe_name supported_browsers

unfoldable pub pid_exists_in_array : List ℕ → ℕ → Bool
pid_exists_in_array [] pid = false
pid_exists_in_array (p ∷ pids) pid = if p == pid then true else pid_exists_in_array pids pid

module _ {P : Type 0} ⦃ps : Processes P⦄ where
  unfoldable pub init_security_context : P → Option SecurityContext × P
  init_security_context s =
      let (session, s1) = ps.session_of (ps.current_process_id s) s in
      elim session [
        | none ↦ (none, s1)
        | some session_id ↦
            (let (token, s2) = ps.open_token (ps.current_process s1) s1 in
              elim token [
                | none ↦ (none, s2)
                | some t ↦
                    (let (user, s3) = ps.token_user t s2 in
                      (
                        elim user [
                          | none ↦ none
                          | some sid ↦
                              some
                                (record { current_session_id = session_id; current_user_sid = sid })
                        ],
                        ps.close_handle t s3,
                      ))
              ])
      ]

  unfoldable pub process_matches_current_user : SecurityContext → Handle → P → Bool × P
  process_matches_current_user context process s =
      let (token, s1) = ps.open_token process s in
      elim token [
        | none ↦ (false, s1)
        | some t ↦
            (let (user, s2) = ps.token_user t s1 in
              (
                elim user [ none ↦ false | some sid ↦ equal_sid context.current_user_sid sid ],
                ps.close_handle t s2,
              ))
      ]

  unfoldable pub session_is : SecurityContext → ℕ → P → Bool × P
  session_is context pid s =
      let (session, s1) = ps.session_of pid s in
      (elim session [ none ↦ false | some id ↦ id == context.current_session_id ], s1)

  unfoldable pub opened_is_ours : SecurityContext → ℕ → P → Bool × P
  opened_is_ours context pid s =
      let (process, s1) = ps.open_process query_limited_information pid s in
      elim process [
        | none ↦ (false, s1)
        | some h ↦
            (let (matches, s2) = process_matches_current_user context h s1 in
              (matches, ps.close_handle h s2))
      ]

  unfoldable pub is_manageable_browser_process : SecurityContext → ℕ → Text → P → Bool × P
  is_manageable_browser_process context pid exe_name s =
      if is_supported_browser_name exe_name
      then (session_is context pid and opened_is_ours context pid) s
      else (false, s)

unfoldable pub find_group_by_name : Text → List BrowserGroup → Option BrowserGroup
find_group_by_name exe_name [] = none
find_group_by_name exe_name (g ∷ gs) =
    if text_ieq g.exe_name exe_name then some g else find_group_by_name exe_name gs

-- A write through the pointer that `find_group_by_name` gave.
unfoldable pub change_group :
    (BrowserGroup → BrowserGroup) → Text → List BrowserGroup → List BrowserGroup
change_group f exe_name [] = []
change_group f exe_name (g ∷ gs) =
    let rest = change_group f exe_name gs in
    if text_ieq g.exe_name exe_name then f g ∷ gs else g ∷ rest

-- A zeroed group with at most MAX_PATH - 1 units of the name.
unfoldable pub new_group : Text → BrowserGroup
new_group exe_name = record {
  exe_name = take 259 exe_name;
  pids = [];
  anchor_window = 0;
  has_foreground_window = false;
  has_visible_window = false;
  minimized_window_count = 0;
  visible_restored_window_count = 0;
  has_audio = false;
}

-- A full group is left alone.
unfoldable pub add_pid : ℕ → BrowserGroup → BrowserGroup
add_pid pid g =
    if leb max_group_pids (length g.pids) then g else record g { pids = g.pids ++ pid ∷ [] }

-- `get_or_add_group` and the use of its result.
unfoldable pub collect_process : ℕ → ℕ → Text → List BrowserGroup → List BrowserGroup
collect_process capacity pid exe_name groups = elim (find_group_by_name exe_name groups) [
  | some g ↦ change_group (add_pid pid) exe_name groups
  | none ↦
      (if leb capacity (length groups)
        then groups
        else groups ++ add_pid pid (new_group exe_name) ∷ [])
]

module _ {P : Type 0} ⦃ps : Processes P⦄ where
  -- The loop over the entries of a snapshot: process ids and image names.
  unfoldable pub collect_entries :
      SecurityContext → ℕ → List (ℕ × Text) → List BrowserGroup → P → List BrowserGroup × P
  collect_entries context capacity [] groups s = (groups, s)
  collect_entries context capacity (e ∷ es) groups s =
      let (manageable, s1) = is_manageable_browser_process context e.0 e.1 s in
      collect_entries context capacity es
        (if manageable then collect_process capacity e.0 e.1 groups else groups) s1

  -- `none` is a snapshot that could not be taken, or that has no first entry.
  unfoldable pub collect_browser_groups :
      SecurityContext → ℕ → Option (List (ℕ × Text)) → P → List BrowserGroup × P
  collect_browser_groups context capacity snapshot s = elim snapshot [
    | none ↦ ([], s)
    | some entries ↦ collect_entries context capacity entries [] s
  ]

unfoldable pub any_exists : List ℕ → List ℕ → Bool
any_exists audio_pids [] = false
any_exists audio_pids (pid ∷ pids) =
    if pid_exists_in_array audio_pids pid then true else any_exists audio_pids pids

unfoldable pub mark_audio_group : List ℕ → BrowserGroup → BrowserGroup
mark_audio_group audio_pids g =
    if any_exists audio_pids g.pids then record g { has_audio = true } else g

unfoldable pub mark_audio_groups : List ℕ → List BrowserGroup → List BrowserGroup
mark_audio_groups audio_pids [] = []
mark_audio_groups audio_pids (g ∷ gs) =
    mark_audio_group audio_pids g ∷ mark_audio_groups audio_pids gs
