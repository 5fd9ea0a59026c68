-- ===== src/ProcessControl/Kept.antt =====
-- The queries that src/process_control.c makes while it groups processes and windows, and the process
-- ids of the groups.
use browser_guard.Prelude.{
  ℕ, Bool, Option, none, some, List, [], ◌∷◌, Text, if◌then◌else◌, on_if, on_option, ◌==◌,
}
use browser_guard.Windows.{Processes, Desktop, Handle}
use browser_guard.Windows.Kept.{QueriesKept, and_kept}
use browser_guard.Identity.{query_limited_information}
use browser_guard.Journal.Layout.{max_path}
use browser_guard.ProcessControl.{BrowserGroup}
use browser_guard.ProcessControl.Groups.{
  SecurityContext, init_security_context, process_matches_current_user, session_is, opened_is_ours,
  is_manageable_browser_process, is_supported_browser_name, collect_entries, collect_process,
  collect_browser_groups,
}
use browser_guard.ProcessControl.Marks.{
  query_process_base_name, is_manageable_browser_pid, enum_windows_callback, mark_windows,
  mark_foreground_groups,
}

module _ {P : Type 0} ⦃ps : Processes P⦄ {R : P → P → Type 0} (kept : QueriesKept ps R) where
  pub init_security_context-kept : (s : P) → R s (init_security_context s).1
  unfolding init_security_context
  init_security_context-kept s =
      let me = ps.current_process_id s in
      let s1 = (ps.session_of me s).1 in
      let s2 = (ps.open_token (ps.current_process s1) s1).1 in
      let first = kept.session_of me s in
      let opened = kept.then_on first (kept.open_token (ps.current_process s1) s1) in
      on_option (λ (r : Option SecurityContext × P). R s r.1) (ps.session_of me s).0 _ _
        (λ _. first)
        (λ id _.
          on_option (λ (r : Option SecurityContext × P). R s r.1)
            (ps.open_token (ps.current_process s1) s1).0 _ _ (λ _. opened)
            (λ t _.
              kept.then_on opened
                (kept.then_on (kept.token_user t s2) (kept.close_handle t (ps.token_user t s2).1))))

  process_matches_current_user-kept :
      (context : SecurityContext) (h : Handle) (s : P)
      → R s (process_matches_current_user context h s).1
  unfolding process_matches_current_user
  process_matches_current_user-kept context h s =
      let s1 = (ps.open_token h s).1 in
      on_option (λ (r : Bool × P). R s r.1) (ps.open_token h s).0 _ _ (λ _. kept.open_token h s)
        (λ t _.
          kept.then_on (kept.open_token h s)
            (kept.then_on (kept.token_user t s1) (kept.close_handle t (ps.token_user t s1).1)))

  opened_is_ours-kept :
      (context : SecurityContext) (pid : ℕ) (s : P) → R s (opened_is_ours context pid s).1
  unfolding opened_is_ours
  opened_is_ours-kept context pid s =
      let opened = kept.open_process query_limited_information pid s in
      let s1 = (ps.open_process query_limited_information pid s).1 in
      on_option (λ (r : Bool × P). R s r.1) (ps.open_process query_limited_information pid s).0 _ _
        (λ _. opened)
        (λ h _. kept.then_on opened (
          kept.then_on (process_matches_current_user-kept context h s1)
            (kept.close_handle h (process_matches_current_user context h s1).1)))

  is_manageable_browser_process-kept :
      (context : SecurityContext) (pid : ℕ) (name : Text) (s : P)
      → R s (is_manageable_browser_process context pid name s).1
  unfolding is_manageable_browser_process session_is
  is_manageable_browser_process-kept context pid name s =
      on_if (λ (r : Bool × P). R s r.1) (is_supported_browser_name name) _ _
        (λ _.
          and_kept kept (session_is context pid) (opened_is_ours context pid) s
            (λ t. kept.session_of pid t) (opened_is_ours-kept context pid))
        (λ _. kept.same s)

  collect_entries-kept :
      (context : SecurityContext) (capacity : ℕ) (entries : List (ℕ × Text))
      (groups : List BrowserGroup) (s : P)
      → R s (collect_entries context capacity entries groups s).1
  unfolding collect_entries
  collect_entries-kept context capacity [] groups s = kept.same s
  collect_entries-kept context capacity (e ∷ es) groups s =
      let (manageable, s1) = is_manageable_browser_process context e.0 e.1 s in
      kept.then_on (is_manageable_browser_process-kept context e.0 e.1 s) (
        collect_entries-kept context capacity es
          (if manageable then collect_process capacity e.0 e.1 groups else groups) s1)

  pub collect_browser_groups-kept :
      (context : SecurityContext) (capacity : ℕ) (snapshot : Option (List (ℕ × Text))) (s : P)
      → R s (collect_browser_groups context capacity snapshot s).1
  unfolding collect_browser_groups
  collect_browser_groups-kept context capacity none s = kept.same s
  collect_browser_groups-kept context capacity (some entries) s =
      collect_entries-kept context capacity entries [] s

  query_process_base_name-kept : (pid : ℕ) (s : P) → R s (query_process_base_name pid s).1
  unfolding query_process_base_name
  query_process_base_name-kept pid s =
      let opened = kept.open_process query_limited_information pid s in
      let s1 = (ps.open_process query_limited_information pid s).1 in
      on_option (λ (r : Option Text × P). R s r.1)
        (ps.open_process query_limited_information pid s).0 _ _ (λ _. opened)
        (λ h _. kept.then_on opened (
          kept.then_on (kept.image_name h max_path s1)
            (kept.close_handle h (ps.image_name h max_path s1).1)))

  pub is_manageable_browser_pid-kept :
      (context : SecurityContext) (pid : ℕ) (s : P)
      → R s (is_manageable_browser_pid context pid s).1
  unfolding is_manageable_browser_pid
  is_manageable_browser_pid-kept context pid s =
      let named = query_process_base_name-kept pid s in
      on_option (λ (r : Bool × P). R s r.1) (query_process_base_name pid s).0 _ _ (λ _. named)
        (λ name _.
          kept.then_on named
            (is_manageable_browser_process-kept context pid name (query_process_base_name pid s).1))

module _ {P D : Type 0} ⦃ps : Processes P⦄ ⦃ds : Desktop D⦄ {R : P → P → Type 0}
    (kept : QueriesKept ps R) where
  abbrev Marked : P → List BrowserGroup × P × D → Type 0
  Marked s r = R s r.1

  enum_windows_callback-kept :
      (foreground hwnd : ℕ) (groups : List BrowserGroup) (s : P) (d : D)
      → R s (enum_windows_callback foreground hwnd groups s d).1
  unfolding enum_windows_callback
  enum_windows_callback-kept foreground hwnd groups s d =
      let (visible, d1) = ds.is_visible hwnd d in
      let (pid, d2) = ds.window_pid hwnd d1 in
      let named = query_process_base_name-kept kept pid s in
      on_if (Marked s) visible _ _
        (λ _.
          on_if (Marked s) (pid == 0) _ _ (λ _. kept.same s)
            (λ _.
              on_option (Marked s) (query_process_base_name pid s).0 _ _ (λ _. named)
                (λ name _. named)))
        (λ _. kept.same s)

  mark_windows-kept :
      (foreground : ℕ) (windows : List ℕ) (groups : List BrowserGroup) (s : P) (d : D)
      → R s (mark_windows foreground windows groups s d).1
  unfolding mark_windows
  mark_windows-kept foreground [] groups s d = kept.same s
  mark_windows-kept foreground (hwnd ∷ rest) groups s d =
      let (groups1, s1, d1) = enum_windows_callback foreground hwnd groups s d in
      kept.then_on (enum_windows_callback-kept foreground hwnd groups s d)
        (mark_windows-kept foreground rest groups1 s1 d1)

  pub mark_foreground_groups-kept :
      (groups : List BrowserGroup) (s : P) (d : D) → R s (mark_foreground_groups groups s d).1
  unfolding mark_foreground_groups
  mark_foreground_groups-kept groups s d =
      let (foreground, d1) = ds.foreground_window d in
      let (windows, d2) = ds.enum_windows d1 in mark_windows-kept foreground windows groups s d2
