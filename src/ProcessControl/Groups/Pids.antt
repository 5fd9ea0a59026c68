-- ===== src/ProcessControl/Groups/Pids.antt =====
-- The process ids in the groups that src/process_control.c collects and marks.
use browser_guard.Prelude.{
  ℕ, ◌≡◌, sym, subst, Option, none, some, List, [], ◌∷◌, Text, All, if◌then◌else◌, on_if, on_option,
  text_ieq, ◌==◌,
}
use browser_guard.Windows.{Processes, Desktop}
use browser_guard.ProcessControl.{BrowserGroup}
use browser_guard.ProcessControl.Groups.{
  SecurityContext, is_manageable_browser_process, collect_entries, collect_process,
  collect_browser_groups, find_group_by_name, change_group, mark_audio_group, mark_audio_groups,
  any_exists,
}
use browser_guard.ProcessControl.Groups.Collect.{Holding, collect_process-Holding, Holding-if}
use browser_guard.ProcessControl.Marks.{
  mark_window, mark_named, enum_windows_callback, mark_windows, mark_foreground_groups,
  query_process_base_name,
}
use browser_guard.ProcessControl.Marks.Counts.{mark_window-pids}

some_group : {g h : BrowserGroup} → some g ≡ some h → g ≡ h
some_group e = cc

module _ {ℓ} (Q : ℕ → Type ℓ) where
  -- Every process of every group has the property.
  abbrev pub OfAll : List BrowserGroup → Type ℓ
  OfAll = All (λ g. All Q g.pids)

  Holding-OfAll : (gs : List BrowserGroup) → All (Holding Q) gs → OfAll gs
  Holding-OfAll [] h = tt
  Holding-OfAll (g ∷ gs) h = (h.0.each, Holding-OfAll gs h.1)

  -- What holds of all processes of the snapshot.
  abbrev pub OfSnapshot : Option (List (ℕ × Text)) → Type ℓ
  OfSnapshot none = Unit
  OfSnapshot (some entries) = All (λ e. Q e.0) entries

  module _ {P : Type 0} ⦃ps : Processes P⦄ (context : SecurityContext) (capacity : ℕ) where
    collect_entries-Holding :
        (es : List (ℕ × Text)) (gs : List BrowserGroup) (s : P)
        → All (λ e. Q e.0) es
        → All (Holding Q) gs
        → All (Holding Q) (collect_entries context capacity es gs s).0
    unfolding collect_entries
    collect_entries-Holding [] gs s q h = h
    collect_entries-Holding (e ∷ es) gs s q h =
        let (manageable, s1) = is_manageable_browser_process context e.0 e.1 s in
        let more = collect_process capacity e.0 e.1 gs in
        collect_entries-Holding es (if manageable then more else gs) s1 q.1
          (Holding-if Q manageable more gs (collect_process-Holding Q capacity e.0 e.1 gs q.0 h) h)

    pub collect_browser_groups-OfAll :
        (snapshot : Option (List (ℕ × Text))) (s : P)
        → OfSnapshot snapshot
        → OfAll (collect_browser_groups context capacity snapshot s).0
    unfolding collect_browser_groups
    collect_browser_groups-OfAll none s q = tt
    collect_browser_groups-OfAll (some entries) s q =
        Holding-OfAll (collect_entries context capacity entries [] s).0
          (collect_entries-Holding entries [] s q tt)

  pub mark_audio_groups-OfAll :
      (pids : List ℕ) (gs : List BrowserGroup) → OfAll gs → OfAll (mark_audio_groups pids gs)
  unfolding mark_audio_groups mark_audio_group
  mark_audio_groups-OfAll pids [] h = tt
  mark_audio_groups-OfAll pids (g ∷ gs) h = (
    on_if (λ (x : BrowserGroup). All Q x.pids) (any_exists pids g.pids) _ _ (λ _. h.0) (λ _. h.0),
    mark_audio_groups-OfAll pids gs h.1,
  )

  find_group_by_name-OfAll :
      (name : Text) (gs : List BrowserGroup) (g : BrowserGroup)
      → find_group_by_name name gs ≡ some g
      → OfAll gs
      → All Q g.pids
  unfolding find_group_by_name
  find_group_by_name-OfAll name [] g e h = cc
  find_group_by_name-OfAll name (x ∷ gs) g e h =
      on_if (λ (o : Option BrowserGroup). o ≡ some g → All Q g.pids) (text_ieq x.exe_name name) _ _
        (λ _ f. subst (λ (y : BrowserGroup). All Q y.pids) (some_group f) h.0)
        (λ _ f. find_group_by_name-OfAll name gs g f h.1) e

  change_group-OfAll :
      (marked : BrowserGroup) (name : Text) (gs : List BrowserGroup)
      → All Q marked.pids
      → OfAll gs
      → OfAll (change_group (λ _. marked) name gs)
  unfolding change_group
  change_group-OfAll marked name [] q h = tt
  change_group-OfAll marked name (g ∷ gs) q h =
      on_if OfAll (text_ieq g.exe_name name) _ _ (λ _. (q, h.1))
        (λ _. (h.0, change_group-OfAll marked name gs q h.1))

  module _ {D : Type 0} ⦃ds : Desktop D⦄ where
    mark_named-OfAll :
        (foreground hwnd : ℕ) (name : Text) (gs : List BrowserGroup) (d : D)
        → OfAll gs
        → OfAll (mark_named foreground hwnd name gs d).0
    unfolding mark_named
    mark_named-OfAll foreground hwnd name gs d h =
        on_option (λ (r : List BrowserGroup × D). OfAll r.0) (find_group_by_name name gs) _ _
          (λ _. h)
          (λ g e.
            change_group-OfAll (mark_window foreground hwnd g d).0 name gs
              (subst (All Q) (sym (mark_window-pids foreground hwnd g d))
                (find_group_by_name-OfAll name gs g e h))
              h)

  module _ {P D : Type 0} ⦃ps : Processes P⦄ ⦃ds : Desktop D⦄ where
    abbrev Kept : List BrowserGroup × P × D → Type ℓ
    Kept r = OfAll r.0

    enum_windows_callback-OfAll :
        (foreground hwnd : ℕ) (gs : List BrowserGroup) (s : P) (d : D)
        → OfAll gs
        → OfAll (enum_windows_callback foreground hwnd gs s d).0
    unfolding enum_windows_callback
    enum_windows_callback-OfAll foreground hwnd gs s d h =
        let (visible, d1) = ds.is_visible hwnd d in
        let (pid, d2) = ds.window_pid hwnd d1 in
        on_if Kept visible _ _
          (λ _.
            on_if Kept (pid == 0) _ _ (λ _. h)
              (λ _.
                on_option Kept (query_process_base_name pid s).0 _ _ (λ _. h)
                  (λ name _. mark_named-OfAll foreground hwnd name gs d2 h)))
          (λ _. h)

    mark_windows-OfAll :
        (foreground : ℕ) (windows : List ℕ) (gs : List BrowserGroup) (s : P) (d : D)
        → OfAll gs
        → OfAll (mark_windows foreground windows gs s d).0
    unfolding mark_windows
    mark_windows-OfAll foreground [] gs s d h = h
    mark_windows-OfAll foreground (hwnd ∷ rest) gs s d h =
        let (gs1, s1, d1) = enum_windows_callback foreground hwnd gs s d in
        mark_windows-OfAll foreground rest gs1 s1 d1
          (enum_windows_callback-OfAll foreground hwnd gs s d h)

    pub mark_foreground_groups-OfAll :
        (gs : List BrowserGroup) (s : P) (d : D)
        → OfAll gs
        → OfAll (mark_foreground_groups gs s d).0
    unfolding mark_foreground_groups
    mark_foreground_groups-OfAll gs s d h =
        let (foreground, d1) = ds.foreground_window d in
        let (windows, d2) = ds.enum_windows d1 in mark_windows-OfAll foreground windows gs s d2 h
