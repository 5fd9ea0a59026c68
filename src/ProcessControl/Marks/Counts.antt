-- ===== src/ProcessControl/Marks/Counts.antt =====
-- What a visible window counts for in src/process_control.c.
use browser_guard.Prelude.{
  ℕ, ◌+◌, ◌<◌, ◌≡◌, refl, ◌∙◌, Bool, true, false, arith, inl, inr, Bool-cases, ◌==◌, if◌then◌else◌,
  size_mod, size_add,
}
use browser_guard.Windows.{Desktop}
use browser_guard.ProcessControl.{BrowserGroup}
use browser_guard.ProcessControl.Marks.{
  take_anchor, mark_anchor, count_window, mark_foreground, mark_window,
}

-- Only the anchor and the foreground mark differ.
record SameCounts (g g' : BrowserGroup) : Type 0 where
  pub minimized : g'.minimized_window_count ≡ g.minimized_window_count
  pub restored : g'.visible_restored_window_count ≡ g.visible_restored_window_count
  pub pids : g'.pids ≡ g.pids
  pub audio : g'.has_audio ≡ g.has_audio
  pub visible : g'.has_visible_window ≡ g.has_visible_window

same : (g : BrowserGroup) → SameCounts g g
same g = record { minimized = refl; restored = refl; pids = refl; audio = refl; visible = refl }

either :
    {D : Type 0} {g : BrowserGroup} (test : Bool) (o o' : BrowserGroup × D)
    → SameCounts g o.0
    → SameCounts g o'.0
    → SameCounts g (if test then o else o').0
either true o o' h h' = h
either false o o' h h' = h'

module _ {D : Type 0} ⦃ds : Desktop D⦄ where
  take_anchor-SameCounts :
      (hwnd : ℕ) (g : BrowserGroup) (d : D) → SameCounts g (take_anchor hwnd g d).0
  unfolding take_anchor
  take_anchor-SameCounts hwnd g d = record {
    minimized = refl;
    restored = refl;
    pids = refl;
    audio = refl;
    visible = refl;
  }

  mark_anchor-SameCounts :
      (hwnd : ℕ) (g : BrowserGroup) (d : D) → SameCounts g (mark_anchor hwnd g d).0
  unfolding mark_anchor
  mark_anchor-SameCounts hwnd g d =
      let (iconic, d1) = ds.is_iconic hwnd d in
      either (g.anchor_window == 0) (if iconic then (g, d1) else take_anchor hwnd g d1) (g, d)
        (either iconic (g, d1) (take_anchor hwnd g d1) (same g) (take_anchor-SameCounts hwnd g d1))
        (same g)

  mark_foreground-SameCounts :
      (foreground hwnd : ℕ) (g : BrowserGroup) (d : D)
      → SameCounts g (mark_foreground foreground hwnd g d).0
  unfolding mark_foreground
  mark_foreground-SameCounts foreground hwnd g d =
      let (iconic, d1) = ds.is_iconic hwnd d in
      let g1 : BrowserGroup = record g { has_foreground_window = true } in
      let t = take_anchor-SameCounts hwnd g1 d1 in
      either (hwnd == foreground) (if iconic then (g, d1) else take_anchor hwnd g1 d1) (g, d)
        (either iconic (g, d1) (take_anchor hwnd g1 d1) (same g)
          (record {
            minimized = t.minimized;
            restored = t.restored;
            pids = t.pids;
            audio = t.audio;
            visible = t.visible;
          }))
        (same g)

  count_window-one :
      (hwnd : ℕ) (g : BrowserGroup) (d : D)
      → g.minimized_window_count + g.visible_restored_window_count + 1 < size_mod
      → let m = (count_window hwnd g d).0 in
        (m.minimized_window_count + m.visible_restored_window_count
          ≡ g.minimized_window_count + g.visible_restored_window_count + 1)
        × (m.pids ≡ g.pids)
        × (m.has_audio ≡ g.has_audio)
        × (m.has_visible_window ≡ g.has_visible_window)
  unfolding count_window size_add
  count_window-one hwnd g d fits = elim (Bool-cases (ds.is_iconic hwnd d).0) [
    | inl iconic ↦ rw (iconic, count_window) (ground arith, refl, refl, refl)
    | inr restored ↦ rw (restored, count_window) (ground arith, refl, refl, refl)
  ]

  pub mark_window-counts :
      (foreground hwnd : ℕ) (g : BrowserGroup) (d : D)
      → g.minimized_window_count + g.visible_restored_window_count + 1 < size_mod
      → let m = (mark_window foreground hwnd g d).0 in
        (m.minimized_window_count + m.visible_restored_window_count
          ≡ g.minimized_window_count + g.visible_restored_window_count + 1)
        × (m.pids ≡ g.pids)
        × (m.has_audio ≡ g.has_audio)
        × (m.has_visible_window ≡ true)
  unfolding mark_window
  mark_window-counts foreground hwnd g d fits =
      let g0 : BrowserGroup = record g { has_visible_window = true } in
      let (g1, d1) = mark_anchor hwnd g0 d in
      let (g2, d2) = count_window hwnd g1 d1 in
      let a = mark_anchor-SameCounts hwnd g0 d in
      let c = count_window-one hwnd g1 d1 (omega (arith, a.minimized, a.restored)) in
      let f = mark_foreground-SameCounts foreground hwnd g2 d2 in
      (
        omega (arith, a.minimized, a.restored, c.0, f.minimized, f.restored),
        f.pids ∙ (c.1 ∙ a.pids),
        f.audio ∙ (c.2 ∙ a.audio),
        f.visible ∙ (c.3 ∙ a.visible),
      )

  count_window-pids :
      (hwnd : ℕ) (g : BrowserGroup) (d : D) → (count_window hwnd g d).0.pids ≡ g.pids
  unfolding count_window
  count_window-pids hwnd g d = elim (Bool-cases (ds.is_iconic hwnd d).0) [
    | inl iconic ↦ rw (iconic, count_window) refl
    | inr restored ↦ rw (restored, count_window) refl
  ]

  pub mark_window-pids :
      (foreground hwnd : ℕ) (g : BrowserGroup) (d : D)
      → (mark_window foreground hwnd g d).0.pids ≡ g.pids
  unfolding mark_window
  mark_window-pids foreground hwnd g d =
      let g0 : BrowserGroup = record g { has_visible_window = true } in
      let (g1, d1) = mark_anchor hwnd g0 d in
      let (g2, d2) = count_window hwnd g1 d1 in
      (mark_foreground-SameCounts foreground hwnd g2 d2).pids
      ∙ count_window-pids hwnd g1 d1
      ∙ (mark_anchor-SameCounts hwnd g0 d).pids
