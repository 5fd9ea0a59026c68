-- ===== src/Guard/Loop/Overlay.antt =====
-- `update_overlay_window` of src/browser_guard.c.
use browser_guard.Prelude.{ℕ, Bool, false, not, none, some, ◌==◌, if◌then◌else◌, add32}
use browser_guard.Windows.{Desktop}
use browser_guard.Windows.Input.{Input}
use browser_guard.Guard.Loop.{Globals}

pub record OverlayState : Type 0 where
  pub visible : Bool
  pub suspended_count : ℕ
  pub target_window : ℕ

-- SW_HIDE
abbrev pub sw_hide : ℕ
sw_hide = 0

module _ {D : Type 0} ⦃ds : Desktop D⦄ ⦃is : Input D⦄ where
  -- `hwnd != NULL && IsWindow (hwnd) && !IsIconic (hwnd)`
  unfoldable pub is_shown : ℕ → D → Bool × D
  is_shown hwnd d =
      let (is_window, d1) = ds.is_window hwnd d in
      let (iconic, d2) = ds.is_iconic hwnd d1 in
      if hwnd == 0 then (false, d) else if is_window then (not iconic, d2) else (false, d1)

  -- The window asked for, or the last one.
  unfoldable pub resolve_target : ℕ → Globals → D → ℕ × D
  resolve_target target_window g d =
      let (shown, d1) = is_shown target_window d in
      ((if shown then target_window else g.overlay_target_window), d1)

  unfoldable pub hide_overlay : Globals → D → Globals × D
  hide_overlay g d =
      (record g { overlay_target_window = 0 }, is.show_window g.overlay_window sw_hide d)

  unfoldable pub place_overlay : ℕ → Globals → D → Globals × D
  place_overlay target g d =
      let (shown, d1) = is_shown target d in
      let (rect, d2) = is.window_rect target d1 in
      if shown
      then elim rect [
        | none ↦ hide_overlay g d2
        | some (left, top) ↦ (
          record g { overlay_target_window = target },
          is.show_at g.overlay_window (add32 left 8) (add32 top 8) d2,
        )
      ]
      else hide_overlay g d1

  unfoldable pub update_overlay_window : OverlayState → Globals → D → Globals × D
  update_overlay_window state g d =
      let (target, d1) = resolve_target state.target_window g d in
      let placed = place_overlay target g d1 in
      if g.overlay_window == 0 then (g, d) else if state.visible then placed else hide_overlay g d1
