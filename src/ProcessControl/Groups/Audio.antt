-- ===== src/ProcessControl/Groups/Audio.antt =====
-- Which groups of src/process_control.c count as playing audio.
use browser_guard.Prelude.{ℕ, ◌≡◌, ◌⊎◌, ◌↔◌, true, List, [], ◌∷◌, arith, inl, inr, Bool-cases}
use browser_guard.ProcessControl.{BrowserGroup}
use browser_guard.ProcessControl.Groups.{pid_exists_in_array, any_exists, mark_audio_group}

-- A process in both lists.
abbrev pub Shared : List ℕ → List ℕ → Type 0
Shared audio_pids pids =
    (pid : ℕ) × (pid_exists_in_array pids pid ≡ true) × (pid_exists_in_array audio_pids pid ≡ true)

any_exists-Shared :
    (audio_pids pids : List ℕ) → any_exists audio_pids pids ≡ true → Shared audio_pids pids
unfolding any_exists pid_exists_in_array
any_exists-Shared audio_pids [] h = cc
any_exists-Shared audio_pids (p ∷ pids) h = elim (Bool-cases (pid_exists_in_array audio_pids p)) [
  | inl found ↦ (p, ground arith, found)
  | inr not_here ↦
      let (pid, there, audible) = any_exists-Shared audio_pids pids (ground arith) in
      (pid, ground arith, audible)
]

Shared-any_exists :
    (audio_pids pids : List ℕ) (pid : ℕ)
    → pid_exists_in_array pids pid ≡ true
    → pid_exists_in_array audio_pids pid ≡ true
    → any_exists audio_pids pids ≡ true
unfolding any_exists pid_exists_in_array
Shared-any_exists audio_pids [] pid h h' = cc
Shared-any_exists audio_pids (p ∷ pids) pid h h' =
    ground (arith, Shared-any_exists audio_pids pids pid)

-- A group plays audio exactly where it did already or one of its processes has an active audio session.
pub has_audio-mark_audio_group :
    (audio_pids : List ℕ) (g : BrowserGroup)
    → ((mark_audio_group audio_pids g).has_audio ≡ true)
      ↔ ((g.has_audio ≡ true) ⊎ Shared audio_pids g.pids)
unfolding mark_audio_group
has_audio-mark_audio_group audio_pids g = (
  λ h. elim (Bool-cases (any_exists audio_pids g.pids)) [
    | inl found ↦ inr (any_exists-Shared audio_pids g.pids found)
    | inr silent ↦ inl (ground arith)
  ],
  λ h. elim h [
    | inl before ↦ ground arith
    | inr (pid, here, audible) ↦
        ground (arith, Shared-any_exists audio_pids g.pids pid here audible)
  ],
)
