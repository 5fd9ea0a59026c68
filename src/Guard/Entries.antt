-- ===== src/Guard/Entries.antt =====
-- The array of tracked processes of src/browser_guard.c as a map from process ids, and what the writes
-- to it do.
use browser_guard.Prelude.{
  ℕ, ◌<◌, ◌≡◌, ◌≢◌, refl, false, none, some, List, [], ◌∷◌, ◌++◌, arith, inl, inr, Bool-cases, ◌==◌,
  if◌then◌else◌, All, dword_mod,
}
use browser_guard.Guard.{TrackedProcess}
use browser_guard.Guard.Tracked.{find_tracked_process, put_tracked, is_pid_suspended}

-- No process has two entries, and each id is a DWORD.
abbrev pub DistinctPids : List TrackedProcess → Type 0
DistinctPids [] = Unit {0}
DistinctPids (e ∷ es) = (find_tracked_process e.pid es ≡ none) × DistinctPids es

abbrev pub SmallPids : List TrackedProcess → Type 0
SmallPids = All (λ e. e.pid < dword_mod)

pub find_tracked_process-pid :
    (pid : ℕ) (es : List TrackedProcess) (e : TrackedProcess)
    → find_tracked_process pid es ≡ some e
    → e.pid ≡ pid
unfolding find_tracked_process
find_tracked_process-pid pid [] e h = cc
find_tracked_process-pid pid (x ∷ es) e h = ground (arith, find_tracked_process-pid pid es e)

pub is_pid_suspended-none :
    (pid : ℕ) (es : List TrackedProcess)
    → find_tracked_process pid es ≡ none
    → is_pid_suspended pid es ≡ false
unfolding find_tracked_process is_pid_suspended
is_pid_suspended-none pid [] h = refl
is_pid_suspended-none pid (x ∷ es) h = ground (arith, is_pid_suspended-none pid es)

pub is_pid_suspended-some :
    (pid : ℕ) (es : List TrackedProcess) (e : TrackedProcess)
    → DistinctPids es
    → find_tracked_process pid es ≡ some e
    → is_pid_suspended pid es ≡ e.suspended
unfolding find_tracked_process is_pid_suspended
is_pid_suspended-some pid [] e d h = cc
is_pid_suspended-some pid (x ∷ es) e d h =
    ground (arith, is_pid_suspended-some pid es e d.1, is_pid_suspended-none x.pid es d.0)

pub is_pid_suspended-put :
    (q : ℕ) (e x : TrackedProcess) (es : List TrackedProcess)
    → DistinctPids es
    → find_tracked_process e.pid es ≡ some x
    → is_pid_suspended q (put_tracked e es)
      ≡ (if e.pid == q then e.suspended else is_pid_suspended q es)
unfolding find_tracked_process is_pid_suspended put_tracked
is_pid_suspended-put q e x [] d h = cc
is_pid_suspended-put q e x (y ∷ es) d h =
    ground (arith, is_pid_suspended-put q e x es d.1, is_pid_suspended-none y.pid es d.0)

find-put :
    (q : ℕ) (e : TrackedProcess) (es : List TrackedProcess)
    → find_tracked_process q es ≡ none
    → find_tracked_process q (put_tracked e es) ≡ none
unfolding find_tracked_process put_tracked
find-put q e [] h = refl
find-put q e (y ∷ es) h = ground (arith, find-put q e es)

pub DistinctPids-put :
    (e : TrackedProcess) (es : List TrackedProcess)
    → DistinctPids es
    → DistinctPids (put_tracked e es)
unfolding put_tracked
DistinctPids-put e [] d = tt
DistinctPids-put e (y ∷ es) d = elim (Bool-cases (y.pid == e.pid)) [
  | inl same ↦ rw (same, put_tracked) (ground (arith, d.0), d.1)
  | inr other ↦ rw (other, put_tracked) (find-put y.pid e es d.0, DistinctPids-put e es d.1)
]

pub SmallPids-put :
    (e : TrackedProcess) (es : List TrackedProcess)
    → e.pid < dword_mod
    → SmallPids es
    → SmallPids (put_tracked e es)
unfolding put_tracked
SmallPids-put e [] small h = tt
SmallPids-put e (y ∷ es) small h = elim (Bool-cases (y.pid == e.pid)) [
  | inl same ↦ rw (same, put_tracked) (small, h.1)
  | inr other ↦ rw (other, put_tracked) (h.0, SmallPids-put e es small h.1)
]

pub is_pid_suspended-append :
    (q : ℕ) (e : TrackedProcess) (es : List TrackedProcess)
    → find_tracked_process e.pid es ≡ none
    → is_pid_suspended q (es ++ e ∷ [])
      ≡ (if e.pid == q then e.suspended else is_pid_suspended q es)
unfolding find_tracked_process is_pid_suspended
is_pid_suspended-append q e [] h = ground arith
is_pid_suspended-append q e (y ∷ es) h = ground (arith, is_pid_suspended-append q e es)

find-append :
    (q : ℕ) (e : TrackedProcess) (es : List TrackedProcess)
    → find_tracked_process q es ≡ none
    → e.pid ≢ q
    → find_tracked_process q (es ++ e ∷ []) ≡ none
unfolding find_tracked_process
find-append q e [] h other = ground arith
find-append q e (y ∷ es) h other = ground (arith, find-append q e es)

pub DistinctPids-append :
    (e : TrackedProcess) (es : List TrackedProcess)
    → find_tracked_process e.pid es ≡ none
    → DistinctPids es
    → DistinctPids (es ++ e ∷ [])
unfolding find_tracked_process
DistinctPids-append e [] h d = (refl, tt)
DistinctPids-append e (y ∷ es) h d = (
  find-append y.pid e es d.0 (λ same. absurd (ground arith)),
  DistinctPids-append e es (ground arith) d.1,
)

-- The other entries have other ids.
pub other_pids :
    (pid : ℕ) (es : List TrackedProcess)
    → find_tracked_process pid es ≡ none
    → All (λ e. (pid == e.pid) ≡ false) es
unfolding find_tracked_process
other_pids pid [] h = tt
other_pids pid (y ∷ es) h = (ground arith, other_pids pid es (ground arith))
