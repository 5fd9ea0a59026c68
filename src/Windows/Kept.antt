-- ===== src/Windows/Kept.antt =====
-- Relations between two states of the kernel that its queries keep, and calls in sequence that keep
-- them.
use browser_guard.Prelude.{ℕ, Bool, Option, poll, poll_keeps, on_if}
use browser_guard.Windows.{Processes, Handle, ◌and◌}
use browser_guard.Windows.Laws.{ProcessLaws, Quiet}
use browser_guard.Windows.Quiet.{Quiet-refl, Quiet-trans}

pub record QueriesKept {P : Type 0} (ps : Processes P) (R : P → P → Type 0) : Type 0 where
  pub same : (s : P) → R s s
  pub then_on : {s t u : P} → R s t → R t u → R s u
  pub open_process : (access pid : ℕ) (s : P) → R s (ps.open_process access pid s).1
  pub close_handle : (h : Handle) (s : P) → R s (ps.close_handle h s)
  pub session_of : (pid : ℕ) (s : P) → R s (ps.session_of pid s).1
  pub image_name : (h : Handle) (n : ℕ) (s : P) → R s (ps.image_name h n s).1
  pub open_token : (h : Handle) (s : P) → R s (ps.open_token h s).1
  pub token_user : (h : Handle) (s : P) → R s (ps.token_user h s).1

module _ {P : Type 0} {ps : Processes P} {R : P → P → Type 0} (kept : QueriesKept ps R) where
  pub and_kept :
      (a b : P → Bool × P) (s : P)
      → ((t : P) → R t (a t).1)
      → ((t : P) → R t (b t).1)
      → R s ((a and b) s).1
  and_kept a b s qa qb =
      on_if (λ (r : Bool × P). R s r.1) (a s).0 _ _ (λ _. kept.then_on (qa s) (qb (a s).1))
        (λ _. qa s)

  -- A loop of turns that keep the relation keeps it.
  pub poll-kept :
      {A : Type 0} (turn : P → Option A × P)
      → ((s : P) → R s (turn s).1)
      → (turns : ℕ) (s : P) → R s (poll turns turn s).1
  poll-kept turn q = poll_keeps R turn kept.same (λ s t u. kept.then_on {s = s} {t = t} {u = u}) q

-- No query suspends or resumes.
pub Quiet-queries :
    {P : Type 0} {ps : Processes P} (laws : ProcessLaws ps)
    → QueriesKept ps (Quiet laws.suspensions laws.resumes)
Quiet-queries laws = record {
  same = λ s. Quiet-refl s;
  then_on = λ q r. Quiet-trans q r;
  open_process = laws.open_quiet;
  close_handle = laws.close_quiet;
  session_of = laws.session_quiet;
  image_name = laws.image_quiet;
  open_token = laws.token_quiet;
  token_user = laws.user_quiet;
}
