-- ===== src/Windows/Quiet.antt =====
-- Quiet calls in sequence and under tests.
use browser_guard.Prelude.{
  ℕ, refl, ◌∙◌, Bool, true, false, Option, none, some, if◌then◌else◌, arith,
}
use browser_guard.Windows.{◌and◌}
use browser_guard.Windows.Laws.{Quiet}

module _ {P : Type 0} {suspensions resumes : P → ℕ → ℕ} where
  pub Quiet-refl : (s : P) → Quiet suspensions resumes s s
  Quiet-refl s = record { no_more = λ pid. omega arith; no_resume = λ pid. refl }

  pub Quiet-trans :
      {s t u : P}
      → Quiet suspensions resumes s t
      → Quiet suspensions resumes t u
      → Quiet suspensions resumes s u
  Quiet-trans q r = record {
    no_more = λ pid. omega (arith, q.no_more pid, r.no_more pid);
    no_resume = λ pid. r.no_resume pid ∙ q.no_resume pid;
  }

  -- A test chooses between two quiet ways on.
  pub Quiet-if :
      (b : Bool) (s t u : P)
      → Quiet suspensions resumes s t
      → Quiet suspensions resumes s u
      → Quiet suspensions resumes s (if b then t else u)
  Quiet-if true s t u q r = q
  Quiet-if false s t u q r = r

  pub Quiet-and :
      (a b : P → Bool × P) (s : P)
      → ((t : P) → Quiet suspensions resumes t (a t).1)
      → ((t : P) → Quiet suspensions resumes t (b t).1)
      → Quiet suspensions resumes s ((a and b) s).1
  Quiet-and a b s qa qb = go (a s).0
    where
      go : (r : Bool) → Quiet suspensions resumes s (if r then b (a s).1 else (false, (a s).1)).1
      go true = Quiet-trans (qa s) (qb (a s).1)
      go false = qa s

  -- A result that may be missing chooses between two quiet ways on.
  pub Quiet-option :
      {A B : Type 0} (o : Option A) (s : P) (missing : B × P) (found : A → B × P)
      → Quiet suspensions resumes s missing.1
      → ((a : A) → Quiet suspensions resumes s (found a).1)
      → Quiet suspensions resumes s
          (let r : B × P = elim o [ none ↦ missing | some a ↦ found a ] in r.1)
  Quiet-option none s missing found qm qf = qm
  Quiet-option (some a) s missing found qm qf = qf a
