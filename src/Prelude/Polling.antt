-- ===== src/Prelude/Polling.antt =====
-- Loops that poll: a turn ends the loop with a result, or is followed by the next one.
use Prim.Native.Nat.{ℕ, zero, suc, ◌<◌}
use mathlib.Core.Logic.{inl, inr}
use mathlib.Core.Option.{Option, none, some}
use mathlib.Core.Path.{◌≡◌, refl, ap}
use native.Mathlib.Omega.{arith}
use browser_guard.Prelude.Tests.{Option-cases}

-- At most so many turns; `none` means that they did not suffice.
unfoldable pub poll : {R S : Type 0} → ℕ → (S → Option R × S) → S → Option R × S
poll zero turn s = (none, s)
poll (suc turns) turn s = elim (turn s).0 [
  | some r ↦ (some r, (turn s).1)
  | none ↦ poll turns turn (turn s).1
]

module _ {R S : Type 0} (turn : S → Option R × S) (Before : S → Type 0) (measure : S → ℕ)
    (After : R → S → Type 0)
    (goes_on : (s : S)
      → Before s
      → (turn s).0 ≡ none
      → Before (turn s).1 × (measure (turn s).1 < measure s))
    (ends : (s : S) (r : R) → Before s → (turn s).0 ≡ some r → After r (turn s).1) where
  -- A measure that falls with every turn bounds the turns, and what the last turn gives holds at the
  -- end.
  pub poll_ends :
      (turns : ℕ) (s : S)
      → Before s
      → measure s < turns
      → (r : R) × ((poll turns turn s).0 ≡ some r) × After r (poll turns turn s).1
  unfolding poll
  poll_ends zero s b m = absurd (omega arith)
  poll_ends (suc turns) s b m = elim (Option-cases (turn s).0) [
    | inl e ↦
        rw (e, poll)
          (poll_ends turns (turn s).1 (goes_on s b e).0 (omega (arith, (goes_on s b e).1)))
    | inr (r, e) ↦ rw (e, poll) (r, refl, ends s r b e)
  ]

-- A relation between the states before and after every turn stands between those before and after the
-- loop.
pub poll_keeps :
    {A S : Type 0} (R : S → S → Type 0) (turn : S → Option A × S)
    → ((s : S) → R s s)
    → ((s t u : S) → R s t → R t u → R s u)
    → ((s : S) → R s (turn s).1)
    → (turns : ℕ) (s : S) → R s (poll turns turn s).1
unfolding poll
poll_keeps R turn same then_on q zero s = same s
poll_keeps R turn same then_on q (suc turns) s =
    let t = (turn s).1 in
    let next = then_on s t (poll turns turn t).1 (q s) (poll_keeps R turn same then_on q turns t) in
    elim (Option-cases (turn s).0) [ inl e ↦ rw (e, poll) next | inr (r, e) ↦ rw (e, poll) (q s) ]

-- A loop whose first turn ends it.
pub poll_once :
    {A S : Type 0} (turn : S → Option A × S) (turns : ℕ) (s : S) (r : A)
    → 0 < turns
    → (turn s).0 ≡ some r
    → ((poll turns turn s).0 ≡ some r) × ((poll turns turn s).1 ≡ (turn s).1)
unfolding poll
poll_once turn zero s r some_turn e = absurd (omega arith)
poll_once turn (suc turns) s r some_turn e = rw (e, poll) (refl, refl)

-- The first turn ends the loop, or the second one does.
pub poll_twice :
    {A S : Type 0} (turn : S → Option A × S) (turns : ℕ) (s : S) (r : A)
    → 1 < turns
    → ((turn s).0 ≡ none → (turn (turn s).1).0 ≡ some r)
    → ((a : A) → (turn s).0 ≡ some a → a ≡ r)
    → (poll turns turn s).0 ≡ some r
unfolding poll
poll_twice turn zero s r turns2 next now = absurd (omega arith)
poll_twice turn (suc turns) s r turns2 next now = elim (Option-cases (turn s).0) [
  | inl e ↦ rw (e, poll) (poll_once turn turns (turn s).1 r (omega arith) (next e)).0
  | inr (a, e) ↦ rw (e, poll) (ap some (now a e))
]
