-- ===== src/Prelude/Numerals.antt =====
-- Decimal numerals: what the C library's formats `%lu` and `%llu` print of a DWORD or a 64-bit number.
use Prim.Native.Nat.{ℕ, zero, suc, ◌+◌, ◌*◌, ◌/◌, ◌%◌, ◌<◌}
use mathlib.Core.List.{List, [], ◌∷◌, map}
use mathlib.Core.Path.{◌≡◌, refl, sym, ap, subst, ◌∙◌}
use mathlib.Core.Bool.{true, false}
use native.Mathlib.Nat.{zero-add}
use native.Mathlib.Omega.{arith}
use browser_guard.Prelude.Tests.{ltb, ltb→lt, if◌then◌else◌, Bool-cases}
use mathlib.Core.Logic.{inl, inr}
use browser_guard.Prelude.Lists.{All}
use browser_guard.Prelude.CText.{Text}
use browser_guard.Prelude.Words.{size_mod}

-- A digit string and the number that it stands for.
abbrev pub numeral : List ℕ → Text
numeral = map (λ d. d + b'0')

unfoldable pub value_from : ℕ → List ℕ → ℕ
value_from n [] = n
value_from n (d ∷ ds) = value_from (n * 10 + d) ds

abbrev pub AreDigits : List ℕ → Type 0
AreDigits = All (λ d. d < 10)

-- The digits of a number in front of others, at most so many.
unfoldable pub digits_onto : ℕ → ℕ → List ℕ → List ℕ
digits_onto zero n ds = ds
digits_onto (suc places) n ds =
    let rest = digits_onto places (n / 10) (n % 10 ∷ ds) in if ltb n 10 then n ∷ ds else rest

-- 20 places hold every number below 2 ^ 64.
unfoldable pub digits : ℕ → List ℕ
unfolding digits_onto
digits n = digits_onto 20 n []

unfoldable pub decimal : ℕ → Text
unfolding digits
decimal n = numeral (digits n)

-- 10 ^ places
power_of_ten : ℕ → ℕ
power_of_ten zero = 1
power_of_ten (suc places) = 10 * power_of_ten places

small_mod : (n : ℕ) → n < 10 → n % 10 ≡ n
small_mod n h = omega arith

split_ten : (n : ℕ) → n / 10 * 10 + n % 10 ≡ n
split_ten n = omega arith

value_from_first : (n : ℕ) (ds : List ℕ) → value_from 0 (n ∷ ds) ≡ value_from n ds
unfolding value_from
value_from_first n ds = rw zero-add refl

value_from_step : (n : ℕ) (ds : List ℕ) → value_from (n / 10) (n % 10 ∷ ds) ≡ value_from n ds
unfolding value_from
value_from_step n ds = rw (split_ten n) refl

digits_onto_more :
    (places n : ℕ) (ds : List ℕ)
    → ltb n 10 ≡ false
    → digits_onto (suc places) n ds ≡ digits_onto places (n / 10) (n % 10 ∷ ds)
unfolding digits_onto
digits_onto_more places n ds e = rw e refl

digits_onto-value_from :
    (places n : ℕ) (ds : List ℕ)
    → n < power_of_ten (suc places)
    → value_from 0 (digits_onto (suc places) n ds) ≡ value_from n ds
unfolding power_of_ten
digits_onto-value_from zero n ds h =
    let e : ltb n 10 ≡ true = ground arith in unfold digits_onto in rw e (value_from_first n ds)
digits_onto-value_from (suc places) n ds h = elim (Bool-cases (ltb n 10)) [
  | inl e ↦ unfold digits_onto in rw e (value_from_first n ds)
  | inr e ↦
      let fits : n / 10 < power_of_ten (suc places) = omega arith in
      ap (value_from 0) (digits_onto_more (suc places) n ds e)
      ∙ digits_onto-value_from places (n / 10) (n % 10 ∷ ds) fits
      ∙ value_from_step n ds
]

digits_onto-AreDigits :
    (places n : ℕ) (ds : List ℕ)
    → n < power_of_ten places
    → AreDigits ds
    → AreDigits (digits_onto places n ds)
unfolding digits_onto power_of_ten
digits_onto-AreDigits zero n ds h are = are
digits_onto-AreDigits (suc places) n ds h are = elim (Bool-cases (ltb n 10)) [
  | inl e ↦ rw e (ltb→lt n 10 e, are)
  | inr e ↦
      rw e (digits_onto-AreDigits places (n / 10) (n % 10 ∷ ds) (omega arith) (omega arith, are))
]

-- There is a first digit.
digits_onto_first :
    (places n : ℕ) (ds : List ℕ)
    → (d : ℕ) × (rest : List ℕ) × (digits_onto (suc places) n ds ≡ d ∷ rest)
unfolding digits_onto
digits_onto_first zero n ds = elim (Bool-cases (ltb n 10)) [
  | inl e ↦ (n, ds, rw e refl)
  | inr e ↦ (n % 10, ds, rw e refl)
]
digits_onto_first (suc places) n ds = elim (Bool-cases (ltb n 10)) [
  | inl e ↦ (n, ds, rw e refl)
  | inr e ↦
      (let (d, rest, f) = digits_onto_first places (n / 10) (n % 10 ∷ ds) in (d, rest, rw e f))
]

-- The digits of a 64-bit number stand for it.
pub digits_lem :
    (n : ℕ)
    → n < size_mod
    → (d : ℕ) × (ds : List ℕ) × (digits n ≡ d ∷ ds)
      × AreDigits (d ∷ ds)
      × (value_from 0 (d ∷ ds) ≡ n)
unfolding digits power_of_ten
digits_lem n h =
    let (d, ds, e) = digits_onto_first 19 n [] in
    (
      d,
      ds,
      e,
      subst AreDigits e (digits_onto-AreDigits 20 n [] (omega arith) tt),
      (ap (value_from 0) (sym e) ∙ digits_onto-value_from 19 n [] (omega arith))
          ∙ unfold value_from in refl,
    )
