-- ===== src/Prelude/CText.antt =====
-- C strings as lists of code units, the terminating zero left off, and the C library's comparisons.
use Prim.Native.Char.{code}
use Prim.Native.Nat.{ℕ, ◌+◌}
use Prim.Native.String.{String}
use mathlib.Core.Bool.{Bool, true, false, ◌&&◌}
use mathlib.Core.List.{List, [], ◌∷◌, map}
use mathlib.Core.Path.{◌≡◌, refl}
use native.Mathlib.Omega.{arith}
use mathlib.Core.Option.{Option, none, some}
use browser_guard.Prelude.Lists.{length}
use browser_guard.Prelude.Tests.{ltb, leb, ◌==◌, if◌then◌else◌}

abbrev pub Text : Type 0
Text = List ℕ

-- The code units of a literal.
abbrev pub codes : String → Text
codes String.[] = []
codes (String.◌∷◌ c s) = code c ∷ codes s

-- `strcmp (s, t) == 0` and `wcscmp (s, t) == 0`.
unfoldable pub text_eq : Text → Text → Bool
text_eq [] [] = true
text_eq (a ∷ s) (b ∷ t) = a == b && text_eq s t
text_eq _ _ = false

-- `towlower` of the C locale, which folds A to Z.
unfoldable pub to_lower : ℕ → ℕ
to_lower c = if leb b'A' c && leb c b'Z' then c + 32 else c

-- `_wcsicmp (s, t) == 0`.
unfoldable pub text_ieq : Text → Text → Bool
unfolding text_eq to_lower
text_ieq s t = text_eq (map to_lower s) (map to_lower t)

pub text_eq_refl : (s : Text) → text_eq s s ≡ true
unfolding text_eq
text_eq_refl [] = refl
text_eq_refl (a ∷ s) = ground (arith, text_eq_refl s)

pub text_eq_sound : (s t : Text) → text_eq s t ≡ true → s ≡ t
unfolding text_eq
text_eq_sound [] [] h = refl
text_eq_sound [] (b ∷ t) h = cc
text_eq_sound (a ∷ s) [] h = cc
text_eq_sound (a ∷ s) (b ∷ t) h = ground (arith, text_eq_sound s t)

pub text_ieq_refl : (s : Text) → text_ieq s s ≡ true
unfolding text_ieq
text_ieq_refl s = text_eq_refl (map to_lower s)

-- `StringCchPrintfW` into a buffer of so many units: it fails where the text and its zero do not fit.
unfoldable pub printed : ℕ → Text → Option Text
printed capacity text = if ltb (length text) capacity then some text else none
