-- ===== src/Prelude/Words.antt =====
-- Machine words as native numbers: DWORD and size_t (x64).
use Prim.Native.Nat.{ℕ, ◌+◌, ◌-◌, ◌%◌, ◌^◌, ◌<◌}
use mathlib.Core.Path.{◌≡◌}
use native.Mathlib.Omega.{arith}

abbrev pub dword_mod : ℕ
dword_mod = 2 ^ 32

-- DWORD a + b and a - b.
unfoldable pub add32 : ℕ → ℕ → ℕ
add32 a b = (a + b) % dword_mod

unfoldable pub sub32 : ℕ → ℕ → ℕ
sub32 a b = (a + dword_mod - b) % dword_mod

abbrev pub size_mod : ℕ
size_mod = 2 ^ 64

-- size_t a + b.
unfoldable pub size_add : ℕ → ℕ → ℕ
size_add a b = (a + b) % size_mod

pub sub32-add32 : (a b : ℕ) → a < dword_mod → b < dword_mod → sub32 (add32 a b) a ≡ b
unfolding add32 sub32
sub32-add32 a b ha hb = omega arith
