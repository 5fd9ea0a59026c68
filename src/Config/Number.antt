-- ===== src/Config/Number.antt =====
-- `parse_dword_arg` of src/app_config.c, over the C library's `strtoul` in base 10 with the 32-bit
-- `unsigned long` of Windows, and the calls of `wcstoul` and `_wcstoui64` in src/recovery_main.c.
pub mod Decimal
use browser_guard.Prelude.{
  ℕ, ◌+◌, ◌-◌, ◌*◌, ◌≤◌, ◌<◌, ◌≡◌, refl, Bool, true, false, ◌&&◌, ◌||◌, not, Option, none, some, [],
  ◌∷◌, ◌++◌, arith, ltb, leb, ◌==◌, if◌then◌else◌, Text, dword_mod, size_mod, All, List, map,
  Bool-cases, inl, inr, ◌%◌,
}

is_space : ℕ → Bool
is_space c = c == 32 || leb 9 c && leb c 13

is_digit : ℕ → Bool
is_digit c = leb b'0' c && leb c b'9'

skip_spaces : Text → Text
skip_spaces [] = []
skip_spaces (c ∷ s) = if is_space c then skip_spaces s else c ∷ s

-- The value of the leading digits, and what follows them.
scan_digits : ℕ → Text → ℕ × Text
scan_digits n [] = (n, [])
scan_digits n (c ∷ s) =
    let rest = scan_digits (n * 10 + (c - b'0')) s in if is_digit c then rest else (n, c ∷ s)

starts_with_digit : Text → Bool
starts_with_digit [] = false
starts_with_digit (c ∷ s) = is_digit c

-- An overflow yields the largest number, and a minus sign negates modulo 2 ^ 32 or 2 ^ 64.
to_unsigned : ℕ → Bool → ℕ → ℕ
to_unsigned modulus negative n =
    if leb modulus n then modulus - 1 else if negative then (modulus - n) % modulus else n

scan_number : ℕ → Bool → Text → Option (ℕ × Text)
scan_number modulus negative s =
    if starts_with_digit s
    then some (to_unsigned modulus negative (scan_digits 0 s).0, (scan_digits 0 s).1)
    else none

scan_sign : ℕ → Text → Option (ℕ × Text)
scan_sign modulus [] = none
scan_sign modulus (c ∷ s) =
    if c == b'-'
    then scan_number modulus true s
    else if c == b'+'
    then scan_number modulus false s
    else scan_number modulus false (c ∷ s)

-- The value and the text at `*end`; `none` where `end` is the start, as no digit was read.
unfoldable pub strtoul : Text → Option (ℕ × Text)
unfolding is_space is_digit skip_spaces scan_digits starts_with_digit to_unsigned scan_number
    scan_sign
strtoul s = scan_sign dword_mod (skip_spaces s)

-- `wcstoul` and `_wcstoui64` where `end` is not asked for: no number counts as 0.
unfoldable pub wcstoul : Text → ℕ
unfolding strtoul
wcstoul s = elim (strtoul s) [ none ↦ 0 | some (n, end) ↦ n ]

unfoldable pub wcstoui64 : Text → ℕ
unfolding is_space is_digit skip_spaces scan_digits starts_with_digit to_unsigned scan_number
    scan_sign
wcstoui64 s = elim (scan_sign size_mod (skip_spaces s)) [ none ↦ 0 | some (n, end) ↦ n ]

is_end : Text → Bool
is_end [] = true
is_end (c ∷ s) = false

-- `none` is the result false, where nothing is stored.
unfoldable pub parse_dword_arg : Text → ℕ → ℕ → Option ℕ
unfolding strtoul is_end
parse_dword_arg value min_value max_value = elim (strtoul value) [
  | none ↦ none
  | some (parsed, end) ↦
      if is_end end && leb min_value parsed && leb parsed max_value then some parsed else none
]
