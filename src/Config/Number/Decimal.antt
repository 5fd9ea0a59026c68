-- ===== src/Config/Number/Decimal.antt =====
-- What `parse_dword_arg` of src/app_config.c accepts: decimal numerals in the range, and signs.
use browser_guard.Prelude.{
  ℕ, ◌+◌, ◌-◌, ◌*◌, ◌≤◌, ◌<◌, ◌≡◌, refl, ◌&&◌, none, some, [], ◌∷◌, arith, leb, if◌then◌else◌, Text,
  dword_mod, size_mod, List, Bool, true, false, numeral, value_from, AreDigits, digits_lem, decimal,
  ◌∙◌,
}
use browser_guard.Config.Number.{
  scan_digits, scan_number, to_unsigned, strtoul, wcstoul, wcstoui64, parse_dword_arg,
  starts_with_digit, is_digit,
}

scan_digits-numeral :
    (n : ℕ) (ds : List ℕ) → AreDigits ds → scan_digits n (numeral ds) ≡ (value_from n ds, [])
unfolding scan_digits value_from is_digit
scan_digits-numeral n [] h = refl
scan_digits-numeral n (d ∷ ds) h =
    let e : d + b'0' - b'0' ≡ d = omega arith in
    rw e (ground (arith, scan_digits-numeral (n * 10 + d) ds h.1))

scan_number-numeral :
    (modulus : ℕ) (negative : Bool) (d : ℕ) (ds : List ℕ)
    → AreDigits (d ∷ ds)
    → scan_number modulus negative (numeral (d ∷ ds))
      ≡ some (to_unsigned modulus negative (value_from 0 (d ∷ ds)), [])
unfolding scan_number starts_with_digit is_digit
scan_number-numeral modulus negative d ds h = ground (arith, scan_digits-numeral 0 (d ∷ ds) h)

strtoul-numeral :
    (d : ℕ) (ds : List ℕ)
    → AreDigits (d ∷ ds)
    → strtoul (numeral (d ∷ ds)) ≡ some (to_unsigned dword_mod false (value_from 0 (d ∷ ds)), [])
unfolding strtoul scan_number
strtoul-numeral d ds h = ground (arith, scan_number-numeral dword_mod false d ds h)

strtoul-negative :
    (d : ℕ) (ds : List ℕ)
    → AreDigits (d ∷ ds)
    → strtoul (b'-' ∷ numeral (d ∷ ds))
      ≡ some (to_unsigned dword_mod true (value_from 0 (d ∷ ds)), [])
unfolding strtoul scan_number
strtoul-negative d ds h = ground (arith, scan_number-numeral dword_mod true d ds h)

to_unsigned_small : (modulus n : ℕ) → n < modulus → to_unsigned modulus false n ≡ n
unfolding to_unsigned
to_unsigned_small modulus n h = ground arith

-- Of a string of digits exactly the numbers in the range are accepted, however many digits it has.
pub parse_dword_arg-numeral :
    (d : ℕ) (ds : List ℕ) (lo hi : ℕ)
    → AreDigits (d ∷ ds)
    → hi < dword_mod - 1
    → parse_dword_arg (numeral (d ∷ ds)) lo hi ≡ (
        if leb lo (value_from 0 (d ∷ ds)) && leb (value_from 0 (d ∷ ds)) hi
        then some (value_from 0 (d ∷ ds))
        else none)
unfolding parse_dword_arg to_unsigned
parse_dword_arg-numeral d ds lo hi h small = ground (arith, strtoul-numeral d ds h)

-- A minus sign is accepted too: the argument -v stands for 2 ^ 32 - v.
pub parse_dword_arg-negative :
    (d : ℕ) (ds : List ℕ) (lo hi : ℕ)
    → AreDigits (d ∷ ds)
    → 0 < value_from 0 (d ∷ ds)
    → value_from 0 (d ∷ ds) < dword_mod
    → lo ≤ dword_mod - value_from 0 (d ∷ ds)
    → dword_mod - value_from 0 (d ∷ ds) ≤ hi
    → parse_dword_arg (b'-' ∷ numeral (d ∷ ds)) lo hi ≡ some (dword_mod - value_from 0 (d ∷ ds))
unfolding parse_dword_arg to_unsigned
parse_dword_arg-negative d ds lo hi h pos small above below =
    ground (arith, strtoul-negative d ds h)

-- A stored value lies in the range.
pub parse_dword_arg_bounds :
    (value : Text) (lo hi n : ℕ) → parse_dword_arg value lo hi ≡ some n → (lo ≤ n) × (n ≤ hi)
unfolding parse_dword_arg
parse_dword_arg_bounds value lo hi n h = ground arith

wcstoul-numeral :
    (d : ℕ) (ds : List ℕ)
    → AreDigits (d ∷ ds)
    → value_from 0 (d ∷ ds) < dword_mod
    → wcstoul (numeral (d ∷ ds)) ≡ value_from 0 (d ∷ ds)
unfolding wcstoul
wcstoul-numeral d ds are small =
    ground
      (arith, strtoul-numeral d ds are, to_unsigned_small dword_mod (value_from 0 (d ∷ ds)) small)

wcstoui64-numeral :
    (d : ℕ) (ds : List ℕ)
    → AreDigits (d ∷ ds)
    → value_from 0 (d ∷ ds) < size_mod
    → wcstoui64 (numeral (d ∷ ds)) ≡ value_from 0 (d ∷ ds)
unfolding wcstoui64 scan_number
wcstoui64-numeral d ds are small = ground (
  arith,
  scan_number-numeral size_mod false d ds are,
  to_unsigned_small size_mod (value_from 0 (d ∷ ds)) small,
)

-- A DWORD printed with `%lu` is read back by `wcstoul`.
pub wcstoul-decimal : (n : ℕ) → n < dword_mod → wcstoul (decimal n) ≡ n
unfolding decimal
wcstoul-decimal n h =
    let (d, ds, e, are, value) = digits_lem n (omega arith) in
    rw e (wcstoul-numeral d ds are (omega arith) ∙ value)

-- A 64-bit number printed with `%llu` is read back by `_wcstoui64`.
pub wcstoui64-decimal : (n : ℕ) → n < size_mod → wcstoui64 (decimal n) ≡ n
unfolding decimal
wcstoui64-decimal n h =
    let (d, ds, e, are, value) = digits_lem n h in
    rw e (wcstoui64-numeral d ds are (omega arith) ∙ value)
