-- ===== src/Control/Arguments.antt =====
-- `read_arguments_file` of src/control_main.c: the arguments for the guard, from a text file.
pub mod Trim
use browser_guard.Prelude.{
  ℕ, zero, suc, ◌-◌, Bool, true, false, ◌||◌, ◌&&◌, Option, none, some, List, [], ◌∷◌, ◌==◌, leb,
  if◌then◌else◌, Text, length, take, drop,
}
use browser_guard.Windows.{Files, opened, open_error}
use browser_guard.Windows.Session.{Session}

-- `char bytes[2048]` holds 2047 bytes and a zero.
abbrev pub bytes_capacity : ℕ
bytes_capacity = 2048

-- An element of an array; outside it, its value is not used.
abbrev pub byte_at : List ℕ → ℕ → ℕ
byte_at [] i = 0
byte_at (b ∷ bytes) zero = b
byte_at (b ∷ bytes) (suc i) = byte_at bytes i

unfoldable pub has_byte_order_mark : List ℕ → Bool
has_byte_order_mark bytes =
    leb 3 (length bytes)
    && byte_at bytes 0 == 0xEF
    && byte_at bytes 1 == 0xBB
    && byte_at bytes 2 == 0xBF

-- `memmove (bytes, bytes + 3, bytes_read - 2)`
unfoldable pub strip_mark : List ℕ → List ℕ
unfolding has_byte_order_mark
strip_mark bytes = if has_byte_order_mark bytes then drop 3 bytes else bytes

unfoldable pub is_line_end : ℕ → Bool
is_line_end b = b == b'\r' || b == b'\n'

-- The loop that takes line ends off the end: the value of `bytes_read` after it.
unfoldable pub trimmed_length : List ℕ → ℕ → ℕ
unfolding is_line_end
trimmed_length bytes zero = zero
trimmed_length bytes (suc bytes_read) =
    let shorter = trimmed_length bytes bytes_read in
    if is_line_end (byte_at bytes bytes_read) then shorter else suc bytes_read

unfoldable pub trim_line_ends : List ℕ → List ℕ
trim_line_ends bytes = take (trimmed_length bytes (length bytes)) bytes

-- A string ends at its first zero.
unfoldable pub c_string : List ℕ → List ℕ
c_string [] = []
c_string (b ∷ bytes) = if b == 0 then [] else b ∷ c_string bytes

module _ {P F : Type 0} ⦃ss : Session P⦄ ⦃fs : Files F⦄ where
  -- `none` is the result false. A file that cannot be opened counts as empty.
  unfoldable pub read_arguments_file : Text → ℕ → P → F → Option Text × P × F
  read_arguments_file path buffer_count s f =
      let (file, f1) = fs.open_file path f in
      elim file [
        | open_error code ↦ (some [], s, f1)
        | opened h ↦
            (let ((read, bytes), f2) = fs.read_file h (bytes_capacity - 1) f1 in
              let f3 = fs.close_file h f2 in
              let (text, s1) =
                ss.multi_byte_to_wide (c_string (trim_line_ends (strip_mark bytes))) buffer_count
                  s in
              if read then (text, s1, f3) else (none, s, f3))
      ]
