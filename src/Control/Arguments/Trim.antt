-- ===== src/Control/Arguments/Trim.antt =====
-- The byte order mark and the line ends of the arguments file, in `read_arguments_file` of
-- src/control_main.c.
use browser_guard.Prelude.{
  ℕ, zero, suc, ◌+◌, ◌-◌, ◌≤◌, ◌<◌, ◌≡◌, ◌≢◌, refl, ap, sym, ◌∙◌, Bool, true, false, some, List, [],
  ◌∷◌, ◌++◌, arith, inl, inr, Bool-cases, Text, length, All, length-append, take-append, ◌==◌,
  take_short, leb, leb→le, subst,
}
use browser_guard.Windows.{Files, opened}
use browser_guard.Windows.Laws.{FileLaws}
use browser_guard.Windows.Session.{Session}
use browser_guard.Control.Arguments.{
  bytes_capacity, byte_at, has_byte_order_mark, strip_mark, is_line_end, trimmed_length,
  trim_line_ends, c_string, read_arguments_file,
}

abbrev pub AreLineEnds : List ℕ → Type 0
AreLineEnds = All (λ b. is_line_end b ≡ true)

-- The last byte, if there is one, is no line end.
abbrev pub EndsInText : List ℕ → Type 0
EndsInText [] = Unit
EndsInText (b ∷ []) = is_line_end b ≡ false
EndsInText (b ∷ c ∷ s) = EndsInText (c ∷ s)

abbrev pub HasNoZero : List ℕ → Type 0
HasNoZero = All (λ b. b ≢ 0)

byte_at-AreLineEnds :
    (ends : List ℕ) (n : ℕ)
    → n < length ends
    → AreLineEnds ends
    → is_line_end (byte_at ends n) ≡ true
byte_at-AreLineEnds [] n h are = absurd (omega arith)
byte_at-AreLineEnds (b ∷ ends) zero h are = are.0
byte_at-AreLineEnds (b ∷ ends) (suc n) h are = byte_at-AreLineEnds ends n (omega arith) are.1

byte_behind :
    (text ends : List ℕ) (n : ℕ)
    → length text ≤ n
    → n < length text + length ends
    → AreLineEnds ends
    → is_line_end (byte_at (text ++ ends) n) ≡ true
byte_behind [] ends n h k are = byte_at-AreLineEnds ends n (omega arith) are
byte_behind (b ∷ text) ends zero h k are = absurd (omega arith)
byte_behind (b ∷ text) ends (suc n) h k are =
    byte_behind text ends n (omega arith) (omega arith) are

last_byte :
    (b : ℕ) (text ends : List ℕ)
    → EndsInText (b ∷ text)
    → is_line_end (byte_at ((b ∷ text) ++ ends) (length text)) ≡ false
last_byte b [] ends h = h
last_byte b (c ∷ text) ends h = last_byte c text ends h

trimmed_length-line_end :
    (bytes : List ℕ) (n : ℕ)
    → is_line_end (byte_at bytes n) ≡ true
    → trimmed_length bytes (suc n) ≡ trimmed_length bytes n
unfolding trimmed_length
trimmed_length-line_end bytes n e = rw e refl

trimmed_length-text :
    (text ends : List ℕ)
    → EndsInText text
    → trimmed_length (text ++ ends) (length text) ≡ length text
unfolding trimmed_length
trimmed_length-text [] ends h = refl
trimmed_length-text (b ∷ text) ends h = rw (last_byte b text ends h) refl

trimmed_length-from :
    (text ends : List ℕ) (n : ℕ)
    → length text ≤ n
    → n ≤ length text + length ends
    → EndsInText text
    → AreLineEnds ends
    → trimmed_length (text ++ ends) n ≡ length text
trimmed_length-from text ends zero h k last are =
    let e : 0 ≡ length text = omega arith in
    subst (λ n. trimmed_length (text ++ ends) n ≡ length text) (sym e)
      (trimmed_length-text text ends last)
trimmed_length-from text ends (suc n) h k last are = elim (Bool-cases (leb (length text) n)) [
  | inl e ↦
      let behind : length text ≤ n = leb→le (length text) n e in
      trimmed_length-line_end (text ++ ends) n (byte_behind text ends n behind (omega arith) are)
      ∙ trimmed_length-from text ends n behind (omega arith) last are
  | inr e ↦
      let whole : length text ≡ suc n = ground arith in
      subst (λ m. trimmed_length (text ++ ends) m ≡ length text) whole
        (trimmed_length-text text ends last)
]

pub trim_line_ends-append :
    (text ends : List ℕ) → EndsInText text → AreLineEnds ends → trim_line_ends (text ++ ends) ≡ text
unfolding trim_line_ends
trim_line_ends-append text ends last are =
    rw
      (trimmed_length-from text ends (length (text ++ ends))
        (omega (arith, length-append text ends)) (omega (arith, length-append text ends)) last are)
      (take-append (length text) text ends refl)

c_string_all : (text : List ℕ) → HasNoZero text → c_string text ≡ text
unfolding c_string
c_string_all [] h = refl
c_string_all (b ∷ text) h =
    let e : (b == 0) ≡ false = ground (arith, h.0) in rw e (ap (◌∷◌ b) (c_string_all text h.1))

-- The file of a text with a byte order mark or without one, and with line ends.
abbrev pub mark : Bool → List ℕ
mark true = 0xEF ∷ 0xBB ∷ 0xBF ∷ []
mark false = []

marked_lem : (bytes : List ℕ) → has_byte_order_mark (mark true ++ bytes) ≡ true
unfolding has_byte_order_mark
marked_lem bytes = ground arith

strip_mark-mark :
    (marked : Bool) (bytes : List ℕ)
    → (marked ≡ false → has_byte_order_mark bytes ≡ false)
    → strip_mark (mark marked ++ bytes) ≡ bytes
unfolding strip_mark
strip_mark-mark true bytes h = rw (marked_lem bytes) refl
strip_mark-mark false bytes h = rw (h refl) refl

module _ {P F : Type 0} ⦃ss : Session P⦄ ⦃fs : Files F⦄ (laws : FileLaws fs) where
  -- The arguments are the text of the file, whether it begins with a byte order mark or not and
  -- whatever line ends stand at its end, converted from UTF-8: if the file can be opened and read and
  -- has 2047 bytes at most, the text has no zero byte and does not itself end in a line end, and what
  -- follows the mark that is not there is not one.
  pub read_arguments_file-text :
      (path : Text) (buffer_count : ℕ) (s : P) (f : F) (h : ℕ) (marked : Bool) (text ends : List ℕ)
      → laws.contents f path ≡ some (mark marked ++ (text ++ ends))
      → (fs.open_file path f).0 ≡ opened h
      → (fs.read_file h (bytes_capacity - 1) (fs.open_file path f).1).0.0 ≡ true
      → length (mark marked ++ (text ++ ends)) < bytes_capacity
      → HasNoZero text
      → EndsInText text
      → AreLineEnds ends
      → (marked ≡ false → has_byte_order_mark (text ++ ends) ≡ false)
      → (read_arguments_file path buffer_count s f).0
        ≡ (ss.multi_byte_to_wide text buffer_count s).0
  unfolding read_arguments_file
  read_arguments_file-text path buffer_count s f h marked text ends stored opens reads fits no_zero
        last are unmarked =
      let f1 = (fs.open_file path f).1 in
      let whole = mark marked ++ (text ++ ends) in
      let bytes : (fs.read_file h (bytes_capacity - 1) f1).0.1 ≡ whole =
        (laws.read_bytes h (bytes_capacity - 1) whole f1 (laws.open_self path f h opens ∙ stored)
          reads).0
        ∙ take_short (bytes_capacity - 1) whole (omega arith) in
      let argument : c_string (trim_line_ends (strip_mark whole)) ≡ text =
        ap (λ b. c_string (trim_line_ends b)) (strip_mark-mark marked (text ++ ends) unmarked)
        ∙ ap c_string (trim_line_ends-append text ends last are)
        ∙ c_string_all text no_zero in
      rw (opens, read_arguments_file) (rw (reads, bytes, argument) refl)
