-- ===== src/Machine/Disk.antt =====
-- Files as whole byte strings, one of them open for writing and one for reading. No call fails but
-- the opening of a file that is not there.
use browser_guard.Prelude.{
  ℕ, ◌/◌, ◌%◌, ◌≡◌, ◌≢◌, refl, sym, true, Option, none, some, List, [], ◌++◌, arith, Text, text_eq,
  text_eq_refl, text_eq_sound, Bool-cases, inl, inr, if◌then◌else◌, length, take, drop,
}
use browser_guard.Windows.{Files, opened, open_error}
use browser_guard.Windows.Laws.{FileLaws}

pub record Disk : Type 0 where
  pub stored : Text → Option (List ℕ)
  pub written : Text
  pub rest : List ℕ

unfoldable pub put : Text → Option (List ℕ) → (Text → Option (List ℕ)) → Text → Option (List ℕ)
put p bytes stored q = if text_eq p q then bytes else stored q

put_self :
    (p : Text) (bytes : Option (List ℕ)) (stored : Text → Option (List ℕ))
    → put p bytes stored p ≡ bytes
unfolding put
put_self p bytes stored = rw (text_eq_refl p) refl

put_other :
    (p q : Text) (bytes : Option (List ℕ)) (stored : Text → Option (List ℕ))
    → q ≢ p
    → put p bytes stored q ≡ stored q
unfolding put
put_other p q bytes stored d = elim (Bool-cases (text_eq p q)) [
  | inl e ↦ absurd (d (sym (text_eq_sound p q e)))
  | inr e ↦ rw e refl
]

instance unfoldable pub disk_files : Files Disk
disk_files = record {
  delete_file = λ p s. (true, record s { stored = put p none s.stored });
  create_file = λ p s. (some 1, record s { stored = put p (some []) s.stored; written = p });
  write_file = λ h bytes s. (
    (true, length bytes),
    record s {
      stored =
          put s.written (elim (s.stored s.written) [ none ↦ none | some old ↦ some (old ++ bytes) ])
            s.stored;
    },
  );
  flush_file = λ h s. (true, s);
  close_file = λ h s. s;
  move_file = λ p q s. (true, record s { stored = put q (s.stored p) s.stored });
  open_file = λ p s. elim (s.stored p) [
    | none ↦ (open_error 2, s)
    | some bytes ↦ (opened 1, record s { rest = bytes })
  ];
  read_file = λ h n s. ((true, take n s.rest), record s { rest = drop n s.rest });
  file_attributes = λ p s. ((elim (s.stored p) [ none ↦ none | some bytes ↦ some 128 ]), s);
}

open_keeps : (p q : Text) (s : Disk) → (disk_files.open_file p s).1.stored q ≡ s.stored q
unfolding disk_files
open_keeps p q s = ground arith

attributes_of :
    (p : Text) (s : Disk) (a : ℕ) (bs : List ℕ)
    → (disk_files.file_attributes p s).0 ≡ some a
    → s.stored p ≡ some bs
    → a / 16 % 2 ≡ 0
unfolding disk_files
attributes_of p s a bs e c = ground arith

pub disk_laws : FileLaws disk_files
unfolding disk_files put
disk_laws = record {
  contents = λ s p. s.stored p;
  writes_to = λ s h. some s.written;
  unread = λ s h. some s.rest;
  delete_self = λ p s e. put_self p none s.stored;
  delete_failed = λ p s e. cc;
  delete_other = λ p q s d. put_other p q none s.stored d;
  create_self = λ p s h e. (put_self p (some []) s.stored, refl);
  create_failed = λ p q s e. cc;
  create_other = λ p q s d. put_other p q (some []) s.stored d;
  write_self = λ h bs old p s w c e. ground (arith, put_self p (some (old ++ bs)) s.stored);
  write_handle = λ h bs s. refl;
  write_other = λ h bs p q s w d. ground (
    arith,
    put_other p q (elim (s.stored s.written) [ none ↦ none | some old ↦ some (old ++ bs) ]) s.stored
        d,
  );
  flush_same = λ h q s. refl;
  close_same = λ h q s. refl;
  move_target = λ p q s e. put_self q (s.stored p) s.stored;
  move_failed = λ p q s e. cc;
  open_same = open_keeps;
  read_same = λ h n q s. refl;
  open_self = λ p s h e. ground arith;
  read_bytes = λ h n bs s u e. ground arith;
  attributes_same = λ p q s. refl;
  attributes_file = λ p s a bs e c. attributes_of p s a bs e c;
}

pub disk_contents : (s : Disk) (p : Text) → disk_laws.contents s p ≡ s.stored p
unfolding disk_laws
disk_contents s p = refl
