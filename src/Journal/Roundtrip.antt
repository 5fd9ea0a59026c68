-- ===== src/Journal/Roundtrip.antt =====
-- The bytes that src/recovery_journal.c writes, read back.
use browser_guard.Prelude.{
  ℕ, ◌+◌, ◌*◌, ◌^◌, ◌<◌, ◌≡◌, refl, subst, ◌%◌, ◌/◌, List, [], ◌∷◌, ◌++◌, arith, length, All,
  dword_mod, length-append, drop-append,
}
use mathlib.Core.List.{append_assoc}
use mathlib.Core.Path.{ap₂}
use browser_guard.Journal.Layout.{
  BgRecoveryRecord, max_path, header_size, record_size, dword_bytes, unit_bytes, record_bytes,
  records_bytes, header_bytes, dword_at, units_at, decode_record, decode_records,
}

-- The values fit the fields of the C structure.
pub record IsWellFormed (r : BgRecoveryRecord) : Type 0 where
  pub pid_fits : r.pid < dword_mod
  pub low_fits : r.creation_time.low < dword_mod
  pub high_fits : r.creation_time.high < dword_mod
  pub session_fits : r.session_id < dword_mod
  pub path_length : length r.executable_path ≡ max_path
  pub units_fit : All (λ c. c < 2 ^ 16) r.executable_path

pub dword_at-dword_bytes :
    (n : ℕ) (rest : List ℕ) → n < dword_mod → dword_at (dword_bytes n ++ rest) ≡ n
unfolding dword_at dword_bytes
dword_at-dword_bytes n rest h = omega arith

units_at-unit_bytes :
    (cs rest : List ℕ)
    → All (λ c. c < 2 ^ 16) cs
    → units_at (length cs) (unit_bytes cs ++ rest) ≡ cs
unfolding units_at unit_bytes
units_at-unit_bytes [] rest h = refl
units_at-unit_bytes (c ∷ cs) rest h =
    let e : c % 256 + c / 256 % 256 * 256 ≡ c = omega arith in
    rw (e, units_at-unit_bytes cs rest h.1)

length-unit_bytes : (cs : List ℕ) → length (unit_bytes cs) ≡ 2 * length cs
unfolding unit_bytes
length-unit_bytes [] = omega arith
length-unit_bytes (c ∷ cs) = omega (arith, length-unit_bytes cs)

pub length-record_bytes :
    (r : BgRecoveryRecord) → IsWellFormed r → length (record_bytes r) ≡ record_size
unfolding record_bytes
length-record_bytes r h = omega (arith, length-unit_bytes r.executable_path)

pub length-header_bytes : (n : ℕ) → length (header_bytes n) ≡ header_size
unfolding header_bytes
length-header_bytes n = refl

decode_record-record_bytes :
    (r : BgRecoveryRecord) (rest : List ℕ)
    → IsWellFormed r
    → decode_record (record_bytes r ++ rest) ≡ r
unfolding decode_record record_bytes
decode_record-record_bytes r rest h = λ i. record {
  pid = dword_at-dword_bytes r.pid [] h.pid_fits i;
  creation_time = record {
    low = dword_at-dword_bytes r.creation_time.low [] h.low_fits i;
    high = dword_at-dword_bytes r.creation_time.high [] h.high_fits i;
  };
  session_id = dword_at-dword_bytes r.session_id [] h.session_fits i;
  executable_path = path i;
}
  where
    path : units_at max_path (unit_bytes r.executable_path ++ rest) ≡ r.executable_path
    path =
        subst (λ n. units_at n (unit_bytes r.executable_path ++ rest) ≡ r.executable_path)
          h.path_length (units_at-unit_bytes r.executable_path rest h.units_fit)

-- The records of an array are read back, whatever stands behind them.
pub decode_records-records_bytes :
    (rs : List BgRecoveryRecord) (rest : List ℕ)
    → All IsWellFormed rs
    → decode_records (length rs) (records_bytes rs ++ rest) ≡ rs
unfolding decode_records records_bytes
decode_records-records_bytes [] rest h = refl
decode_records-records_bytes (r ∷ rs) rest h =
    rw (append_assoc (record_bytes r) (records_bytes rs) rest) (
      ap₂ ◌∷◌ (decode_record-record_bytes r (records_bytes rs ++ rest) h.0) (
        rw
          (drop-append record_size (record_bytes r) (records_bytes rs ++ rest)
            (length-record_bytes r h.0))
          (decode_records-records_bytes rs rest h.1)))

pub length-records_bytes :
    (rs : List BgRecoveryRecord)
    → All IsWellFormed rs
    → length (records_bytes rs) ≡ length rs * record_size
unfolding records_bytes
length-records_bytes [] h = omega arith
length-records_bytes (r ∷ rs) h = omega (
  arith,
  length-append (record_bytes r) (records_bytes rs),
  length-record_bytes r h.0,
  length-records_bytes rs h.1,
)
