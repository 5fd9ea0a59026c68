-- ===== src/Journal/Layout.antt =====
-- The bytes of a journal file: `BgRecoveryFileHeader` and an array of `BgRecoveryRecord`, as the
-- structures of src/recovery_journal.c and include/recovery_journal.h lie in memory on Windows x64,
-- least byte first. A record takes 4 + 8 + 4 + 2 * MAX_PATH bytes, with no padding.
use browser_guard.Prelude.{
  ℕ, zero, suc, ◌+◌, ◌*◌, ◌/◌, ◌%◌, ◌^◌, List, [], ◌∷◌, ◌++◌, ◌==◌, if◌then◌else◌, Text, take, drop,
  replicate,
}
use browser_guard.Windows.{FileTime}

abbrev pub max_path : ℕ
max_path = 260

abbrev pub max_recovery_records : ℕ
max_recovery_records = 512

-- `executable_path` is the buffer of MAX_PATH units.
pub record BgRecoveryRecord : Type 0 where
  pub pid : ℕ
  pub creation_time : FileTime
  pub session_id : ℕ
  pub executable_path : List ℕ

abbrev pub recovery_magic : ℕ
recovery_magic = 0x4252474A

abbrev pub recovery_version : ℕ
recovery_version = 1

abbrev pub header_size : ℕ
header_size = 12

abbrev pub record_size : ℕ
record_size = 536

-- The text in a zero-terminated buffer, and a zeroed buffer with a text at its start.
unfoldable pub wide_string : List ℕ → Text
wide_string [] = []
wide_string (c ∷ cs) = if c == 0 then [] else c ∷ wide_string cs

unfoldable pub wide_buffer : Text → List ℕ
wide_buffer s = take max_path (s ++ replicate max_path 0)

unfoldable pub dword_bytes : ℕ → List ℕ
dword_bytes n = (n % 256) ∷ (n / 2 ^ 8 % 256) ∷ (n / 2 ^ 16 % 256) ∷ (n / 2 ^ 24 % 256) ∷ []

unfoldable pub unit_bytes : List ℕ → List ℕ
unit_bytes [] = []
unit_bytes (c ∷ cs) = (c % 256) ∷ (c / 256 % 256) ∷ unit_bytes cs

unfoldable pub record_bytes : BgRecoveryRecord → List ℕ
unfolding dword_bytes unit_bytes
record_bytes r =
    dword_bytes r.pid
    ++ (dword_bytes r.creation_time.low
        ++ (dword_bytes r.creation_time.high
            ++ (dword_bytes r.session_id ++ unit_bytes r.executable_path)))

unfoldable pub records_bytes : List BgRecoveryRecord → List ℕ
unfolding record_bytes
records_bytes [] = []
records_bytes (r ∷ rs) = record_bytes r ++ records_bytes rs

unfoldable pub header_bytes : ℕ → List ℕ
unfolding dword_bytes
header_bytes record_count =
    dword_bytes recovery_magic ++ (dword_bytes recovery_version ++ dword_bytes record_count)

-- Reading the same memory back.
unfoldable pub dword_at : List ℕ → ℕ
dword_at (a ∷ b ∷ c ∷ d ∷ bs) = a + b * 2 ^ 8 + c * 2 ^ 16 + d * 2 ^ 24
dword_at _ = 0

unfoldable pub units_at : ℕ → List ℕ → List ℕ
units_at zero bs = []
units_at (suc n) (a ∷ b ∷ bs) = (a + b * 256) ∷ units_at n bs
units_at (suc n) _ = []

unfoldable pub decode_record : List ℕ → BgRecoveryRecord
unfolding dword_at units_at
decode_record bs = record {
  pid = dword_at bs;
  creation_time = record { low = dword_at (drop 4 bs); high = dword_at (drop 8 bs) };
  session_id = dword_at (drop 12 bs);
  executable_path = units_at max_path (drop 16 bs);
}

unfoldable pub decode_records : ℕ → List ℕ → List BgRecoveryRecord
unfolding decode_record
decode_records zero bs = []
decode_records (suc n) bs = decode_record bs ∷ decode_records n (drop record_size bs)
