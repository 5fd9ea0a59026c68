-- ===== src/Journal/Entries.antt =====
-- The records of a journal as a finite map from process ids, and what the operations of
-- src/recovery_journal.c do to it.
use browser_guard.Prelude.{
  ℕ, ◌≤◌, ◌<◌, ◌^◌, ◌≡◌, refl, true, false, Option, none, some, List, [], ◌∷◌, ◌++◌, arith, inl,
  inr, Bool-cases, ◌==◌, if◌then◌else◌, Text, length, replicate, All, All-append, All-take,
  All-replicate, length-append, length-replicate, length-take_le,
}
use browser_guard.Journal.Layout.{BgRecoveryRecord, max_path, max_recovery_records, wide_buffer}
use browser_guard.Journal.Roundtrip.{IsWellFormed}
use browser_guard.Journal.{BgRecoveryJournal}
use browser_guard.Journal.Register.{has_pid, remove_pid}

-- The first record of a process.
unfoldable pub find_record : ℕ → List BgRecoveryRecord → Option BgRecoveryRecord
find_record pid [] = none
find_record pid (r ∷ rs) = if r.pid == pid then some r else find_record pid rs

-- No process has two records.
abbrev pub Distinct : List BgRecoveryRecord → Type 0
Distinct [] = Unit {0}
Distinct (r ∷ rs) = (has_pid r.pid rs ≡ false) × Distinct rs

-- The journal's array holds at most one record of a process, and each fits its C structure.
pub record IsSound (j : BgRecoveryJournal) : Type 0 where
  pub distinct : Distinct j.records
  pub bounded : length j.records ≤ max_recovery_records
  pub well_formed : All IsWellFormed j.records

pub has_pid-find_record :
    (pid : ℕ) (rs : List BgRecoveryRecord)
    → has_pid pid rs ≡ true
    → (r : BgRecoveryRecord) × (find_record pid rs ≡ some r)
unfolding has_pid find_record
has_pid-find_record pid [] h = cc
has_pid-find_record pid (r ∷ rs) h = elim (Bool-cases (r.pid == pid)) [
  | inl e ↦ (r, rw (e, find_record))
  | inr e ↦
      let (x, found) = has_pid-find_record pid rs (ground arith) in (x, rw (e, find_record) found)
]

pub find_record-has_pid :
    (pid : ℕ) (rs : List BgRecoveryRecord) → has_pid pid rs ≡ false → find_record pid rs ≡ none
unfolding has_pid find_record
find_record-has_pid pid [] h = refl
find_record-has_pid pid (r ∷ rs) h = ground (arith, find_record-has_pid pid rs)

pub find_record-pid :
    (pid : ℕ) (rs : List BgRecoveryRecord) (r : BgRecoveryRecord)
    → find_record pid rs ≡ some r
    → r.pid ≡ pid
unfolding find_record
find_record-pid pid [] r h = cc
find_record-pid pid (x ∷ rs) r h = ground (arith, find_record-pid pid rs r)

-- Appending a record of a new process.
pub has_pid-append :
    (pid : ℕ) (rs : List BgRecoveryRecord) (r : BgRecoveryRecord)
    → has_pid pid (rs ++ r ∷ []) ≡ (if r.pid == pid then true else has_pid pid rs)
unfolding has_pid
has_pid-append pid [] r = ground arith
has_pid-append pid (x ∷ rs) r = ground (arith, has_pid-append pid rs r)

pub Distinct-append :
    (rs : List BgRecoveryRecord) (r : BgRecoveryRecord)
    → has_pid r.pid rs ≡ false
    → Distinct rs
    → Distinct (rs ++ r ∷ [])
unfolding has_pid
Distinct-append [] r h d = (refl, tt)
Distinct-append (x ∷ rs) r h d =
    (ground (arith, has_pid-append x.pid rs r), Distinct-append rs r (ground arith) d.1)

-- Removing the record of a process.
pub has_pid-remove_pid :
    (pid q : ℕ) (rs : List BgRecoveryRecord)
    → Distinct rs
    → has_pid q (remove_pid pid rs) ≡ (if pid == q then false else has_pid q rs)
unfolding has_pid remove_pid
has_pid-remove_pid pid q [] d = ground arith
has_pid-remove_pid pid q (x ∷ rs) d = ground (arith, has_pid-remove_pid pid q rs d.1)

pub Distinct-remove_pid :
    (pid : ℕ) (rs : List BgRecoveryRecord) → Distinct rs → Distinct (remove_pid pid rs)
unfolding remove_pid
Distinct-remove_pid pid [] d = tt
Distinct-remove_pid pid (x ∷ rs) d =
    ground (arith, has_pid-remove_pid pid x.pid rs d.1, Distinct-remove_pid pid rs d.1)

pub length-remove_pid :
    (pid : ℕ) (rs : List BgRecoveryRecord) → length (remove_pid pid rs) ≤ length rs
unfolding remove_pid
length-remove_pid pid [] = omega arith
length-remove_pid pid (x ∷ rs) = ground (arith, length-remove_pid pid rs)

pub All-remove_pid {ℓ} :
    (Q : BgRecoveryRecord → Type ℓ) (pid : ℕ) (rs : List BgRecoveryRecord)
    → All Q rs
    → All Q (remove_pid pid rs)
unfolding remove_pid
All-remove_pid Q pid [] h = tt
All-remove_pid Q pid (x ∷ rs) h = elim (Bool-cases (x.pid == pid)) [
  | inl e ↦ rw (e, remove_pid) h.1
  | inr e ↦ rw (e, remove_pid) (h.0, All-remove_pid Q pid rs h.1)
]

-- What is found after a removal was there before.
pub find_record-remove_pid :
    (pid q : ℕ) (rs : List BgRecoveryRecord) (r : BgRecoveryRecord)
    → Distinct rs
    → find_record q (remove_pid pid rs) ≡ some r
    → find_record q rs ≡ some r
unfolding find_record remove_pid
find_record-remove_pid pid q [] r d h = h
find_record-remove_pid pid q (x ∷ rs) r d h =
    ground (arith, find_record-remove_pid pid q rs r d.1, find_record-has_pid x.pid rs d.0)

pub wide_buffer-fits :
    (path : Text)
    → All (λ c. c < 2 ^ 16) path
    → (length (wide_buffer path) ≡ max_path) × All (λ c. c < 2 ^ 16) (wide_buffer path)
unfolding wide_buffer
wide_buffer-fits path h = (
  length-take_le max_path (path ++ replicate max_path 0) (
      omega
        (arith, length-append path (replicate max_path 0), length-replicate {A = ℕ} max_path 0)),
  All-take (λ c. c < 2 ^ 16) max_path (path ++ replicate max_path 0)
      (All-append (λ c. c < 2 ^ 16) path (replicate max_path 0) h
        (All-replicate (λ c. c < 2 ^ 16) max_path 0 (omega arith))),
)
