-- ===== src/Windows/Laws.antt =====
-- The documented behaviour of the Windows calls that theorems rely on. Each record names what it
-- observes of an abstract state (the contents of files, how often a process stands suspended) and
-- states what a call does to it. No call is assumed to succeed.
use browser_guard.Prelude.{
  ℕ, ◌+◌, ◌-◌, ◌/◌, ◌%◌, ◌≤◌, ◌≡◌, ◌≢◌, Bool, true, false, Option, none, some, List, [], ◌++◌, Text,
  length, take, All, dword_mod, ◌<◌, ◌^◌, drop,
}
use browser_guard.Windows.{Files, Processes, Handle, FileTime, opened}

pub record FileLaws {F : Type 0} (fs : Files F) : Type 0 where
  -- The bytes of the file at a path; the path that a handle writes to; what is left to read.
  pub contents : F → Text → Option (List ℕ)
  pub writes_to : F → ℕ → Option Text
  pub unread : F → ℕ → Option (List ℕ)
  -- A file is removed or it is left.
  pub delete_self :
      (p : Text) (s : F) → (fs.delete_file p s).0 ≡ true → contents (fs.delete_file p s).1 p ≡ none
  pub delete_failed :
      (p : Text) (s : F)
      → (fs.delete_file p s).0 ≡ false
      → contents (fs.delete_file p s).1 p ≡ contents s p
  pub delete_other : (p q : Text) (s : F) → q ≢ p → contents (fs.delete_file p s).1 q ≡ contents s q
  -- A created file is empty, and no other changes.
  pub create_self :
      (p : Text) (s : F) (h : ℕ)
      → (fs.create_file p s).0 ≡ some h
      → (contents (fs.create_file p s).1 p ≡ some [])
        × (writes_to (fs.create_file p s).1 h ≡ some p)
  pub create_failed :
      (p q : Text) (s : F)
      → (fs.create_file p s).0 ≡ none
      → contents (fs.create_file p s).1 q ≡ contents s q
  pub create_other : (p q : Text) (s : F) → q ≢ p → contents (fs.create_file p s).1 q ≡ contents s q
  -- A full write appends, and any write changes no other file.
  pub write_self :
      (h : ℕ) (bs old : List ℕ) (p : Text) (s : F)
      → writes_to s h ≡ some p
      → contents s p ≡ some old
      → (fs.write_file h bs s).0 ≡ (true, length bs)
      → contents (fs.write_file h bs s).1 p ≡ some (old ++ bs)
  pub write_handle :
      (h : ℕ) (bs : List ℕ) (s : F) → writes_to (fs.write_file h bs s).1 h ≡ writes_to s h
  pub write_other :
      (h : ℕ) (bs : List ℕ) (p q : Text) (s : F)
      → writes_to s h ≡ some p
      → q ≢ p
      → contents (fs.write_file h bs s).1 q ≡ contents s q
  pub flush_same : (h : ℕ) (q : Text) (s : F) → contents (fs.flush_file h s).1 q ≡ contents s q
  pub close_same : (h : ℕ) (q : Text) (s : F) → contents (fs.close_file h s) q ≡ contents s q
  -- A move replaces the target or leaves it.
  pub move_target :
      (p q : Text) (s : F)
      → (fs.move_file p q s).0 ≡ true
      → contents (fs.move_file p q s).1 q ≡ contents s p
  pub move_failed :
      (p q : Text) (s : F)
      → (fs.move_file p q s).0 ≡ false
      → contents (fs.move_file p q s).1 q ≡ contents s q
  pub open_same : (p q : Text) (s : F) → contents (fs.open_file p s).1 q ≡ contents s q
  pub read_same : (h n : ℕ) (q : Text) (s : F) → contents (fs.read_file h n s).1 q ≡ contents s q
  -- An opened file is read from its start, and a file that is not there gives one of two errors.
  pub open_self :
      (p : Text) (s : F) (h : ℕ)
      → (fs.open_file p s).0 ≡ opened h
      → unread (fs.open_file p s).1 h ≡ contents s p
  pub read_bytes :
      (h n : ℕ) (bs : List ℕ) (s : F)
      → unread s h ≡ some bs
      → (fs.read_file h n s).0.0 ≡ true
      → ((fs.read_file h n s).0.1 ≡ take n bs)
        × (unread (fs.read_file h n s).1 h ≡ some (drop n bs))
  -- The attributes of a file, which is no directory.
  pub attributes_same : (p q : Text) (s : F) → contents (fs.file_attributes p s).1 q ≡ contents s q
  pub attributes_file :
      (p : Text) (s : F) (a : ℕ) (bs : List ℕ)
      → (fs.file_attributes p s).0 ≡ some a
      → contents s p ≡ some bs
      → a / 16 % 2 ≡ 0

-- Between two states nothing was suspended and no process was told to resume: what every call but
-- NtSuspendProcess and NtResumeProcess does. A process may end at any call.
pub record Quiet {P : Type 0} (suspensions resumes : P → ℕ → ℕ) (s s' : P) : Type 0 where
  pub no_more : (pid : ℕ) → suspensions s' pid ≤ suspensions s pid
  pub no_resume : (pid : ℕ) → resumes s' pid ≡ resumes s pid

pub record ProcessLaws {P : Type 0} (ps : Processes P) : Type 0 where
  -- How many suspensions of a process have not been undone, and how often it was told to resume.
  pub suspensions : P → ℕ → ℕ
  pub resumes : P → ℕ → ℕ
  pub open_target :
      (access pid : ℕ) (s : P) (h : Handle)
      → (ps.open_process access pid s).0 ≡ some h
      → h.target ≡ pid
  -- A suspension counts one for its process, and only if it succeeds.
  pub suspend_self :
      (h : Handle) (s : P)
      → suspensions (ps.nt_suspend_process h s).1 h.target ≤ suspensions s h.target + 1
  pub suspend_failed :
      (h : Handle) (s : P)
      → (ps.nt_suspend_process h s).0 ≡ false
      → suspensions (ps.nt_suspend_process h s).1 h.target ≤ suspensions s h.target
  pub suspend_other :
      (h : Handle) (pid : ℕ) (s : P)
      → pid ≢ h.target
      → suspensions (ps.nt_suspend_process h s).1 pid ≤ suspensions s pid
  pub suspend_no_resume :
      (h : Handle) (pid : ℕ) (s : P) → resumes (ps.nt_suspend_process h s).1 pid ≡ resumes s pid
  -- A resumption that succeeds takes one away, and none adds one.
  pub resume_self :
      (h : Handle) (s : P)
      → (ps.nt_resume_process h s).0 ≡ true
      → suspensions (ps.nt_resume_process h s).1 h.target ≤ suspensions s h.target - 1
  pub resume_no_more :
      (h : Handle) (pid : ℕ) (s : P)
      → suspensions (ps.nt_resume_process h s).1 pid ≤ suspensions s pid
  pub resume_other :
      (h : Handle) (pid : ℕ) (s : P)
      → pid ≢ h.target
      → resumes (ps.nt_resume_process h s).1 pid ≡ resumes s pid
  -- The other calls.
  pub open_quiet :
      (access pid : ℕ) (s : P) → Quiet suspensions resumes s (ps.open_process access pid s).1
  pub close_quiet : (h : Handle) (s : P) → Quiet suspensions resumes s (ps.close_handle h s)
  pub times_quiet : (h : Handle) (s : P) → Quiet suspensions resumes s (ps.process_times h s).1
  pub session_quiet : (pid : ℕ) (s : P) → Quiet suspensions resumes s (ps.session_of pid s).1
  pub image_quiet :
      (h : Handle) (n : ℕ) (s : P) → Quiet suspensions resumes s (ps.image_name h n s).1
  pub token_quiet : (h : Handle) (s : P) → Quiet suspensions resumes s (ps.open_token h s).1
  pub user_quiet : (h : Handle) (s : P) → Quiet suspensions resumes s (ps.token_user h s).1
  pub module_quiet : (name : Text) (s : P) → Quiet suspensions resumes s (ps.has_module name s).1
  pub proc_quiet :
      (lib name : Text) (s : P) → Quiet suspensions resumes s (ps.has_proc lib name s).1
  pub priority_quiet :
      (h : Handle) (low : Bool) (s : P)
      → Quiet suspensions resumes s (ps.set_memory_priority h low s)
  pub throttling_quiet :
      (h : Handle) (on : Bool) (s : P)
      → Quiet suspensions resumes s (ps.set_power_throttling h on s)
  pub trim_quiet : (h : Handle) (s : P) → Quiet suspensions resumes s (ps.empty_working_set h s).1
  pub alloc_quiet : (n : ℕ) (s : P) → Quiet suspensions resumes s (ps.heap_alloc n s).1
  pub sleep_quiet : (ms : ℕ) (s : P) → Quiet suspensions resumes s (ps.sleep ms s)

-- What the queries tell of a process, while processes keep their identities: its creation time,
-- session, image path and user, and who this program runs as. A query may fail.
pub record IdentityLaws {P : Type 0} (ps : Processes P) : Type 0 where
  pub created : ℕ → FileTime
  pub session : ℕ → ℕ
  pub image : ℕ → Text
  pub user : ℕ → List ℕ
  pub self : ℕ
  pub open_target :
      (access pid : ℕ) (s : P) (h : Handle)
      → (ps.open_process access pid s).0 ≡ some h
      → h.target ≡ pid
  pub current_id : (s : P) → ps.current_process_id s ≡ self
  pub current_handle : (s : P) → (ps.current_process s).target ≡ self
  pub times_tell :
      (h : Handle) (s : P) (t : FileTime) → (ps.process_times h s).0 ≡ some t → t ≡ created h.target
  pub session_tells : (pid : ℕ) (s : P) (n : ℕ) → (ps.session_of pid s).0 ≡ some n → n ≡ session pid
  pub image_tells :
      (h : Handle) (n : ℕ) (s : P) (path : Text)
      → (ps.image_name h n s).0 ≡ some path
      → path ≡ image h.target
  pub token_target : (h t : Handle) (s : P) → (ps.open_token h s).0 ≡ some t → t.target ≡ h.target
  pub user_tells :
      (t : Handle) (s : P) (sid : List ℕ) → (ps.token_user t s).0 ≡ some sid → sid ≡ user t.target

-- The results of queries fit their C types and buffers.
pub record ProcessRanges {P : Type 0} (ps : Processes P) : Type 0 where
  pub times_fit :
      (h : Handle) (s : P) (t : FileTime)
      → (ps.process_times h s).0 ≡ some t
      → (t.low < dword_mod) × (t.high < dword_mod)
  pub session_fits : (pid : ℕ) (s : P) (n : ℕ) → (ps.session_of pid s).0 ≡ some n → n < dword_mod
  pub image_fits :
      (h : Handle) (n : ℕ) (s : P) (path : Text)
      → (ps.image_name h n s).0 ≡ some path
      → (length path < n) × All (λ c. c < 2 ^ 16) path

-- The process can be opened, and no query fails: 2 ^ 15 units hold any path.
pub record Answers {P : Type 0} (ps : Processes P) (pid : ℕ) : Type 0 where
  pub opens : (access : ℕ) (s : P) → (h : Handle) × ((ps.open_process access pid s).0 ≡ some h)
  pub times : (h : Handle) (s : P) → (t : FileTime) × ((ps.process_times h s).0 ≡ some t)
  pub sessions : (id : ℕ) (s : P) → (n : ℕ) × ((ps.session_of id s).0 ≡ some n)
  pub images :
      (h : Handle) (n : ℕ) (s : P)
      → 2 ^ 15 ≤ n
      → (path : Text) × ((ps.image_name h n s).0 ≡ some path)
  pub tokens : (h : Handle) (s : P) → (t : Handle) × ((ps.open_token h s).0 ≡ some t)
  pub users : (t : Handle) (s : P) → (sid : List ℕ) × ((ps.token_user t s).0 ≡ some sid)
