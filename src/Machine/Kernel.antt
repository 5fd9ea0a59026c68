-- ===== src/Machine/Kernel.antt =====
-- Processes that differ in their ids only: one user, one session, one image. Every process can be
-- opened, suspended and resumed.
use browser_guard.Prelude.{
  ℕ, ◌+◌, ◌-◌, ◌<◌, ◌^◌, ◌≡◌, refl, true, none, some, [], ◌∷◌, arith, Text, codes, if◌then◌else◌,
  ◌==◌, ltb, All, length, List,
}
use browser_guard.Windows.{Processes, FileTime}
use browser_guard.Windows.Session.{Launch}
use browser_guard.Windows.Laws.{ProcessLaws, IdentityLaws, ProcessRanges, Answers, Quiet}
use browser_guard.Windows.Quiet.{Quiet-refl}

-- How often each process stands suspended, and how often it was told to resume; the clock, the names
-- of events, the command line of this program, the processes and those that it started.
pub record Kernel : Type 0 where
  pub suspended : ℕ → ℕ
  pub resumed : ℕ → ℕ
  pub ticks : ℕ
  pub events : List Text
  pub line : Text
  pub running : List (ℕ × Text)
  pub launched : List Launch

abbrev pub quiet_kernel : Kernel
quiet_kernel = record {
  suspended = λ _. 0;
  resumed = λ _. 0;
  ticks = 0;
  events = [];
  line = [];
  running = [];
  launched = [];
}

abbrev pub process_image : Text
process_image = codes "C:\\chrome.exe"

abbrev pub process_time : FileTime
process_time = record { low = 7; high = 1 }

abbrev pub at : ℕ → ℕ → (ℕ → ℕ) → ℕ → ℕ
at pid n f q = if pid == q then n else f q

instance unfoldable pub kernel_processes : Processes Kernel
kernel_processes = record {
  open_process = λ access pid s. (some (record { target = pid; value = 1 }), s);
  close_handle = λ h s. s;
  current_process_id = λ s. 1;
  current_process = λ s. record { target = 1; value = 0 };
  process_times = λ h s. (some process_time, s);
  session_of = λ pid s. (some 1, s);
  image_name = λ h n s. ((if ltb 13 n then some process_image else none), s);
  open_token = λ h s. (some h, s);
  token_user = λ h s. (some (1 ∷ 5 ∷ []), s);
  has_module = λ name s. (true, s);
  has_proc = λ lib name s. (true, s);
  nt_suspend_process =
      λ h s. (true, record s { suspended = at h.target (s.suspended h.target + 1) s.suspended });
  nt_resume_process = λ h s. (
    true,
    record s {
      suspended = at h.target (s.suspended h.target - 1) s.suspended;
      resumed = at h.target (s.resumed h.target + 1) s.resumed;
    },
  );
  set_memory_priority = λ h low s. s;
  set_power_throttling = λ h on s. s;
  empty_working_set = λ h s. (true, s);
  heap_alloc = λ n s. (true, s);
  sleep = λ ms s. record s { ticks = s.ticks + ms };
}

abbrev IsQuiet : Kernel → Kernel → Type 0
IsQuiet = Quiet (λ s. s.suspended) (λ s. s.resumed)

same : (s : Kernel) → IsQuiet s s
same s = Quiet-refl s

pub kernel_laws : ProcessLaws kernel_processes
unfolding kernel_processes
kernel_laws = record {
  suspensions = λ s. s.suspended;
  resumes = λ s. s.resumed;
  open_target = λ access pid s h e. ground arith;
  suspend_self = λ h s. ground arith;
  suspend_failed = λ h s e. cc;
  suspend_other = λ h pid s d. ground arith;
  suspend_no_resume = λ h pid s. refl;
  resume_self = λ h s e. ground arith;
  resume_no_more = λ h pid s. ground arith;
  resume_other = λ h pid s d. ground arith;
  open_quiet = λ access pid s. same s;
  close_quiet = λ h s. same s;
  times_quiet = λ h s. same s;
  session_quiet = λ pid s. same s;
  image_quiet = λ h n s. same s;
  token_quiet = λ h s. same s;
  user_quiet = λ h s. same s;
  module_quiet = λ name s. same s;
  proc_quiet = λ lib name s. same s;
  priority_quiet = λ h low s. same s;
  throttling_quiet = λ h on s. same s;
  trim_quiet = λ h s. same s;
  alloc_quiet = λ n s. same s;
  sleep_quiet = λ ms s. record { no_more = λ pid. omega arith; no_resume = λ pid. refl };
}

pub kernel_identity : IdentityLaws kernel_processes
unfolding kernel_processes
kernel_identity = record {
  created = λ pid. process_time;
  session = λ pid. 1;
  image = λ pid. process_image;
  user = λ pid. 1 ∷ 5 ∷ [];
  self = 1;
  open_target = λ access pid s h e. ground arith;
  current_id = λ s. refl;
  current_handle = λ s. refl;
  times_tell = λ h s t e. ground arith;
  session_tells = λ pid s n e. ground arith;
  image_tells = λ h n s path e. ground arith;
  token_target = λ h t s e. ground arith;
  user_tells = λ t s sid e. ground arith;
}

image_fits :
    (path : Text) (n : ℕ)
    → path ≡ process_image
    → 13 < n
    → (length path < n) × All (λ c. c < 2 ^ 16) path
image_fits path n e h = rw e (omega arith, omega arith)

pub kernel_ranges : ProcessRanges kernel_processes
unfolding kernel_processes
kernel_ranges = record {
  times_fit = λ h s t e. ground arith;
  session_fits = λ pid s n e. ground arith;
  image_fits = λ h n s path e. image_fits path n (ground arith) (ground arith);
}

pub kernel-Answers : (pid : ℕ) → Answers kernel_processes pid
unfolding kernel_processes
kernel-Answers pid = record {
  opens = λ access s. (record { target = pid; value = 1 }, refl);
  times = λ h s. (process_time, refl);
  sessions = λ id s. (1, refl);
  images = λ h n s wide. (process_image, ground arith);
  tokens = λ h s. (h, refl);
  users = λ t s. (1 ∷ 5 ∷ [], refl);
}

pub kernel_created : (pid : ℕ) → kernel_identity.created pid ≡ process_time
unfolding kernel_identity
kernel_created pid = refl

pub kernel_suspensions : (s : Kernel) (pid : ℕ) → kernel_laws.suspensions s pid ≡ s.suspended pid
unfolding kernel_laws
kernel_suspensions s pid = refl

-- Steps that leave the counts are quiet.
pub kernel-Quiet :
    (s t : Kernel)
    → t.suspended ≡ s.suspended
    → t.resumed ≡ s.resumed
    → Quiet kernel_laws.suspensions kernel_laws.resumes s t
unfolding kernel_laws
kernel-Quiet s t e f = record { no_more = λ pid. rw e (omega arith); no_resume = λ pid. rw f refl }
