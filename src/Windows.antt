-- ===== src/Windows.antt =====
-- The Windows calls that the program makes, as parameters: an abstract state of the file system `F`,
-- of the kernel's processes `P`, and of the desktop `D`, with one function for each call. A call
-- takes the state before it and gives its result and the state after it. What the development
-- relies on of their documented behaviour stands in `Windows.Laws`.
pub mod Laws
pub mod Quiet
pub mod Kept
pub mod Session
pub mod Input
use browser_guard.Prelude.{
  ℕ, Bool, Option, List, Text, ◌≡◌, refl, ◌⊎◌, inl, inr, true, false, if◌then◌else◌,
}

-- FILETIME.
pub record FileTime : Type 0 where
  pub low : ℕ
  pub high : ℕ

-- A process handle: the process that it was opened on, and its value.
pub record Handle : Type 0 where
  pub target : ℕ
  pub value : ℕ

-- CreateFileW for reading: a handle, or the code of GetLastError.
pub data Opened : Type 0 where
  opened : ℕ → Opened
  open_error : ℕ → Opened

pub Opened-cases : (o : Opened) → ((h : ℕ) × (o ≡ opened h)) ⊎ ((code : ℕ) × (o ≡ open_error code))
Opened-cases (opened h) = inl (h, refl)
Opened-cases (open_error code) = inr (code, refl)

pub record Files (F : Type 0) : Type 0 where
  -- DeleteFileW
  pub delete_file : Text → F → Bool × F
  -- CreateFileW with GENERIC_WRITE and CREATE_ALWAYS; `none` is INVALID_HANDLE_VALUE
  pub create_file : Text → F → Option ℕ × F
  -- WriteFile: its result and the count of bytes written
  pub write_file : ℕ → List ℕ → F → (Bool × ℕ) × F
  -- FlushFileBuffers
  pub flush_file : ℕ → F → Bool × F
  -- CloseHandle of a file
  pub close_file : ℕ → F → F
  -- MoveFileExW with MOVEFILE_REPLACE_EXISTING and MOVEFILE_WRITE_THROUGH, from and to
  pub move_file : Text → Text → F → Bool × F
  -- CreateFileW with GENERIC_READ and OPEN_EXISTING
  pub open_file : Text → F → Opened × F
  -- ReadFile of so many bytes at most: its result and the bytes read
  pub read_file : ℕ → ℕ → F → (Bool × List ℕ) × F
  -- GetFileAttributesW; `none` is INVALID_FILE_ATTRIBUTES
  pub file_attributes : Text → F → Option ℕ × F

pub record Processes (P : Type 0) : Type 0 where
  -- OpenProcess with an access mask and a process id
  pub open_process : ℕ → ℕ → P → Option Handle × P
  -- CloseHandle
  pub close_handle : Handle → P → P
  -- GetCurrentProcessId and the handle GetCurrentProcess
  pub current_process_id : P → ℕ
  pub current_process : P → Handle
  -- GetProcessTimes: the creation time
  pub process_times : Handle → P → Option FileTime × P
  -- ProcessIdToSessionId
  pub session_of : ℕ → P → Option ℕ × P
  -- QueryFullProcessImageNameW with the capacity of the buffer
  pub image_name : Handle → ℕ → P → Option Text × P
  -- OpenProcessToken with TOKEN_QUERY, GetTokenInformation of TokenUser (the SID's bytes), CloseHandle
  pub open_token : Handle → P → Option Handle × P
  pub token_user : Handle → P → Option (List ℕ) × P
  -- GetModuleHandleW and GetProcAddress, as far as they find something
  pub has_module : Text → P → Bool × P
  pub has_proc : Text → Text → P → Bool × P
  -- NtSuspendProcess and NtResumeProcess: whether the status is not negative
  pub nt_suspend_process : Handle → P → Bool × P
  pub nt_resume_process : Handle → P → Bool × P
  -- SetProcessInformation of ProcessMemoryPriority and ProcessPowerThrottling: very low or normal,
  -- on or off
  pub set_memory_priority : Handle → Bool → P → P
  pub set_power_throttling : Handle → Bool → P → P
  -- EmptyWorkingSet
  pub empty_working_set : Handle → P → Bool × P
  -- HeapAlloc of so many bytes, as far as it gives memory
  pub heap_alloc : ℕ → P → Bool × P
  -- Sleep in milliseconds
  pub sleep : ℕ → P → P

-- A window handle is a number, and 0 is NULL.
pub record Desktop (D : Type 0) : Type 0 where
  -- IsWindow, IsWindowVisible, IsIconic and IsZoomed
  pub is_window : ℕ → D → Bool × D
  pub is_visible : ℕ → D → Bool × D
  pub is_iconic : ℕ → D → Bool × D
  pub is_zoomed : ℕ → D → Bool × D
  -- GetWindowPlacement: whether WPF_RESTORETOMAXIMIZED is among the flags
  pub restores_to_maximized : ℕ → D → Option Bool × D
  -- GetWindowThreadProcessId: the process id, or 0
  pub window_pid : ℕ → D → ℕ × D
  -- GetAncestor with GA_ROOT
  pub root_window : ℕ → D → ℕ × D
  -- GetForegroundWindow
  pub foreground_window : D → ℕ × D
  -- EnumWindows: the windows in the order in which the callback gets them
  pub enum_windows : D → List ℕ × D
  -- SendMessageTimeoutW of WM_NULL with SMTO_ABORTIFHUNG and SMTO_BLOCK
  pub send_null_message : ℕ → ℕ → D → Bool × D

-- `a && b` for two calls that change the state: the second is made only if the first gives true.
infixr 35 ◌and◌
abbrev pub ◌and◌ : {S : Type 0} → (S → Bool × S) → (S → Bool × S) → S → Bool × S
◌and◌ a b s = if (a s).0 then b (a s).1 else (false, (a s).1)
