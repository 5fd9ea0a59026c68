-- ===== src/Windows/Session.antt =====
-- The Windows calls by which the programs of src/ find, start and stop one another: command lines,
-- processes, named events and the clock. They work on the kernel's state `P`.
pub mod Laws
pub mod Kept
use browser_guard.Prelude.{ℕ, Bool, Option, List, Text}
use browser_guard.Windows.{Handle}

-- What CreateProcessW is given; no directory is NULL.
pub record Launch : Type 0 where
  pub image : Text
  pub command_line : Text
  pub inherit_handles : Bool
  pub flags : ℕ
  pub directory : Option Text

-- SECURITY_ATTRIBUTES: whether a handle is inherited, and a security descriptor unless it is NULL.
pub record SecurityAttributes : Type 0 where
  pub inherit : Bool
  pub descriptor : Option ℕ

-- ERROR_ALREADY_EXISTS
abbrev pub error_already_exists : ℕ
error_already_exists = 183

-- An event handle is a number.
pub record Session (P : Type 0) : Type 0 where
  -- GetModuleFileNameW of this program into a buffer of so many units: the length and the text
  pub module_file_name : ℕ → P → (ℕ × Text) × P
  -- GetCommandLineW
  pub command_line : P → Text
  -- MultiByteToWideChar from UTF-8 into a buffer of so many units; `none` is the result 0
  pub multi_byte_to_wide : List ℕ → ℕ → P → Option Text × P
  -- CommandLineToArgvW
  pub to_argv : Text → P → Option (List Text) × P
  -- CreateToolhelp32Snapshot, Process32FirstW and Process32NextW: the ids and image names of all
  -- processes; `none` is INVALID_HANDLE_VALUE
  pub snapshot : P → Option (List (ℕ × Text)) × P
  -- CreateProcessW: the process and its first thread
  pub create_process : Launch → P → Option (Handle × Handle) × P
  -- CreateEventW of a manual event that is not set, with its name unless it is NULL: the handle and
  -- the code of GetLastError
  pub create_event : SecurityAttributes → Option Text → P → (Option ℕ × ℕ) × P
  -- OpenEventW, SetEvent and CloseHandle of an event
  pub open_event : Text → P → Option ℕ × P
  pub set_event : ℕ → P → Bool × P
  pub close_event : ℕ → P → P
  -- ConvertSidToStringSidW and ConvertStringSecurityDescriptorToSecurityDescriptorW
  pub sid_string : List ℕ → P → Option Text × P
  pub security_descriptor : Text → P → Option ℕ × P
  -- WaitForMultipleObjects on an event and a process, any of them, in milliseconds
  pub wait_either : ℕ → Handle → ℕ → P → ℕ × P
  -- WaitForSingleObject on a process, without a limit
  pub wait_process : Handle → P → P
  -- WaitForSingleObject on an event for 0 ms: whether it is set
  pub is_set : ℕ → P → Bool × P
  -- GetProcessMemoryInfo: WorkingSetSize and PrivateUsage
  pub memory_info : Handle → P → Option (ℕ × ℕ) × P
  -- GetTickCount
  pub tick_count : P → ℕ × P
