-- ===== src/Windows/Session/Laws.antt =====
-- The documented behaviour of the calls in `Windows.Session` that theorems rely on.
use browser_guard.Prelude.{
  ℕ, ◌+◌, ◌≤◌, ◌<◌, ◌%◌, ◌^◌, ◌≡◌, ◌≢◌, Bool, true, Option, none, some, List, [], ◌∷◌, ◌++◌, Text,
  All, dword_mod,
}
use browser_guard.Windows.{Processes, Handle}
use browser_guard.Windows.Session.{Session, Launch, SecurityAttributes, error_already_exists}
use browser_guard.Windows.Laws.{ProcessLaws, Quiet}
use browser_guard.Windows.Session.Kept.{IsKept}

-- A text between quotation marks.
abbrev pub quoted : Text → Text
quoted s = b'"' ∷ (s ++ (b'"' ∷ []))

abbrev pub HasNoQuote : Text → Type 0
HasNoQuote = All (λ c. c ≢ b'"')

-- A backslash before a quotation mark would escape it.
abbrev pub EndsPlain : Text → Type 0
EndsPlain [] = Unit
EndsPlain (c ∷ []) = c ≢ b'\\'
EndsPlain (c ∷ d ∷ s) = EndsPlain (d ∷ s)

-- No blank, tab or quotation mark, and not empty.
abbrev pub IsWord : Text → Type 0
IsWord [] = ⊥
IsWord (c ∷ s) = All (λ d. (d ≢ 32) × (d ≢ 9) × (d ≢ b'"')) (c ∷ s)

-- How CommandLineToArgvW divides a command line: its program name, then the words. The call may fail.
pub record CommandLineLaws {P : Type 0} (ss : Session P) : Type 0 where
  pub words : Text → List Text
  pub program :
      (path rest : Text) (s : P) (argv : List Text)
      → HasNoQuote path
      → (ss.to_argv (quoted path ++ 32 ∷ rest) s).0 ≡ some argv
      → argv ≡ path ∷ words rest
  pub quoted_word :
      (w rest : Text) → HasNoQuote w → EndsPlain w → words (quoted w ++ 32 ∷ rest) ≡ w ∷ words rest
  pub plain_word : (w rest : Text) → IsWord w → words (w ++ 32 ∷ rest) ≡ w ∷ words rest
  pub last_word : (w : Text) → IsWord w → words w ≡ w ∷ []

-- Named events while their owners keep them: which names are taken.
pub record EventLaws {P : Type 0} (ps : Processes P) (ss : Session P) : Type 0 where
  pub is_named : P → Text → Bool
  -- A name that is taken gives a handle with ERROR_ALREADY_EXISTS, or no handle.
  pub create_taken :
      (a : SecurityAttributes) (name : Text) (s : P) (h : ℕ)
      → is_named s name ≡ true
      → (ss.create_event a (some name) s).0.0 ≡ some h
      → (ss.create_event a (some name) s).0.1 ≡ error_already_exists
  pub create_names :
      (a : SecurityAttributes) (name : Text) (s : P) (h : ℕ)
      → (ss.create_event a (some name) s).0.0 ≡ some h
      → is_named (ss.create_event a (some name) s).1 name ≡ true
  -- The queries close no event.
  pub session_keeps :
      (pid : ℕ) (name : Text) (s : P)
      → is_named s name ≡ true
      → is_named (ps.session_of pid s).1 name ≡ true
  pub token_keeps :
      (h : Handle) (name : Text) (s : P)
      → is_named s name ≡ true
      → is_named (ps.open_token h s).1 name ≡ true
  pub user_keeps :
      (t : Handle) (name : Text) (s : P)
      → is_named s name ≡ true
      → is_named (ps.token_user t s).1 name ≡ true
  pub close_keeps :
      (h : Handle) (name : Text) (s : P)
      → is_named s name ≡ true
      → is_named (ps.close_handle h s) name ≡ true
  pub sid_keeps :
      (sid : List ℕ) (name : Text) (s : P)
      → is_named s name ≡ true
      → is_named (ss.sid_string sid s).1 name ≡ true
  pub descriptor_keeps :
      (sddl name : Text) (s : P)
      → is_named s name ≡ true
      → is_named (ss.security_descriptor sddl s).1 name ≡ true

-- The clock in milliseconds: GetTickCount gives its value modulo 2 ^ 32, and a Sleep passes time. No
-- call takes as much as 2 ^ 28 ms, which is three days.
pub record ClockLaws {P : Type 0} (ps : Processes P) (ss : Session P) : Type 0 where
  pub now : P → ℕ
  pub tick_tells : (s : P) → (ss.tick_count s).0 ≡ now s % dword_mod
  pub tick_takes :
      (s : P) → (now s ≤ now (ss.tick_count s).1) × (now (ss.tick_count s).1 < now s + 2 ^ 28)
  pub sleep_takes :
      (ms : ℕ) (s : P)
      → 0 < ms
      → (now s < now (ps.sleep ms s)) × (now (ps.sleep ms s) < now s + ms + 2 ^ 28)
  pub set_takes :
      (h : ℕ) (s : P)
      → (now s ≤ now (ss.set_event h s).1) × (now (ss.set_event h s).1 < now s + 2 ^ 28)
  pub close_takes :
      (h : ℕ) (s : P)
      → (now s ≤ now (ss.close_event h s)) × (now (ss.close_event h s) < now s + 2 ^ 28)

-- The processes that were created, the last one first.
pub record LaunchLaws {P : Type 0} (ps : Processes P) (ss : Session P) : Type 0 where
  pub launched : P → List Launch
  pub create_counts :
      (l : Launch) (s : P) (h : Handle × Handle)
      → (ss.create_process l s).0 ≡ some h
      → launched (ss.create_process l s).1 ≡ l ∷ launched s
  pub create_failed :
      (l : Launch) (s : P)
      → (ss.create_process l s).0 ≡ none
      → launched (ss.create_process l s).1 ≡ launched s
  pub others : IsKept ps ss (λ s t. launched t ≡ launched s)
  pub sleep_same : (ms : ℕ) (s : P) → launched (ps.sleep ms s) ≡ launched s

-- None of these calls suspends a process or resumes one, and the ids of a snapshot are DWORDs.
pub record QuietSession {P : Type 0} {ps : Processes P} (laws : ProcessLaws ps) (ss : Session P)
    : Type 0 where
  pub snapshot_quiet : (s : P) → Quiet laws.suspensions laws.resumes s (ss.snapshot s).1
  pub snapshot_ids :
      (s : P) (entries : List (ℕ × Text))
      → (ss.snapshot s).0 ≡ some entries
      → All (λ e. e.0 < dword_mod) entries
  pub set_quiet : (h : ℕ) (s : P) → Quiet laws.suspensions laws.resumes s (ss.is_set h s).1
  pub memory_quiet :
      (h : Handle) (s : P) → Quiet laws.suspensions laws.resumes s (ss.memory_info h s).1
  pub tick_quiet : (s : P) → Quiet laws.suspensions laws.resumes s (ss.tick_count s).1
  pub close_quiet : (h : ℕ) (s : P) → Quiet laws.suspensions laws.resumes s (ss.close_event h s)
  pub create_quiet :
      (a : SecurityAttributes) (name : Option Text) (s : P)
      → Quiet laws.suspensions laws.resumes s (ss.create_event a name s).1
  pub launch_quiet :
      (l : Launch) (s : P) → Quiet laws.suspensions laws.resumes s (ss.create_process l s).1
  pub wait_quiet :
      (event : ℕ) (process : Handle) (ms : ℕ) (s : P)
      → Quiet laws.suspensions laws.resumes s (ss.wait_either event process ms s).1
  pub module_quiet :
      (n : ℕ) (s : P) → Quiet laws.suspensions laws.resumes s (ss.module_file_name n s).1
  pub sid_quiet :
      (sid : List ℕ) (s : P) → Quiet laws.suspensions laws.resumes s (ss.sid_string sid s).1
  pub descriptor_quiet :
      (sddl : Text) (s : P)
      → Quiet laws.suspensions laws.resumes s (ss.security_descriptor sddl s).1
