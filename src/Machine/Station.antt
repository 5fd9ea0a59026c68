-- ===== src/Machine/Station.antt =====
-- Command lines, processes, events and the clock on the kernel of `Machine.Kernel`: a command line is
-- divided at blanks and tabs that do not stand between quotation marks, and backslashes are left.
use browser_guard.Prelude.{
  ℕ, ◌<◌, subst, on_if, ◌%◌, ◌≡◌, ◌≢◌, refl, ◌∙◌, Bool, true, false, not, ◌&&◌, ◌||◌, Option, none,
  some, List, [], ◌∷◌, ◌++◌, arith, Text, codes, ltb, ◌==◌, if◌then◌else◌, text_eq, text_eq_refl,
  length, dword_mod, All,
}
use mathlib.Core.List.{append-nil, append_assoc}
use browser_guard.Windows.Session.{Session, error_already_exists}
use browser_guard.Windows.Session.Laws.{
  CommandLineLaws, EventLaws, ClockLaws, LaunchLaws, quoted, HasNoQuote, IsWord, QuietSession,
}
use browser_guard.Windows.Quiet.{Quiet-refl}
use browser_guard.Windows.Session.Kept.{IsKept}
use browser_guard.Machine.Kernel.{Kernel, kernel_processes, kernel_laws, kernel-Quiet}

-- The word read so far, if one was begun.
so_far : Option Text → Text
so_far none = []
so_far (some w) = w

finish : Option Text → List Text → List Text
finish none rest = rest
finish (some w) rest = w ∷ rest

-- Whether a quotation mark is open, and the word read so far.
divide : Bool → Option Text → Text → List Text
divide open_quote word [] = finish word []
divide open_quote word (c ∷ s) =
    let quote = divide (not open_quote) (some (so_far word)) s in
    let next = divide false none s in
    let more = divide open_quote (some (so_far word ++ c ∷ [])) s in
    if c == b'"'
    then quote
    else if not open_quote && (c == 32 || c == 9)
    then finish word next
    else more

divide-quoted :
    (w acc rest : Text)
    → HasNoQuote w
    → divide true (some acc) (w ++ b'"' ∷ 32 ∷ rest) ≡ (acc ++ w) ∷ divide false none rest
unfolding divide finish so_far
divide-quoted [] acc rest h = rw append-nil refl
divide-quoted (c ∷ w) acc rest h =
    let plain : (c == b'"') ≡ false = ground (arith, h.0) in
    rw plain (divide-quoted w (acc ++ c ∷ []) rest h.1 ∙ rw append_assoc refl)

divide-plain :
    (w acc rest : Text)
    → All (λ d. (d ≢ 32) × (d ≢ 9) × (d ≢ b'"')) w
    → divide false (some acc) (w ++ 32 ∷ rest) ≡ (acc ++ w) ∷ divide false none rest
unfolding divide finish so_far
divide-plain [] acc rest h = rw append-nil refl
divide-plain (c ∷ w) acc rest h =
    let plain : (c == b'"') ≡ false = ground (arith, h.0.2) in
    let unit : (c == 32 || c == 9) ≡ false = ground (arith, h.0.0, h.0.1) in
    rw (plain, unit) (divide-plain w (acc ++ c ∷ []) rest h.1 ∙ rw append_assoc refl)

divide-last :
    (w acc : Text)
    → All (λ d. (d ≢ 32) × (d ≢ 9) × (d ≢ b'"')) w
    → divide false (some acc) w ≡ (acc ++ w) ∷ []
unfolding divide finish so_far
divide-last [] acc h = rw append-nil refl
divide-last (c ∷ w) acc h =
    let plain : (c == b'"') ≡ false = ground (arith, h.0.2) in
    let unit : (c == 32 || c == 9) ≡ false = ground (arith, h.0.0, h.0.1) in
    rw (plain, unit) (divide-last w (acc ++ c ∷ []) h.1 ∙ rw append_assoc refl)

words_at : Text → List Text
unfolding divide
words_at = divide false none

words_at-word : (w rest : Text) → IsWord w → words_at (w ++ 32 ∷ rest) ≡ w ∷ words_at rest
unfolding words_at so_far
words_at-word [] rest h = absurd h
words_at-word (c ∷ w) rest h =
    let plain : (c == b'"') ≡ false = ground (arith, h.0.2) in
    let unit : (c == 32 || c == 9) ≡ false = ground (arith, h.0.0, h.0.1) in
    rw (plain, unit) (divide-plain w (c ∷ []) rest h.1)

words_at-last : (w : Text) → IsWord w → words_at w ≡ w ∷ []
unfolding words_at so_far
words_at-last [] h = absurd h
words_at-last (c ∷ w) h =
    let plain : (c == b'"') ≡ false = ground (arith, h.0.2) in
    let unit : (c == 32 || c == 9) ≡ false = ground (arith, h.0.0, h.0.1) in
    rw (plain, unit) (divide-last w (c ∷ []) h.1)

words_at-quoted :
    (w rest : Text) → HasNoQuote w → words_at (quoted w ++ 32 ∷ rest) ≡ w ∷ words_at rest
unfolding words_at so_far
words_at-quoted w rest h = rw append_assoc (divide-quoted w [] rest h)

-- Whether a name is among those of the events.
taken : Text → List Text → Bool
taken name [] = false
taken name (n ∷ ns) = text_eq n name || taken name ns

-- The entries whose ids are DWORDs.
dword_entries : List (ℕ × Text) → List (ℕ × Text)
dword_entries [] = []
dword_entries (e ∷ es) = let rest = dword_entries es in if ltb e.0 dword_mod then e ∷ rest else rest

dword_entries-All : (es : List (ℕ × Text)) → All (λ e. e.0 < dword_mod) (dword_entries es)
unfolding dword_entries
dword_entries-All [] = tt
dword_entries-All (e ∷ es) =
    on_if (λ (r : List (ℕ × Text)). All (λ e. e.0 < dword_mod) r) (ltb e.0 dword_mod) _ _
      (λ h. (ground (arith, h), dword_entries-All es)) (λ _. dword_entries-All es)

-- A guard that is told to stop has stopped.
instance unfoldable pub kernel_session : Session Kernel
unfolding words_at taken finish so_far dword_entries
kernel_session = record {
  module_file_name = λ n s. ((15, codes "C:\\bg\\guard.exe"), s);
  command_line = λ s. s.line;
  multi_byte_to_wide = λ bytes n s. ((if ltb (length bytes) n then some bytes else none), s);
  to_argv = λ l s. (some (words_at l), s);
  snapshot = λ s. (some (dword_entries s.running), s);
  create_process = λ l s. (
    some (record { target = 9; value = 1 }, record { target = 9; value = 2 }),
    record s { launched = l ∷ s.launched; running = (9, codes "browser_guard.exe") ∷ s.running },
  );
  create_event = λ a name s. elim name [
    | none ↦ ((some 4, 0), s)
    | some n ↦
        if taken n s.events
        then ((some 4, error_already_exists), s)
        else ((some 4, 0), record s { events = n ∷ s.events })
  ];
  open_event = λ name s. ((if taken name s.events then some 4 else none), s);
  set_event = λ h s. (true, record s { running = [] });
  close_event = λ h s. s;
  sid_string = λ sid s. (some (codes "S-1-5-21"), s);
  security_descriptor = λ sddl s. (some 8, s);
  wait_either = λ event process ms s. (0, s);
  wait_process = λ h s. s;
  is_set = λ h s. (true, s);
  memory_info = λ h s. (some (4096, 8192), s);
  tick_count = λ s. (s.ticks % dword_mod, s);
}

pub kernel_command_line : CommandLineLaws kernel_session
unfolding kernel_session
kernel_command_line = record {
  words = words_at;
  program = λ path rest s argv h e. ground (arith, words_at-quoted path rest h);
  quoted_word = λ w rest h _. words_at-quoted w rest h;
  plain_word = λ w rest h. words_at-word w rest h;
  last_word = λ w h. words_at-last w h;
}

pub kernel_events : EventLaws kernel_processes kernel_session
unfolding kernel_session kernel_processes
kernel_events = record {
  is_named = λ s name. taken name s.events;
  create_taken = λ a name s h t e. rw t refl;
  create_names = λ a name s h e. ground (arith, text_eq_refl name);
  session_keeps = λ pid name s t. t;
  token_keeps = λ h name s t. t;
  user_keeps = λ h name s t. t;
  close_keeps = λ h name s t. t;
  sid_keeps = λ sid name s t. t;
  descriptor_keeps = λ sddl name s t. t;
}

pub kernel_clock : ClockLaws kernel_processes kernel_session
unfolding kernel_session kernel_processes
kernel_clock = record {
  now = λ s. s.ticks;
  tick_tells = λ s. refl;
  tick_takes = λ s. omega arith;
  sleep_takes = λ ms s h. omega arith;
  set_takes = λ h s. omega arith;
  close_takes = λ h s. omega arith;
}

pub kernel_launches : LaunchLaws kernel_processes kernel_session
unfolding kernel_session kernel_processes
kernel_launches = record {
  launched = λ s. s.launched;
  create_counts = λ l s h e. refl;
  create_failed = λ l s e. cc;
  others = record {
    queries = record {
      same = λ s. refl;
      then_on = λ e f. f ∙ e;
      open_process = λ access pid s. refl;
      close_handle = λ h s. refl;
      session_of = λ pid s. refl;
      image_name = λ h n s. refl;
      open_token = λ h s. refl;
      token_user = λ h s. refl;
    };
    module_file_name = λ n s. refl;
    to_argv = λ line s. refl;
    multi_byte_to_wide = λ bytes n s. refl;
    snapshot = λ s. refl;
    open_event = λ name s. refl;
    set_event = λ h s. refl;
    close_event = λ h s. refl;
    tick_count = λ s. refl;
  };
  sleep_same = λ ms s. refl;
}

-- Only a Sleep takes time.
pub kernel_timely : IsKept kernel_processes kernel_session (λ s t. t.ticks ≡ s.ticks)
unfolding kernel_session kernel_processes
kernel_timely = record {
  queries = record {
    same = λ s. refl;
    then_on = λ e f. f ∙ e;
    open_process = λ access pid s. refl;
    close_handle = λ h s. refl;
    session_of = λ pid s. refl;
    image_name = λ h n s. refl;
    open_token = λ h s. refl;
    token_user = λ h s. refl;
  };
  module_file_name = λ n s. refl;
  to_argv = λ line s. refl;
  multi_byte_to_wide = λ bytes n s. refl;
  snapshot = λ s. refl;
  open_event = λ name s. refl;
  set_event = λ h s. refl;
  close_event = λ h s. refl;
  tick_count = λ s. refl;
}

pub kernel_now : (s : Kernel) → kernel_clock.now s ≡ s.ticks
unfolding kernel_clock
kernel_now s = refl

pub kernel_quiet : QuietSession kernel_laws kernel_session
unfolding kernel_session
kernel_quiet = record {
  snapshot_quiet = λ s. Quiet-refl s;
  snapshot_ids = λ s entries e.
      let same : dword_entries s.running ≡ entries = cc in
      subst (All (λ x. x.0 < dword_mod)) same (dword_entries-All s.running);
  set_quiet = λ h s. Quiet-refl s;
  memory_quiet = λ h s. Quiet-refl s;
  tick_quiet = λ s. Quiet-refl s;
  close_quiet = λ h s. Quiet-refl s;
  create_quiet = λ a name s.
      kernel-Quiet s (kernel_session.create_event a name s).1 (ground arith) (ground arith);
  launch_quiet = λ l s. kernel-Quiet s (kernel_session.create_process l s).1 refl refl;
  wait_quiet = λ event process ms s. Quiet-refl s;
  module_quiet = λ n s. Quiet-refl s;
  sid_quiet = λ sid s. Quiet-refl s;
  descriptor_quiet = λ sddl s. Quiet-refl s;
}
