-- ===== src/Control/Tests.antt =====
-- The control program on the machine of `Machine`.
use browser_guard.Prelude.{
  ℕ, ◌≡◌, ◌≢◌, refl, Bool, true, false, none, some, [], ◌∷◌, ◌++◌, arith, Text, codes, printed,
  decimal, Option-cases, inl, inr, ◌∙◌, if◌then◌else◌, text_ieq, text_eq, poll, add32,
}
use browser_guard.Windows.{opened}
use browser_guard.Machine.Disk.{Disk, disk_files, disk_laws, disk_contents}
use browser_guard.Machine.Kernel.{
  Kernel, quiet_kernel, kernel_processes, process_image, kernel_identity,
}
use browser_guard.Machine.Station.{
  kernel_session, kernel_clock, kernel_launches, kernel_timely, kernel_events, kernel_now,
}
use browser_guard.Journal.Tests.{blank}
use browser_guard.Protocol.{
  shutdown_event_name, create_shutdown_event, open_shutdown_event, build_shutdown_event_name,
  build_event_security_attributes, describe_user, create_named_event, event_sddl,
}
use browser_guard.Protocol.Single.{create_shutdown_event-single, own_name}
use browser_guard.Control.{toggle, launch, shutdown, find_mode}
use browser_guard.Control.Arguments.{read_arguments_file, is_line_end}
use browser_guard.Control.Arguments.Trim.{mark, read_arguments_file-text}
use browser_guard.Control.Guards.{
  count_guard_processes, request_guard_shutdown, count_entries, is_guard, wait_turn,
}
use browser_guard.Identity.{
  process_matches_current_identity, path_matches, session_matches, user_matches, matches_with,
  query_process_user_sid, equal_sid,
}
use browser_guard.Control.Guards.Wait.{CountsInTime, Reports, request_guard_shutdown-ends}
use browser_guard.Control.Kept.{count_guard_processes-kept}
use browser_guard.Control.Modes.{run_mode, run_launch_mode, run_toggle_mode}
use browser_guard.Control.Switch.{Runs, view, FlagAnswers}
use browser_guard.Control.Refines.{run_mode-Runs}
use browser_guard.Control.Stays.{run_launch_mode-run_toggle_mode}

-- The guard runs as process 7, with the image of the kernel's processes.
abbrev with_guard : Kernel
with_guard = record quiet_kernel {
  running = (3, codes "chrome.exe") ∷ (7, codes "Browser_Guard.exe") ∷ [];
  events = shutdown_event_name 1 ∷ [];
}

one_guard : (count_guard_processes process_image with_guard).0 ≡ 1
unfolding count_guard_processes count_entries is_guard process_matches_current_identity path_matches
    session_matches user_matches matches_with query_process_user_sid equal_sid text_ieq text_eq
    add32 kernel_session kernel_processes
one_guard = refl

kernel-CountsInTime : (path : Text) → CountsInTime kernel_clock path
kernel-CountsInTime path s =
    let s1 = (count_guard_processes path s).1 in
    omega (arith, count_guard_processes-kept kernel_timely path s, kernel_now s, kernel_now s1)

request_guard_shutdown-ends_example :
    (r : Bool) × ((request_guard_shutdown process_image with_guard).0 ≡ some r)
    × Reports kernel_clock process_image with_guard r
        (request_guard_shutdown process_image with_guard).1
request_guard_shutdown-ends_example =
    request_guard_shutdown-ends kernel_clock process_image (kernel-CountsInTime process_image)
      with_guard

guard_obeys : (request_guard_shutdown process_image with_guard).0 ≡ some true
unfolding request_guard_shutdown wait_turn poll open_shutdown_event build_shutdown_event_name
    shutdown_event_name decimal printed count_guard_processes count_entries is_guard
    process_matches_current_identity path_matches session_matches user_matches matches_with
    query_process_user_sid equal_sid text_ieq text_eq kernel_session kernel_processes
guard_obeys = refl

modes :
    (find_mode (codes "--x" ∷ codes "--SHUTDOWN" ∷ codes "--launch" ∷ []) ≡ shutdown)
    × (find_mode (codes "--Launch" ∷ []) ≡ launch)
    × (find_mode (codes "launch" ∷ []) ≡ toggle)
unfolding find_mode text_ieq
modes = (refl, refl, refl)

abbrev flag : Text
flag = codes "C:\\bg\\browser_guard.disabled"

attributes_of_file :
    (f : Disk) → f.stored flag ≢ none → (a : ℕ) × ((disk_files.file_attributes flag f).0 ≡ some a)
unfolding disk_files
attributes_of_file f there = elim (Option-cases (f.stored flag)) [
  | inl gone ↦ absurd (there gone)
  | inr (bytes, e) ↦ (128, rw e refl)
]

flag_deleted : (f : Disk) → (disk_files.delete_file flag f).0 ≡ false → f.stored flag ≡ none
unfolding disk_files
flag_deleted f e = cc

disk-FlagAnswers : FlagAnswers disk_laws flag
disk-FlagAnswers = record {
  readable = λ f there. attributes_of_file f (λ gone. there (disk_contents f flag ∙ gone));
  deletable = λ f e. disk_contents f flag ∙ flag_deleted f e;
}

run_mode-Runs_example :
    let r = run_mode toggle (codes "C:\\bg") flag process_image with_guard blank in
    Runs
      (codes "C:\\bg")
      (view disk_laws kernel_launches flag with_guard blank)
      (view disk_laws kernel_launches flag r.1 r.2)
      toggle
run_mode-Runs_example =
    run_mode-Runs disk_laws kernel_launches flag toggle (codes "C:\\bg") process_image with_guard
      blank disk-FlagAnswers

flag_created : (disk_files.create_file flag blank).0 ≡ some 1
unfolding disk_files
flag_created = refl

run_launch_mode-run_toggle_mode_example :
    let f' = (run_toggle_mode (codes "C:\\bg") flag process_image with_guard blank).2 in
    let r = run_launch_mode (codes "C:\\bg") flag process_image quiet_kernel f' in
    (r.0 ≡ 0) × (r.1 ≡ quiet_kernel)
run_launch_mode-run_toggle_mode_example =
    run_launch_mode-run_toggle_mode disk_laws flag (codes "C:\\bg") process_image with_guard
      quiet_kernel blank 1 disk-FlagAnswers (rw one_guard refl) flag_created

create_shutdown_event-single_example :
    ((create_shutdown_event quiet_kernel).0 ≡ some 4
      → (kernel_events.is_named quiet_kernel (own_name kernel_identity kernel_events) ≡ false)
        × (kernel_events.is_named
              (create_shutdown_event quiet_kernel).1
              (own_name kernel_identity kernel_events)
            ≡ true))
    × ((open_shutdown_event quiet_kernel).0 ≡ some 4
        → (kernel_session.open_event
            (own_name kernel_identity kernel_events)
            (build_shutdown_event_name quiet_kernel).1).0
          ≡ some 4)
create_shutdown_event-single_example =
    create_shutdown_event-single kernel_identity kernel_events quiet_kernel 4

-- The first event of a session is created.
first_event : (create_shutdown_event quiet_kernel).0 ≡ some 4
unfolding create_shutdown_event build_shutdown_event_name build_event_security_attributes
    describe_user create_named_event shutdown_event_name event_sddl decimal printed text_eq
    kernel_session kernel_processes
first_event = refl

-- The arguments file of an editor that writes a byte order mark.
abbrev args_path : Text
args_path = codes "C:\\bg\\browser_guard.args.txt"

abbrev edited : Disk
edited = record blank {
  stored = λ p.
      if text_eq p args_path
      then some (mark true ++ (codes "--verbose" ++ (b'\r' ∷ b'\n' ∷ [])))
      else none;
}

edited_opens : (disk_files.open_file args_path edited).0 ≡ opened 1
unfolding disk_files text_eq
edited_opens = refl

edited_reads : (disk_files.read_file 1 2047 (disk_files.open_file args_path edited).1).0.0 ≡ true
unfolding disk_files text_eq
edited_reads = refl

edited_stored :
    disk_laws.contents edited args_path
    ≡ some (mark true ++ (codes "--verbose" ++ (b'\r' ∷ b'\n' ∷ [])))
unfolding text_eq
edited_stored = disk_contents edited args_path

read_arguments_file-text_example :
    (read_arguments_file args_path 2048 quiet_kernel edited).0
    ≡ (kernel_session.multi_byte_to_wide (codes "--verbose") 2048 quiet_kernel).0
unfolding is_line_end
read_arguments_file-text_example =
    read_arguments_file-text disk_laws args_path 2048 quiet_kernel edited 1 true (codes "--verbose")
      (b'\r' ∷ b'\n' ∷ []) edited_stored edited_opens edited_reads (omega arith) (omega arith) refl
      (refl, (refl, tt)) (λ e. cc)
