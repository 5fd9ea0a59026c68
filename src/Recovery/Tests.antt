-- ===== src/Recovery/Tests.antt =====
-- The recovery program on the machine of `Machine`, started by the guard's command line.
use browser_guard.Prelude.{◌≡◌, refl, true, Text, codes, [], ◌∷◌, arith, decimal, printed}
use browser_guard.Machine.Disk.{disk_files}
use browser_guard.Machine.Kernel.{Kernel, quiet_kernel, kernel_processes}
use browser_guard.Machine.Station.{kernel_session, kernel_command_line}
use browser_guard.Journal.Tests.{blank}
use browser_guard.Broker.Start.{
  broker_command_line, start_recovery_broker, launch_broker, await_ready,
}
use browser_guard.Recovery.{run_recovery_broker, recovery_main}
use browser_guard.Recovery.Handshake.{recovery_main-broker_command_line}

abbrev program : Text
program = codes "C:\\bg\\browser_guard_recovery.exe"

abbrev journal : Text
journal = codes "C:\\my bg\\browser_guard.recovery.journal"

abbrev started : Kernel
started = record quiet_kernel { line = broker_command_line program 4711 journal 296 }

recovery_main-broker_command_line_example :
    recovery_main started blank ≡ run_recovery_broker 4711 journal 296 started blank
unfolding kernel_session broker_command_line decimal
recovery_main-broker_command_line_example =
    recovery_main-broker_command_line kernel_command_line program 4711 journal 296 started blank
      (program
        ∷ codes "--guard-pid"
        ∷ codes "4711"
        ∷ codes "--journal"
        ∷ journal
        ∷ codes "--ready-handle"
        ∷ codes "296"
        ∷ [])
      refl refl (omega arith) (omega arith) (omega arith) (omega arith) (omega arith) (omega arith)
      (omega arith)

-- The broker is started, and the event answers at once.
broker_starts : (start_recovery_broker program journal quiet_kernel).0 ≡ true
unfolding start_recovery_broker launch_broker await_ready broker_command_line decimal printed
    kernel_session kernel_processes
broker_starts = refl
