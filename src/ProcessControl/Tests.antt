-- ===== src/ProcessControl/Tests.antt =====
-- Suspension on the machine of `Machine`, and the theorems on it at concrete inputs.
use browser_guard.Machine.Kernel.{kernel_processes}
