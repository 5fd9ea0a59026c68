-- ===== src/Machine.antt =====
-- A concrete machine, on which the calls of src/ that stand in `Windows` run: a disk of whole files
-- and a kernel in which every process of this user can be opened.
pub mod Disk
pub mod Kernel
pub mod Screen
pub mod Station
