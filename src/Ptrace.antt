-- ===== src/Ptrace.antt =====
-- The `ptrace` system call: src/kernel/ptrace.c, src/include/linux/ptrace.h and the requests of
-- src/include/linux/ptrace_remote.h.
pub mod Chosen
pub mod Remote
pub mod Memory
pub mod Protection
pub mod Mapping
pub mod MapOutcome
pub mod RemoteMapped
pub mod Access
pub mod Store
pub mod Task
pub mod Link
pub mod Attach
pub mod Attached
pub mod Traced
pub mod Linked
pub mod Detach
pub mod Freed
pub mod Scene
pub mod Detached
pub mod Siginfo
pub mod Peek
pub mod Traceme
pub mod Frozen
pub mod Thawed
pub mod Exit
pub mod Check
pub mod Tests
pub mod Transfer
