-- ===== src/Kernel/Types.antt =====
-- Structures of src/bpf/vmlinux.h: those of the sampling path, and all that they hold by value.
-- A pointer is taken without what it points to.
pub mod Registers
pub mod Maps
pub mod Programs
pub mod Verifier
pub mod Events
pub mod Pmu
pub mod Scheduling
pub mod Memory
pub mod Signals
pub mod Files
pub mod Thread
pub mod Task
