-- ===== src/Kernel.antt =====
-- The kernel's types that the BPF program is compiled against (src/bpf/vmlinux.h).
pub mod Layout
pub mod Types
