-- ===== src/Kernel/Types/Thread.antt =====
-- The processor state of a thread (src/bpf/vmlinux.h).
use sto.Kernel.Layout.{
  CType, array, bit_field, char, end, int, long, padding, pointer, short, structure, union, by_2,
  by_4, by_8, ◌▸◌, ◌at◌,
}

abbrev pub struct_desc_struct : CType
struct_desc_struct = structure (
    "limit0" at short
    ▸ "base0" at short
    ▸ bit_field "base1" by_2 8
    ▸ bit_field "type" by_2 4
    ▸ bit_field "s" by_2 1
    ▸ bit_field "dpl" by_2 2
    ▸ bit_field "p" by_2 1
    ▸ bit_field "limit1" by_2 4
    ▸ bit_field "avl" by_2 1
    ▸ bit_field "l" by_2 1
    ▸ bit_field "d" by_2 1
    ▸ bit_field "g" by_2 1
    ▸ bit_field "base2" by_2 8
    ▸ end)

abbrev pub mm_segment_t : CType
mm_segment_t = structure ("seg" at long ▸ end)

abbrev pub struct_fregs_state : CType
struct_fregs_state = structure (
    "cwd" at int
    ▸ "swd" at int
    ▸ "twd" at int
    ▸ "fip" at int
    ▸ "fcs" at int
    ▸ "foo" at int
    ▸ "fos" at int
    ▸ "st_space" at array 20 int
    ▸ "status" at int
    ▸ end)

abbrev pub struct_fxregs_state : CType
struct_fxregs_state = structure (
    "cwd" at short
    ▸ "swd" at short
    ▸ "twd" at short
    ▸ "fop" at short
    ▸ ""
      at union (
          "" at structure ("rip" at long ▸ "rdp" at long ▸ end)
          ▸ "" at structure ("fip" at int ▸ "fcs" at int ▸ "foo" at int ▸ "fos" at int ▸ end)
          ▸ end)
    ▸ "mxcsr" at int
    ▸ "mxcsr_mask" at int
    ▸ "st_space" at array 32 int
    ▸ "xmm_space" at array 64 int
    ▸ "padding" at array 12 int
    ▸ "" at union ("padding1" at array 12 int ▸ "sw_reserved" at array 12 int ▸ end)
    ▸ end)

abbrev pub struct_swregs_state : CType
struct_swregs_state = structure (
    "cwd" at int
    ▸ "swd" at int
    ▸ "twd" at int
    ▸ "fip" at int
    ▸ "fcs" at int
    ▸ "foo" at int
    ▸ "fos" at int
    ▸ "st_space" at array 20 int
    ▸ "ftop" at char
    ▸ "changed" at char
    ▸ "lookahead" at char
    ▸ "no_update" at char
    ▸ "rm" at char
    ▸ "alimit" at char
    ▸ "info" at pointer
    ▸ "entry_eip" at int
    ▸ end)

abbrev pub struct_xstate_header : CType
struct_xstate_header =
    structure ("xfeatures" at long ▸ "xcomp_bv" at long ▸ "reserved" at array 6 long ▸ end)

abbrev pub struct_xregs_state : CType
struct_xregs_state = structure (
    "i387" at struct_fxregs_state
    ▸ "header" at struct_xstate_header
    ▸ "extended_state_area" at array 0 char
    ▸ end)

abbrev pub union_fpregs_state : CType
union_fpregs_state = union (
    "fsave" at struct_fregs_state
    ▸ "fxsave" at struct_fxregs_state
    ▸ "soft" at struct_swregs_state
    ▸ "xsave" at struct_xregs_state
    ▸ "__padding" at array 4096 char
    ▸ end)

abbrev pub struct_fpu : CType
struct_fpu = structure (
    "last_cpu" at int
    ▸ "avx512_timestamp" at long
    ▸ padding by_8 64
    ▸ padding by_8 64
    ▸ padding by_8 64
    ▸ padding by_8 64
    ▸ padding by_8 64
    ▸ padding by_8 64
    ▸ "state" at union_fpregs_state
    ▸ end)

abbrev pub struct_thread_struct : CType
struct_thread_struct = structure (
    "tls_array" at array 3 struct_desc_struct
    ▸ "sp" at long
    ▸ "es" at short
    ▸ "ds" at short
    ▸ "fsindex" at short
    ▸ "gsindex" at short
    ▸ "fsbase" at long
    ▸ "gsbase" at long
    ▸ "ptrace_bps" at array 4 pointer
    ▸ "debugreg6" at long
    ▸ "ptrace_dr7" at long
    ▸ "cr2" at long
    ▸ "trap_nr" at long
    ▸ "error_code" at long
    ▸ "io_bitmap" at pointer
    ▸ "iopl_emul" at long
    ▸ "addr_limit" at mm_segment_t
    ▸ bit_field "sig_on_uaccess_err" by_4 1
    ▸ padding by_8 63
    ▸ padding by_8 64
    ▸ padding by_8 64
    ▸ padding by_8 64
    ▸ padding by_8 64
    ▸ "fpu" at struct_fpu
    ▸ end)
