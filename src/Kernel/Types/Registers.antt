-- ===== src/Kernel/Types/Registers.antt =====
-- The registers and the attributes of a perf event (src/bpf/vmlinux.h).
use sto.Kernel.Layout.{CType, bit_field, end, int, long, short, structure, union, by_8, ◌▸◌, ◌at◌}

abbrev pub struct_pt_regs : CType
struct_pt_regs = structure (
    "r15" at long
    ▸ "r14" at long
    ▸ "r13" at long
    ▸ "r12" at long
    ▸ "bp" at long
    ▸ "bx" at long
    ▸ "r11" at long
    ▸ "r10" at long
    ▸ "r9" at long
    ▸ "r8" at long
    ▸ "ax" at long
    ▸ "cx" at long
    ▸ "dx" at long
    ▸ "si" at long
    ▸ "di" at long
    ▸ "orig_ax" at long
    ▸ "ip" at long
    ▸ "cs" at long
    ▸ "flags" at long
    ▸ "sp" at long
    ▸ "ss" at long
    ▸ end)

abbrev pub struct_perf_event_attr : CType
struct_perf_event_attr = structure (
    "type" at int
    ▸ "size" at int
    ▸ "config" at long
    ▸ "" at union ("sample_period" at long ▸ "sample_freq" at long ▸ end)
    ▸ "sample_type" at long
    ▸ "read_format" at long
    ▸ bit_field "disabled" by_8 1
    ▸ bit_field "inherit" by_8 1
    ▸ bit_field "pinned" by_8 1
    ▸ bit_field "exclusive" by_8 1
    ▸ bit_field "exclude_user" by_8 1
    ▸ bit_field "exclude_kernel" by_8 1
    ▸ bit_field "exclude_hv" by_8 1
    ▸ bit_field "exclude_idle" by_8 1
    ▸ bit_field "mmap" by_8 1
    ▸ bit_field "comm" by_8 1
    ▸ bit_field "freq" by_8 1
    ▸ bit_field "inherit_stat" by_8 1
    ▸ bit_field "enable_on_exec" by_8 1
    ▸ bit_field "task" by_8 1
    ▸ bit_field "watermark" by_8 1
    ▸ bit_field "precise_ip" by_8 2
    ▸ bit_field "mmap_data" by_8 1
    ▸ bit_field "sample_id_all" by_8 1
    ▸ bit_field "exclude_host" by_8 1
    ▸ bit_field "exclude_guest" by_8 1
    ▸ bit_field "exclude_callchain_kernel" by_8 1
    ▸ bit_field "exclude_callchain_user" by_8 1
    ▸ bit_field "mmap2" by_8 1
    ▸ bit_field "comm_exec" by_8 1
    ▸ bit_field "use_clockid" by_8 1
    ▸ bit_field "context_switch" by_8 1
    ▸ bit_field "write_backward" by_8 1
    ▸ bit_field "namespaces" by_8 1
    ▸ bit_field "ksymbol" by_8 1
    ▸ bit_field "bpf_event" by_8 1
    ▸ bit_field "aux_output" by_8 1
    ▸ bit_field "cgroup" by_8 1
    ▸ bit_field "__reserved_1" by_8 31
    ▸ "" at union ("wakeup_events" at int ▸ "wakeup_watermark" at int ▸ end)
    ▸ "bp_type" at int
    ▸ ""
      at union (
          "bp_addr" at long
          ▸ "kprobe_func" at long
          ▸ "uprobe_path" at long
          ▸ "config1" at long
          ▸ end)
    ▸ ""
      at union (
          "bp_len" at long
          ▸ "kprobe_addr" at long
          ▸ "probe_offset" at long
          ▸ "config2" at long
          ▸ end)
    ▸ "branch_sample_type" at long
    ▸ "sample_regs_user" at long
    ▸ "sample_stack_user" at int
    ▸ "clockid" at int
    ▸ "sample_regs_intr" at long
    ▸ "aux_watermark" at int
    ▸ "sample_max_stack" at short
    ▸ "__reserved_2" at short
    ▸ "aux_sample_size" at int
    ▸ "__reserved_3" at int
    ▸ end)
