-- ===== src/Kernel/Types/Events.antt =====
-- The perf events that the program is attached to (src/bpf/vmlinux.h).
use sto.Kernel.Layout.{
  CType, bit_field, char, end, int, long, padding, pointer, short, structure, union, by_8, ◌▸◌,
  ◌at◌,
}
use sto.Kernel.Types.Maps.{
  atomic64_t, atomic_t, struct_list_head, struct_mutex, struct_raw_spinlock, struct_spinlock,
}
use sto.Kernel.Types.Programs.{struct_callback_head, struct_hlist_node, struct_rb_node}
use sto.Kernel.Types.Registers.{struct_perf_event_attr, struct_pt_regs}

abbrev pub local_t : CType
local_t = structure ("a" at atomic64_t ▸ end)

abbrev pub local64_t : CType
local64_t = structure ("a" at local_t ▸ end)

abbrev pub struct_hw_perf_event_extra : CType
struct_hw_perf_event_extra =
    structure ("config" at long ▸ "reg" at int ▸ "alloc" at int ▸ "idx" at int ▸ end)

abbrev pub struct_timerqueue_node : CType
struct_timerqueue_node = structure ("node" at struct_rb_node ▸ "expires" at long ▸ end)

abbrev pub struct_hrtimer : CType
struct_hrtimer = structure (
    "node" at struct_timerqueue_node
    ▸ "_softexpires" at long
    ▸ "function" at pointer
    ▸ "base" at pointer
    ▸ "state" at char
    ▸ "is_rel" at char
    ▸ "is_soft" at char
    ▸ "is_hard" at char
    ▸ end)

abbrev pub struct_arch_hw_breakpoint : CType
struct_arch_hw_breakpoint =
    structure ("address" at long ▸ "mask" at long ▸ "len" at char ▸ "type" at char ▸ end)

abbrev pub struct_hw_perf_event : CType
struct_hw_perf_event = structure (
    ""
      at union (
          ""
            at structure (
                "config" at long
                ▸ "last_tag" at long
                ▸ "config_base" at long
                ▸ "event_base" at long
                ▸ "event_base_rdpmc" at int
                ▸ "idx" at int
                ▸ "last_cpu" at int
                ▸ "flags" at int
                ▸ "extra_reg" at struct_hw_perf_event_extra
                ▸ "branch_reg" at struct_hw_perf_event_extra
                ▸ end)
          ▸ "" at structure ("hrtimer" at struct_hrtimer ▸ end)
          ▸ "" at structure ("tp_list" at struct_list_head ▸ end)
          ▸ "" at structure ("pwr_acc" at long ▸ "ptsc" at long ▸ end)
          ▸ ""
            at structure ("info" at struct_arch_hw_breakpoint ▸ "bp_list" at struct_list_head ▸ end)
          ▸ ""
            at structure (
                "iommu_bank" at char
                ▸ "iommu_cntr" at char
                ▸ "padding" at short
                ▸ "conf" at long
                ▸ "conf1" at long
                ▸ end)
          ▸ end)
    ▸ "target" at pointer
    ▸ "addr_filters" at pointer
    ▸ "addr_filters_gen" at long
    ▸ "state" at int
    ▸ "prev_count" at local64_t
    ▸ "sample_period" at long
    ▸ "last_period" at long
    ▸ "period_left" at local64_t
    ▸ "interrupts_seq" at long
    ▸ "interrupts" at long
    ▸ "freq_time_stamp" at long
    ▸ "freq_count_stamp" at long
    ▸ end)

abbrev pub struct_wait_queue_head : CType
struct_wait_queue_head = structure ("lock" at struct_spinlock ▸ "head" at struct_list_head ▸ end)

abbrev pub struct_llist_node : CType
struct_llist_node = structure ("next" at pointer ▸ end)

abbrev pub struct_call_single_node : CType
struct_call_single_node = structure (
    "llist" at struct_llist_node
    ▸ "" at union ("u_flags" at int ▸ "a_flags" at atomic_t ▸ end)
    ▸ end)

abbrev pub struct_irq_work : CType
struct_irq_work = structure (
    ""
      at union (
          "node" at struct_call_single_node
          ▸ "" at structure ("llnode" at struct_llist_node ▸ "flags" at atomic_t ▸ end)
          ▸ end)
    ▸ "func" at pointer
    ▸ end)

abbrev pub struct_perf_addr_filters_head : CType
struct_perf_addr_filters_head =
    structure
      ("list" at struct_list_head ▸ "lock" at struct_raw_spinlock ▸ "nr_file_filters" at int ▸ end)

abbrev pub struct_perf_event : CType
struct_perf_event = structure (
    "event_entry" at struct_list_head
    ▸ "sibling_list" at struct_list_head
    ▸ "active_list" at struct_list_head
    ▸ "group_node" at struct_rb_node
    ▸ "group_index" at long
    ▸ "migrate_entry" at struct_list_head
    ▸ "hlist_entry" at struct_hlist_node
    ▸ "active_entry" at struct_list_head
    ▸ "nr_siblings" at int
    ▸ "event_caps" at int
    ▸ "group_caps" at int
    ▸ "group_leader" at pointer
    ▸ "pmu" at pointer
    ▸ "pmu_private" at pointer
    ▸ "state" at int
    ▸ "attach_state" at int
    ▸ "count" at local64_t
    ▸ "child_count" at atomic64_t
    ▸ "total_time_enabled" at long
    ▸ "total_time_running" at long
    ▸ "tstamp" at long
    ▸ "shadow_ctx_time" at long
    ▸ "attr" at struct_perf_event_attr
    ▸ "header_size" at short
    ▸ "id_header_size" at short
    ▸ "read_size" at short
    ▸ "hw" at struct_hw_perf_event
    ▸ "ctx" at pointer
    ▸ "refcount" at atomic64_t
    ▸ "child_total_time_enabled" at atomic64_t
    ▸ "child_total_time_running" at atomic64_t
    ▸ "child_mutex" at struct_mutex
    ▸ "child_list" at struct_list_head
    ▸ "parent" at pointer
    ▸ "oncpu" at int
    ▸ "cpu" at int
    ▸ "owner_entry" at struct_list_head
    ▸ "owner" at pointer
    ▸ "mmap_mutex" at struct_mutex
    ▸ "mmap_count" at atomic_t
    ▸ "rb" at pointer
    ▸ "rb_entry" at struct_list_head
    ▸ "rcu_batches" at long
    ▸ "rcu_pending" at int
    ▸ "waitq" at struct_wait_queue_head
    ▸ "fasync" at pointer
    ▸ "pending_wakeup" at int
    ▸ "pending_kill" at int
    ▸ "pending_disable" at int
    ▸ "pending" at struct_irq_work
    ▸ "event_limit" at atomic_t
    ▸ "addr_filters" at struct_perf_addr_filters_head
    ▸ "addr_filter_ranges" at pointer
    ▸ "addr_filters_gen" at long
    ▸ "aux_event" at pointer
    ▸ "destroy" at pointer
    ▸ "callback_head" at struct_callback_head
    ▸ "ns" at pointer
    ▸ "id" at long
    ▸ "clock" at pointer
    ▸ "overflow_handler" at pointer
    ▸ "overflow_handler_context" at pointer
    ▸ "orig_overflow_handler" at pointer
    ▸ "prog" at pointer
    ▸ "tp_event" at pointer
    ▸ "filter" at pointer
    ▸ "security" at pointer
    ▸ "sb_list" at struct_list_head
    ▸ end)

abbrev pub union_perf_mem_data_src : CType
union_perf_mem_data_src = union (
    "val" at long
    ▸ ""
      at structure (
          bit_field "mem_op" by_8 5
          ▸ bit_field "mem_lvl" by_8 14
          ▸ bit_field "mem_snoop" by_8 5
          ▸ bit_field "mem_lock" by_8 2
          ▸ bit_field "mem_dtlb" by_8 7
          ▸ bit_field "mem_lvl_num" by_8 4
          ▸ bit_field "mem_remote" by_8 1
          ▸ bit_field "mem_snoopx" by_8 2
          ▸ bit_field "mem_rsvd" by_8 24
          ▸ end)
    ▸ end)

abbrev pub struct_perf_regs : CType
struct_perf_regs = structure ("abi" at long ▸ "regs" at pointer ▸ end)

abbrev pub struct_perf_sample_data : CType
struct_perf_sample_data = structure (
    "addr" at long
    ▸ "raw" at pointer
    ▸ "br_stack" at pointer
    ▸ "period" at long
    ▸ "weight" at long
    ▸ "txn" at long
    ▸ "data_src" at union_perf_mem_data_src
    ▸ "type" at long
    ▸ "ip" at long
    ▸ "tid_entry" at structure ("pid" at int ▸ "tid" at int ▸ end)
    ▸ "time" at long
    ▸ "id" at long
    ▸ "stream_id" at long
    ▸ "cpu_entry" at structure ("cpu" at int ▸ "reserved" at int ▸ end)
    ▸ "callchain" at pointer
    ▸ "aux_size" at long
    ▸ "regs_user" at struct_perf_regs
    ▸ "regs_user_copy" at struct_pt_regs
    ▸ "regs_intr" at struct_perf_regs
    ▸ "stack_user_size" at long
    ▸ "phys_addr" at long
    ▸ "cgroup" at long
    ▸ padding by_8 64
    ▸ padding by_8 64
    ▸ padding by_8 64
    ▸ padding by_8 64
    ▸ end)
