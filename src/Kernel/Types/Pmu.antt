-- ===== src/Kernel/Types/Pmu.antt =====
-- The units that count events, and their buffers (src/bpf/vmlinux.h).
use sto.Kernel.Layout.{CType, array, end, int, long, pointer, structure, union, ◌▸◌, ◌at◌}
use sto.Kernel.Types.Maps.{
  atomic_t, struct_list_head, struct_mutex, struct_raw_spinlock, struct_spinlock,
}
use sto.Kernel.Types.Programs.{struct_callback_head, struct_hlist_node}
use sto.Kernel.Types.Events.{local_t, struct_hrtimer}

abbrev pub struct_rb_root : CType
struct_rb_root = structure ("rb_node" at pointer ▸ end)

abbrev pub struct_perf_event_groups : CType
struct_perf_event_groups = structure ("tree" at struct_rb_root ▸ "index" at long ▸ end)

abbrev pub struct_refcount_struct : CType
struct_refcount_struct = structure ("refs" at atomic_t ▸ end)

abbrev pub struct_perf_event_context : CType
struct_perf_event_context = structure (
    "pmu" at pointer
    ▸ "lock" at struct_raw_spinlock
    ▸ "mutex" at struct_mutex
    ▸ "active_ctx_list" at struct_list_head
    ▸ "pinned_groups" at struct_perf_event_groups
    ▸ "flexible_groups" at struct_perf_event_groups
    ▸ "event_list" at struct_list_head
    ▸ "pinned_active" at struct_list_head
    ▸ "flexible_active" at struct_list_head
    ▸ "nr_events" at int
    ▸ "nr_active" at int
    ▸ "is_active" at int
    ▸ "nr_stat" at int
    ▸ "nr_freq" at int
    ▸ "rotate_disable" at int
    ▸ "rotate_necessary" at int
    ▸ "refcount" at struct_refcount_struct
    ▸ "task" at pointer
    ▸ "time" at long
    ▸ "timestamp" at long
    ▸ "parent_ctx" at pointer
    ▸ "parent_gen" at long
    ▸ "generation" at long
    ▸ "pin_count" at int
    ▸ "task_ctx_data" at pointer
    ▸ "callback_head" at struct_callback_head
    ▸ end)

abbrev pub struct_pmu : CType
struct_pmu = structure (
    "entry" at struct_list_head
    ▸ "module" at pointer
    ▸ "dev" at pointer
    ▸ "attr_groups" at pointer
    ▸ "attr_update" at pointer
    ▸ "name" at pointer
    ▸ "type" at int
    ▸ "capabilities" at int
    ▸ "pmu_disable_count" at pointer
    ▸ "pmu_cpu_context" at pointer
    ▸ "exclusive_cnt" at atomic_t
    ▸ "task_ctx_nr" at int
    ▸ "hrtimer_interval_ms" at int
    ▸ "nr_addr_filters" at int
    ▸ "pmu_enable" at pointer
    ▸ "pmu_disable" at pointer
    ▸ "event_init" at pointer
    ▸ "event_mapped" at pointer
    ▸ "event_unmapped" at pointer
    ▸ "add" at pointer
    ▸ "del" at pointer
    ▸ "start" at pointer
    ▸ "stop" at pointer
    ▸ "read" at pointer
    ▸ "start_txn" at pointer
    ▸ "commit_txn" at pointer
    ▸ "cancel_txn" at pointer
    ▸ "event_idx" at pointer
    ▸ "sched_task" at pointer
    ▸ "task_ctx_size" at long
    ▸ "swap_task_ctx" at pointer
    ▸ "setup_aux" at pointer
    ▸ "free_aux" at pointer
    ▸ "snapshot_aux" at pointer
    ▸ "addr_filters_validate" at pointer
    ▸ "addr_filters_sync" at pointer
    ▸ "aux_output_match" at pointer
    ▸ "filter_match" at pointer
    ▸ "check_period" at pointer
    ▸ end)

abbrev pub struct_perf_cpu_context : CType
struct_perf_cpu_context = structure (
    "ctx" at struct_perf_event_context
    ▸ "task_ctx" at pointer
    ▸ "active_oncpu" at int
    ▸ "exclusive" at int
    ▸ "hrtimer_lock" at struct_raw_spinlock
    ▸ "hrtimer" at struct_hrtimer
    ▸ "hrtimer_interval" at long
    ▸ "hrtimer_active" at int
    ▸ "sched_cb_entry" at struct_list_head
    ▸ "sched_cb_usage" at int
    ▸ "online" at int
    ▸ "heap_size" at int
    ▸ "heap" at pointer
    ▸ "heap_default" at array 2 pointer
    ▸ end)

abbrev pub struct_perf_buffer : CType
struct_perf_buffer = structure (
    "refcount" at struct_refcount_struct
    ▸ "callback_head" at struct_callback_head
    ▸ "nr_pages" at int
    ▸ "overwrite" at int
    ▸ "paused" at int
    ▸ "poll" at atomic_t
    ▸ "head" at local_t
    ▸ "nest" at int
    ▸ "events" at local_t
    ▸ "wakeup" at local_t
    ▸ "lost" at local_t
    ▸ "watermark" at long
    ▸ "aux_watermark" at long
    ▸ "event_lock" at struct_spinlock
    ▸ "event_list" at struct_list_head
    ▸ "mmap_count" at atomic_t
    ▸ "mmap_locked" at long
    ▸ "mmap_user" at pointer
    ▸ "aux_head" at long
    ▸ "aux_nest" at int
    ▸ "aux_wakeup" at long
    ▸ "aux_pgoff" at long
    ▸ "aux_nr_pages" at int
    ▸ "aux_overwrite" at int
    ▸ "aux_mmap_count" at atomic_t
    ▸ "aux_mmap_locked" at long
    ▸ "free_aux" at pointer
    ▸ "aux_refcount" at struct_refcount_struct
    ▸ "aux_in_sampling" at int
    ▸ "aux_pages" at pointer
    ▸ "aux_priv" at pointer
    ▸ "user_page" at pointer
    ▸ "data_pages" at array 0 pointer
    ▸ end)

abbrev pub struct_trace_event : CType
struct_trace_event = structure (
    "node" at struct_hlist_node
    ▸ "list" at struct_list_head
    ▸ "type" at int
    ▸ "funcs" at pointer
    ▸ end)

abbrev pub struct_trace_event_call : CType
struct_trace_event_call = structure (
    "list" at struct_list_head
    ▸ "class" at pointer
    ▸ "" at union ("name" at pointer ▸ "tp" at pointer ▸ end)
    ▸ "event" at struct_trace_event
    ▸ "print_fmt" at pointer
    ▸ "filter" at pointer
    ▸ "mod" at pointer
    ▸ "data" at pointer
    ▸ "flags" at int
    ▸ "perf_refcount" at int
    ▸ "perf_events" at pointer
    ▸ "prog_array" at pointer
    ▸ "perf_perm" at pointer
    ▸ end)

abbrev pub struct_perf_callchain_entry : CType
struct_perf_callchain_entry = structure ("nr" at long ▸ "ip" at array 0 long ▸ end)
