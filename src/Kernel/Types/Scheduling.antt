-- ===== src/Kernel/Types/Scheduling.antt =====
-- What the scheduler keeps of a task (src/bpf/vmlinux.h).
use sto.Kernel.Layout.{
  CType, array, bit_field, end, int, long, padding, pointer, short, structure, union, by_4, by_8,
  ◌▸◌, ◌at◌,
}
use sto.Kernel.Types.Events.{struct_hrtimer}
use sto.Kernel.Types.Programs.{struct_rb_node}
use sto.Kernel.Types.Maps.{struct_list_head}

abbrev pub struct_thread_info : CType
struct_thread_info = structure ("flags" at long ▸ "status" at int ▸ end)

abbrev pub struct_load_weight : CType
struct_load_weight = structure ("weight" at long ▸ "inv_weight" at int ▸ end)

abbrev pub struct_sched_statistics : CType
struct_sched_statistics = structure (
    "wait_start" at long
    ▸ "wait_max" at long
    ▸ "wait_count" at long
    ▸ "wait_sum" at long
    ▸ "iowait_count" at long
    ▸ "iowait_sum" at long
    ▸ "sleep_start" at long
    ▸ "sleep_max" at long
    ▸ "sum_sleep_runtime" at long
    ▸ "block_start" at long
    ▸ "block_max" at long
    ▸ "exec_max" at long
    ▸ "slice_max" at long
    ▸ "nr_migrations_cold" at long
    ▸ "nr_failed_migrations_affine" at long
    ▸ "nr_failed_migrations_running" at long
    ▸ "nr_failed_migrations_hot" at long
    ▸ "nr_forced_migrations" at long
    ▸ "nr_wakeups" at long
    ▸ "nr_wakeups_sync" at long
    ▸ "nr_wakeups_migrate" at long
    ▸ "nr_wakeups_local" at long
    ▸ "nr_wakeups_remote" at long
    ▸ "nr_wakeups_affine" at long
    ▸ "nr_wakeups_affine_attempts" at long
    ▸ "nr_wakeups_passive" at long
    ▸ "nr_wakeups_idle" at long
    ▸ end)

abbrev pub struct_util_est : CType
struct_util_est = structure ("enqueued" at int ▸ "ewma" at int ▸ end)

abbrev pub struct_sched_avg : CType
struct_sched_avg = structure (
    "last_update_time" at long
    ▸ "load_sum" at long
    ▸ "runnable_sum" at long
    ▸ "util_sum" at int
    ▸ "period_contrib" at int
    ▸ "load_avg" at long
    ▸ "runnable_avg" at long
    ▸ "util_avg" at long
    ▸ "util_est" at struct_util_est
    ▸ end)

abbrev pub struct_sched_entity : CType
struct_sched_entity = structure (
    "load" at struct_load_weight
    ▸ "run_node" at struct_rb_node
    ▸ "group_node" at struct_list_head
    ▸ "on_rq" at int
    ▸ "exec_start" at long
    ▸ "sum_exec_runtime" at long
    ▸ "vruntime" at long
    ▸ "prev_sum_exec_runtime" at long
    ▸ "nr_migrations" at long
    ▸ "statistics" at struct_sched_statistics
    ▸ "depth" at int
    ▸ "parent" at pointer
    ▸ "cfs_rq" at pointer
    ▸ "my_q" at pointer
    ▸ "runnable_weight" at long
    ▸ padding by_8 64
    ▸ padding by_8 64
    ▸ padding by_8 64
    ▸ "avg" at struct_sched_avg
    ▸ end)

abbrev pub struct_sched_rt_entity : CType
struct_sched_rt_entity = structure (
    "run_list" at struct_list_head
    ▸ "timeout" at long
    ▸ "watchdog_stamp" at long
    ▸ "time_slice" at int
    ▸ "on_rq" at short
    ▸ "on_list" at short
    ▸ "back" at pointer
    ▸ end)

abbrev pub struct_sched_dl_entity : CType
struct_sched_dl_entity = structure (
    "rb_node" at struct_rb_node
    ▸ "dl_runtime" at long
    ▸ "dl_deadline" at long
    ▸ "dl_period" at long
    ▸ "dl_bw" at long
    ▸ "dl_density" at long
    ▸ "runtime" at long
    ▸ "deadline" at long
    ▸ "flags" at int
    ▸ bit_field "dl_throttled" by_4 1
    ▸ bit_field "dl_boosted" by_4 1
    ▸ bit_field "dl_yielded" by_4 1
    ▸ bit_field "dl_non_contending" by_4 1
    ▸ bit_field "dl_overrun" by_4 1
    ▸ "dl_timer" at struct_hrtimer
    ▸ "inactive_timer" at struct_hrtimer
    ▸ end)

abbrev pub struct_sched_info : CType
struct_sched_info =
    structure (
      "pcount" at long ▸ "run_delay" at long ▸ "last_arrival" at long ▸ "last_queued" at long ▸ end)

abbrev pub struct_restart_block : CType
struct_restart_block = structure (
    "fn" at pointer
    ▸ ""
      at union (
          "futex"
            at structure (
                "uaddr" at pointer
                ▸ "val" at int
                ▸ "flags" at int
                ▸ "bitset" at int
                ▸ "time" at long
                ▸ "uaddr2" at pointer
                ▸ end)
          ▸ "nanosleep"
            at structure (
                "clockid" at int
                ▸ "type" at int
                ▸ "" at union ("rmtp" at pointer ▸ "compat_rmtp" at pointer ▸ end)
                ▸ "expires" at long
                ▸ end)
          ▸ "poll"
            at structure (
                "ufds" at pointer
                ▸ "nfds" at int
                ▸ "has_timeout" at int
                ▸ "tv_sec" at long
                ▸ "tv_nsec" at long
                ▸ end)
          ▸ end)
    ▸ end)

abbrev pub struct_vmacache : CType
struct_vmacache = structure ("seqnum" at long ▸ "vmas" at array 4 pointer ▸ end)
