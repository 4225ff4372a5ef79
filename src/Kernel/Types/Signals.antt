-- ===== src/Kernel/Types/Signals.antt =====
-- Signals of a process (src/bpf/vmlinux.h).
use sto.Kernel.Layout.{
  CType, array, bit_field, char, end, int, long, pointer, short, structure, by_4, ◌▸◌, ◌at◌,
}
use sto.Kernel.Types.Maps.{
  atomic64_t, atomic_t, struct_list_head, struct_mutex, struct_raw_spinlock, struct_spinlock,
}
use sto.Kernel.Types.Pmu.{struct_rb_root, struct_refcount_struct}
use sto.Kernel.Types.Events.{struct_hrtimer, struct_wait_queue_head}

abbrev pub sigset_t : CType
sigset_t = structure ("sig" at array 1 long ▸ end)

abbrev pub struct_sigaction : CType
struct_sigaction = structure (
    "sa_handler" at pointer
    ▸ "sa_flags" at long
    ▸ "sa_restorer" at pointer
    ▸ "sa_mask" at sigset_t
    ▸ end)

abbrev pub struct_k_sigaction : CType
struct_k_sigaction = structure ("sa" at struct_sigaction ▸ end)

abbrev pub struct_sighand_struct : CType
struct_sighand_struct = structure (
    "siglock" at struct_spinlock
    ▸ "count" at struct_refcount_struct
    ▸ "signalfd_wqh" at struct_wait_queue_head
    ▸ "action" at array 64 struct_k_sigaction
    ▸ end)

abbrev pub struct_sigpending : CType
struct_sigpending = structure ("list" at struct_list_head ▸ "signal" at sigset_t ▸ end)

abbrev pub struct_hlist_head : CType
struct_hlist_head = structure ("first" at pointer ▸ end)

abbrev pub struct_cpu_itimer : CType
struct_cpu_itimer = structure ("expires" at long ▸ "incr" at long ▸ end)

abbrev pub struct_task_cputime_atomic : CType
struct_task_cputime_atomic =
    structure
      ("utime" at atomic64_t ▸ "stime" at atomic64_t ▸ "sum_exec_runtime" at atomic64_t ▸ end)

abbrev pub struct_thread_group_cputimer : CType
struct_thread_group_cputimer = structure ("cputime_atomic" at struct_task_cputime_atomic ▸ end)

abbrev pub struct_rb_root_cached : CType
struct_rb_root_cached = structure ("rb_root" at struct_rb_root ▸ "rb_leftmost" at pointer ▸ end)

abbrev pub struct_timerqueue_head : CType
struct_timerqueue_head = structure ("rb_root" at struct_rb_root_cached ▸ end)

abbrev pub struct_posix_cputimer_base : CType
struct_posix_cputimer_base =
    structure ("nextevt" at long ▸ "tqhead" at struct_timerqueue_head ▸ end)

abbrev pub struct_posix_cputimers : CType
struct_posix_cputimers = structure (
    "bases" at array 3 struct_posix_cputimer_base
    ▸ "timers_active" at int
    ▸ "expiry_active" at int
    ▸ end)

abbrev pub struct_seqcount : CType
struct_seqcount = structure ("sequence" at int ▸ end)

abbrev pub seqlock_t : CType
seqlock_t = structure ("seqcount" at struct_seqcount ▸ "lock" at struct_spinlock ▸ end)

abbrev pub struct_prev_cputime : CType
struct_prev_cputime =
    structure ("utime" at long ▸ "stime" at long ▸ "lock" at struct_raw_spinlock ▸ end)

abbrev pub struct_task_io_accounting : CType
struct_task_io_accounting = structure (
    "rchar" at long
    ▸ "wchar" at long
    ▸ "syscr" at long
    ▸ "syscw" at long
    ▸ "read_bytes" at long
    ▸ "write_bytes" at long
    ▸ "cancelled_write_bytes" at long
    ▸ end)

abbrev pub struct_rlimit : CType
struct_rlimit = structure ("rlim_cur" at long ▸ "rlim_max" at long ▸ end)

abbrev pub struct_pacct_struct : CType
struct_pacct_struct = structure (
    "ac_flag" at int
    ▸ "ac_exitcode" at long
    ▸ "ac_mem" at long
    ▸ "ac_utime" at long
    ▸ "ac_stime" at long
    ▸ "ac_minflt" at long
    ▸ "ac_majflt" at long
    ▸ end)

abbrev pub struct_signal_struct : CType
struct_signal_struct = structure (
    "sigcnt" at struct_refcount_struct
    ▸ "live" at atomic_t
    ▸ "nr_threads" at int
    ▸ "thread_head" at struct_list_head
    ▸ "wait_chldexit" at struct_wait_queue_head
    ▸ "curr_target" at pointer
    ▸ "shared_pending" at struct_sigpending
    ▸ "multiprocess" at struct_hlist_head
    ▸ "group_exit_code" at int
    ▸ "notify_count" at int
    ▸ "group_exit_task" at pointer
    ▸ "group_stop_count" at int
    ▸ "flags" at int
    ▸ bit_field "is_child_subreaper" by_4 1
    ▸ bit_field "has_child_subreaper" by_4 1
    ▸ "posix_timer_id" at int
    ▸ "posix_timers" at struct_list_head
    ▸ "real_timer" at struct_hrtimer
    ▸ "it_real_incr" at long
    ▸ "it" at array 2 struct_cpu_itimer
    ▸ "cputimer" at struct_thread_group_cputimer
    ▸ "posix_cputimers" at struct_posix_cputimers
    ▸ "pids" at array 4 pointer
    ▸ "tty_old_pgrp" at pointer
    ▸ "leader" at int
    ▸ "tty" at pointer
    ▸ "stats_lock" at seqlock_t
    ▸ "utime" at long
    ▸ "stime" at long
    ▸ "cutime" at long
    ▸ "cstime" at long
    ▸ "gtime" at long
    ▸ "cgtime" at long
    ▸ "prev_cputime" at struct_prev_cputime
    ▸ "nvcsw" at long
    ▸ "nivcsw" at long
    ▸ "cnvcsw" at long
    ▸ "cnivcsw" at long
    ▸ "min_flt" at long
    ▸ "maj_flt" at long
    ▸ "cmin_flt" at long
    ▸ "cmaj_flt" at long
    ▸ "inblock" at long
    ▸ "oublock" at long
    ▸ "cinblock" at long
    ▸ "coublock" at long
    ▸ "maxrss" at long
    ▸ "cmaxrss" at long
    ▸ "ioac" at struct_task_io_accounting
    ▸ "sum_sched_runtime" at long
    ▸ "rlim" at array 16 struct_rlimit
    ▸ "pacct" at struct_pacct_struct
    ▸ "stats" at pointer
    ▸ "audit_tty" at int
    ▸ "tty_audit_buf" at pointer
    ▸ "oom_flag_origin" at char
    ▸ "oom_score_adj" at short
    ▸ "oom_score_adj_min" at short
    ▸ "oom_mm" at pointer
    ▸ "cred_guard_mutex" at struct_mutex
    ▸ "exec_update_mutex" at struct_mutex
    ▸ end)
