-- ===== src/Kernel/Types/Task.antt =====
-- The task that a sample is taken from (src/bpf/vmlinux.h).
use sto.Kernel.Layout.{
  CType, array, bit_field, char, end, int, long, padding, pointer, short, structure, union, by_4,
  by_8, ◌▸◌, ◌at◌,
}
use sto.Kernel.Types.Signals.{
  sigset_t, struct_posix_cputimers, struct_prev_cputime, struct_rb_root_cached, struct_seqcount,
  struct_sigpending, struct_task_io_accounting,
}
use sto.Kernel.Types.Maps.{struct_list_head, struct_mutex, struct_raw_spinlock, struct_spinlock}
use sto.Kernel.Types.Scheduling.{
  struct_restart_block, struct_sched_dl_entity, struct_sched_entity, struct_sched_info,
  struct_sched_rt_entity, struct_thread_info, struct_vmacache,
}
use sto.Kernel.Types.Programs.{struct_callback_head, struct_hlist_node, struct_rb_node}
use sto.Kernel.Types.Files.{kuid_t}
use sto.Kernel.Types.Pmu.{struct_refcount_struct}
use sto.Kernel.Types.Events.{struct_call_single_node}
use sto.Kernel.Types.Thread.{struct_thread_struct}

abbrev pub struct_cpumask : CType
struct_cpumask = structure ("bits" at array 1 long ▸ end)

abbrev pub struct_plist_node : CType
struct_plist_node =
    structure
      ("prio" at int ▸ "prio_list" at struct_list_head ▸ "node_list" at struct_list_head ▸ end)

abbrev pub struct_task_rss_stat : CType
struct_task_rss_stat = structure ("events" at int ▸ "count" at array 4 int ▸ end)

abbrev pub struct_sysv_sem : CType
struct_sysv_sem = structure ("undo_list" at pointer ▸ end)

abbrev pub struct_sysv_shm : CType
struct_sysv_shm = structure ("shm_clist" at struct_list_head ▸ end)

abbrev pub struct_seccomp : CType
struct_seccomp = structure ("mode" at int ▸ "filter" at pointer ▸ end)

abbrev pub struct_wake_q_node : CType
struct_wake_q_node = structure ("next" at pointer ▸ end)

abbrev pub nodemask_t : CType
nodemask_t = structure ("bits" at array 1 long ▸ end)

abbrev pub struct_arch_tlbflush_unmap_batch : CType
struct_arch_tlbflush_unmap_batch = structure ("cpumask" at struct_cpumask ▸ end)

abbrev pub struct_tlbflush_unmap_batch : CType
struct_tlbflush_unmap_batch = structure (
    "arch" at struct_arch_tlbflush_unmap_batch
    ▸ "flush_required" at char
    ▸ "writable" at char
    ▸ end)

abbrev pub struct_page_frag : CType
struct_page_frag = structure ("page" at pointer ▸ "offset" at int ▸ "size" at int ▸ end)

abbrev pub struct_task_struct : CType
struct_task_struct = structure (
    "thread_info" at struct_thread_info
    ▸ "state" at long
    ▸ "stack" at pointer
    ▸ "usage" at struct_refcount_struct
    ▸ "flags" at int
    ▸ "ptrace" at int
    ▸ "on_cpu" at int
    ▸ "wake_entry" at struct_call_single_node
    ▸ "cpu" at int
    ▸ "wakee_flips" at int
    ▸ "wakee_flip_decay_ts" at long
    ▸ "last_wakee" at pointer
    ▸ "recent_used_cpu" at int
    ▸ "wake_cpu" at int
    ▸ "on_rq" at int
    ▸ "prio" at int
    ▸ "static_prio" at int
    ▸ "normal_prio" at int
    ▸ "rt_priority" at int
    ▸ "sched_class" at pointer
    ▸ "se" at struct_sched_entity
    ▸ "rt" at struct_sched_rt_entity
    ▸ "sched_task_group" at pointer
    ▸ "dl" at struct_sched_dl_entity
    ▸ "btrace_seq" at int
    ▸ "policy" at int
    ▸ "nr_cpus_allowed" at int
    ▸ "cpus_ptr" at pointer
    ▸ "cpus_mask" at struct_cpumask
    ▸ "sched_info" at struct_sched_info
    ▸ "tasks" at struct_list_head
    ▸ "pushable_tasks" at struct_plist_node
    ▸ "pushable_dl_tasks" at struct_rb_node
    ▸ "mm" at pointer
    ▸ "active_mm" at pointer
    ▸ "vmacache" at struct_vmacache
    ▸ "rss_stat" at struct_task_rss_stat
    ▸ "exit_state" at int
    ▸ "exit_code" at int
    ▸ "exit_signal" at int
    ▸ "pdeath_signal" at int
    ▸ "jobctl" at long
    ▸ "personality" at int
    ▸ bit_field "sched_reset_on_fork" by_4 1
    ▸ bit_field "sched_contributes_to_load" by_4 1
    ▸ bit_field "sched_migrated" by_4 1
    ▸ bit_field "sched_remote_wakeup" by_4 1
    ▸ padding by_4 28
    ▸ bit_field "in_execve" by_4 1
    ▸ bit_field "in_iowait" by_4 1
    ▸ bit_field "restore_sigmask" by_4 1
    ▸ bit_field "no_cgroup_migration" by_4 1
    ▸ bit_field "frozen" by_4 1
    ▸ "atomic_flags" at long
    ▸ "restart_block" at struct_restart_block
    ▸ "pid" at int
    ▸ "tgid" at int
    ▸ "stack_canary" at long
    ▸ "real_parent" at pointer
    ▸ "parent" at pointer
    ▸ "children" at struct_list_head
    ▸ "sibling" at struct_list_head
    ▸ "group_leader" at pointer
    ▸ "ptraced" at struct_list_head
    ▸ "ptrace_entry" at struct_list_head
    ▸ "thread_pid" at pointer
    ▸ "pid_links" at array 4 struct_hlist_node
    ▸ "thread_group" at struct_list_head
    ▸ "thread_node" at struct_list_head
    ▸ "vfork_done" at pointer
    ▸ "set_child_tid" at pointer
    ▸ "clear_child_tid" at pointer
    ▸ "utime" at long
    ▸ "stime" at long
    ▸ "gtime" at long
    ▸ "prev_cputime" at struct_prev_cputime
    ▸ "nvcsw" at long
    ▸ "nivcsw" at long
    ▸ "start_time" at long
    ▸ "start_boottime" at long
    ▸ "min_flt" at long
    ▸ "maj_flt" at long
    ▸ "posix_cputimers" at struct_posix_cputimers
    ▸ "ptracer_cred" at pointer
    ▸ "real_cred" at pointer
    ▸ "cred" at pointer
    ▸ "cached_requested_key" at pointer
    ▸ "comm" at array 16 char
    ▸ "nameidata" at pointer
    ▸ "sysvsem" at struct_sysv_sem
    ▸ "sysvshm" at struct_sysv_shm
    ▸ "fs" at pointer
    ▸ "files" at pointer
    ▸ "nsproxy" at pointer
    ▸ "signal" at pointer
    ▸ "sighand" at pointer
    ▸ "blocked" at sigset_t
    ▸ "real_blocked" at sigset_t
    ▸ "saved_sigmask" at sigset_t
    ▸ "pending" at struct_sigpending
    ▸ "sas_ss_sp" at long
    ▸ "sas_ss_size" at long
    ▸ "sas_ss_flags" at int
    ▸ "task_works" at pointer
    ▸ "audit_context" at pointer
    ▸ "loginuid" at kuid_t
    ▸ "sessionid" at int
    ▸ "seccomp" at struct_seccomp
    ▸ "parent_exec_id" at long
    ▸ "self_exec_id" at long
    ▸ "alloc_lock" at struct_spinlock
    ▸ "pi_lock" at struct_raw_spinlock
    ▸ "wake_q" at struct_wake_q_node
    ▸ "pi_waiters" at struct_rb_root_cached
    ▸ "pi_top_task" at pointer
    ▸ "pi_blocked_on" at pointer
    ▸ "journal_info" at pointer
    ▸ "bio_list" at pointer
    ▸ "plug" at pointer
    ▸ "reclaim_state" at pointer
    ▸ "backing_dev_info" at pointer
    ▸ "io_context" at pointer
    ▸ "capture_control" at pointer
    ▸ "ptrace_message" at long
    ▸ "last_siginfo" at pointer
    ▸ "ioac" at struct_task_io_accounting
    ▸ "acct_rss_mem1" at long
    ▸ "acct_vm_mem1" at long
    ▸ "acct_timexpd" at long
    ▸ "mems_allowed" at nodemask_t
    ▸ "mems_allowed_seq" at struct_seqcount
    ▸ "cpuset_mem_spread_rotor" at int
    ▸ "cpuset_slab_spread_rotor" at int
    ▸ "cgroups" at pointer
    ▸ "cg_list" at struct_list_head
    ▸ "robust_list" at pointer
    ▸ "compat_robust_list" at pointer
    ▸ "pi_state_list" at struct_list_head
    ▸ "pi_state_cache" at pointer
    ▸ "futex_exit_mutex" at struct_mutex
    ▸ "futex_state" at int
    ▸ "perf_event_ctxp" at array 2 pointer
    ▸ "perf_event_mutex" at struct_mutex
    ▸ "perf_event_list" at struct_list_head
    ▸ "mempolicy" at pointer
    ▸ "il_prev" at short
    ▸ "pref_node_fork" at short
    ▸ "rseq" at pointer
    ▸ "rseq_sig" at int
    ▸ "rseq_event_mask" at long
    ▸ "tlb_ubc" at struct_tlbflush_unmap_batch
    ▸ "" at union ("rcu_users" at struct_refcount_struct ▸ "rcu" at struct_callback_head ▸ end)
    ▸ "splice_pipe" at pointer
    ▸ "task_frag" at struct_page_frag
    ▸ "delays" at pointer
    ▸ "nr_dirtied" at int
    ▸ "nr_dirtied_pause" at int
    ▸ "dirty_paused_when" at long
    ▸ "timer_slack_ns" at long
    ▸ "default_timer_slack_ns" at long
    ▸ "trace" at long
    ▸ "trace_recursion" at long
    ▸ "utask" at pointer
    ▸ "pagefault_disabled" at int
    ▸ "oom_reaper_list" at pointer
    ▸ "stack_vm_area" at pointer
    ▸ "stack_refcount" at struct_refcount_struct
    ▸ "security" at pointer
    ▸ "mce_addr" at long
    ▸ bit_field "mce_ripv" by_8 1
    ▸ bit_field "mce_whole_page" by_8 1
    ▸ bit_field "__mce_reserved" by_8 62
    ▸ "mce_kill_me" at struct_callback_head
    ▸ padding by_8 64
    ▸ padding by_8 64
    ▸ padding by_8 64
    ▸ padding by_8 64
    ▸ padding by_8 64
    ▸ padding by_8 64
    ▸ "thread" at struct_thread_struct
    ▸ end)
