-- ===== src/Kernel/Types/Files.antt =====
-- Files, identities and name spaces of a process (src/bpf/vmlinux.h).
use sto.Kernel.Layout.{
  CType, array, char, end, int, long, padding, pointer, structure, union, by_8, ◌▸◌, ◌at◌,
}
use sto.Kernel.Types.Maps.{
  atomic64_t, atomic_t, struct_list_head, struct_mutex, struct_qspinlock, struct_spinlock,
}
use sto.Kernel.Types.Programs.{struct_callback_head, struct_hlist_node}
use sto.Kernel.Types.Pmu.{struct_refcount_struct}
use sto.Kernel.Types.Events.{struct_llist_node, struct_wait_queue_head}
use sto.Kernel.Types.Signals.{struct_hlist_head}

abbrev pub struct_path : CType
struct_path = structure ("mnt" at pointer ▸ "dentry" at pointer ▸ end)

abbrev pub struct_qrwlock : CType
struct_qrwlock = structure (
    ""
      at union (
          "cnts" at atomic_t
          ▸ "" at structure ("wlocked" at char ▸ "__lstate" at array 3 char ▸ end)
          ▸ end)
    ▸ "wait_lock" at struct_qspinlock
    ▸ end)

abbrev pub rwlock_t : CType
rwlock_t = structure ("raw_lock" at struct_qrwlock ▸ end)

abbrev pub kuid_t : CType
kuid_t = structure ("val" at int ▸ end)

abbrev pub struct_fown_struct : CType
struct_fown_struct = structure (
    "lock" at rwlock_t
    ▸ "pid" at pointer
    ▸ "pid_type" at int
    ▸ "uid" at kuid_t
    ▸ "euid" at kuid_t
    ▸ "signum" at int
    ▸ end)

abbrev pub struct_file_ra_state : CType
struct_file_ra_state = structure (
    "start" at long
    ▸ "size" at int
    ▸ "async_size" at int
    ▸ "ra_pages" at int
    ▸ "mmap_miss" at int
    ▸ "prev_pos" at long
    ▸ end)

abbrev pub struct_file : CType
struct_file = structure (
    "f_u" at union ("fu_llist" at struct_llist_node ▸ "fu_rcuhead" at struct_callback_head ▸ end)
    ▸ "f_path" at struct_path
    ▸ "f_inode" at pointer
    ▸ "f_op" at pointer
    ▸ "f_lock" at struct_spinlock
    ▸ "f_write_hint" at int
    ▸ "f_count" at atomic64_t
    ▸ "f_flags" at int
    ▸ "f_mode" at int
    ▸ "f_pos_lock" at struct_mutex
    ▸ "f_pos" at long
    ▸ "f_owner" at struct_fown_struct
    ▸ "f_cred" at pointer
    ▸ "f_ra" at struct_file_ra_state
    ▸ "f_version" at long
    ▸ "f_security" at pointer
    ▸ "private_data" at pointer
    ▸ "f_ep_links" at struct_list_head
    ▸ "f_tfile_llink" at struct_list_head
    ▸ "f_mapping" at pointer
    ▸ "f_wb_err" at int
    ▸ "f_sb_err" at int
    ▸ end)

abbrev pub struct_fdtable : CType
struct_fdtable = structure (
    "max_fds" at int
    ▸ "fd" at pointer
    ▸ "close_on_exec" at pointer
    ▸ "open_fds" at pointer
    ▸ "full_fds_bits" at pointer
    ▸ "rcu" at struct_callback_head
    ▸ end)

abbrev pub struct_files_struct : CType
struct_files_struct = structure (
    "count" at atomic_t
    ▸ "resize_in_progress" at char
    ▸ "resize_wait" at struct_wait_queue_head
    ▸ "fdt" at pointer
    ▸ "fdtab" at struct_fdtable
    ▸ padding by_8 64
    ▸ padding by_8 64
    ▸ padding by_8 64
    ▸ padding by_8 64
    ▸ "file_lock" at struct_spinlock
    ▸ "next_fd" at int
    ▸ "close_on_exec_init" at array 1 long
    ▸ "open_fds_init" at array 1 long
    ▸ "full_fds_bits_init" at array 1 long
    ▸ "fd_array" at array 64 pointer
    ▸ padding by_8 64
    ▸ padding by_8 64
    ▸ padding by_8 64
    ▸ padding by_8 64
    ▸ end)

abbrev pub struct_nsproxy : CType
struct_nsproxy = structure (
    "count" at atomic_t
    ▸ "uts_ns" at pointer
    ▸ "ipc_ns" at pointer
    ▸ "mnt_ns" at pointer
    ▸ "pid_ns_for_children" at pointer
    ▸ "net_ns" at pointer
    ▸ "time_ns" at pointer
    ▸ "time_ns_for_children" at pointer
    ▸ "cgroup_ns" at pointer
    ▸ end)

abbrev pub struct_upid : CType
struct_upid = structure ("nr" at int ▸ "ns" at pointer ▸ end)

abbrev pub struct_pid : CType
struct_pid = structure (
    "count" at struct_refcount_struct
    ▸ "level" at int
    ▸ "lock" at struct_spinlock
    ▸ "tasks" at array 4 struct_hlist_head
    ▸ "inodes" at struct_hlist_head
    ▸ "wait_pidfd" at struct_wait_queue_head
    ▸ "rcu" at struct_callback_head
    ▸ "numbers" at array 1 struct_upid
    ▸ end)

abbrev pub kgid_t : CType
kgid_t = structure ("val" at int ▸ end)

abbrev pub struct_kernel_cap_struct : CType
struct_kernel_cap_struct = structure ("cap" at array 2 int ▸ end)

abbrev pub struct_cred : CType
struct_cred = structure (
    "usage" at atomic_t
    ▸ "uid" at kuid_t
    ▸ "gid" at kgid_t
    ▸ "suid" at kuid_t
    ▸ "sgid" at kgid_t
    ▸ "euid" at kuid_t
    ▸ "egid" at kgid_t
    ▸ "fsuid" at kuid_t
    ▸ "fsgid" at kgid_t
    ▸ "securebits" at int
    ▸ "cap_inheritable" at struct_kernel_cap_struct
    ▸ "cap_permitted" at struct_kernel_cap_struct
    ▸ "cap_effective" at struct_kernel_cap_struct
    ▸ "cap_bset" at struct_kernel_cap_struct
    ▸ "cap_ambient" at struct_kernel_cap_struct
    ▸ "jit_keyring" at char
    ▸ "session_keyring" at pointer
    ▸ "process_keyring" at pointer
    ▸ "thread_keyring" at pointer
    ▸ "request_key_auth" at pointer
    ▸ "security" at pointer
    ▸ "user" at pointer
    ▸ "user_ns" at pointer
    ▸ "group_info" at pointer
    ▸ "" at union ("non_rcu" at int ▸ "rcu" at struct_callback_head ▸ end)
    ▸ end)

abbrev pub struct_css_set : CType
struct_css_set = structure (
    "subsys" at array 4 pointer
    ▸ "refcount" at struct_refcount_struct
    ▸ "dom_cset" at pointer
    ▸ "dfl_cgrp" at pointer
    ▸ "nr_tasks" at int
    ▸ "tasks" at struct_list_head
    ▸ "mg_tasks" at struct_list_head
    ▸ "dying_tasks" at struct_list_head
    ▸ "task_iters" at struct_list_head
    ▸ "e_cset_node" at array 4 struct_list_head
    ▸ "threaded_csets" at struct_list_head
    ▸ "threaded_csets_node" at struct_list_head
    ▸ "hlist" at struct_hlist_node
    ▸ "cgrp_links" at struct_list_head
    ▸ "mg_preload_node" at struct_list_head
    ▸ "mg_node" at struct_list_head
    ▸ "mg_src_cgrp" at pointer
    ▸ "mg_dst_cgrp" at pointer
    ▸ "mg_dst_cset" at pointer
    ▸ "dead" at char
    ▸ "callback_head" at struct_callback_head
    ▸ end)
