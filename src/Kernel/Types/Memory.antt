-- ===== src/Kernel/Types/Memory.antt =====
-- Address spaces (src/bpf/vmlinux.h).
use sto.Kernel.Layout.{CType, array, char, end, int, long, pointer, short, structure, ◌▸◌, ◌at◌}
use sto.Kernel.Types.Maps.{
  atomic64_t, atomic_t, struct_list_head, struct_mutex, struct_optimistic_spin_queue,
  struct_raw_spinlock, struct_spinlock, struct_work_struct,
}
use sto.Kernel.Types.Pmu.{struct_rb_root}
use sto.Kernel.Types.Programs.{struct_rb_node}

abbrev pub struct_rw_semaphore : CType
struct_rw_semaphore = structure (
    "count" at atomic64_t
    ▸ "owner" at atomic64_t
    ▸ "osq" at struct_optimistic_spin_queue
    ▸ "wait_lock" at struct_raw_spinlock
    ▸ "wait_list" at struct_list_head
    ▸ end)

abbrev pub struct_mm_rss_stat : CType
struct_mm_rss_stat = structure ("count" at array 4 atomic64_t ▸ end)

abbrev pub mm_context_t : CType
mm_context_t = structure (
    "ctx_id" at long
    ▸ "tlb_gen" at atomic64_t
    ▸ "ldt_usr_sem" at struct_rw_semaphore
    ▸ "ldt" at pointer
    ▸ "ia32_compat" at short
    ▸ "lock" at struct_mutex
    ▸ "vdso" at pointer
    ▸ "vdso_image" at pointer
    ▸ "perf_rdpmc_allowed" at atomic_t
    ▸ "pkey_allocation_map" at short
    ▸ "execute_only_pkey" at short
    ▸ end)

abbrev pub struct_uprobes_state : CType
struct_uprobes_state = structure ("xol_area" at pointer ▸ end)

abbrev pub struct_mm_struct : CType
struct_mm_struct = structure (
    ""
      at structure (
          "mmap" at pointer
          ▸ "mm_rb" at struct_rb_root
          ▸ "vmacache_seqnum" at long
          ▸ "get_unmapped_area" at pointer
          ▸ "mmap_base" at long
          ▸ "mmap_legacy_base" at long
          ▸ "mmap_compat_base" at long
          ▸ "mmap_compat_legacy_base" at long
          ▸ "task_size" at long
          ▸ "highest_vm_end" at long
          ▸ "pgd" at pointer
          ▸ "membarrier_state" at atomic_t
          ▸ "mm_users" at atomic_t
          ▸ "mm_count" at atomic_t
          ▸ "pgtables_bytes" at atomic64_t
          ▸ "map_count" at int
          ▸ "page_table_lock" at struct_spinlock
          ▸ "mmap_lock" at struct_rw_semaphore
          ▸ "mmlist" at struct_list_head
          ▸ "hiwater_rss" at long
          ▸ "hiwater_vm" at long
          ▸ "total_vm" at long
          ▸ "locked_vm" at long
          ▸ "pinned_vm" at atomic64_t
          ▸ "data_vm" at long
          ▸ "exec_vm" at long
          ▸ "stack_vm" at long
          ▸ "def_flags" at long
          ▸ "arg_lock" at struct_spinlock
          ▸ "start_code" at long
          ▸ "end_code" at long
          ▸ "start_data" at long
          ▸ "end_data" at long
          ▸ "start_brk" at long
          ▸ "brk" at long
          ▸ "start_stack" at long
          ▸ "arg_start" at long
          ▸ "arg_end" at long
          ▸ "env_start" at long
          ▸ "env_end" at long
          ▸ "saved_auxv" at array 46 long
          ▸ "rss_stat" at struct_mm_rss_stat
          ▸ "binfmt" at pointer
          ▸ "context" at mm_context_t
          ▸ "flags" at long
          ▸ "core_state" at pointer
          ▸ "ioctx_lock" at struct_spinlock
          ▸ "ioctx_table" at pointer
          ▸ "user_ns" at pointer
          ▸ "exe_file" at pointer
          ▸ "notifier_subscriptions" at pointer
          ▸ "tlb_flush_pending" at atomic_t
          ▸ "tlb_flush_batched" at char
          ▸ "uprobes_state" at struct_uprobes_state
          ▸ "hugetlb_usage" at atomic64_t
          ▸ "async_put_work" at struct_work_struct
          ▸ end)
    ▸ "cpu_bitmap" at array 0 long
    ▸ end)

abbrev pub struct_pgprot : CType
struct_pgprot = structure ("pgprot" at long ▸ end)

abbrev pub struct_vm_userfaultfd_ctx : CType
struct_vm_userfaultfd_ctx = structure (end)

abbrev pub struct_vm_area_struct : CType
struct_vm_area_struct = structure (
    "vm_start" at long
    ▸ "vm_end" at long
    ▸ "vm_next" at pointer
    ▸ "vm_prev" at pointer
    ▸ "vm_rb" at struct_rb_node
    ▸ "rb_subtree_gap" at long
    ▸ "vm_mm" at pointer
    ▸ "vm_page_prot" at struct_pgprot
    ▸ "vm_flags" at long
    ▸ "shared" at structure ("rb" at struct_rb_node ▸ "rb_subtree_last" at long ▸ end)
    ▸ "anon_vma_chain" at struct_list_head
    ▸ "anon_vma" at pointer
    ▸ "vm_ops" at pointer
    ▸ "vm_pgoff" at long
    ▸ "vm_file" at pointer
    ▸ "vm_private_data" at pointer
    ▸ "swap_readahead_info" at atomic64_t
    ▸ "vm_policy" at pointer
    ▸ "vm_userfaultfd_ctx" at struct_vm_userfaultfd_ctx
    ▸ end)
