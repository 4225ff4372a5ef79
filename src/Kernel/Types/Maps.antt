-- ===== src/Kernel/Types/Maps.antt =====
-- BPF maps, the ring buffer's among them (src/bpf/vmlinux.h).
use sto.Kernel.Layout.{
  CType, array, char, end, int, long, padding, pointer, short, structure, union, by_8, ◌▸◌, ◌at◌,
}

abbrev pub struct_bpf_map_memory : CType
struct_bpf_map_memory = structure ("pages" at int ▸ "user" at pointer ▸ end)

abbrev pub atomic64_t : CType
atomic64_t = structure ("counter" at long ▸ end)

abbrev pub struct_list_head : CType
struct_list_head = structure ("next" at pointer ▸ "prev" at pointer ▸ end)

abbrev pub struct_work_struct : CType
struct_work_struct =
    structure ("data" at atomic64_t ▸ "entry" at struct_list_head ▸ "func" at pointer ▸ end)

abbrev pub atomic_t : CType
atomic_t = structure ("counter" at int ▸ end)

abbrev pub struct_qspinlock : CType
struct_qspinlock = structure (
    ""
      at union (
          "val" at atomic_t
          ▸ "" at structure ("locked" at char ▸ "pending" at char ▸ end)
          ▸ "" at structure ("locked_pending" at short ▸ "tail" at short ▸ end)
          ▸ end)
    ▸ end)

abbrev pub struct_raw_spinlock : CType
struct_raw_spinlock = structure ("raw_lock" at struct_qspinlock ▸ end)

abbrev pub struct_spinlock : CType
struct_spinlock = structure ("" at union ("rlock" at struct_raw_spinlock ▸ end) ▸ end)

abbrev pub struct_optimistic_spin_queue : CType
struct_optimistic_spin_queue = structure ("tail" at atomic_t ▸ end)

abbrev pub struct_mutex : CType
struct_mutex = structure (
    "owner" at atomic64_t
    ▸ "wait_lock" at struct_spinlock
    ▸ "osq" at struct_optimistic_spin_queue
    ▸ "wait_list" at struct_list_head
    ▸ end)

abbrev pub struct_bpf_map : CType
struct_bpf_map = structure (
    "ops" at pointer
    ▸ "inner_map_meta" at pointer
    ▸ "security" at pointer
    ▸ "map_type" at int
    ▸ "key_size" at int
    ▸ "value_size" at int
    ▸ "max_entries" at int
    ▸ "map_flags" at int
    ▸ "spin_lock_off" at int
    ▸ "id" at int
    ▸ "numa_node" at int
    ▸ "btf_key_type_id" at int
    ▸ "btf_value_type_id" at int
    ▸ "btf" at pointer
    ▸ "memory" at struct_bpf_map_memory
    ▸ "name" at array 16 char
    ▸ "btf_vmlinux_value_type_id" at int
    ▸ "bypass_spec_v1" at char
    ▸ "frozen" at char
    ▸ padding by_8 16
    ▸ padding by_8 64
    ▸ padding by_8 64
    ▸ "refcnt" at atomic64_t
    ▸ "usercnt" at atomic64_t
    ▸ "work" at struct_work_struct
    ▸ "freeze_mutex" at struct_mutex
    ▸ "writecnt" at long
    ▸ padding by_8 64
    ▸ padding by_8 64
    ▸ padding by_8 64
    ▸ padding by_8 64
    ▸ padding by_8 64
    ▸ end)

abbrev pub struct_bpf_map_ops : CType
struct_bpf_map_ops = structure (
    "map_alloc_check" at pointer
    ▸ "map_alloc" at pointer
    ▸ "map_release" at pointer
    ▸ "map_free" at pointer
    ▸ "map_get_next_key" at pointer
    ▸ "map_release_uref" at pointer
    ▸ "map_lookup_elem_sys_only" at pointer
    ▸ "map_lookup_batch" at pointer
    ▸ "map_lookup_and_delete_batch" at pointer
    ▸ "map_update_batch" at pointer
    ▸ "map_delete_batch" at pointer
    ▸ "map_lookup_elem" at pointer
    ▸ "map_update_elem" at pointer
    ▸ "map_delete_elem" at pointer
    ▸ "map_push_elem" at pointer
    ▸ "map_pop_elem" at pointer
    ▸ "map_peek_elem" at pointer
    ▸ "map_fd_get_ptr" at pointer
    ▸ "map_fd_put_ptr" at pointer
    ▸ "map_gen_lookup" at pointer
    ▸ "map_fd_sys_lookup_elem" at pointer
    ▸ "map_seq_show_elem" at pointer
    ▸ "map_check_btf" at pointer
    ▸ "map_poke_track" at pointer
    ▸ "map_poke_untrack" at pointer
    ▸ "map_poke_run" at pointer
    ▸ "map_direct_value_addr" at pointer
    ▸ "map_direct_value_meta" at pointer
    ▸ "map_mmap" at pointer
    ▸ "map_poll" at pointer
    ▸ end)

abbrev pub struct_bpf_link : CType
struct_bpf_link = structure (
    "refcnt" at atomic64_t
    ▸ "id" at int
    ▸ "type" at int
    ▸ "ops" at pointer
    ▸ "prog" at pointer
    ▸ "work" at struct_work_struct
    ▸ end)

abbrev pub struct_bpf_array : CType
struct_bpf_array = structure (
    "map" at struct_bpf_map
    ▸ "elem_size" at int
    ▸ "index_mask" at int
    ▸ "aux" at pointer
    ▸ ""
      at union
          ("value" at array 0 char ▸ "ptrs" at array 0 pointer ▸ "pptrs" at array 0 pointer ▸ end)
    ▸ padding by_8 64
    ▸ padding by_8 64
    ▸ padding by_8 64
    ▸ padding by_8 64
    ▸ padding by_8 64
    ▸ padding by_8 64
    ▸ end)
