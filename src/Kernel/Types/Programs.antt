-- ===== src/Kernel/Types/Programs.antt =====
-- BPF programs (src/bpf/vmlinux.h).
use sto.Kernel.Layout.{
  CType, array, bit_field, char, end, int, long, pointer, short, structure, union, by_1, by_2, ◌▸◌,
  ◌at◌,
}
use sto.Kernel.Types.Maps.{atomic64_t, struct_list_head, struct_work_struct}

abbrev pub struct_sock_filter : CType
struct_sock_filter = structure ("code" at short ▸ "jt" at char ▸ "jf" at char ▸ "k" at int ▸ end)

abbrev pub struct_bpf_insn : CType
struct_bpf_insn = structure (
    "code" at char
    ▸ bit_field "dst_reg" by_1 4
    ▸ bit_field "src_reg" by_1 4
    ▸ "off" at short
    ▸ "imm" at int
    ▸ end)

abbrev pub struct_bpf_prog : CType
struct_bpf_prog = structure (
    "pages" at short
    ▸ bit_field "jited" by_2 1
    ▸ bit_field "jit_requested" by_2 1
    ▸ bit_field "gpl_compatible" by_2 1
    ▸ bit_field "cb_access" by_2 1
    ▸ bit_field "dst_needed" by_2 1
    ▸ bit_field "blinded" by_2 1
    ▸ bit_field "is_func" by_2 1
    ▸ bit_field "kprobe_override" by_2 1
    ▸ bit_field "has_callchain_buf" by_2 1
    ▸ bit_field "enforce_expected_attach_type" by_2 1
    ▸ "type" at int
    ▸ "expected_attach_type" at int
    ▸ "len" at int
    ▸ "jited_len" at int
    ▸ "tag" at array 8 char
    ▸ "aux" at pointer
    ▸ "orig_prog" at pointer
    ▸ "bpf_func" at pointer
    ▸ "insns" at array 0 struct_sock_filter
    ▸ "insnsi" at array 0 struct_bpf_insn
    ▸ end)

abbrev pub struct_hlist_node : CType
struct_hlist_node = structure ("next" at pointer ▸ "pprev" at pointer ▸ end)

abbrev pub struct_rb_node : CType
struct_rb_node =
    structure ("__rb_parent_color" at long ▸ "rb_right" at pointer ▸ "rb_left" at pointer ▸ end)

abbrev pub struct_latch_tree_node : CType
struct_latch_tree_node = structure ("node" at array 2 struct_rb_node ▸ end)

abbrev pub struct_bpf_ksym : CType
struct_bpf_ksym = structure (
    "start" at long
    ▸ "end" at long
    ▸ "name" at array 128 char
    ▸ "lnode" at struct_list_head
    ▸ "tnode" at struct_latch_tree_node
    ▸ "prog" at char
    ▸ end)

abbrev pub struct_callback_head : CType
struct_callback_head = structure ("next" at pointer ▸ "func" at pointer ▸ end)

abbrev pub struct_bpf_prog_aux : CType
struct_bpf_prog_aux = structure (
    "refcnt" at atomic64_t
    ▸ "used_map_cnt" at int
    ▸ "max_ctx_offset" at int
    ▸ "max_pkt_offset" at int
    ▸ "max_tp_access" at int
    ▸ "stack_depth" at int
    ▸ "id" at int
    ▸ "func_cnt" at int
    ▸ "func_idx" at int
    ▸ "attach_btf_id" at int
    ▸ "ctx_arg_info_size" at int
    ▸ "ctx_arg_info" at pointer
    ▸ "linked_prog" at pointer
    ▸ "verifier_zext" at char
    ▸ "offload_requested" at char
    ▸ "attach_btf_trace" at char
    ▸ "func_proto_unreliable" at char
    ▸ "trampoline_prog_type" at int
    ▸ "trampoline" at pointer
    ▸ "tramp_hlist" at struct_hlist_node
    ▸ "attach_func_proto" at pointer
    ▸ "attach_func_name" at pointer
    ▸ "func" at pointer
    ▸ "jit_data" at pointer
    ▸ "poke_tab" at pointer
    ▸ "size_poke_tab" at int
    ▸ "ksym" at struct_bpf_ksym
    ▸ "ops" at pointer
    ▸ "used_maps" at pointer
    ▸ "prog" at pointer
    ▸ "user" at pointer
    ▸ "load_time" at long
    ▸ "cgroup_storage" at array 2 pointer
    ▸ "name" at array 16 char
    ▸ "security" at pointer
    ▸ "offload" at pointer
    ▸ "btf" at pointer
    ▸ "func_info" at pointer
    ▸ "func_info_aux" at pointer
    ▸ "linfo" at pointer
    ▸ "jited_linfo" at pointer
    ▸ "func_info_cnt" at int
    ▸ "nr_linfo" at int
    ▸ "linfo_idx" at int
    ▸ "num_exentries" at int
    ▸ "extable" at pointer
    ▸ "stats" at pointer
    ▸ "" at union ("work" at struct_work_struct ▸ "rcu" at struct_callback_head ▸ end)
    ▸ end)
