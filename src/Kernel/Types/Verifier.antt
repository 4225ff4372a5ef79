-- ===== src/Kernel/Types/Verifier.antt =====
-- The state of the BPF verifier (src/bpf/vmlinux.h).
use sto.Kernel.Layout.{
  CType, array, char, end, int, long, pointer, short, structure, union, ◌▸◌, ◌at◌,
}

abbrev pub struct_tnum : CType
struct_tnum = structure ("value" at long ▸ "mask" at long ▸ end)

abbrev pub struct_bpf_reg_state : CType
struct_bpf_reg_state = structure (
    "type" at int
    ▸ ""
      at union (
          "range" at short
          ▸ "map_ptr" at pointer
          ▸ "btf_id" at int
          ▸ "mem_size" at int
          ▸ "raw" at long
          ▸ end)
    ▸ "off" at int
    ▸ "id" at int
    ▸ "ref_obj_id" at int
    ▸ "var_off" at struct_tnum
    ▸ "smin_value" at long
    ▸ "smax_value" at long
    ▸ "umin_value" at long
    ▸ "umax_value" at long
    ▸ "s32_min_value" at int
    ▸ "s32_max_value" at int
    ▸ "u32_min_value" at int
    ▸ "u32_max_value" at int
    ▸ "parent" at pointer
    ▸ "frameno" at int
    ▸ "subreg_def" at int
    ▸ "live" at int
    ▸ "precise" at char
    ▸ end)

abbrev pub struct_bpf_func_state : CType
struct_bpf_func_state = structure (
    "regs" at array 11 struct_bpf_reg_state
    ▸ "callsite" at int
    ▸ "frameno" at int
    ▸ "subprogno" at int
    ▸ "acquired_refs" at int
    ▸ "refs" at pointer
    ▸ "allocated_stack" at int
    ▸ "stack" at pointer
    ▸ end)

abbrev pub struct_bpf_verifier_log : CType
struct_bpf_verifier_log = structure (
    "level" at int
    ▸ "kbuf" at array 1024 char
    ▸ "ubuf" at pointer
    ▸ "len_used" at int
    ▸ "len_total" at int
    ▸ end)

abbrev pub struct_bpf_subprog_info : CType
struct_bpf_subprog_info =
    structure ("start" at int ▸ "linfo_idx" at int ▸ "stack_depth" at short ▸ end)

abbrev pub struct_bpf_verifier_env : CType
struct_bpf_verifier_env = structure (
    "insn_idx" at int
    ▸ "prev_insn_idx" at int
    ▸ "prog" at pointer
    ▸ "ops" at pointer
    ▸ "head" at pointer
    ▸ "stack_size" at int
    ▸ "strict_alignment" at char
    ▸ "test_state_freq" at char
    ▸ "cur_state" at pointer
    ▸ "explored_states" at pointer
    ▸ "free_list" at pointer
    ▸ "used_maps" at array 64 pointer
    ▸ "used_map_cnt" at int
    ▸ "id_gen" at int
    ▸ "allow_ptr_leaks" at char
    ▸ "bpf_capable" at char
    ▸ "bypass_spec_v1" at char
    ▸ "bypass_spec_v4" at char
    ▸ "seen_direct_write" at char
    ▸ "insn_aux_data" at pointer
    ▸ "prev_linfo" at pointer
    ▸ "log" at struct_bpf_verifier_log
    ▸ "subprog_info" at array 257 struct_bpf_subprog_info
    ▸ "cfg"
      at structure ("insn_state" at pointer ▸ "insn_stack" at pointer ▸ "cur_stack" at int ▸ end)
    ▸ "pass_cnt" at int
    ▸ "subprog_cnt" at int
    ▸ "prev_insn_processed" at int
    ▸ "insn_processed" at int
    ▸ "prev_jmps_processed" at int
    ▸ "jmps_processed" at int
    ▸ "verification_time" at long
    ▸ "max_states_per_insn" at int
    ▸ "total_states" at int
    ▸ "peak_states" at int
    ▸ "longest_mark_read_walk" at int
    ▸ end)
