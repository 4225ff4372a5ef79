-- ===== src/Bpf.antt =====
-- The sample that the kernel side sends to the command line tool: `struct stacktrace_event` of
-- src/bpf/bpftune.h, its twin in src/bpf/bpftune.skel.rs, and its bytes in memory. Every field is
-- aligned where the one before it ends, so neither layout has padding.
pub mod Codec
pub mod Declared
pub mod Profile
pub mod FromStr
use sto.Kernel.Layout.{CType, structure, array, int, char, long, end, ◌at◌, ◌▸◌}
use sto.Prelude.{
  ℕ, ◌+◌, ◌*◌, ◌^◌, ◌<◌, ◌≡◌, Option, none, some, List, ◌++◌, replicate, length, All, ltb, drop,
  take, if◌then◌else◌,
}
use sto.Words.{le_bytes, array_bytes, read_le, read_array}

abbrev pub task_comm_len : ℕ
task_comm_len = 16

abbrev pub max_stack_depth : ℕ
max_stack_depth = 128

-- Integers are bit patterns of their width; `comm` holds bytes.
pub record StacktraceEvent : Type 0 where
  pub pid : ℕ
  pub cpu_id : ℕ
  pub comm : List ℕ
  pub kstack_sz : ℕ
  pub ustack_sz : ℕ
  pub kstack : List ℕ
  pub ustack : List ℕ

-- `stacktrace_event::default()`, and the C initialiser `{0}`
abbrev pub default : StacktraceEvent
default = record {
  pid = 0;
  cpu_id = 0;
  comm = replicate task_comm_len 0;
  kstack_sz = 0;
  ustack_sz = 0;
  kstack = replicate max_stack_depth 0;
  ustack = replicate max_stack_depth 0;
}

-- The declaration, for the layout that the compiler gives it
abbrev pub struct_stacktrace_event : CType
struct_stacktrace_event = structure (
    "pid" at int
    ▸ "cpu_id" at int
    ▸ "comm" at array task_comm_len char
    ▸ "kstack_sz" at int
    ▸ "ustack_sz" at int
    ▸ "kstack" at array max_stack_depth long
    ▸ "ustack" at array max_stack_depth long
    ▸ end)

-- sizeof(struct stacktrace_event)
abbrev pub sizeof_event : ℕ
sizeof_event = 4 + 4 + task_comm_len + 4 + 4 + max_stack_depth * 8 + max_stack_depth * 8

-- What the declared types promise of a value.
pub record IsEvent (e : StacktraceEvent) : Type 0 where
  pub pid : e.pid < 2 ^ 32
  pub cpu_id : e.cpu_id < 2 ^ 32
  pub comm : length e.comm ≡ task_comm_len
  pub kstack_sz : e.kstack_sz < 2 ^ 32
  pub ustack_sz : e.ustack_sz < 2 ^ 32
  pub kstack : length e.kstack ≡ max_stack_depth
  pub kstack_words : All (λ w. w < 2 ^ 64) e.kstack
  pub ustack : length e.ustack ≡ max_stack_depth
  pub ustack_words : All (λ w. w < 2 ^ 64) e.ustack

-- The bytes of an event as the kernel side leaves them in the ring buffer.
unfoldable pub event_bytes : StacktraceEvent → List ℕ
event_bytes e =
    le_bytes 4 e.pid
    ++ (le_bytes 4 e.cpu_id
        ++ (e.comm
            ++ (le_bytes 4 e.kstack_sz
                ++ (le_bytes 4 e.ustack_sz ++ (array_bytes 8 e.kstack ++ array_bytes 8 e.ustack)))))

-- `plain::copy_from_bytes(&mut event, data)`: `none` is the error on a buffer that is too short.
unfoldable pub copy_from_bytes : List ℕ → Option StacktraceEvent
copy_from_bytes bs =
    if ltb (length bs) sizeof_event
    then none
    else some (record {
      pid = read_le 4 bs;
      cpu_id = read_le 4 (drop 4 bs);
      comm = take task_comm_len (drop 4 (drop 4 bs));
      kstack_sz = read_le 4 (drop 16 (drop 4 (drop 4 bs)));
      ustack_sz = read_le 4 (drop 4 (drop 16 (drop 4 (drop 4 bs))));
      kstack = read_array max_stack_depth 8 (drop 4 (drop 4 (drop 16 (drop 4 (drop 4 bs)))));
      ustack =
          read_array max_stack_depth 8 (drop 1024 (drop 4 (drop 4 (drop 16 (drop 4 (drop 4 bs))))));
    })
