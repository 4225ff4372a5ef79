-- ===== src/Tests/Parts.antt =====
-- Implementations of what the program takes from elsewhere, which satisfy what is asked of them.
use mathlib.Core.Logic.{ite}
use mathlib.Core.Path.{subst}
use native.Mathlib.Decide.{ℕ_discrete}
use sto.Prelude.{
  ℕ, zero, suc, replicate, ◌+◌, ◌*◌, ◌%◌, ◌^◌, ◌<◌, ◌≡◌, refl, ◌⊎◌, inl, inr, Option, none, some,
  List, [], ◌∷◌, ◌++◌, append_assoc, arith, length, All,
}
use sto.Bpf.{StacktraceEvent, IsEvent, default}
use sto.Bpf.Profile.{Kernel, KernelLaws}
use sto.Defs.{Text, StackNode, StackNodeData}
use sto.Cli.Ids.{Hasher, HasherLaws, Cache, CacheLaws}
use sto.Cli.Sink.{Tools, Sink}

abbrev pub digest : ℕ → List ℕ → ℕ
digest acc [] = acc
digest acc (b ∷ bs) = digest ((acc * 31 + b) % 2 ^ 64) bs

digest-lt : (acc : ℕ) (bs : List ℕ) → acc < 2 ^ 64 → digest acc bs < 2 ^ 64
digest-lt acc [] h = h
digest-lt acc (b ∷ bs) h = digest-lt ((acc * 31 + b) % 2 ^ 64) bs (omega arith)

abbrev pub a_hasher : Hasher
a_hasher = record {
  State = List ℕ;
  new = [];
  append = λ bs s. s ++ bs;
  finalize64 = λ s. digest 7 s;
}

pub a_hasher_laws : HasherLaws a_hasher
a_hasher_laws = record {
  append_append = λ xs ys s. append_assoc s xs ys;
  finalize64_word = λ s. digest-lt 7 s (omega arith);
}

-- A cache that keeps everything.
module _ {K V : Type 0} (dec : Discrete K) where
  abbrev pub recall : List (K × V) → K → Option V
  recall [] k = none
  recall ((j, v) ∷ s) k = ite (dec j k) (some v) (recall s k)

  abbrev pub memo : Cache K V
  memo = record {
    State = List (K × V);
    Holds = λ s k v. recall s k ≡ some v;
    get = λ k s. (recall s k, s);
    insert = λ k v s. (k, v) ∷ s;
  }

  pub insert_recall :
      (k j : K) (s : List (K × V)) (v w : V)
      → recall ((k, v) ∷ s) j ≡ some w
      → (recall s j ≡ some w) ⊎ ((k ≡ j) × (v ≡ w))
  insert_recall k j s v w h = elim (dec k j) [
    | yes same ↦ inr (same, ground arith)
    | no other ↦ inl (ground arith)
  ]

  pub memo_laws : CacheLaws memo
  memo_laws = record {
    get_holds = λ k s v h. h;
    get_keeps = λ k j s v h. h;
    insert_holds = insert_recall;
  }

unfoldable pub Text-discrete : Discrete Text
Text-discrete = hlevel ℕ_discrete

unfoldable pub StackNode-discrete : Discrete StackNode
StackNode-discrete = hlevel ℕ_discrete

unfoldable pub StackNodeData-discrete : Discrete StackNodeData
StackNodeData-discrete = hlevel ℕ_discrete

abbrev pub tools : Tools
tools = record {
  hasher = a_hasher;
  sym_cache = memo Text-discrete;
  data_cache = memo StackNodeData-discrete;
  node_cache = memo StackNode-discrete;
  misc_cache = memo Text-discrete;
  demangle = λ s. s;
  deep_size_of = λ stack. 24 + 100 * length stack;
  deep_size_of_data = λ d. 72 + 40 * length d.stack_nodes;
}

abbrev pub cold : Sink tools
cold = record {
  nodes = [];
  datas = [];
  executables = [];
  parent_id = none;
  symbols = [];
  data_ids = [];
  node_ids = [];
}

-- A kernel whose ring buffer has room for `room` events.
abbrev pub a_kernel : Kernel
a_kernel = record {
  State = ℕ × List StacktraceEvent;
  current_pid_tgid = λ s. 42 * 2 ^ 32 + 43;
  smp_processor_id = λ s. 1;
  ringbuf_reserve = λ n s. elim s.0 [ zero ↦ none | suc room ↦ some (default, (room, s.1)) ];
  current_comm = λ n buf s. (0, buf);
  get_stack = λ n flags buf s. (8, buf);
  ringbuf_submit = λ e s. (s.0, s.1 ++ e ∷ []);
  submitted = λ s. s.1;
}

pub default-IsEvent : IsEvent default
default-IsEvent = record {
  pid = omega arith;
  cpu_id = omega arith;
  comm = refl;
  kstack_sz = omega arith;
  ustack_sz = omega arith;
  kstack = refl;
  kstack_words = all_zero 128;
  ustack = refl;
  ustack_words = all_zero 128;
}
  where
    all_zero : (n : ℕ) → All (λ w. w < 2 ^ 64) (replicate n 0)
    all_zero zero = tt
    all_zero (suc n) = (omega arith, all_zero n)

reserve_lem :
    (n room : ℕ) (shown : List StacktraceEvent) (s' : ℕ × List StacktraceEvent)
    (e : StacktraceEvent)
    → a_kernel.ringbuf_reserve n (room, shown) ≡ some (e, s')
    → IsEvent e × (s'.1 ≡ shown)
reserve_lem n zero shown s' e h = cc
reserve_lem n (suc room) shown s' e h =
    let same : default ≡ e = ground arith in (subst IsEvent same default-IsEvent, ground arith)

pub a_kernel_laws : KernelLaws a_kernel
a_kernel_laws = record {
  pid_tgid_word = λ s. omega arith;
  reserved = λ n s s' e h. reserve_lem n s.0 s.1 s' e h;
  comm_length = λ n buf s. refl;
  stack_length = λ n flags buf s. refl;
  stack_words = λ n flags buf s h. h;
  submit_shows = λ e s. refl;
}
