-- ===== src/Bpf/Profile.antt =====
-- `profile`, the program that runs on every perf event (src/bpf/bpftune.bpf.c). The kernel's
-- helpers are parameters: they are no code of this repository.
use sto.Prelude.{
  ℕ, ◌*◌, ◌/◌, ◌%◌, ◌^◌, ◌<◌, ◌≡◌, refl, ◌⊎◌, inl, inr, Option, none, some, List, [], ◌∷◌, ◌++◌,
  length, arith, All, ◌==◌, if◌then◌else◌, Option-cases, ◌∙◌,
}
use sto.Bpf.{StacktraceEvent, IsEvent, sizeof_event, task_comm_len, max_stack_depth}

-- `max_entries` of the map `events`, and the flag of bpf_get_stack
abbrev pub events_max_entries : ℕ
events_max_entries = 256 * 1024

abbrev pub bpf_f_user_stack : ℕ
bpf_f_user_stack = 256

-- A helper that fills a buffer is given what the buffer holds, and returns its code beside what
-- the buffer holds then.
pub record Kernel : Type 1 where
  pub State : Type 0
  pub current_pid_tgid : State → ℕ
  pub smp_processor_id : State → ℕ
  pub ringbuf_reserve : ℕ → State → Option (StacktraceEvent × State)
  pub current_comm : ℕ → List ℕ → State → ℕ × List ℕ
  pub get_stack : ℕ → ℕ → List ℕ → State → ℕ × List ℕ
  pub ringbuf_submit : StacktraceEvent → State → State
  pub submitted : State → List StacktraceEvent

-- What the documentation of the helpers says: they stay within the buffer that they are given, a
-- reservation shows nothing to the reader, and a submission shows its record.
pub record KernelLaws (k : Kernel) : Type 0 where
  pub pid_tgid_word : (s : k.State) → k.current_pid_tgid s < 2 ^ 64
  pub reserved :
      (n : ℕ) (s s' : k.State) (e : StacktraceEvent)
      → k.ringbuf_reserve n s ≡ some (e, s')
      → IsEvent e × (k.submitted s' ≡ k.submitted s)
  pub comm_length :
      (n : ℕ) (buf : List ℕ) (s : k.State) → length (k.current_comm n buf s).1 ≡ length buf
  pub stack_length :
      (n flags : ℕ) (buf : List ℕ) (s : k.State) → length (k.get_stack n flags buf s).1 ≡ length buf
  pub stack_words :
      (n flags : ℕ) (buf : List ℕ) (s : k.State)
      → All (λ w. w < 2 ^ 64) buf
      → All (λ w. w < 2 ^ 64) (k.get_stack n flags buf s).1
  pub submit_shows :
      (e : StacktraceEvent) (s : k.State)
      → k.submitted (k.ringbuf_submit e s) ≡ k.submitted s ++ e ∷ []

-- event->comm[0] = 0
unfoldable pub clear_first : List ℕ → List ℕ
clear_first [] = []
clear_first (x ∷ xs) = 0 ∷ xs

length-clear_first : (xs : List ℕ) → length (clear_first xs) ≡ length xs
unfolding clear_first
length-clear_first [] = refl
length-clear_first (x ∷ xs) = refl

-- What is left in `comm`: the first byte is cleared if the helper fails.
unfoldable pub named : ℕ × List ℕ → List ℕ
named (code, comm) = if code == 0 then comm else clear_first comm

-- `int pid = ...; event->pid = pid`: both conversions keep the low 32 bits.
abbrev pub low_u32 : ℕ → ℕ
low_u32 w = w % 2 ^ 32

module _ (k : Kernel) where
  open k use {
    State, current_pid_tgid, smp_processor_id, ringbuf_reserve, current_comm, get_stack,
    ringbuf_submit, submitted,
  }

  -- The stores between the reservation and the submission.
  unfoldable pub fill : ℕ → ℕ → StacktraceEvent → State → StacktraceEvent
  unfolding named
  fill pid cpu_id event s =
      let (kstack_sz, kstack) = get_stack (max_stack_depth * 8) 0 event.kstack s in
      let (ustack_sz, ustack) = get_stack (max_stack_depth * 8) bpf_f_user_stack event.ustack s in
      record {
        pid = pid;
        cpu_id = cpu_id;
        comm = named (current_comm task_comm_len event.comm s);
        kstack_sz = low_u32 kstack_sz;
        ustack_sz = low_u32 ustack_sz;
        kstack = kstack;
        ustack = ustack;
      }

  unfoldable pub profile : State → ℕ × State
  profile s =
      let pid : ℕ = low_u32 (current_pid_tgid s / 2 ^ 32) in
      let cpu_id : ℕ = low_u32 (smp_processor_id s) in
      elim (ringbuf_reserve sizeof_event s) [
        | none ↦ (1, s)
        | some (event, s') ↦ (0, ringbuf_submit (fill pid cpu_id event s') s')
      ]

  module _ (laws : KernelLaws k) where
    length-named :
        (n : ℕ) (buf : List ℕ) (s : State) → length (named (current_comm n buf s)) ≡ length buf
    unfolding named
    length-named n buf s =
        ground (arith, laws.comm_length n buf s, length-clear_first (current_comm n buf s).1)

    pub fill-IsEvent :
        (pid cpu_id : ℕ) (event : StacktraceEvent) (s : State)
        → pid < 2 ^ 32
        → cpu_id < 2 ^ 32
        → IsEvent event
        → IsEvent (fill pid cpu_id event s)
    unfolding fill
    fill-IsEvent pid cpu_id event s hp hc h = record {
      pid = hp;
      cpu_id = hc;
      comm = omega (arith, length-named task_comm_len event.comm s, h.comm);
      kstack_sz = omega arith;
      ustack_sz = omega arith;
      kstack = omega (arith, laws.stack_length 1024 0 event.kstack s, h.kstack);
      kstack_words = laws.stack_words _ _ event.kstack s h.kstack_words;
      ustack = omega (arith, laws.stack_length 1024 256 event.ustack s, h.ustack);
      ustack_words = laws.stack_words _ _ event.ustack s h.ustack_words;
    }

    -- A run returns 1 and changes nothing if the ring buffer has no room. Otherwise it returns 0
    -- and the reader sees exactly one more record: a well-formed event that bears the process id
    -- of the task that was sampled.
    pub profile-submits :
        (s : State)
        → ((ringbuf_reserve sizeof_event s ≡ none) × (profile s ≡ (1, s)))
          ⊎ ((e : StacktraceEvent) × IsEvent e
              × (e.pid ≡ current_pid_tgid s / 2 ^ 32)
              × ((profile s).0 ≡ 0)
              × (submitted (profile s).1 ≡ submitted s ++ e ∷ []))
    unfolding profile
    profile-submits s = elim (Option-cases (ringbuf_reserve sizeof_event s)) [
      | inl full ↦ inl (full, rw (full, profile))
      | inr ((event, s'), got) ↦ inr (
          let pid : ℕ = low_u32 (current_pid_tgid s / 2 ^ 32) in
          let cpu_id : ℕ = low_u32 (smp_processor_id s) in
          let (typed, same) = laws.reserved sizeof_event s s' event got in
          (
            fill pid cpu_id event s',
            fill-IsEvent pid cpu_id event s' (omega arith) (omega arith) typed,
            unfold fill in omega (arith, laws.pid_tgid_word s),
            rw (got, profile),
            rw (got, profile) (laws.submit_shows (fill pid cpu_id event s') s' ∙ rw same),
          ))
    ]
