-- ===== src/Tests/Layouts.antt =====
-- Sizes of the kernel's types, as a C compiler for x86-64 has them.
use sto.Bpf.{event_bytes, StacktraceEvent, IsEvent, default}
use sto.Bpf.Declared.{part, fields_bytes, struct_stacktrace_event-event_bytes}
use sto.Prelude.{length, arith}
use sto.Tests.Parts.{default-IsEvent}
use sto.Prelude.{◌+◌, ◌*◌, ◌≡◌, refl}
use sto.Prelude.{map, [], ◌∷◌, ◌/◌}
use sto.Bpf.{struct_stacktrace_event, sizeof_event}
use sto.Kernel.Layout.{
  fields_of, Place, size_of, align_of, align_fields, round_up, stricter, unit_start, larger, places,
}
use sto.Kernel.Layout.Size.{IsAligned, array-IsAligned}
use sto.Kernel.Types.Registers.{struct_pt_regs, struct_perf_event_attr}
use sto.Kernel.Types.Maps.{struct_bpf_map}
use sto.Kernel.Types.Programs.{struct_bpf_prog, struct_bpf_prog_aux}
use sto.Kernel.Types.Verifier.{struct_bpf_verifier_env}
use sto.Kernel.Types.Events.{struct_perf_event, struct_perf_sample_data}
use sto.Kernel.Types.Pmu.{struct_pmu}
use sto.Kernel.Types.Memory.{struct_mm_struct}
use sto.Kernel.Types.Signals.{struct_signal_struct}
use sto.Kernel.Types.Files.{struct_cred}
use sto.Kernel.Types.Thread.{struct_thread_struct}
use sto.Kernel.Types.Task.{struct_task_struct}

struct_pt_regs_size : size_of struct_pt_regs ≡ 168 * 8
unfolding size_of round_up align_fields stricter unit_start larger
struct_pt_regs_size = refl

struct_perf_event_attr_size : size_of struct_perf_event_attr ≡ 120 * 8
unfolding size_of round_up align_fields stricter unit_start larger
struct_perf_event_attr_size = refl

struct_bpf_map_size : size_of struct_bpf_map ≡ 256 * 8
unfolding size_of round_up align_fields stricter unit_start larger
struct_bpf_map_size = refl

struct_bpf_prog_size : size_of struct_bpf_prog ≡ 56 * 8
unfolding size_of round_up align_fields stricter unit_start larger
struct_bpf_prog_size = refl

struct_bpf_prog_aux_size : size_of struct_bpf_prog_aux ≡ 552 * 8
unfolding size_of round_up align_fields stricter unit_start larger
struct_bpf_prog_aux_size = refl

struct_bpf_verifier_env_size : size_of struct_bpf_verifier_env ≡ 4816 * 8
unfolding size_of round_up align_fields stricter unit_start larger
struct_bpf_verifier_env_size = refl

struct_perf_event_size : size_of struct_perf_event ≡ 992 * 8
unfolding size_of round_up align_fields stricter unit_start larger
struct_perf_event_size = refl

struct_perf_sample_data_size : size_of struct_perf_sample_data ≡ 384 * 8
unfolding size_of round_up align_fields stricter unit_start larger
struct_perf_sample_data_size = refl

struct_pmu_size : size_of struct_pmu ≡ 296 * 8
unfolding size_of round_up align_fields stricter unit_start larger
struct_pmu_size = refl

struct_mm_struct_size : size_of struct_mm_struct ≡ 992 * 8
unfolding size_of round_up align_fields stricter unit_start larger
struct_mm_struct_size = refl

struct_signal_struct_size : size_of struct_signal_struct ≡ 1080 * 8
unfolding size_of round_up align_fields stricter unit_start larger
struct_signal_struct_size = refl

struct_cred_size : size_of struct_cred ≡ 168 * 8
unfolding size_of round_up align_fields stricter unit_start larger
struct_cred_size = refl

struct_thread_struct_size : size_of struct_thread_struct ≡ 4352 * 8
unfolding size_of round_up align_fields stricter unit_start larger
struct_thread_struct_size = refl

struct_task_struct_size : size_of struct_task_struct ≡ 6848 * 8
unfolding size_of round_up align_fields stricter unit_start larger
struct_task_struct_size = refl

sizeof_event_size : size_of struct_stacktrace_event ≡ sizeof_event * 8
unfolding size_of round_up align_fields stricter
sizeof_event_size = refl

-- The compiler puts the fields of the event where its bytes are written and read: at 0, 4, 8, 24,
-- 28, 32 and 1056.
event_starts :
    map (λ (x : Place). x.start / 8) (places 0 (fields_of struct_stacktrace_event))
    ≡ 0 ∷ 4 ∷ 8 ∷ 24 ∷ 28 ∷ 32 ∷ 1056 ∷ []
unfolding places round_up size_of align_of
event_starts = refl

-- The event of process 42
abbrev event : StacktraceEvent
event = record default { pid = 42 }

event-IsEvent : IsEvent event
event-IsEvent = record {
  pid = omega arith;
  cpu_id = omega arith;
  comm = refl;
  kstack_sz = omega arith;
  ustack_sz = omega arith;
  kstack = refl;
  kstack_words = default-IsEvent.kstack_words;
  ustack = refl;
  ustack_words = default-IsEvent.ustack_words;
}

struct_stacktrace_event-event_bytes_example :
    (map (part (event_bytes event)) (places 0 (fields_of struct_stacktrace_event))
      ≡ fields_bytes event)
    × (size_of struct_stacktrace_event ≡ 8 * length (event_bytes event))
struct_stacktrace_event-event_bytes_example =
    struct_stacktrace_event-event_bytes event event-IsEvent

array-IsAligned_example : IsAligned (align_of struct_pt_regs) (0x8000 + 3 * size_of struct_pt_regs)
unfolding align_of stricter
array-IsAligned_example = array-IsAligned struct_pt_regs 0x8000 3 refl
