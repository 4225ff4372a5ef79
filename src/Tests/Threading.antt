-- ===== src/Tests/Threading.antt =====
-- Two samples on their way through the threads of the tool.
use sto.Prelude.{ℕ, ◌+◌, ◌≡◌, ◌≢◌, ◌^◌, ◌<◌, refl, ◌⊎◌, some, [], ◌∷◌, map, arith, length}
use sto.Bpf.{StacktraceEvent, IsEvent, default, event_bytes}
use sto.Defs.{StackInfo}
use sto.Cli.Sample.{returned, on_sample, on_sample-event_bytes}
use sto.Cli.Worker.Batches.{IsBatched, keep, kept}
use sto.Cli.Threads.{
  Tool, start, spawn, send, receive, here, next, on_data, on_send, on_receive, Drains, none_yet,
  one_sent, one_received,
}
use sto.Cli.Threads.Conserved.{Conserved, Reach-Conserved}
use sto.Cli.Threads.Drained.{left, in_tool, Receives, Drains-progress}
use sto.Tests.Parts.{default-IsEvent}
use sto.Tests.Sampling.{args}

abbrev event_of : ℕ → StacktraceEvent
event_of pid = record default { pid = pid }

abbrev info_of : ℕ → StackInfo
info_of pid = record { event = event_of pid; args = args }

-- The worker keeps the process of a sample.
abbrev pid_of : StackInfo → ℕ
pid_of info = info.event.pid

event_of-IsEvent : (pid : ℕ) → pid < 2 ^ 32 → IsEvent (event_of pid)
event_of-IsEvent pid h = record {
  pid = h;
  cpu_id = omega arith;
  comm = refl;
  kstack_sz = omega arith;
  ustack_sz = omega arith;
  kstack = refl;
  kstack_words = default-IsEvent.kstack_words;
  ustack = refl;
  ustack_words = default-IsEvent.ustack_words;
}

-- The callback takes the sample of a process.
on_sample-event_of :
    (pid : ℕ)
    → pid < 2 ^ 32
    → pid ≢ 0
    → on_sample args (event_bytes (event_of pid)) ≡ returned (some (info_of pid))
on_sample-event_of pid h = (on_sample-event_bytes args (event_of pid) (event_of-IsEvent pid h)).0

-- The thread of the second sample is the first to send, and the worker has it.
abbrev both : Tool ℕ
both = spawn (info_of 43) (spawn (info_of 42) start)

abbrev second_sent : Tool ℕ
second_sent = send (info_of 42 ∷ []) (info_of 43) [] both

abbrev overtaken : Tool ℕ
overtaken = receive pid_of (info_of 43) [] second_sent

two_wait : both.waiting ≡ (info_of 42 ∷ info_of 43 ∷ [])
unfolding spawn
two_wait = refl

one_on_channel : second_sent.channel ≡ (info_of 43 ∷ [])
unfolding spawn send
one_on_channel = refl

Reach-Conserved_example :
    Conserved pid_of pid_of overtaken
    × (kept overtaken.worker ≡ map pid_of (keep 0 overtaken.received))
    × IsBatched (length overtaken.received) overtaken.worker
Reach-Conserved_example = Reach-Conserved pid_of pid_of args (
    next
      (next
        (next
          (next here (
            on_data (event_bytes (event_of 42)) (info_of 42)
              (on_sample-event_of 42 (omega arith) (λ e. omega arith))))
          (on_data (event_bytes (event_of 43)) (info_of 43)
            (on_sample-event_of 43 (omega arith) (λ e. omega arith))))
        (on_send (info_of 42 ∷ []) [] (info_of 43) two_wait))
      (on_receive (info_of 43) [] one_on_channel))

Drains-progress_example :
    (2 + left overtaken ≡ left both)
    × (((overtaken.waiting ≡ []) × (overtaken.channel ≡ []))
        ⊎ ((u : Tool ℕ) × Drains pid_of both 3 u))
    × (in_tool pid_of overtaken ≡ in_tool pid_of both)
    × Receives pid_of both overtaken
Drains-progress_example = Drains-progress pid_of pid_of (
    one_received (info_of 43) [] (one_sent (info_of 42 ∷ []) [] (info_of 43) none_yet two_wait)
      one_on_channel)
