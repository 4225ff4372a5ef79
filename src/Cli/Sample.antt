-- ===== src/Cli/Sample.antt =====
-- The ring buffer's callback in `profile` of src/bin/cli.rs. Each sample is sent by a thread of its
-- own: Threads.antt has the order in which they arrive.
use sto.Prelude.{ℕ, ◌≡◌, ◌≢◌, Option, none, some, List, ◌==◌, if◌then◌else◌, length, ◌<◌, arith}
use sto.Bpf.{StacktraceEvent, IsEvent, event_bytes, copy_from_bytes, sizeof_event}
use sto.Bpf.Codec.{copy_from_bytes-event_bytes}
use sto.Defs.{Args, StackInfo}

-- A panic, or the callback's result 0 with what it sends.
pub data Callback : Type 0 where
  panicked : Callback
  returned : Option StackInfo → Callback

unfoldable pub on_event : Args → StacktraceEvent → Callback
on_event args event =
    if event.pid == 0
    then returned none
    else returned (some (record { event = event; args = args }))

-- `expect` on a buffer that is too short.
unfoldable pub or_panic : Args → Option StacktraceEvent → Callback
unfolding on_event
or_panic args none = panicked
or_panic args (some event) = on_event args event

unfoldable pub on_sample : Args → List ℕ → Callback
unfolding or_panic
on_sample args bytes = or_panic args (copy_from_bytes bytes)

-- A record that the kernel side wrote arrives as the event that was written, with the arguments of
-- the run; a sample of the idle task, process 0, is passed over. No such record makes the tool panic.
pub on_sample-event_bytes :
    (args : Args) (e : StacktraceEvent)
    → IsEvent e
    → (e.pid ≢ 0
        → on_sample args (event_bytes e) ≡ returned (some (record { event = e; args = args })))
      × (e.pid ≡ 0 → on_sample args (event_bytes e) ≡ returned none)
unfolding on_sample
on_sample-event_bytes args e h = (
  λ ne. rw (copy_from_bytes-event_bytes e h) (ground arith),
  λ eq. rw (copy_from_bytes-event_bytes e h) (ground arith),
)

-- A buffer shorter than an event makes the callback panic.
pub on_sample-short :
    (args : Args) (bytes : List ℕ) → length bytes < sizeof_event → on_sample args bytes ≡ panicked
unfolding on_sample copy_from_bytes
on_sample-short args bytes h = ground arith
