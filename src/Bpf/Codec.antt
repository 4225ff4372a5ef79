-- ===== src/Bpf/Codec.antt =====
-- The kernel side and the command line tool agree on the bytes of an event.
use sto.Prelude.{
  ℕ, ◌≡◌, some, List, ◌++◌, length, arith, length-append, drop, drop-length-append,
  take-length-append, append-nil,
}
use sto.Words.{
  le_bytes, array_bytes, read_array, length-le_bytes, length-array_bytes, read_le-le_bytes,
  read_array-array_bytes,
}
use sto.Bpf.{StacktraceEvent, IsEvent, event_bytes, copy_from_bytes, sizeof_event, max_stack_depth}

pub length-event_bytes : (e : StacktraceEvent) → IsEvent e → length (event_bytes e) ≡ sizeof_event
unfolding event_bytes
length-event_bytes e h = omega (
  arith,
  length-append {0},
  length-le_bytes,
  length-array_bytes 8 e.kstack,
  length-array_bytes 8 e.ustack,
  h.comm,
  h.kstack,
  h.ustack,
)

-- What lies behind a leading word of four bytes.
drop-word : (w : ℕ) (rest : List ℕ) → drop 4 (le_bytes 4 w ++ rest) ≡ rest
drop-word w rest = drop-length-append (le_bytes 4 w) rest 4 (length-le_bytes 4 w)

module _ (e : StacktraceEvent) (h : IsEvent e) where
  drop-comm : (rest : List ℕ) → drop 16 (e.comm ++ rest) ≡ rest
  drop-comm rest = drop-length-append e.comm rest 16 h.comm

  drop-kstack : (rest : List ℕ) → drop 1024 (array_bytes 8 e.kstack ++ rest) ≡ rest
  drop-kstack rest =
      drop-length-append (array_bytes 8 e.kstack) rest 1024
        (omega (arith, length-array_bytes 8 e.kstack, h.kstack))

  read_array-kstack :
      (rest : List ℕ) → read_array max_stack_depth 8 (array_bytes 8 e.kstack ++ rest) ≡ e.kstack
  read_array-kstack rest = rw (← h.kstack) (read_array-array_bytes 8 e.kstack rest h.kstack_words)

  read_array-ustack : read_array max_stack_depth 8 (array_bytes 8 e.ustack) ≡ e.ustack
  read_array-ustack =
      rw (← append-nil (array_bytes 8 e.ustack), ← h.ustack)
        (read_array-array_bytes 8 e.ustack _ h.ustack_words)

  -- Copying an event out of the bytes that the kernel side wrote gives the event back.
  pub copy_from_bytes-event_bytes : copy_from_bytes (event_bytes e) ≡ some e
  unfolding copy_from_bytes
  copy_from_bytes-event_bytes = rw (length-event_bytes e h) (
      unfold event_bytes in
      simp (
        drop-word,
        drop-comm,
        drop-kstack,
        read_array-kstack,
        read_array-ustack,
        λ (rest : List ℕ). read_le-le_bytes 4 e.pid rest h.pid,
        λ (rest : List ℕ). read_le-le_bytes 4 e.cpu_id rest h.cpu_id,
        λ (rest : List ℕ). read_le-le_bytes 4 e.kstack_sz rest h.kstack_sz,
        λ (rest : List ℕ). read_le-le_bytes 4 e.ustack_sz rest h.ustack_sz,
        λ (rest : List ℕ). take-length-append e.comm rest 16 h.comm,
      ))
