-- ===== src/Bpf/Declared.antt =====
-- The declaration of `struct stacktrace_event` (src/bpf/bpftune.h) and the bytes of an event.
use Prim.Native.String.{String}
use sto.Prelude.{
  ℕ, zero, suc, ◌-◌, ◌≤◌, ◌*◌, ◌/◌, ◌≡◌, refl, ap, ◌∙◌, List, [], ◌∷◌, ◌++◌, map, arith, length,
  drop, take, take-length-append, take_of_length-le,
}
use sto.Words.{le_bytes, array_bytes, length-le_bytes, length-array_bytes}
use sto.Kernel.Layout.{
  Field, ◌at◌, bit_field, padding, Place, places, fields_of, size_of, align_of, align_fields,
  round_up, stricter,
}
use sto.Bpf.{StacktraceEvent, IsEvent, event_bytes, struct_stacktrace_event}
use sto.Bpf.Codec.{length-event_bytes}

abbrev pub name : Field → String
name (n at t) = n
name (bit_field n a w) = n
name (padding a w) = ""

-- The part of the bytes that lies at the place of a field
abbrev pub part : List ℕ → Place → String × List ℕ
part bs x = (name x.field, take (x.size / 8) (drop (x.start / 8) bs))

-- The fields that the struct of the skeleton has, each with its own bytes
abbrev pub fields_bytes : StacktraceEvent → List (String × List ℕ)
fields_bytes e =
    ("pid", le_bytes 4 e.pid)
    ∷ ("cpu_id", le_bytes 4 e.cpu_id)
    ∷ ("comm", e.comm)
    ∷ ("kstack_sz", le_bytes 4 e.kstack_sz)
    ∷ ("ustack_sz", le_bytes 4 e.ustack_sz)
    ∷ ("kstack", array_bytes 8 e.kstack)
    ∷ ("ustack", array_bytes 8 e.ustack)
    ∷ []

skip : (xs ys : List ℕ) (n k : ℕ) → length xs ≡ n → n ≤ k → drop k (xs ++ ys) ≡ drop (k - n) ys
skip [] ys zero k h le = ap (λ j. drop j ys) (omega arith)
skip [] ys (suc n) k h le = absurd (omega arith)
skip (x ∷ xs) ys zero k h le = absurd (omega arith)
skip (x ∷ xs) ys (suc n) zero h le = absurd (omega arith)
skip (x ∷ xs) ys (suc n) (suc k) h le =
    skip xs ys n k (omega arith) (omega arith) ∙ ap (λ j. drop j ys) (omega arith)

word : (w k : ℕ) (rest : List ℕ) → 4 ≤ k → drop k (le_bytes 4 w ++ rest) ≡ drop (k - 4) rest
word w k rest = skip (le_bytes 4 w) rest 4 k (length-le_bytes 4 w)

take-word : (w : ℕ) (rest : List ℕ) → take 4 (le_bytes 4 w ++ rest) ≡ le_bytes 4 w
take-word w rest = take-length-append (le_bytes 4 w) rest 4 (length-le_bytes 4 w)

module _ (e : StacktraceEvent) (h : IsEvent e) where
  abbrev from_kstack : List ℕ
  from_kstack = array_bytes 8 e.kstack ++ array_bytes 8 e.ustack

  abbrev from_sizes : List ℕ
  from_sizes = le_bytes 4 e.kstack_sz ++ (le_bytes 4 e.ustack_sz ++ from_kstack)

  behind_cpu_id : (k : ℕ) → 8 ≤ k → drop k (event_bytes e) ≡ drop (k - 8) (e.comm ++ from_sizes)
  unfolding event_bytes
  behind_cpu_id k le =
      word e.pid k _ (omega arith)
      ∙ word e.cpu_id (k - 4) _ (omega arith)
      ∙ ap (λ j. drop j (e.comm ++ from_sizes)) (omega arith)

  behind_comm : (k : ℕ) → 24 ≤ k → drop k (event_bytes e) ≡ drop (k - 24) from_sizes
  behind_comm k le =
      behind_cpu_id k (omega arith)
      ∙ skip e.comm from_sizes 16 (k - 8) h.comm (omega arith)
      ∙ ap (λ j. drop j from_sizes) (omega arith)

  behind_sizes : (k : ℕ) → 32 ≤ k → drop k (event_bytes e) ≡ drop (k - 32) from_kstack
  behind_sizes k le =
      behind_comm k (omega arith)
      ∙ word e.kstack_sz (k - 24) _ (omega arith)
      ∙ word e.ustack_sz (k - 24 - 4) _ (omega arith)
      ∙ ap (λ j. drop j from_kstack) (omega arith)

  at_pid : take 4 (event_bytes e) ≡ le_bytes 4 e.pid
  unfolding event_bytes
  at_pid = take-word e.pid _

  at_cpu_id : take 4 (drop 4 (event_bytes e)) ≡ le_bytes 4 e.cpu_id
  unfolding event_bytes
  at_cpu_id = ap (take 4) (word e.pid 4 _ (omega arith)) ∙ take-word e.cpu_id _

  kstack_length : length (array_bytes 8 e.kstack) ≡ 1024
  kstack_length = omega (arith, length-array_bytes 8 e.kstack, h.kstack)

  ustack_length : length (array_bytes 8 e.ustack) ≤ 1024
  ustack_length = omega (arith, length-array_bytes 8 e.ustack, h.ustack)

  -- The declaration puts each field where its bytes are: cut at the places that a compiler for
  -- x86-64 gives to the declared fields, the bytes of an event are, name by name and in order, the
  -- bytes of its fields, and nothing is left over at the end.
  pub struct_stacktrace_event-event_bytes :
      (map (part (event_bytes e)) (places 0 (fields_of struct_stacktrace_event)) ≡ fields_bytes e)
      × (size_of struct_stacktrace_event ≡ 8 * length (event_bytes e))
  unfolding places round_up size_of align_of align_fields stricter
  struct_stacktrace_event-event_bytes = (
    rw
        (
          at_pid,
          at_cpu_id,
          ap (take 16) (behind_cpu_id 8 (omega arith))
              ∙ take-length-append e.comm from_sizes 16 h.comm,
          ap (take 4) (behind_comm 24 (omega arith)) ∙ take-word e.kstack_sz _,
          ap (take 4) (behind_comm 28 (omega arith) ∙ word e.kstack_sz 4 _ (omega arith))
              ∙ take-word e.ustack_sz _,
          ap (take 1024) (behind_sizes 32 (omega arith))
              ∙ take-length-append (array_bytes 8 e.kstack) _ 1024 kstack_length,
          ap (take 1024) (
                behind_sizes 1056 (omega arith)
                ∙ skip (array_bytes 8 e.kstack) _ 1024 1024 kstack_length (omega arith))
              ∙ take_of_length-le 1024 (array_bytes 8 e.ustack) ustack_length,
        )
        refl,
    rw (length-event_bytes e h) refl,
  )
