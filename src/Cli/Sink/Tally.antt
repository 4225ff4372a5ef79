-- ===== src/Cli/Sink/Tally.antt =====
-- The one executable of a batch: how many stacks it counts, and how large they were.
use mathlib.Core.List.{reverse}
use sto.Prelude.{
  ℕ, zero, suc, ◌+◌, ◌%◌, ◌^◌, ◌<◌, ◌≡◌, refl, ap, ◌∙◌, ◌∙◌, none, some, List, [], ◌∷◌, arith, Map,
  upsert, and_modify, values, sum_of, length, length-reverse,
}
use sto.Words.{add_i64}
use sto.Defs.{Text, Args, Executable, StoData}
use sto.Cli.Ids.{misc_id}
use sto.Cli.Sink.{
  Tools, Sink, Stack, on_frame, on_frames, on_stack, on_stacks, on_symlist, on_symlists,
  new_executable, executable_key, data_out, start, with_binary, process_and_sink_data, grow, tables,
}
use sto.Cli.Sink.Counts.{sum_of-reverse}
use sto.Cli.Sink.Closed.{with_executable, executables-on_frame}

-- `e` after `n` stacks of `size` bytes in all.
abbrev pub after_stacks : Executable → ℕ → ℕ → Executable
after_stacks e n size = record e { sample_count = n % 2 ^ 64; raw_data_size = size % 2 ^ 64 }

abbrev Tally : Executable → ℕ → ℕ → Map Executable → Type 0
Tally e zero size es = (es ≡ []) × (size ≡ 0)
Tally e (suc n) size es = es ≡ (e.id, after_stacks e (suc n) size) ∷ []

module _ (e : Executable) (none_yet : e.sample_count ≡ 0) (no_data : e.raw_data_size ≡ 0) where
  Tally-with_executable :
      (n size z : ℕ) (es : Map Executable)
      → Tally e n size es
      → Tally e (suc n) (z + size) (with_executable e z es)
  unfolding upsert and_modify add_i64
  Tally-with_executable zero size z es h = rw h.0 (ground arith)
  Tally-with_executable (suc n) size z es h = rw h (ground arith)

  module _ (t : Tools) where
    executables-on_frames :
        (exe : ℕ) (stack : Stack) (s : Sink t)
        → (on_frames t exe stack s).executables ≡ s.executables
    unfolding on_frames
    executables-on_frames exe [] s = refl
    executables-on_frames exe (frame ∷ stack) s =
        executables-on_frames exe stack (on_frame t exe frame s)
        ∙ executables-on_frame t exe frame s

    Tally-on_stack :
        (n size : ℕ) (stack : Stack) (s : Sink t)
        → Tally e n size s.executables
        → Tally e (suc n) (t.deep_size_of stack + size) (on_stack t e stack s).executables
    unfolding on_stack
    Tally-on_stack n size stack s h =
        rw (executables-on_frames e.id stack _)
          (Tally-with_executable n size (t.deep_size_of stack) s.executables h)

    Tally-on_stacks :
        (n size m z : ℕ) (stacks : List Stack) (s : Sink t)
        → m ≡ n + length stacks
        → z ≡ size + sum_of t.deep_size_of stacks
        → Tally e n size s.executables
        → Tally e m z (on_stacks t e stacks s).executables
    unfolding on_stacks
    Tally-on_stacks n size m z [] s em ez h =
        let em' : m ≡ n = omega arith in let ez' : z ≡ size = omega arith in rw (em', ez') h
    Tally-on_stacks n size m z (stack ∷ stacks) s em ez h =
        Tally-on_stacks (suc n) (t.deep_size_of stack + size) m z stacks (on_stack t e stack s)
          (omega arith) (omega arith) (Tally-on_stack n size stack s h)

    Tally-on_symlists :
        (n size m z : ℕ) (symlists : List (List Stack)) (s : Sink t)
        → m ≡ n + sum_of length symlists
        → z ≡ size + sum_of (sum_of t.deep_size_of) symlists
        → Tally e n size s.executables
        → Tally e m z (on_symlists t e symlists s).executables
    unfolding on_symlists on_symlist
    Tally-on_symlists n size m z [] s em ez h =
        let em' : m ≡ n = omega arith in let ez' : z ≡ size = omega arith in rw (em', ez') h
    Tally-on_symlists n size m z (symlist ∷ symlists) s em ez h =
        Tally-on_symlists (length symlist + n) (sum_of t.deep_size_of symlist + size) m z symlists
          (on_stacks t e (reverse symlist) (record s { parent_id = none })) (omega arith)
          (omega arith)
          (Tally-on_stacks n size _ _ (reverse symlist) (record s { parent_id = none })
            (omega (arith, length-reverse symlist))
            (omega (arith, sum_of-reverse t.deep_size_of symlist)) h)

Tally-pos :
    (e : Executable) (n size : ℕ) (es : Map Executable)
    → 0 < n
    → Tally e n size es
    → es ≡ (e.id, after_stacks e n size) ∷ []
Tally-pos e zero size es h tally = absurd (omega arith)
Tally-pos e (suc n) size es h tally = tally

values-grow :
    (e : Executable) (k size : ℕ)
    → k ≡ e.id
    → values (and_modify k (grow size) ((e.id, e) ∷ [])) ≡ grow size e ∷ []
unfolding values and_modify
values-grow e k size h = ground arith

add_i64-zero : (n : ℕ) → add_i64 0 n ≡ n % 2 ^ 64
unfolding add_i64
add_i64-zero n = omega arith

module _ (t : Tools) where
  -- A batch with at least one stack posts exactly one executable: it bears the identifier of the
  -- binary and its version, and counts the stacks of the batch and their sizes, and the size of what
  -- is posted, less that size itself, up to the wrap-around of an `i64`.
  pub process-executable :
      (symlists : List (List Stack)) (args : Args) (s : Sink t) (misc : t.misc_cache.State)
      (binary : Text)
      → args.binary ≡ some binary
      → 0 < sum_of length symlists
      → (r : StoData × Sink t × t.misc_cache.State) × (e : Executable) × (process_and_sink_data t
            symlists args s misc
          ≡ some r)
        × (r.0.profiled_binaries ≡ e ∷ [])
        × (e.id ≡ (misc_id t.hasher t.misc_cache (executable_key binary args.version) misc).0)
        × (e.sample_count ≡ sum_of length symlists % 2 ^ 64)
        × (e.raw_data_size ≡ sum_of (sum_of t.deep_size_of) symlists % 2 ^ 64)
        × (e.processed_data_size
            ≡ t.deep_size_of_data
                (record r.0 { profiled_binaries = record e { processed_data_size = 0 } ∷ [] })
              % 2 ^ 64)
  unfolding process_and_sink_data with_binary data_out
  process-executable symlists args s misc binary eb some_stack =
      let found = misc_id t.hasher t.misc_cache (executable_key binary args.version) misc in
      let new = new_executable found.0 binary args in
      let s' = on_symlists t new symlists (start t s) in
      let total = sum_of length symlists in
      let size = sum_of (sum_of t.deep_size_of) symlists in
      let tally : Tally new total size s'.executables =
        Tally-on_symlists new refl refl t 0 0 total size symlists (start t s) (omega arith)
          (omega arith) (refl, refl) in
      (
        (data_out t found.0 s', s', found.1),
        grow (t.deep_size_of_data (tables t s')) (after_stacks new total size),
        rw (eb, with_binary),
        rw (Tally-pos new total size s'.executables some_stack tally)
            (values-grow (after_stacks new total size) found.0 _ refl),
        refl,
        refl,
        refl,
        add_i64-zero _
            ∙ (ap
                (λ es.
                  t.deep_size_of_data (record (tables t s') { profiled_binaries = es }) % 2 ^ 64)
                (rw (Tally-pos new total size s'.executables some_stack tally)
                  (unfold values in refl))),
      )
