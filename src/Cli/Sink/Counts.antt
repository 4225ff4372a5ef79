-- ===== src/Cli/Sink/Counts.antt =====
-- The counters of the nodes and of the executable add up to what was sampled.
use mathlib.Core.List.{reverse, reverse-cons}
use sto.Prelude.{
  ℕ, ◌+◌, ◌^◌, ◌<◌, ◌≡◌, refl, ap, none, some, List, [], ◌∷◌, arith, Map, upsert, values, sum_of,
  sum_of-append, length,
}
use sto.Words.{add_i64}
use sto.Defs.{Text, Args, Executable, StackNode, StoData}
use sto.Cli.Ids.{misc_id}
use sto.Cli.Sink.{
  Tools, Sink, SymbolizedResult, Stack, count_sample, identify, on_frame, on_frames, on_stack,
  on_stacks, on_symlist, on_symlists, new_executable, executable_key, data_out, start, with_binary,
  process_and_sink_data,
}

-- The samples that the nodes of a map count.
abbrev pub samples : Map StackNode → ℕ
samples m = sum_of (λ e. e.1.sample_count) m

-- Frames of a batch.
abbrev pub frames_of : List Stack → ℕ
frames_of = sum_of length

abbrev pub frames_in : List (List Stack) → ℕ
frames_in = sum_of frames_of

-- One more sample, as long as the total fits a word.
samples-upsert :
    (k : ℕ) (n : StackNode) (m : Map StackNode)
    → n.sample_count ≡ 1
    → samples m + 1 < 2 ^ 64
    → samples (upsert k count_sample n m) ≡ samples m + 1
unfolding upsert add_i64
samples-upsert k n [] one fits = omega arith
samples-upsert k n ((j, w) ∷ m) one fits = ground (arith, samples-upsert k n m one (omega arith))

module _ (t : Tools) where
  samples-on_frame :
      (exe : ℕ) (frame : SymbolizedResult) (s : Sink t)
      → samples s.nodes + 1 < 2 ^ 64
      → samples (on_frame t exe frame s).nodes ≡ samples s.nodes + 1
  unfolding on_frame
  samples-on_frame exe frame s fits =
      samples-upsert (identify t exe frame s).1.id (identify t exe frame s).1 s.nodes refl fits

  samples-on_frames :
      (exe : ℕ) (stack : Stack) (s : Sink t)
      → samples s.nodes + length stack < 2 ^ 64
      → samples (on_frames t exe stack s).nodes ≡ samples s.nodes + length stack
  unfolding on_frames
  samples-on_frames exe [] s fits = omega arith
  samples-on_frames exe (frame ∷ stack) s fits =
      let one = samples-on_frame exe frame s (omega arith) in
      omega (arith, one, samples-on_frames exe stack (on_frame t exe frame s) (omega (arith, one)))

  samples-on_stack :
      (e : Executable) (stack : Stack) (s : Sink t)
      → samples s.nodes + length stack < 2 ^ 64
      → samples (on_stack t e stack s).nodes ≡ samples s.nodes + length stack
  unfolding on_stack
  samples-on_stack e stack s fits = samples-on_frames e.id stack _ fits

  samples-on_stacks :
      (e : Executable) (stacks : List Stack) (s : Sink t)
      → samples s.nodes + frames_of stacks < 2 ^ 64
      → samples (on_stacks t e stacks s).nodes ≡ samples s.nodes + frames_of stacks
  unfolding on_stacks
  samples-on_stacks e [] s fits = omega arith
  samples-on_stacks e (stack ∷ stacks) s fits =
      let one = samples-on_stack e stack s (omega arith) in
      omega (arith, one, samples-on_stacks e stacks (on_stack t e stack s) (omega (arith, one)))

pub sum_of-reverse : (f : Stack → ℕ) (xs : List Stack) → sum_of f (reverse xs) ≡ sum_of f xs
sum_of-reverse f [] = refl
sum_of-reverse f (x ∷ xs) =
    rw (reverse-cons x xs)
      (omega (arith, sum_of-append f (reverse xs) (x ∷ []), sum_of-reverse f xs))

sum_of-values :
    (m : Map StackNode) → sum_of (λ (n : StackNode). n.sample_count) (values m) ≡ samples m
unfolding values
sum_of-values [] = refl
sum_of-values ((k, n) ∷ m) = ap (λ (x : ℕ). n.sample_count + x) (sum_of-values m)

module _ (t : Tools) where
  samples-on_symlists :
      (e : Executable) (symlists : List (List Stack)) (s : Sink t)
      → samples s.nodes + frames_in symlists < 2 ^ 64
      → samples (on_symlists t e symlists s).nodes ≡ samples s.nodes + frames_in symlists
  unfolding on_symlists on_symlist
  samples-on_symlists e [] s fits = omega arith
  samples-on_symlists e (symlist ∷ symlists) s fits =
      let turned = sum_of-reverse length symlist in
      let one =
        samples-on_stacks t e (reverse symlist) (record s { parent_id = none })
          (omega (arith, turned)) in
      omega (
        arith,
        one,
        turned,
        samples-on_symlists e symlists
            (on_stacks t e (reverse symlist) (record s { parent_id = none }))
            (omega (arith, one, turned)),
      )

  -- The sample counts of the posted nodes add up to the number of frames in the batch, if that is
  -- an `i64`: merging equal call paths loses no sample and counts none twice.
  pub process-samples :
      (symlists : List (List Stack)) (args : Args) (s : Sink t) (misc : t.misc_cache.State)
      (binary : Text)
      → args.binary ≡ some binary
      → frames_in symlists < 2 ^ 63
      → (r : StoData × Sink t × t.misc_cache.State) × (process_and_sink_data t symlists args s misc
          ≡ some r)
        × (sum_of (λ (n : StackNode). n.sample_count) r.0.stack_nodes ≡ frames_in symlists)
  unfolding process_and_sink_data with_binary data_out
  process-samples symlists args s misc binary e fits =
      let found = misc_id t.hasher t.misc_cache (executable_key binary args.version) misc in
      let s' = on_symlists t (new_executable found.0 binary args) symlists (start t s) in
      (
        (data_out t found.0 s', s', found.1),
        rw (e, with_binary),
        omega (
          arith,
          sum_of-values s'.nodes,
          samples-on_symlists (new_executable found.0 binary args) symlists (start t s)
              (omega arith),
        ),
      )
