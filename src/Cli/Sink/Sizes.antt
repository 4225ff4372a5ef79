-- ===== src/Cli/Sink/Sizes.antt =====
-- How many rows `process_and_sink_data` posts: at most one node and one node data for each frame.
use mathlib.Core.List.{reverse}
use sto.Prelude.{
  ℕ, suc, ◌+◌, ◌≤◌, ◌≡◌, refl, ap, some, List, [], ◌∷◌, arith, Map, upsert, values, length,
}
use sto.Defs.{Text, Args, Executable, StoData}
use sto.Cli.Ids.{misc_id}
use sto.Cli.Sink.{
  Tools, Sink, SymbolizedResult, Stack, count_sample, identify, add_frame, on_frame, on_frames,
  on_stack, on_stacks, on_symlist, on_symlists, new_executable, executable_key, data_out, start,
  with_binary, process_and_sink_data,
}
use sto.Cli.Sink.Counts.{frames_of, frames_in, sum_of-reverse}

length-upsert {ℓ} :
    {V : Type ℓ} (k : ℕ) (f : V → V) (v : V) (m : Map V) → length (upsert k f v m) ≤ suc (length m)
unfolding upsert
length-upsert k f v [] = omega arith
length-upsert k f v ((j, w) ∷ m) = ground (arith, length-upsert k f v m)

length-values {ℓ} : {V : Type ℓ} (m : Map V) → length (values m) ≡ length m
unfolding values
length-values [] = refl
length-values ((k, v) ∷ m) = ap suc (length-values m)

module _ (t : Tools) where
  -- At most n nodes and n node data.
  abbrev IsSmall : ℕ → Sink t → Type 0
  IsSmall n s = (length s.nodes ≤ n) × (length s.datas ≤ n)

  on_frame-IsSmall :
      (n exe : ℕ) (frame : SymbolizedResult) (s : Sink t)
      → IsSmall n s
      → IsSmall (suc n) (on_frame t exe frame s)
  unfolding on_frame add_frame
  on_frame-IsSmall n exe frame s h =
      let found = identify t exe frame s in
      (
        omega (arith, length-upsert found.1.id count_sample found.1 s.nodes, h.0),
        omega (arith, length-upsert found.0.id (λ w. w) found.0 s.datas, h.1),
      )

  on_frames-IsSmall :
      (n exe : ℕ) (stack : Stack) (s : Sink t)
      → IsSmall n s
      → IsSmall (n + length stack) (on_frames t exe stack s)
  unfolding on_frames
  on_frames-IsSmall n exe [] s h = (omega (arith, h.0), omega (arith, h.1))
  on_frames-IsSmall n exe (frame ∷ stack) s h =
      let rest =
        on_frames-IsSmall (suc n) exe stack (on_frame t exe frame s)
          (on_frame-IsSmall n exe frame s h) in
      (omega (arith, rest.0), omega (arith, rest.1))

  on_stacks-IsSmall :
      (n : ℕ) (e : Executable) (stacks : List Stack) (s : Sink t)
      → IsSmall n s
      → IsSmall (n + frames_of stacks) (on_stacks t e stacks s)
  unfolding on_stacks on_stack
  on_stacks-IsSmall n e [] s h = (omega (arith, h.0), omega (arith, h.1))
  on_stacks-IsSmall n e (stack ∷ stacks) s h =
      let rest =
        on_stacks-IsSmall (n + length stack) e stacks (on_stack t e stack s)
          (on_frames-IsSmall n e.id stack _ h) in
      (omega (arith, rest.0), omega (arith, rest.1))

  on_symlists-IsSmall :
      (n : ℕ) (e : Executable) (symlists : List (List Stack)) (s : Sink t)
      → IsSmall n s
      → IsSmall (n + frames_in symlists) (on_symlists t e symlists s)
  unfolding on_symlists on_symlist
  on_symlists-IsSmall n e [] s h = (omega (arith, h.0), omega (arith, h.1))
  on_symlists-IsSmall n e (symlist ∷ symlists) s h =
      let turned = sum_of-reverse length symlist in
      let rest =
        on_symlists-IsSmall (n + frames_of (reverse symlist)) e symlists (on_symlist t e symlist s)
          (on_stacks-IsSmall n e (reverse symlist) _ h) in
      (omega (arith, turned, rest.0), omega (arith, turned, rest.1))

  pub process-sizes :
      (symlists : List (List Stack)) (args : Args) (s : Sink t) (misc : t.misc_cache.State)
      (binary : Text)
      → args.binary ≡ some binary
      → (r : StoData × Sink t × t.misc_cache.State) × (process_and_sink_data t symlists args s misc
          ≡ some r)
        × (length r.0.stack_nodes ≤ frames_in symlists)
        × (length r.0.stack_node_datas ≤ frames_in symlists)
  unfolding process_and_sink_data with_binary data_out
  process-sizes symlists args s misc binary e =
      let found = misc_id t.hasher t.misc_cache (executable_key binary args.version) misc in
      let s' = on_symlists t (new_executable found.0 binary args) symlists (start t s) in
      let small =
        on_symlists-IsSmall 0 (new_executable found.0 binary args) symlists (start t s)
          (omega arith, omega arith) in
      (
        (data_out t found.0 s', s', found.1),
        rw (e, with_binary) refl,
        omega (arith, length-values s'.nodes, small.0),
        omega (arith, length-values s'.datas, small.1),
      )
