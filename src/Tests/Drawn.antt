-- ===== src/Tests/Drawn.antt =====
-- One sample, from the symbolised stack to the flame graph.

use sto.Prelude.{
  ℕ, ◌≤◌, ◌≡◌, refl, sym, ap, ◌∙◌, true, none, some, List, [], ◌∷◌, All, arith, length, values,
  upsert,
}
use sto.Text.{codes}
use sto.Defs.{Executable, StackNode, StoData}
use sto.Cli.Ids.{misc_id}
use sto.Cli.Sink.{
  Sink, Stack, process_and_sink_data, with_binary, data_out, on_symlists, on_symlist, on_stacks,
  on_stack, on_frames, on_frame, add_frame, identify, executable_key, new_executable, start,
}
use sto.Cli.Sink.Counts.{frames_in}
use sto.Cli.Sink.Tally.{process-executable}
use sto.Server.Db.{empty}
use sto.Server.Ingest.{data_ingest}
use sto.Server.Dag.{Flame, done, draw}
use sto.Server.Dag.Conserved.{weigh_below}
use sto.Server.Requests.Ready.{counter_limit}
use sto.System.{some-injective}
use sto.System.Traffic.{IsPosted}
use sto.System.Drawn.{RanksBelow, counted, draw-process}
use sto.Tests.Parts.{tools, cold, memo_laws, StackNode-discrete, StackNodeData-discrete}
use sto.Tests.Sampling.{args}

abbrev single : List (List Stack)
single = ((record { symbol = codes "main"; path = codes "a.c"; line_no = 3 } ∷ []) ∷ []) ∷ []

abbrev Outcome : Type 0
Outcome = StoData × Sink tools × tools.misc_cache.State

abbrev id_of_demo : ℕ × tools.misc_cache.State
id_of_demo = misc_id tools.hasher tools.misc_cache (executable_key (codes "demo") args.version) []

abbrev sink : Sink tools
sink = on_symlists tools (new_executable id_of_demo.0 (codes "demo") args) single (start tools cold)

abbrev batch : StoData
batch = data_out tools id_of_demo.0 sink

posted : process_and_sink_data tools single args cold [] ≡ some (batch, sink, id_of_demo.1)
unfolding process_and_sink_data with_binary
posted = refl

one_node : (n : StackNode) × (batch.stack_nodes ≡ n ∷ []) × (n.parent_id ≡ none)
unfolding data_out on_symlists on_symlist on_stacks on_stack on_frames on_frame add_frame identify
    upsert values
one_node = (_, refl, refl)

small_tables :
    All (λ (e : Executable). e.processed_data_size ≤ counter_limit) batch.profiled_binaries
small_tables =
    let (r, e, again, one, named, counted, sized, grown) =
      process-executable tools single args cold [] (codes "demo") refl (omega arith) in
    let same = some-injective r (batch, sink, id_of_demo.1) (sym again ∙ posted) in
    let one' = ap (λ (o : Outcome). o.0.profiled_binaries) (sym same) ∙ one in
    let (n, nodes, root) = one_node in
    let few = ap (λ (o : Outcome). length o.0.stack_nodes) same ∙ ap length nodes in
    rw one' (omega (arith, grown, few), tt)

single-IsPosted : IsPosted tools batch
single-IsPosted = record {
  symlists = single;
  args = args;
  binary = codes "demo";
  before = cold;
  misc = [];
  after = sink;
  misc' = id_of_demo.1;
  named = refl;
  data_ids = λ k v h. cc;
  node_ids = λ k v h. cc;
  some_frame = omega arith;
  few_frames = omega arith;
  few_stacks = omega arith;
  small_stacks = omega arith;
  small_tables = small_tables;
  posted = posted;
}

-- With one node there is one rank.
abbrev flat : ℕ → ℕ
flat n = 0

ranked : All (RanksBelow flat 1) batch.stack_nodes
ranked =
    let (n, one, root) = one_node in
    rw one ((λ p e. absurd (different n p root e), omega arith), tt)
  where
    different : (n : StackNode) (p : ℕ) → n.parent_id ≡ none → n.parent_id ≡ some p → ⊥
    different n p e h = cc

draw-process_example :
    (e : Executable) × (batch.profiled_binaries ≡ e ∷ [])
    × ((data_ingest flat 500 batch empty).1 ≡ true)
    × (tree : Flame) × (draw 1 e.id (data_ingest flat 500 batch empty).0 ≡ done tree)
    × (weigh_below counted tree ≡ frames_in single-IsPosted.symlists)
draw-process_example =
    draw-process tools (memo_laws StackNodeData-discrete) (memo_laws StackNode-discrete) batch
      single-IsPosted flat 500 flat 1 ranked
