-- ===== src/Tests/Whole.antt =====
-- The tool and the server together, on a small batch.
use mathlib.Core.Path.{subst}
use sto.Prelude.{
  ℕ, ◌+◌, ◌^◌, ◌≤◌, ◌<◌, ◌≡◌, refl, sym, ◌∙◌, true, some, [], ◌∷◌, All, arith, length,
}
use sto.Text.{codes}
use sto.Defs.{Executable, StoData}
use sto.Cli.Ids.{hash_data, hash_node}
use sto.Cli.Ids.Transparent.{IsValid}
use sto.Cli.Sink.{Sink, process_and_sink_data}
use sto.Cli.Sink.Counts.{frames_in}
use sto.Cli.Sink.Sizes.{process-sizes}
use sto.Cli.Sink.Tally.{process-executable}
use sto.Cli.Sink.Addressed.{HasDataId, HasNodeId, IsAddressed, process-IsAddressed}
use sto.Server.Db.{empty}
use sto.Server.Ingest.{data_ingest}
use sto.System.{IsWhole, some-injective, data_ingest-process}
use sto.System.Traffic.{IsPosted, Reach-posted}
use sto.Server.Requests.{Request, new_request, Serving, idle, serve, here, next, arrive, advance}
use sto.Server.Requests.Progress.{serve-Advances}
use sto.Server.Requests.Ready.{counter_limit}
use sto.Server.Requests.Safe.{arrived}
use sto.Tests.Parts.{tools, cold, memo_laws, StackNode-discrete, StackNodeData-discrete}
use sto.Tests.Sampling.{args, batch}

cold_datas : IsValid tools.data_cache (hash_data tools.hasher) cold.data_ids
cold_datas k v h = cc

cold_nodes : IsValid tools.node_cache (hash_node tools.hasher) cold.node_ids
cold_nodes k v h = cc

abbrev clock : ℕ → ℕ
clock i = 500 + i

data_ingest-process_example :
    (r : StoData × Sink tools × tools.misc_cache.State) × (process_and_sink_data tools batch args
        cold []
      ≡ some r)
    × ((data_ingest clock 500 r.0 empty).1 ≡ true)
    × IsWhole clock 500 r.0 (data_ingest clock 500 r.0 empty).0
data_ingest-process_example =
    data_ingest-process tools (memo_laws StackNodeData-discrete) (memo_laws StackNode-discrete)
      batch args cold [] (codes "demo") clock 500 refl cold_datas cold_nodes (omega arith)
      (omega arith)

process-IsAddressed_example :
    (r : StoData × Sink tools × tools.misc_cache.State) × (process_and_sink_data tools batch args
        cold []
      ≡ some r)
    × All (HasDataId tools) r.0.stack_node_datas
    × All (HasNodeId tools) r.0.stack_nodes
    × IsAddressed tools r.1
process-IsAddressed_example =
    process-IsAddressed tools (memo_laws StackNodeData-discrete) (memo_laws StackNode-discrete)
      batch args cold [] (codes "demo") refl cold_datas cold_nodes

abbrev Outcome : Type 0
Outcome = StoData × Sink tools × tools.misc_cache.State

abbrev outcome : Outcome
outcome = (process-executable tools batch args cold [] (codes "demo") refl (omega arith)).0

outcome-executables :
    All (λ (e : Executable). e.processed_data_size ≤ counter_limit) outcome.0.profiled_binaries
outcome-executables =
    let (r, e, posted, one, named, counted, sized, grown) =
      process-executable tools batch args cold [] (codes "demo") refl (omega arith) in
    let (q, again, few_nodes, few_datas) =
      process-sizes tools batch args cold [] (codes "demo") refl in
    let few : length r.0.stack_nodes ≤ frames_in batch =
      subst (λ (o : Outcome). length o.0.stack_nodes ≤ frames_in batch)
        (some-injective q r (sym again ∙ posted)) few_nodes in
    rw one (omega (arith, grown, few), tt)

outcome-IsPosted : IsPosted tools outcome.0
outcome-IsPosted = record {
  symlists = batch;
  args = args;
  binary = codes "demo";
  before = cold;
  misc = [];
  after = outcome.1;
  misc' = outcome.2;
  named = refl;
  data_ids = cold_datas;
  node_ids = cold_nodes;
  some_frame = omega arith;
  few_frames = omega arith;
  few_stacks = omega arith;
  small_stacks = omega arith;
  small_tables = outcome-executables;
  posted = (process-executable tools batch args cold [] (codes "demo") refl (omega arith)).2;
}

-- Two runs of the tool have posted the batch, and the first transaction of one is through.
abbrev posted : Request
posted = new_request outcome.0

abbrev two_waiting : Serving
two_waiting = record (idle empty) { requests = posted ∷ posted ∷ [] }

abbrev one_through : Serving
one_through = serve clock 500 posted (posted ∷ []) [] two_waiting

Reach-posted_example : one_through.panicked ≡ []
Reach-posted_example =
    Reach-posted tools (memo_laws StackNodeData-discrete) (memo_laws StackNode-discrete)
      (next
        (next (next here (arrive outcome.0 outcome-IsPosted)) (arrive outcome.0 outcome-IsPosted))
        (advance clock 500 posted (posted ∷ []) [] refl))
      one_arrived
  where
    one_arrived : arrived one_through < 2 ^ 31
    one_arrived =
        let (less, same) = serve-Advances clock 500 posted (posted ∷ []) [] two_waiting in
        omega (arith, same)
