-- ===== src/Tests/Sampling.antt =====
-- The kernel side and the command line tool on small inputs.
use sto.Prelude.{
  ℕ, ◌*◌, ◌/◌, ◌%◌, replicate, ◌^◌, ◌<◌, ◌≡◌, ◌≢◌, refl, sym, ap, ◌∙◌, ◌⊎◌, inl, inr, Option, none,
  some, List, [], ◌∷◌, ◌++◌, map, arith, length, sum_of,
}
use sto.Bpf.{StacktraceEvent, IsEvent, default, event_bytes, sizeof_event}
use sto.Bpf.Profile.{profile, profile-submits}
use sto.Defs.{Args, clock, StackNode, StackNodeData, StoData, Executable, Text}
use sto.Defs.References.{IsClosedData}
use sto.Text.{codes}
use sto.Cli.Sample.{returned, on_sample, on_sample-event_bytes}
use sto.Cli.Worker.{init, on_recv, run}
use sto.Cli.Worker.Batches.{IsBatched, chunks, keep, kept, run-init-IsBatched, run-init-kept}
use sto.Cli.Ids.{to_id, hash_node, hash_data, id_stack_node, id_data, misc_id}
use sto.Cli.Ids.Message.{IsNode, SameFrame, hash_node-SameFrame, hash_data-ambiguous}
use sto.Cli.Ids.Range.{to_id-lt}
use sto.Cli.Ids.Transparent.{IsValid, id_stack_node-hash_node, id_data-hash_data}
use sto.Cli.Sink.{Sink, SymbolizedResult, Stack, process_and_sink_data, executable_key}
use sto.Cli.Sink.Posted.{process-IsClosedData}
use sto.Cli.Sink.Counts.{frames_in, process-samples}
use sto.Cli.Sink.Tally.{process-executable}
use sto.Tests.Parts.{
  a_hasher, a_hasher_laws, memo, insert_recall, memo_laws, Text-discrete, StackNode-discrete,
  StackNodeData-discrete, tools, cold, a_kernel, a_kernel_laws, default-IsEvent,
}

abbrev pub args : Args
args = record {
  pid = 42;
  total_samples = 100000;
  event_type = clock;
  sample_freq = 100000;
  binary = some (codes "demo");
  version = some (codes "1");
  url = codes "http://localhost:8000/data/samples";
}

on_sample-event_bytes_example :
    (default.pid ≢ 0
      → on_sample args (event_bytes default)
        ≡ returned (some (record { event = default; args = args })))
    × (default.pid ≡ 0 → on_sample args (event_bytes default) ≡ returned none)
on_sample-event_bytes_example = on_sample-event_bytes args default default-IsEvent

profile-submits_example :
    ((a_kernel.ringbuf_reserve sizeof_event (3, []) ≡ none)
      × (profile a_kernel (3, []) ≡ (1, (3, []))))
    ⊎ ((e : StacktraceEvent) × IsEvent e
        × (e.pid ≡ a_kernel.current_pid_tgid (3, []) / 2 ^ 32)
        × ((profile a_kernel (3, [])).0 ≡ 0)
        × (a_kernel.submitted (profile a_kernel (3, [])).1 ≡ a_kernel.submitted (3, []) ++ e ∷ []))
profile-submits_example = profile-submits a_kernel a_kernel_laws (3, [])

-- What the worker receives: a chunk, a moment with no sender, and more chunks than a buffer takes.
abbrev messages : List (Option ℕ)
messages = some 1 ∷ none ∷ map some (replicate 201 3)

abbrev doubled : ℕ → ℕ
doubled n = n * 2

-- 202 chunks: one batch of 200, one chunk lost, one in the buffer.
one_lost :
    (length (run doubled messages init).sunk ≡ 1) × (length (run doubled messages init).buf ≡ 1)
unfolding run on_recv
one_lost = (refl, refl)

run-init-IsBatched_example : IsBatched (length (chunks messages)) (run doubled messages init)
run-init-IsBatched_example = run-init-IsBatched doubled messages

run-init-kept_example : kept (run doubled messages init) ≡ map doubled (keep 0 (chunks messages))
run-init-kept_example = run-init-kept doubled messages

abbrev node : StackNode
node = record {
  id = 0;
  parent_id = some 5;
  stack_node_data_id = 6;
  executable_id = 7;
  sample_count = 1;
}

node-IsNode : IsNode node
node-IsNode = record {
  parent_id = λ p e. ground arith;
  stack_node_data_id = omega arith;
  executable_id = omega arith;
}

-- The same call path, sampled twice.
hash_node-SameFrame_example : SameFrame node (record node { sample_count = 2 })
hash_node-SameFrame_example =
    hash_node-SameFrame a_hasher a_hasher_laws node (record node { sample_count = 2 }) node-IsNode
      (record {
        parent_id = node-IsNode.parent_id;
        stack_node_data_id = node-IsNode.stack_node_data_id;
        executable_id = node-IsNode.executable_id;
      })
      (λ e. refl) (unfold hash_node in refl)

hash_data-ambiguous_example :
    hash_data a_hasher (record {
      id = 0;
      symbol = codes "run" ++ codes "/";
      file = some (codes "a.c");
      line_number = some 3;
    })
    ≡ hash_data a_hasher (record {
      id = 0;
      symbol = codes "run";
      file = some (codes "/" ++ codes "a.c");
      line_number = some 3;
    })
hash_data-ambiguous_example =
    hash_data-ambiguous a_hasher a_hasher_laws (codes "run") (codes "/") (codes "a.c") (some 3) 0

to_id-lt_example :
    (to_id a_hasher (1 ∷ 2 ∷ []) < 2 ^ 64)
    × (a_hasher.finalize64 (1 ∷ 2 ∷ []) ≢ 2 ^ 63 → to_id a_hasher (1 ∷ 2 ∷ []) < 2 ^ 63)
    × (a_hasher.finalize64 (1 ∷ 2 ∷ []) ≡ 2 ^ 63 → to_id a_hasher (1 ∷ 2 ∷ []) ≡ 2 ^ 63)
to_id-lt_example = to_id-lt a_hasher a_hasher_laws (1 ∷ 2 ∷ [])

-- A cache that has seen the node.
warm_nodes :
    IsValid (memo StackNode-discrete) (hash_node a_hasher) ((node, hash_node a_hasher node) ∷ [])
warm_nodes k v h = elim (insert_recall StackNode-discrete node k [] (hash_node a_hasher node) v h) [
  | inl nothing ↦ cc
  | inr (same, value) ↦ sym value ∙ ap (hash_node a_hasher) same
]

id_stack_node-hash_node_example :
    ((id_stack_node a_hasher
        (memo StackNode-discrete)
        node
        ((node, hash_node a_hasher node) ∷ [])).0
      ≡ record node { id = hash_node a_hasher node })
    × IsValid
        (memo StackNode-discrete)
        (hash_node a_hasher)
        (id_stack_node a_hasher
          (memo StackNode-discrete)
          node
          ((node, hash_node a_hasher node) ∷ [])).1
id_stack_node-hash_node_example =
    id_stack_node-hash_node a_hasher (memo StackNode-discrete) (memo_laws StackNode-discrete) node
      ((node, hash_node a_hasher node) ∷ []) warm_nodes

abbrev main_data : StackNodeData
main_data = record {
  id = 0;
  symbol = codes "main";
  file = some (codes "demo.c");
  line_number = some 21;
}

id_data-hash_data_example :
    ((id_data a_hasher (memo StackNodeData-discrete) main_data []).0
      ≡ record main_data { id = hash_data a_hasher main_data })
    × IsValid
        (memo StackNodeData-discrete)
        (hash_data a_hasher)
        (id_data a_hasher (memo StackNodeData-discrete) main_data []).1
id_data-hash_data_example =
    id_data-hash_data a_hasher (memo StackNodeData-discrete) (memo_laws StackNodeData-discrete)
      main_data [] (λ k v h. cc)

abbrev frame : Text → SymbolizedResult
frame symbol = record { symbol = symbol; path = codes " src/demo.c "; line_no = 7 }

-- Two samples: main called work; main called log, into which write was inlined.
abbrev pub batch : List (List Stack)
batch =
    ((frame (codes "work") ∷ []) ∷ (frame (codes "main") ∷ []) ∷ [])
    ∷ ((frame (codes "write") ∷ frame (codes "log") ∷ []) ∷ (frame (codes "main") ∷ []) ∷ [])
    ∷ []

process-IsClosedData_example :
    (r : StoData × Sink tools × tools.misc_cache.State) × (process_and_sink_data tools batch args
        cold []
      ≡ some r)
    × IsClosedData r.0
process-IsClosedData_example = process-IsClosedData tools batch args cold [] (codes "demo") refl

process-samples_example :
    (r : StoData × Sink tools × tools.misc_cache.State) × (process_and_sink_data tools batch args
        cold []
      ≡ some r)
    × (sum_of (λ (n : StackNode). n.sample_count) r.0.stack_nodes ≡ frames_in batch)
process-samples_example = process-samples tools batch args cold [] (codes "demo") refl (omega arith)

process-executable_example :
    (r : StoData × Sink tools × tools.misc_cache.State) × (e : Executable) × (process_and_sink_data
        tools batch args cold []
      ≡ some r)
    × (r.0.profiled_binaries ≡ e ∷ [])
    × (e.id
        ≡ (misc_id a_hasher (memo Text-discrete) (executable_key (codes "demo") args.version) []).0)
    × (e.sample_count ≡ sum_of length batch % 2 ^ 64)
    × (e.raw_data_size ≡ sum_of (sum_of tools.deep_size_of) batch % 2 ^ 64)
    × (e.processed_data_size
        ≡ tools.deep_size_of_data
            (record r.0 { profiled_binaries = record e { processed_data_size = 0 } ∷ [] })
          % 2 ^ 64)
process-executable_example =
    process-executable tools batch args cold [] (codes "demo") refl (omega arith)
