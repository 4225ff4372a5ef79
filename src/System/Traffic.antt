-- ===== src/System/Traffic.antt =====
-- Any number of tools that post to the same server.
use mathlib.Core.Path.{subst}
use sto.Prelude.{
  ℕ, ◌%◌, ◌^◌, ◌≤◌, ◌<◌, ◌≡◌, sym, ◌∙◌, some, List, [], ◌∷◌, arith, All, length, sum_of,
}
use sto.Defs.{Text, Args, Executable, StackNode, StoData}
use sto.Defs.References.{IsClosedData}
use sto.Cli.Ids.{CacheLaws, hash_data, hash_node}
use sto.Cli.Ids.Transparent.{IsValid}
use sto.Cli.Sink.{Tools, Sink, Stack, process_and_sink_data}
use sto.Cli.Sink.Addressed.{HasDataId, process-IsAddressed}
use sto.Cli.Sink.Counts.{frames_in, process-samples}
use sto.Cli.Sink.Posted.{process-IsClosedData}
use sto.Cli.Sink.Sizes.{process-sizes}
use sto.Cli.Sink.Tally.{process-executable}
use sto.Server.Db.{empty}
use sto.Server.Requests.{Serving, idle, arrive, advance, abort, Reach, here, next}
use sto.Server.Requests.Ready.{counter_limit, ExecutableBelow, IsBatch}
use sto.Server.Requests.Safe.{arrived, Reach-panicked}
use sto.System.{frames-stacks, counted-some, data-some, some-injective, hash_data-content}

-- A summand is at most the sum.
summands-le :
    (b : ℕ) (ns : List StackNode)
    → sum_of (λ (n : StackNode). n.sample_count) ns ≤ b
    → All (λ (n : StackNode). n.sample_count ≤ b) ns
summands-le b [] h = tt
summands-le b (n ∷ ns) h = (omega arith, summands-le b ns (omega arith))

module _ (t : Tools) where
  -- A batch that a run of the tool posts: of a binary with a name, with valid caches, of between 1
  -- and 16383 frames, and of sizes that crate deepsize reports as at most 2 ^ 32 bytes.
  pub record IsPosted (d : StoData) : Type 0 where
    pub symlists : List (List Stack)
    pub args : Args
    pub binary : Text
    pub before : Sink t
    pub misc : t.misc_cache.State
    pub after : Sink t
    pub misc' : t.misc_cache.State
    pub named : args.binary ≡ some binary
    pub data_ids : IsValid t.data_cache (hash_data t.hasher) before.data_ids
    pub node_ids : IsValid t.node_cache (hash_node t.hasher) before.node_ids
    pub some_frame : 0 < frames_in symlists
    pub few_frames : frames_in symlists ≤ 16383
    pub few_stacks : sum_of length symlists ≤ counter_limit
    pub small_stacks : sum_of (sum_of t.deep_size_of) symlists ≤ counter_limit
    pub small_tables :
        All (λ (e : Executable). e.processed_data_size ≤ counter_limit) d.profiled_binaries
    pub posted : process_and_sink_data t symlists args before misc ≡ some (d, after, misc')

  module _ (data_laws : CacheLaws t.data_cache) (node_laws : CacheLaws t.node_cache) (d : StoData)
      (p : IsPosted d) where
    abbrev Outcome : Type 0
    Outcome = StoData × Sink t × t.misc_cache.State

    -- What is known of the outcome is known of `d`.
    of_posted :
        (P : StoData → Type 0) (r : Outcome)
        → process_and_sink_data t p.symlists p.args p.before p.misc ≡ some r
        → P r.0
        → P d
    of_posted P r e h =
        subst (λ (q : Outcome). P q.0) (some-injective r (d, p.after, p.misc') (sym e ∙ p.posted)) h

    single :
        (e : Executable)
        → e.sample_count ≡ sum_of length p.symlists % 2 ^ 64
        → e.raw_data_size ≡ sum_of (sum_of t.deep_size_of) p.symlists % 2 ^ 64
        → d.profiled_binaries ≡ e ∷ []
        → (e : Executable) × (d.profiled_binaries ≡ e ∷ []) × ExecutableBelow counter_limit e
    single e counted sized one = (
      e,
      one,
      record {
        sample_count = omega (arith, counted, p.few_stacks);
        raw_data_size = omega (arith, sized, p.small_stacks);
        processed_data_size =
            (subst (All (λ (x : Executable). x.processed_data_size ≤ counter_limit)) one
              p.small_tables).0;
      },
    )

    -- The counts of the nodes come to the frames of the batch.
    pub process-total :
        sum_of (λ (n : StackNode). n.sample_count) d.stack_nodes ≡ frames_in p.symlists
    process-total =
        let (r, posted, counts) =
          process-samples t p.symlists p.args p.before p.misc p.binary p.named
            (omega (arith, p.few_frames)) in
        of_posted
          (λ d. sum_of (λ (n : StackNode). n.sample_count) d.stack_nodes ≡ frames_in p.symlists) r
          posted counts

    pub process-IsBatch : IsBatch (hash_data t.hasher) d
    process-IsBatch =
        let (r, posted, closed) =
          process-IsClosedData t p.symlists p.args p.before p.misc p.binary p.named in
        let (r₂, posted₂, few_nodes, few_datas) =
          process-sizes t p.symlists p.args p.before p.misc p.binary p.named in
        let (r₃, e, posted₃, one, named, counted, sized, grown) =
          process-executable t p.symlists p.args p.before p.misc p.binary p.named
            (frames-stacks p.symlists p.some_frame) in
        let (r₄, posted₄, addressed, nodes_addressed, left) =
          process-IsAddressed t data_laws node_laws p.symlists p.args p.before p.misc p.binary
            p.named p.data_ids p.node_ids in
        let closed' = of_posted IsClosedData r posted closed in
        let nodes_le =
          of_posted (λ d. length d.stack_nodes ≤ frames_in p.symlists) r₂ posted₂ few_nodes in
        let datas_le =
          of_posted (λ d. length d.stack_node_datas ≤ frames_in p.symlists) r₂ posted₂ few_datas in
        let some_node = counted-some d.stack_nodes (omega (arith, process-total, p.some_frame)) in
        record {
          closed = closed';
          some_node = some_node;
          some_data = data-some d closed' some_node;
          few_nodes = omega (arith, nodes_le, p.few_frames);
          few_datas = omega (arith, datas_le, p.few_frames);
          executable =
              single e counted sized (of_posted (λ d. d.profiled_binaries ≡ e ∷ []) r₃ posted₃ one);
          addressed = of_posted (λ d. All (HasDataId t) d.stack_node_datas) r₄ posted₄ addressed;
          counts =
              summands-le counter_limit d.stack_nodes (omega (arith, process-total, p.few_frames));
        }

  -- Whatever is known of every request is known of those of a run.
  Reach-map :
      {P Q : StoData → Type 0} {s u : Serving}
      → ((d : StoData) → P d → Q d)
      → Reach P s u
      → Reach Q s u
  Reach-map f here = here
  Reach-map f (next r (arrive d a)) = next (Reach-map f r) (arrive d (f d a))
  Reach-map f (next r (advance clock created q before after e)) =
      next (Reach-map f r) (advance clock created q before after e)
  Reach-map f (next r (abort q before after e)) = next (Reach-map f r) (abort q before after e)

  -- However the requests of any number of runs of the tool interleave on a database that was empty,
  -- each posting batches of a named binary, with valid caches, of between 1 and 16383 frames and at
  -- most 2 ^ 32 stacks, where the stacks and the tables take at most 2 ^ 32 bytes each, and
  -- whichever transactions the database aborts: as long as fewer than 2 ^ 31 requests have arrived,
  -- no statement of the server refuses what they post.
  pub Reach-posted :
      {u : Serving}
      → CacheLaws t.data_cache
      → CacheLaws t.node_cache
      → Reach IsPosted (idle empty) u
      → arrived u < 2 ^ 31
      → u.panicked ≡ []
  Reach-posted data_laws node_laws r room =
      Reach-panicked (hash_data t.hasher) (hash_data-content t.hasher)
        (Reach-map (process-IsBatch data_laws node_laws) r) room
