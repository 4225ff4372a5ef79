-- ===== src/Cli/Sink/Posted.antt =====
-- The tables that `process_and_sink_data` posts.
use sto.Prelude.{
  ℕ, ◌≡◌, ◌∙◌, Option, some, List, Map, All-map, All-values, All-and_modify, has, has-and_modify,
  and_modify, and_modify-Distinct, values, Keyed, ids, member, member-values, values-DistinctIds,
}
use sto.Defs.{Text, Args, Executable, StackNode, StackNodeData, StoData}
use sto.Defs.References.{ParentIn-eq, RefersTo, IsClosedData}
use sto.Cli.Ids.{misc_id}
use sto.Cli.Sink.{
  Tools, Sink, Stack, on_symlists, new_executable, executable_key, data_out, grow, start, tables,
  with_binary, process_and_sink_data,
}
use sto.Cli.Sink.Closed.{Closed, NodeOk, IsClosed, on_symlists-IsClosed}

node_key : StackNode → ℕ
node_key n = n.id

module _ (ns : Map StackNode) (ds : Map StackNodeData) (es : Map Executable) (p : Option ℕ)
    (c : Closed ns ds es p) where
  -- Every node is stored under its identifier.
  Keyed-nodes : Keyed (λ n. n.id) ns
  Keyed-nodes =
      All-map (NodeOk ns ds es) (λ (e : ℕ × StackNode). e.1.id ≡ e.0) ns (λ e h. h.0) c.nodes

  Closed-IsClosedData : IsClosedData (record {
    stack_nodes = values ns;
    stack_node_datas = values ds;
    profiled_binaries = values es;
  })
  Closed-IsClosedData = record {
    nodes =
        All-values (NodeOk ns ds es)
          (RefersTo (member (ids (λ n. n.id) (values ns))) (member (ids (λ d. d.id) (values ds)))
            (member (ids (λ e. e.id) (values es))))
          ns
          (λ e h. (
            ParentIn-eq (has ns) (member (ids (λ n. n.id) (values ns))) e.1.parent_id
                (λ k. member-values (λ n. n.id) ns k Keyed-nodes) h.1.0,
            member-values (λ d. d.id) ds e.1.stack_node_data_id c.datas ∙ h.1.1,
            member-values (λ x. x.id) es e.1.executable_id c.executables ∙ h.1.2,
          ))
          c.nodes;
    distinct_nodes = values-DistinctIds (λ n. n.id) ns Keyed-nodes c.distinct_nodes;
    distinct_datas = values-DistinctIds (λ d. d.id) ds c.datas c.distinct_datas;
    distinct_executables = values-DistinctIds (λ e. e.id) es c.executables c.distinct_executables;
  }

grow-Closed :
    (ns : Map StackNode) (ds : Map StackNodeData) (es : Map Executable) (p : Option ℕ) (k size : ℕ)
    → Closed ns ds es p
    → Closed ns ds (and_modify k (grow size) es) p
grow-Closed ns ds es p k size c = record {
  nodes =
      All-map (NodeOk ns ds es) (NodeOk ns ds (and_modify k (grow size) es)) ns
        (λ n h. (h.0, (h.1.0, h.1.1, has-and_modify k n.1.executable_id (grow size) es ∙ h.1.2)))
        c.nodes;
  datas = c.datas;
  executables =
      All-and_modify (λ (x : ℕ × Executable). x.1.id ≡ x.0) k (grow size) es (λ w h. h)
        c.executables;
  distinct_nodes = c.distinct_nodes;
  distinct_datas = c.distinct_datas;
  distinct_executables = and_modify-Distinct k (grow size) es c.distinct_executables;
  parent = c.parent;
}

module _ (t : Tools) where
  start-IsClosed : (s : Sink t) → IsClosed t (start t s)
  start-IsClosed s = record {
    nodes = tt;
    datas = tt;
    executables = tt;
    distinct_nodes = tt;
    distinct_datas = tt;
    distinct_executables = tt;
    parent = tt;
  }

  data_out-IsClosedData : (k : ℕ) (s : Sink t) → IsClosed t s → IsClosedData (data_out t k s)
  unfolding data_out
  data_out-IsClosedData k s c =
      let size = t.deep_size_of_data (tables t s) in
      Closed-IsClosedData s.nodes s.datas (and_modify k (grow size) s.executables) s.parent_id
        (grow-Closed s.nodes s.datas s.executables s.parent_id k size c)

  -- With a binary name, whatever the stacks, the caches and the hash function: there is no panic,
  -- no identifier is posted twice, and the parent, the data and the executable of every node that
  -- is posted are posted with it.
  pub process-IsClosedData :
      (symlists : List (List Stack)) (args : Args) (s : Sink t) (misc : t.misc_cache.State)
      (binary : Text)
      → args.binary ≡ some binary
      → (r : StoData × Sink t × t.misc_cache.State) × (process_and_sink_data t symlists args s misc
          ≡ some r)
        × IsClosedData r.0
  unfolding process_and_sink_data with_binary
  process-IsClosedData symlists args s misc binary e =
      let found = misc_id t.hasher t.misc_cache (executable_key binary args.version) misc in
      let s' = on_symlists t (new_executable found.0 binary args) symlists (start t s) in
      (
        (data_out t found.0 s', s', found.1),
        rw (e, with_binary),
        data_out-IsClosedData found.0 s' (
            on_symlists-IsClosed t (new_executable found.0 binary args) symlists (start t s)
              (start-IsClosed s)),
      )
