-- ===== src/Cli/Sink/Addressed.antt =====
-- The identifiers that `process_and_sink_data` posts are hashes of what they identify.
use mathlib.Core.List.{reverse}
use mathlib.Core.Path.{subst}
use sto.Prelude.{ℕ, ◌≡◌, refl, sym, Option, some, List, [], ◌∷◌, Map, All, All-upsert, All-values}
use sto.Defs.{Text, Args, Executable, StackNode, StackNodeData, StoData}
use sto.Cli.Ids.{CacheLaws, hash_data, hash_node, id_data, id_stack_node, misc_id}
use sto.Cli.Ids.Transparent.{IsValid, id_data-hash_data, id_stack_node-hash_node}
use sto.Cli.Sink.{
  Tools, Sink, SymbolizedResult, Stack, frame_data, frame_node, cached_demangle, count_sample,
  identify, add_frame, on_frame, on_frames, on_stack, on_stacks, on_symlist, on_symlists,
  new_executable, executable_key, start, data_out, with_binary, process_and_sink_data,
}

module _ (t : Tools) where
  abbrev pub HasDataId : StackNodeData → Type 0
  HasDataId d = d.id ≡ hash_data t.hasher d

  abbrev pub HasNodeId : StackNode → Type 0
  HasNodeId n = n.id ≡ hash_node t.hasher n

  pub record IsAddressed (s : Sink t) : Type 0 where
    pub datas : All (λ (e : ℕ × StackNodeData). HasDataId e.1) s.datas
    pub nodes : All (λ (e : ℕ × StackNode). HasNodeId e.1) s.nodes
    pub data_ids : IsValid t.data_cache (hash_data t.hasher) s.data_ids
    pub node_ids : IsValid t.node_cache (hash_node t.hasher) s.node_ids

  identified_data : (d : StackNodeData) → HasDataId (record d { id = hash_data t.hasher d })
  unfolding hash_data
  identified_data d = refl

  identified_node : (n : StackNode) → HasNodeId (record n { id = hash_node t.hasher n })
  unfolding hash_node
  identified_node n = refl

  count_sample-HasNodeId : (n : StackNode) → HasNodeId n → HasNodeId (count_sample n)
  unfolding hash_node
  count_sample-HasNodeId n h = h

module _ (t : Tools) (data_laws : CacheLaws t.data_cache) (node_laws : CacheLaws t.node_cache) where
  on_frame-IsAddressed :
      (exe : ℕ) (frame : SymbolizedResult) (s : Sink t)
      → IsAddressed t s
      → IsAddressed t (on_frame t exe frame s)
  unfolding on_frame identify add_frame
  on_frame-IsAddressed exe frame s a =
      let (symbol, symbols) = cached_demangle t frame.symbol s.symbols in
      let d0 = frame_data frame symbol in
      let hashed = id_data-hash_data t.hasher t.data_cache data_laws d0 s.data_ids a.data_ids in
      let d = (id_data t.hasher t.data_cache d0 s.data_ids).0 in
      let n0 = frame_node s.parent_id d.id exe in
      let node = id_stack_node-hash_node t.hasher t.node_cache node_laws n0 s.node_ids a.node_ids in
      let n = (id_stack_node t.hasher t.node_cache n0 s.node_ids).0 in
      record {
        datas =
            All-upsert (λ (e : ℕ × StackNodeData). HasDataId t e.1) d.id (λ w. w) d s.datas
              (λ w h. h) (subst (HasDataId t) (sym hashed.0) (identified_data t d0)) a.datas;
        nodes =
            All-upsert (λ (e : ℕ × StackNode). HasNodeId t e.1) n.id count_sample n s.nodes
              (λ w h. count_sample-HasNodeId t w h)
              (subst (HasNodeId t) (sym node.0) (identified_node t n0)) a.nodes;
        data_ids = hashed.1;
        node_ids = node.1;
      }

  on_frames-IsAddressed :
      (exe : ℕ) (stack : Stack) (s : Sink t)
      → IsAddressed t s
      → IsAddressed t (on_frames t exe stack s)
  unfolding on_frames
  on_frames-IsAddressed exe [] s a = a
  on_frames-IsAddressed exe (frame ∷ stack) s a =
      on_frames-IsAddressed exe stack (on_frame t exe frame s) (on_frame-IsAddressed exe frame s a)

  -- The executables, and the frame that comes next, do not matter.
  with-IsAddressed :
      (es : Map Executable) (p : Option ℕ) (s : Sink t)
      → IsAddressed t s
      → IsAddressed t (record s { executables = es; parent_id = p })
  with-IsAddressed es p s a = record {
    datas = a.datas;
    nodes = a.nodes;
    data_ids = a.data_ids;
    node_ids = a.node_ids;
  }

  on_stacks-IsAddressed :
      (e : Executable) (stacks : List Stack) (s : Sink t)
      → IsAddressed t s
      → IsAddressed t (on_stacks t e stacks s)
  unfolding on_stacks on_stack
  on_stacks-IsAddressed e [] s a = a
  on_stacks-IsAddressed e (stack ∷ stacks) s a =
      on_stacks-IsAddressed e stacks (on_stack t e stack s)
        (on_frames-IsAddressed e.id stack _ (with-IsAddressed _ s.parent_id s a))

  on_symlists-IsAddressed :
      (e : Executable) (symlists : List (List Stack)) (s : Sink t)
      → IsAddressed t s
      → IsAddressed t (on_symlists t e symlists s)
  unfolding on_symlists on_symlist
  on_symlists-IsAddressed e [] s a = a
  on_symlists-IsAddressed e (symlist ∷ symlists) s a =
      on_symlists-IsAddressed e symlists (on_symlist t e symlist s)
        (on_stacks-IsAddressed e (reverse symlist) _ (with-IsAddressed s.executables _ s a))

  -- With a binary name and valid caches there is no panic, the identifier of every node and of
  -- every node data that is posted is the hash of its content, and the caches are valid
  -- afterwards.
  pub process-IsAddressed :
      (symlists : List (List Stack)) (args : Args) (s : Sink t) (misc : t.misc_cache.State)
      (binary : Text)
      → args.binary ≡ some binary
      → IsValid t.data_cache (hash_data t.hasher) s.data_ids
      → IsValid t.node_cache (hash_node t.hasher) s.node_ids
      → (r : StoData × Sink t × t.misc_cache.State) × (process_and_sink_data t symlists args s misc
          ≡ some r)
        × All (HasDataId t) r.0.stack_node_datas
        × All (HasNodeId t) r.0.stack_nodes
        × IsAddressed t r.1
  unfolding process_and_sink_data with_binary data_out
  process-IsAddressed symlists args s misc binary e dv nv =
      let found = misc_id t.hasher t.misc_cache (executable_key binary args.version) misc in
      let s' = on_symlists t (new_executable found.0 binary args) symlists (start t s) in
      let a =
        on_symlists-IsAddressed (new_executable found.0 binary args) symlists (start t s)
          (record { datas = tt; nodes = tt; data_ids = dv; node_ids = nv }) in
      (
        (data_out t found.0 s', s', found.1),
        rw (e, with_binary) refl,
        All-values (λ (e : ℕ × StackNodeData). HasDataId t e.1) (HasDataId t) s'.datas (λ e h. h)
            a.datas,
        All-values (λ (e : ℕ × StackNode). HasNodeId t e.1) (HasNodeId t) s'.nodes (λ e h. h)
            a.nodes,
        a,
      )
