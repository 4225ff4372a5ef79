-- ===== src/System/Drawn.antt =====
-- From the samples to the flame graph: the first batch that a server stores, as it is drawn.
use mathlib.Core.Path.{subst}
use sto.Prelude.{
  ℕ, ◌<◌, ◌≡◌, ==_iff, refl, sym, ap, ◌∙◌, Bool, true, some, List, [], ◌∷◌, arith, Map, has, values,
  All, All-map, sum_of, member, ids,
}
use sto.Defs.{Text, Executable, StackNode, StackNodeData, StoData}
use sto.Defs.References.{RefersTo}
use sto.Server.Db.{Db, empty, same_content}
use sto.Server.Requests.Ready.{IsBatch}
use sto.Server.Rows.Keeps.{All-get}
use sto.Server.Ingest.{node_id, data_id, executable_id, data_ingest}
use sto.Server.Dag.{Flame, done, draw, nodes_of}
use sto.Server.Dag.Filing.{entries}
use sto.Server.Dag.Weight.{node_weight, data_weight}
use sto.Server.Dag.Rows.{get-has}
use sto.Server.Dag.Local.{IsLocal}
use sto.Server.Dag.Conserved.{weigh_below, draw-weigh_below}
use sto.System.{hash_data-content}
use sto.System.Fresh.{ingested}
use sto.System.Traffic.{IsPosted, process-IsBatch, process-total}
use sto.Cli.Ids.{CacheLaws, hash_data}
use sto.Cli.Sink.{Tools}
use sto.Cli.Sink.Counts.{frames_in}

values-entries : (ns : List StackNode) → values (entries ns) ≡ ns
unfolding values
values-entries [] = refl
values-entries (n ∷ ns) = ap (◌∷◌ n) (values-entries ns)

nodes_of-all :
    (id : ℕ) (ns : List StackNode)
    → All (λ (n : StackNode). n.executable_id ≡ id) ns
    → nodes_of id ns ≡ ns
unfolding nodes_of
nodes_of-all id [] h = refl
nodes_of-all id (n ∷ ns) h = rw ((==_iff n.executable_id id).1 h.0, nodes_of-all id ns h.1) refl

-- The count of a frame
abbrev pub counted : Text → ℕ → ℕ
counted name value = value

node_weight-counted :
    (datas : Map StackNodeData) (ns : List StackNode)
    → All (λ (n : StackNode). has datas n.stack_node_data_id ≡ true) ns
    → sum_of (node_weight counted datas) ns ≡ sum_of (λ (n : StackNode). n.sample_count) ns
node_weight-counted datas [] h = refl
node_weight-counted datas (n ∷ ns) h =
    let (d, found) = get-has datas n.stack_node_data_id h.0 in
    omega (arith, ap (data_weight counted n.sample_count) found, node_weight-counted datas ns h.1)

All-entries :
    (P : StackNode → Type 0) (ns : List StackNode)
    → All P ns
    → All (λ (x : ℕ × StackNode). P x.1) (entries ns)
All-entries P [] h = tt
All-entries P (n ∷ ns) h = (h.0, All-entries P ns h.1)

-- The nodes of a batch with one executable belong to it.
owned :
    (nodes datas : ℕ → Bool) (e : Executable) (ns : List StackNode)
    → All (RefersTo nodes datas (member (ids executable_id (e ∷ [])))) ns
    → All (λ (n : StackNode). n.executable_id ≡ e.id) ns
unfolding member
owned nodes datas e [] h = tt
owned nodes datas e (n ∷ ns) h = (ground arith, owned nodes datas e ns h.1)

-- Nodes of one executable only have parents of that one.
owned-IsLocal :
    (db : Db) (id : ℕ) → All (λ (x : ℕ × StackNode). x.1.executable_id ≡ id) db.nodes → IsLocal db
owned-IsLocal db id mine =
    All-map (λ (x : ℕ × StackNode). x.1.executable_id ≡ id) _ db.nodes
      (λ x h p m e found.
        All-get (λ (x : ℕ × StackNode). x.1.executable_id ≡ id) db.nodes p m mine found ∙ sym h)
      mine

first_member : (e : Executable) → member (ids executable_id (e ∷ [])) e.id ≡ true
unfolding member
first_member e = ground arith

-- A node ranks below its parent, and within the fuel.
abbrev pub RanksBelow : (ℕ → ℕ) → ℕ → StackNode → Type 0
RanksBelow rank fuel n = ((p : ℕ) → n.parent_id ≡ some p → rank n.id < rank p) × (rank n.id < fuel)

module _ (f : StackNodeData → ℕ)
    (content : (a b : StackNodeData) → same_content a b ≡ true → f a ≡ f b) (clock : ℕ → ℕ)
    (created : ℕ) (d : StoData) (batch : IsBatch f d) where
  module _ (rank : ℕ → ℕ) (fuel : ℕ) where
    -- A batch that was stored is drawn with all its samples.
    draw-data_ingest :
        All (RanksBelow rank fuel) d.stack_nodes
        → (t : Flame) × (draw fuel batch.executable.0.id (data_ingest clock created d empty).0
            ≡ done t)
          × (weigh_below counted t ≡ sum_of (λ (n : StackNode). n.sample_count) d.stack_nodes)
    draw-data_ingest ranked =
        let (e, one, below) = batch.executable in
        let (db, stored, wf, rows, datas, executables) = ingested f content clock created d batch in
        let mine : All (λ (n : StackNode). n.executable_id ≡ e.id) d.stack_nodes =
          owned (member (ids node_id d.stack_nodes)) (member (ids data_id d.stack_node_datas)) e
            d.stack_nodes (rw one at batch.closed.nodes) in
        let local = owned-IsLocal db e.id (
          subst (All (λ (x : ℕ × StackNode). x.1.executable_id ≡ e.id)) (sym rows)
            (All-entries (λ (n : StackNode). n.executable_id ≡ e.id) d.stack_nodes mine)) in
        let (t, drawn, weighed) =
          draw-weigh_below counted rank fuel e.id db wf
            (subst
              (All (λ (x : ℕ × StackNode). (p : ℕ) → x.1.parent_id ≡ some p → rank x.1.id < rank p))
              (sym rows)
              (All-entries (λ (n : StackNode). (p : ℕ) → n.parent_id ≡ some p → rank n.id < rank p)
                d.stack_nodes (All-map (RanksBelow rank fuel) _ d.stack_nodes (λ n h. h.0) ranked)))
            (subst (All (λ (x : ℕ × StackNode). rank x.1.id < fuel)) (sym rows) (
              All-entries (λ (n : StackNode). rank n.id < fuel) d.stack_nodes
                (All-map (RanksBelow rank fuel) _ d.stack_nodes (λ n h. h.1) ranked)))
            local (executables e.id (rw one (first_member e))) in
        let known : All (λ (n : StackNode). has db.datas n.stack_node_data_id ≡ true)
            d.stack_nodes =
          All-map
            (RefersTo (member (ids node_id d.stack_nodes)) (member (ids data_id d.stack_node_datas))
              (member (ids executable_id d.profiled_binaries)))
            _ d.stack_nodes (λ n h. datas n.stack_node_data_id h.1) batch.closed.nodes in
        (
          t,
          ap (λ r. draw fuel e.id r.0) stored ∙ drawn,
          weighed
              ∙ ap (λ m. sum_of (node_weight counted db.datas) (nodes_of e.id (values m))) rows
              ∙ ap (λ ns. sum_of (node_weight counted db.datas) (nodes_of e.id ns))
                  (values-entries d.stack_nodes)
              ∙ ap (sum_of (node_weight counted db.datas)) (nodes_of-all e.id d.stack_nodes mine)
              ∙ node_weight-counted db.datas d.stack_nodes known,
        )

module _ (t : Tools) (data_laws : CacheLaws t.data_cache) (node_laws : CacheLaws t.node_cache)
    (d : StoData) (p : IsPosted t d) where
  -- From the samples to the picture: the first batch that reaches a server with an empty database
  -- is stored, and the flame graph of its executable is drawn and shows every frame of every
  -- symbolised stack: the values of all frames below the root come to the number of frames in the
  -- batch. The tool has a named binary and valid caches, the batch has between 1 and 16383 frames
  -- and at most 2 ^ 32 stacks, its stacks and its tables take at most 2 ^ 32 bytes each, and no call
  -- path of it comes back to itself: each node ranks below its parent, and within the fuel.
  pub draw-process :
      (clock : ℕ → ℕ) (created : ℕ) (rank : ℕ → ℕ) (fuel : ℕ)
      → All (RanksBelow rank fuel) d.stack_nodes
      → (e : Executable) × (d.profiled_binaries ≡ e ∷ [])
        × ((data_ingest clock created d empty).1 ≡ true)
        × (tree : Flame) × (draw fuel e.id (data_ingest clock created d empty).0 ≡ done tree)
        × (weigh_below counted tree ≡ frames_in p.symlists)
  draw-process clock created rank fuel ranked =
      let batch = process-IsBatch t data_laws node_laws d p in
      let f = hash_data t.hasher in
      let content = hash_data-content t.hasher in
      let (db, stored, wf, rows, datas, executables) = ingested f content clock created d batch in
      let (tree, drawn, weighed) =
        draw-data_ingest f content clock created d batch rank fuel ranked in
      (
        batch.executable.0,
        batch.executable.1,
        ap (λ r. r.1) stored,
        tree,
        drawn,
        weighed ∙ process-total t data_laws node_laws d p,
      )
