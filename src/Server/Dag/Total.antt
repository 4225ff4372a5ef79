-- ===== src/Server/Dag/Total.antt =====
-- Drawing a flame graph neither panics nor runs forever, if no call path is a cycle.

use sto.Prelude.{
  ℕ, zero, suc, ◌<◌, ◌≡◌, refl, true, Option, none, some, List, [], ◌∷◌, arith, Map, get, has,
  values, All, All-map,
}
use sto.Defs.{StackNode, StackNodeData}
use sto.Server.Db.{Db, Refers}
use sto.Server.Rows.Keeps.{All-get}
use sto.Server.Ingest.WellFormed.{IsWellFormed}
use sto.Server.Dag.Rows.{
  get-has, All-nodes_of, All-roots, All-node_map, node_map-has, data_map-has, datas_of-known,
  by_parent-Filed,
}
use sto.Server.Dag.{
  Flame, Forest, Children, Built, done, build_all, build_children, build_dag, label, flame,
  children, no_children, cons, nil, node_map, data_map, by_parent, nodes_of, datas_of, roots, draw,
  sum_values,
}

-- The rows and the maps that a graph is drawn from.
abbrev pub sn_of : ℕ → Db → List StackNode
sn_of id db = nodes_of id (values db.nodes)

abbrev pub sd_map_of : ℕ → Db → Map StackNodeData
sd_map_of id db = data_map (datas_of db.datas (sn_of id db)) []

abbrev pub build_node : ℕ → Db → ℕ → ℕ → Built Flame
build_node id db =
    let sn_id_map = node_map (sn_of id db) [] in
    build_dag sn_id_map (sd_map_of id db) (by_parent sn_id_map [])

-- Every element is built, so the list is.
build_all-done :
    (f : ℕ → Built Flame) (ns : List StackNode)
    → All (λ (n : StackNode). (t : Flame) × (f n.id ≡ done t)) ns
    → (ts : Forest) × (build_all f ns ≡ done ts)
unfolding build_all
build_all-done f [] h = (nil, refl)
build_all-done f (n ∷ ns) h =
    let (t, one) = h.0 in let (ts, rest) = build_all-done f ns h.1 in (cons t ts, rw (one, rest))

module _ (rank : ℕ → ℕ) where
  -- A list of children is known, and ranks below its parent.
  abbrev Below : Map StackNode → ℕ × List StackNode → Type 0
  Below nodes e = All (λ (n : StackNode). (has nodes n.id ≡ true) × (rank n.id < rank e.0)) e.1

  module _ (nodes : Map StackNode) (datas : Map StackNodeData) (kids : Map (List StackNode))
      (known : All (λ (e : ℕ × StackNode). has datas e.1.stack_node_data_id ≡ true) nodes)
      (below : All (Below nodes) kids) where
    build_children-done :
        (fuel id : ℕ) (found : Option (List StackNode))
        → get kids id ≡ found
        → rank id < suc fuel
        → ((j : ℕ)
            → has nodes j ≡ true
            → rank j < fuel
            → (t : Flame) × (build_dag nodes datas kids fuel j ≡ done t))
        → (cs : Children) × (build_children (build_dag nodes datas kids fuel) found ≡ done cs)
    unfolding build_children
    build_children-done fuel id none e r build = (no_children, refl)
    build_children-done fuel id (some ns) e r build =
        let under = All-get (Below nodes) kids id ns below e in
        let (ts, built) = build_all-done (build_dag nodes datas kids fuel) ns (
          All-map _
            (λ (n : StackNode). (t : Flame) × (build_dag nodes datas kids fuel n.id ≡ done t)) ns
            (λ n h. build n.id h.0 (omega arith)) under) in
        (children ts, rw built)

    build_dag-done :
        (fuel id : ℕ)
        → has nodes id ≡ true
        → rank id < fuel
        → (t : Flame) × (build_dag nodes datas kids fuel id ≡ done t)
    unfolding build_dag
    build_dag-done zero id h r = elim r [ ]
    build_dag-done (suc fuel) id h r =
        let (n, found) = get-has nodes id h in
        let (d, data_found) = get-has datas n.stack_node_data_id (
          All-get (λ (e : ℕ × StackNode). has datas e.1.stack_node_data_id ≡ true) nodes id n known
            found) in
        let (cs, built) =
          build_children-done fuel id (get kids id) refl r
            (λ j hj rj. build_dag-done fuel j hj rj) in
        (
          flame (label d.symbol d.file d.line_number) n.sample_count d.file d.line_number cs,
          rw (found, data_found, built),
        )

  -- Every parent ranks above its children: no call path comes back to itself.
  abbrev pub IsRanked : Db → Type 0
  IsRanked db =
      All (λ (e : ℕ × StackNode). (p : ℕ) → e.1.parent_id ≡ some p → rank e.1.id < rank p) db.nodes

  -- What is needed of a row to draw it.
  record Drawable (db : Db) (fuel : ℕ) (n : StackNode) : Type 0 where
    data_known : has db.datas n.stack_node_data_id ≡ true
    ranked : (p : ℕ) → n.parent_id ≡ some p → rank n.id < rank p
    reached : rank n.id < fuel

  all_Drawable :
      (db : Db) (fuel : ℕ) (m : Map StackNode)
      → All (λ (e : ℕ × StackNode). Refers db e.1) m
      → All (λ (e : ℕ × StackNode). (p : ℕ) → e.1.parent_id ≡ some p → rank e.1.id < rank p) m
      → All (λ (e : ℕ × StackNode). rank e.1.id < fuel) m
      → All (Drawable db fuel) (values m)
  unfolding values
  all_Drawable db fuel [] refers ranked reached = tt
  all_Drawable db fuel ((k, n) ∷ m) refers ranked reached = (
    record { data_known = refers.0.1; ranked = ranked.0; reached = reached.0 },
    all_Drawable db fuel m refers.1 ranked.1 reached.1,
  )

  both :
      (db : Db) (fuel : ℕ) (m : Map StackNode) (ns : List StackNode)
      → All (λ (n : StackNode). has m n.id ≡ true) ns
      → All (Drawable db fuel) ns
      → All
          (λ (n : StackNode).
            (p : ℕ) → n.parent_id ≡ some p → (has m n.id ≡ true) × (rank n.id < rank p))
          ns
  both db fuel m [] here rows = tt
  both db fuel m (n ∷ ns) here rows =
      (λ p e. (here.0, rows.0.ranked p e), both db fuel m ns here.1 rows.1)

  pairs :
      (db : Db) (fuel : ℕ) (m : Map StackNode) (ns : List StackNode)
      → All (λ (n : StackNode). has m n.id ≡ true) ns
      → All (Drawable db fuel) ns
      → All (λ (n : StackNode). (has m n.id ≡ true) × (rank n.id < fuel)) ns
  pairs db fuel m [] here rows = tt
  pairs db fuel m (n ∷ ns) here rows = ((here.0, rows.0.reached), pairs db fuel m ns here.1 rows.1)

  module _ (fuel id : ℕ) (db : Db) (wf : IsWellFormed db) (ranked : IsRanked db)
      (reached : All (λ (e : ℕ × StackNode). rank e.1.id < fuel) db.nodes) where
    rows : All (Drawable db fuel) (sn_of id db)
    rows =
        All-nodes_of (Drawable db fuel) id (values db.nodes)
          (all_Drawable db fuel db.nodes wf.references ranked reached)

    here : All (λ (n : StackNode). has (node_map (sn_of id db) []) n.id ≡ true) (sn_of id db)
    here = node_map-has (sn_of id db) []

    pub data_known :
        All (λ (n : StackNode). has (sd_map_of id db) n.stack_node_data_id ≡ true) (sn_of id db)
    data_known =
        datas_of-known db.datas (has (sd_map_of id db)) (sn_of id db) wf.datas.0
          (All-map (Drawable db fuel) (λ (n : StackNode). has db.datas n.stack_node_data_id ≡ true)
            (sn_of id db) (λ n d. d.data_known) rows)
          (data_map-has (datas_of db.datas (sn_of id db)) [])

    build_node-done :
        (k : ℕ)
        → has (node_map (sn_of id db) []) k ≡ true
        → rank k < fuel
        → (t : Flame) × (build_node id db fuel k ≡ done t)
    build_node-done =
        let sn_id_map = node_map (sn_of id db) [] in
        build_dag-done sn_id_map (sd_map_of id db) (by_parent sn_id_map [])
          (All-node_map (λ (n : StackNode). has (sd_map_of id db) n.stack_node_data_id ≡ true)
            (sn_of id db) [] data_known tt)
          (by_parent-Filed
            (λ (p : ℕ) (n : StackNode). (has sn_id_map n.id ≡ true) × (rank n.id < rank p))
            sn_id_map []
            (All-node_map
              (λ (n : StackNode).
                (p : ℕ) → n.parent_id ≡ some p → (has sn_id_map n.id ≡ true) × (rank n.id < rank p))
              (sn_of id db) [] (both db fuel sn_id_map (sn_of id db) here rows) tt)
            tt)
          fuel

    -- Each node of the executable gets its frame.
    pub nodes-done :
        All (λ (n : StackNode). (t : Flame) × (build_node id db fuel n.id ≡ done t)) (sn_of id db)
    nodes-done =
        All-map
          (λ (n : StackNode). (has (node_map (sn_of id db) []) n.id ≡ true) × (rank n.id < fuel))
          (λ (n : StackNode). (t : Flame) × (build_node id db fuel n.id ≡ done t)) (sn_of id db)
          (λ n h. build_node-done n.id h.0 h.1)
          (pairs db fuel (node_map (sn_of id db) []) (sn_of id db) here rows)

  -- On a well-formed database with no cyclic call path, a request for an executable that is stored
  -- gets a flame graph: no unwrap panics, and the recursion ends within as many calls as the
  -- ranks need.
  pub draw-done :
      (fuel id : ℕ) (db : Db)
      → IsWellFormed db
      → IsRanked db
      → All (λ (e : ℕ × StackNode). rank e.1.id < fuel) db.nodes
      → has db.executables id ≡ true
      → (t : Flame) × (draw fuel id db ≡ done t)
  unfolding draw
  draw-done fuel id db wf ranked reached exe =
      let (pb, found) = get-has db.executables id exe in
      let (ts, drawn) = build_all-done (build_node id db fuel) (roots (sn_of id db)) (
        All-roots (λ (n : StackNode). (t : Flame) × (build_node id db fuel n.id ≡ done t))
          (sn_of id db) (nodes-done fuel id db wf ranked reached)) in
      (flame pb.basename (sum_values ts) none none (children ts), rw (found, drawn))
