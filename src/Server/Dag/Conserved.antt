-- ===== src/Server/Dag/Conserved.antt =====
-- A flame graph shows every node of its executable once.
use sto.Prelude.{
  ℕ, zero, suc, ◌+◌, ◌<◌, ◌≡◌, refl, sym, ap, ◌∙◌, true, some, List, [], ◌∷◌, arith, Map, get, has,
  values, All, All-map, sum_of, member, DistinctIds, values-DistinctIds,
}
use sto.Defs.{Text, StackNode}
use sto.Defs.References.{ParentIn}
use sto.Server.Db.{Db}
use sto.Server.Ingest.WellFormed.{IsWellFormed}
use sto.Server.Dag.{
  Flame, Forest, flame, done, unwrap, build_all, build_dag, node_map, by_parent, nodes_of, roots,
  draw,
}
use sto.Server.Dag.Value.{bind-done, from, get-node_map, nodes_of-DistinctIds}
use sto.Server.Dag.Total.{IsRanked, sn_of, sd_map_of, build_node, data_known, nodes-done, draw-done}
use sto.Server.Dag.Fuel.{weigh_children, weigh_forest, weight}
use sto.Server.Dag.Weight.{node_weight, listed, build_all-weight, build_dag-weight}
use sto.Server.Dag.Filing.{
  entries, node_ids, node_map-entries_all, filed, filed-by_parent, sum_of-roots,
}
use sto.Server.Dag.Local.{IsLocal, parents, node_weight-stored}

sum_of-equal :
    (f g : StackNode → ℕ) (ns : List StackNode)
    → All (λ (n : StackNode). f n ≡ g n) ns
    → sum_of f ns ≡ sum_of g ns
sum_of-equal f g [] h = refl
sum_of-equal f g (n ∷ ns) h = omega (arith, h.0, sum_of-equal f g ns h.1)

sum_of-add :
    (f g : StackNode → ℕ) (ns : List StackNode)
    → sum_of (λ n. f n + g n) ns ≡ sum_of f ns + sum_of g ns
sum_of-add f g [] = refl
sum_of-add f g (n ∷ ns) = omega (arith, sum_of-add f g ns)

filed-nil : (G : StackNode → ℕ) (keys : List StackNode) → filed G keys [] ≡ 0
unfolding get
filed-nil G [] = refl
filed-nil G (n ∷ keys) = omega (arith, filed-nil G keys)

-- The sum over the frames below the root.
abbrev pub weigh_below : (Text → ℕ → ℕ) → Flame → ℕ
weigh_below measure (flame name value filename line_number below) = weigh_children measure below

module _ (measure : Text → ℕ → ℕ) (id : ℕ) (db : Db) (fuel : ℕ) where
  abbrev built_weight : StackNode → ℕ
  built_weight n = weight measure (build_node id db fuel n.id)

  abbrev kids : Map (List StackNode)
  kids = by_parent (node_map (sn_of id db) []) []

  -- A node's frames are its own and those of its children.
  of_node :
      (f : ℕ) (n : StackNode) (t : Flame)
      → get (node_map (sn_of id db) []) n.id ≡ some n
      → build_node id db f n.id ≡ done t
      → weight measure (build_node id db f n.id)
        ≡ node_weight measure (sd_map_of id db) n
          + listed (λ c. weight measure (build_node id db f c.id)) (get kids n.id)
  of_node zero n t found h = absurd (unfold build_dag in cc)
  of_node (suc f) n t found h =
      build_dag-weight (node_map (sn_of id db) []) (sd_map_of id db) kids measure f n.id n t found h

  of_nodes :
      (ns : List StackNode)
      → All (λ (n : StackNode). get (node_map (sn_of id db) []) n.id ≡ some n) ns
      → All (λ (n : StackNode). (t : Flame) × (build_node id db fuel n.id ≡ done t)) ns
      → sum_of built_weight ns
        ≡ sum_of (node_weight measure (sd_map_of id db)) ns + filed built_weight ns kids
  of_nodes [] found built = refl
  of_nodes (n ∷ ns) found built =
      omega (arith, of_node fuel n (built.0).0 found.0 (built.0).1, of_nodes ns found.1 built.1)

  -- The forest that a graph was made of
  draw-forest :
      (t : Flame)
      → draw fuel id db ≡ done t
      → (ts : Forest) × (build_all (build_node id db fuel) (roots (sn_of id db)) ≡ done ts)
        × (weigh_below measure t ≡ weigh_forest measure ts)
  unfolding draw weigh_children
  draw-forest t h =
      let (pb, e₁, h₁) = bind-done (unwrap (get db.executables id)) _ t h in
      let (ts, e₂, h₂) =
        bind-done (build_all (build_node id db fuel) (roots (sn_of id db))) _ t h₁ in
      (ts, e₂, ap (λ x. weigh_below measure (from t x)) (sym h₂))

  -- The trees of the nodes without a parent hold all nodes.
  roots-weight :
      DistinctIds (node_ids (sn_of id db))
      → All
          (λ (n : StackNode). ParentIn (member (node_ids (sn_of id db))) n.parent_id)
          (sn_of id db)
      → All (λ (n : StackNode). (t : Flame) × (build_node id db fuel n.id ≡ done t)) (sn_of id db)
      → sum_of built_weight (roots (sn_of id db))
        ≡ sum_of (node_weight measure (sd_map_of id db)) (sn_of id db)
  roots-weight distinct local built =
      let total = of_nodes (sn_of id db) (get-node_map (sn_of id db) [] distinct) built in
      let once = filed-by_parent built_weight (sn_of id db) distinct (sn_of id db) [] local in
      let same : kids ≡ by_parent (entries (sn_of id db)) [] =
        ap (λ m. by_parent m []) (node_map-entries_all (sn_of id db) distinct) in
      omega (
        arith,
        total,
        once,
        ap (filed built_weight (sn_of id db)) same,
        filed-nil built_weight (sn_of id db),
        sum_of-roots built_weight (sn_of id db),
      )

-- On a well-formed database with no cyclic call path, and where a node's parent belongs to its
-- executable, the flame graph of a stored executable shows each of its nodes exactly once: whatever
-- is measured of a frame's label and value, the sum over all frames below the root is the sum over
-- the executable's nodes, each with the label of its stored data and its stored sample count.
pub draw-weigh_below :
    (measure : Text → ℕ → ℕ) (rank : ℕ → ℕ) (fuel id : ℕ) (db : Db)
    → IsWellFormed db
    → IsRanked rank db
    → All (λ (e : ℕ × StackNode). rank e.1.id < fuel) db.nodes
    → IsLocal db
    → has db.executables id ≡ true
    → (t : Flame) × (draw fuel id db ≡ done t)
      × (weigh_below measure t
          ≡ sum_of (node_weight measure db.datas) (nodes_of id (values db.nodes)))
draw-weigh_below measure rank fuel id db wf ranked reached local exe =
    let (t, drawn) = draw-done rank fuel id db wf ranked reached exe in
    let (ts, built, below) = draw-forest measure id db fuel t drawn in
    let distinct =
      nodes_of-DistinctIds id (values db.nodes)
        (values-DistinctIds (λ (n : StackNode). n.id) db.nodes wf.nodes.0 wf.nodes.1) in
    let all = nodes-done rank fuel id db wf ranked reached in
    let trees =
      build_all-weight measure (build_node id db fuel) (build_node id db fuel) (λ k u h. h)
        (roots (sn_of id db)) ts built in
    let labels =
      sum_of-equal (node_weight measure (sd_map_of id db)) (node_weight measure db.datas)
        (sn_of id db)
        (All-map (λ (n : StackNode). has (sd_map_of id db) n.stack_node_data_id ≡ true)
          (λ (n : StackNode).
            node_weight measure (sd_map_of id db) n ≡ node_weight measure db.datas n)
          (sn_of id db) (λ n known. node_weight-stored measure id db n wf.datas.0 known)
          (data_known rank fuel id db wf ranked reached)) in
    (
      t,
      drawn,
      below
          ∙ trees
          ∙ roots-weight measure id db fuel distinct
              (parents id db db.nodes wf.nodes.0 wf.references local) all
          ∙ labels,
    )
