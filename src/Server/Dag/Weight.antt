-- ===== src/Server/Dag/Weight.antt =====
-- What a frame and those below it weigh.
use sto.Prelude.{
  ℕ, suc, ◌+◌, ◌≡◌, sym, ap, ◌∙◌, Option, none, some, List, [], ◌∷◌, arith, Map, get, sum_of,
}
use sto.Defs.{Text, StackNode, StackNodeData}
use sto.Server.Dag.{
  Flame, Children, Forest, flame, Built, done, unwrap, build_all, build_children, build_dag, label,
}
use sto.Server.Dag.Value.{bind-done, unwrap-done, from}
use sto.Server.Dag.Fuel.{weigh, weigh_children, weigh_forest, weight, build_dag-more}

-- The weight of the frame that stands for a node
abbrev pub data_weight : (Text → ℕ → ℕ) → ℕ → Option StackNodeData → ℕ
data_weight measure count none = 0
data_weight measure count (some d) = measure (label d.symbol d.file d.line_number) count

abbrev pub node_weight : (Text → ℕ → ℕ) → Map StackNodeData → StackNode → ℕ
node_weight measure datas n = data_weight measure n.sample_count (get datas n.stack_node_data_id)

abbrev pub listed : (StackNode → ℕ) → Option (List StackNode) → ℕ
listed w none = 0
listed w (some ns) = sum_of w ns

module _ (measure : Text → ℕ → ℕ) where
  module _ (f g : ℕ → Built Flame)
      (less : (id : ℕ) (t : Flame) → f id ≡ done t → g id ≡ done t) where
    pub build_all-weight :
        (ns : List StackNode) (ts : Forest)
        → build_all f ns ≡ done ts
        → weigh_forest measure ts ≡ sum_of (λ n. weight measure (g n.id)) ns
    unfolding build_all weigh_forest
    build_all-weight [] ts h = ap (λ x. weigh_forest measure (from ts x)) (sym h)
    build_all-weight (n ∷ ns) ts h =
        let (t, one, h₁) = bind-done (f n.id) _ ts h in
        let (us, rest, h₂) = bind-done (build_all f ns) _ ts h₁ in
        let first : weight measure (g n.id) ≡ weigh measure t =
          ap (weight measure) (less n.id t one) in
        ap (λ x. weigh_forest measure (from ts x)) (sym h₂)
        ∙ omega (arith, first, build_all-weight ns us rest)

    build_children-weight :
        (o : Option (List StackNode)) (below : Children)
        → build_children f o ≡ done below
        → weigh_children measure below ≡ listed (λ n. weight measure (g n.id)) o
    unfolding build_children weigh_children
    build_children-weight none below h = ap (λ x. weigh_children measure (from below x)) (sym h)
    build_children-weight (some ns) below h =
        let (ts, all, h₁) = bind-done (build_all f ns) _ below h in
        ap (λ x. weigh_children measure (from below x)) (sym h₁) ∙ build_all-weight ns ts all

module _ (nodes : Map StackNode) (datas : Map StackNodeData) (kids : Map (List StackNode)) where
  -- What a frame was built from.
  build_dag-done :
      (fuel id : ℕ) (n : StackNode) (t : Flame)
      → get nodes id ≡ some n
      → build_dag nodes datas kids (suc fuel) id ≡ done t
      → (d : StackNodeData) × (below : Children) × (get datas n.stack_node_data_id ≡ some d)
        × (build_children (build_dag nodes datas kids fuel) (get kids id) ≡ done below)
        × (done (
              flame (label d.symbol d.file d.line_number) n.sample_count d.file d.line_number below)
            ≡ done t)
  unfolding build_dag
  build_dag-done fuel id n t found h =
      let h₁ = rw found at h in
      let (d, e₂, h₂) = bind-done (unwrap (get datas n.stack_node_data_id)) _ t h₁ in
      let (below, e₃, h₃) =
        bind-done (build_children (build_dag nodes datas kids fuel) (get kids id)) _ t h₂ in
      (d, below, unwrap-done (get datas n.stack_node_data_id) d e₂, e₃, h₃)

  module _ (measure : Text → ℕ → ℕ) where
    weigh-flame :
        (n : StackNode) (t : Flame) (d : StackNodeData) (below : Children)
        → get datas n.stack_node_data_id ≡ some d
        → done
            (flame (label d.symbol d.file d.line_number) n.sample_count d.file d.line_number below)
          ≡ done t
        → weigh measure t ≡ node_weight measure datas n + weigh_children measure below
    unfolding weigh
    weigh-flame n t d below e h =
        ap (weight measure) (sym h)
        ∙ ap (λ o. data_weight measure n.sample_count o + weigh_children measure below) (sym e)

    pub build_dag-weight :
        (fuel id : ℕ) (n : StackNode) (t : Flame)
        → get nodes id ≡ some n
        → build_dag nodes datas kids (suc fuel) id ≡ done t
        → weight measure (build_dag nodes datas kids (suc fuel) id)
          ≡ node_weight measure datas n
            + listed
                (λ c. weight measure (build_dag nodes datas kids (suc fuel) c.id))
                (get kids id)
    build_dag-weight fuel id n t found h =
        let (d, below, e, built, made) = build_dag-done fuel id n t found h in
        ap (weight measure) h
        ∙ weigh-flame n t d below e made
        ∙ ap (λ b. node_weight measure datas n + b)
            (build_children-weight measure (build_dag nodes datas kids fuel)
              (build_dag nodes datas kids (suc fuel)) (build_dag-more nodes datas kids fuel)
              (get kids id) below built)
