-- ===== src/Server/Dag/Fuel.antt =====
-- What stands in a flame graph, and that more fuel makes no difference to one that is done.
use sto.Prelude.{ℕ, zero, suc, ◌+◌, ◌≡◌, refl, Option, none, some, List, [], ◌∷◌, Map, get}
use sto.Defs.{Text, StackNode, StackNodeData}
use sto.Server.Dag.{
  Flame, Children, Forest, flame, no_children, children, nil, cons, Built, done, panicked,
  out_of_fuel, unwrap, build_all, build_children, build_dag,
}
use sto.Server.Dag.Value.{bind-done}

-- The sum over all frames of a measure of their name and value.
module _ (measure : Text → ℕ → ℕ) where
  unfoldable mutual
    pub weigh : Flame → ℕ
    weigh (flame name value filename line_number below) = measure name value + weigh_children below

    pub weigh_children : Children → ℕ
    weigh_children no_children = 0
    weigh_children (children forest) = weigh_forest forest

    pub weigh_forest : Forest → ℕ
    weigh_forest nil = 0
    weigh_forest (cons t ts) = weigh t + weigh_forest ts

-- Subterms as they are read off a forest that was built.
module _ (measure : Text → ℕ → ℕ) where
  weigh-cons :
      (t : Flame) (ts : Forest)
      → weigh_forest measure (cons t ts) ≡ weigh measure t + weigh_forest measure ts
  unfolding weigh_forest
  weigh-cons t ts = refl

-- What is weighed of a tree, if there is one.
abbrev pub weight : (Text → ℕ → ℕ) → Built Flame → ℕ
weight measure (done t) = weigh measure t
weight measure panicked = 0
weight measure out_of_fuel = 0

module _ (f g : ℕ → Built Flame) (less : (id : ℕ) (t : Flame) → f id ≡ done t → g id ≡ done t) where
  build_all-more :
      (ns : List StackNode) (ts : Forest) → build_all f ns ≡ done ts → build_all g ns ≡ done ts
  unfolding build_all
  build_all-more [] ts h = h
  build_all-more (n ∷ ns) ts h =
      let (t, one, h₁) = bind-done (f n.id) _ ts h in
      let (us, rest, h₂) = bind-done (build_all f ns) _ ts h₁ in
      rw (less n.id t one, build_all-more ns us rest) h₂

  build_children-more :
      (o : Option (List StackNode)) (below : Children)
      → build_children f o ≡ done below
      → build_children g o ≡ done below
  unfolding build_children
  build_children-more none below h = h
  build_children-more (some ns) below h =
      let (ts, all, h₁) = bind-done (build_all f ns) _ below h in rw (build_all-more ns ts all) h₁

module _ (nodes : Map StackNode) (datas : Map StackNodeData) (kids : Map (List StackNode)) where
  -- One call more is not used.
  pub build_dag-more :
      (fuel id : ℕ) (t : Flame)
      → build_dag nodes datas kids fuel id ≡ done t
      → build_dag nodes datas kids (suc fuel) id ≡ done t
  unfolding build_dag
  build_dag-more zero id t h = absurd cc
  build_dag-more (suc fuel) id t h =
      let (n, e₁, h₁) = bind-done (unwrap (get nodes id)) _ t h in
      let (d, e₂, h₂) = bind-done (unwrap (get datas n.stack_node_data_id)) _ t h₁ in
      let (below, e₃, h₃) =
        bind-done (build_children (build_dag nodes datas kids fuel) (get kids id)) _ t h₂ in
      let more =
        build_children-more (build_dag nodes datas kids fuel)
          (build_dag nodes datas kids (suc fuel)) (build_dag-more fuel) (get kids id) below e₃ in
      rw (e₁, e₂, more) h₃
