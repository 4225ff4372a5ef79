-- ===== src/Server/Dag/Value.antt =====
-- The number at the root of a flame graph.
use sto.Prelude.{
  ℕ, zero, suc, ◌+◌, ◌%◌, ◌^◌, ◌≡◌, refl, sym, ap, ◌∙◌, false, Option, none, some, List, [], ◌∷◌,
  arith, ◌==◌, Map, All-map, get-upsert, Option-cases, get, insert, values, All, sum_of, member,
  ids, DistinctIds, values-DistinctIds, Bool-cases, inl, inr,
}
use sto.Words.{add_i64}
use sto.Defs.{StackNode, StackNodeData}
use sto.Server.Db.{Db}
use sto.Server.Ingest.WellFormed.{IsWellFormed}
use sto.Server.Dag.Rows.{All-roots}
use sto.Server.Dag.{
  Flame, Forest, Built, done, panicked, out_of_fuel, ◌>>=◌, unwrap, build_all, build_children,
  build_dag, flame_value, cons, node_map, data_map, by_parent, nodes_of, datas_of, roots, draw,
  sum_values,
}

pub bind-done {ℓ κ} :
    {A : Type ℓ} {B : Type κ} (m : Built A) (f : A → Built B) (b : B)
    → (m >>= f) ≡ done b
    → (a : A) × (m ≡ done a) × (f a ≡ done b)
bind-done (done a) f b h = (a, refl, h)
bind-done panicked f b h = absurd cc
bind-done out_of_fuel f b h = absurd cc

-- What was built, or a value to stand for it.
abbrev pub from {ℓ} : {A : Type ℓ} → A → Built A → A
from x (done y) = y
from x panicked = x
from x out_of_fuel = x

pub unwrap-done {ℓ} : {A : Type ℓ} (o : Option A) (a : A) → unwrap o ≡ done a → o ≡ some a
unwrap-done none a h = absurd cc
unwrap-done (some b) a h = ap (λ x. some (from b x)) h

abbrev count_of : ℕ → Option StackNode → ℕ
count_of d (some n) = n.sample_count
count_of d none = d

sum_values-cons :
    (t : Flame) (us : Forest) → sum_values (cons t us) ≡ (flame_value t + sum_values us) % 2 ^ 64
unfolding sum_values add_i64
sum_values-cons t us = refl

module _ (nodes : Map StackNode) (datas : Map StackNodeData) (kids : Map (List StackNode)) where
  build_dag-value :
      (fuel id : ℕ) (n : StackNode) (t : Flame)
      → get nodes id ≡ some n
      → build_dag nodes datas kids fuel id ≡ done t
      → flame_value t ≡ n.sample_count
  unfolding build_dag
  build_dag-value zero id n t found h = absurd cc
  build_dag-value (suc fuel) id n t found h =
      let (cur_sn, e₁, h₁) = bind-done (unwrap (get nodes id)) _ t h in
      let (cur_sd, e₂, h₂) = bind-done (unwrap (get datas cur_sn.stack_node_data_id)) _ t h₁ in
      let (below, e₃, h₃) =
        bind-done (build_children (build_dag nodes datas kids fuel) (get kids id)) _ t h₂ in
      let same : some cur_sn ≡ some n = sym (unwrap-done (get nodes id) cur_sn e₁) ∙ found in
      ap (λ x. flame_value (from t x)) (sym h₃) ∙ ap (count_of 0) same

build_all-value :
    (f : ℕ → Built Flame) (ns : List StackNode) (ts : Forest)
    → All (λ (n : StackNode). (t : Flame) → f n.id ≡ done t → flame_value t ≡ n.sample_count) ns
    → build_all f ns ≡ done ts
    → sum_values ts ≡ sum_of (λ (n : StackNode). n.sample_count) ns % 2 ^ 64
unfolding build_all sum_values
build_all-value f [] ts h e = ap (λ x. sum_values (from ts x)) (sym e)
build_all-value f (n ∷ ns) ts h e =
    let (t, one, e₁) = bind-done (f n.id) _ ts e in
    let (us, rest, e₂) = bind-done (build_all f ns) _ ts e₁ in
    let first = h.0 t one in
    let others = build_all-value f ns us h.1 rest in
    ap (λ x. sum_values (from ts x)) (sym e₂) ∙ sum_values-cons t us ∙ omega (arith, first, others)

insert_self : (n : StackNode) (m : Map StackNode) → get (insert n.id n m) n.id ≡ some n
insert_self n m = elim (Option-cases (get m n.id)) [
  | inl new ↦ ground (arith, get-upsert n.id n.id (λ (_ : StackNode). n) n m)
  | inr (old, known) ↦ ground (arith, get-upsert n.id n.id (λ (_ : StackNode). n) n m)
]

-- Rows with other identifiers leave an entry alone.
get-node_map_other :
    (ns : List StackNode) (m : Map StackNode) (k : ℕ)
    → member (ids (λ (n : StackNode). n.id) ns) k ≡ false
    → get (node_map ns m) k ≡ get m k
unfolding node_map member
get-node_map_other [] m k h = refl
get-node_map_other (n ∷ ns) m k h =
    get-node_map_other ns (insert n.id n m) k (ground arith)
    ∙ ground (arith, get-upsert n.id k (λ (_ : StackNode). n) n m)

-- Every row is found under its identifier, if no identifier occurs twice.
pub get-node_map :
    (ns : List StackNode) (m : Map StackNode)
    → DistinctIds (ids (λ (n : StackNode). n.id) ns)
    → All (λ (n : StackNode). get (node_map ns m) n.id ≡ some n) ns
unfolding node_map
get-node_map [] m d = tt
get-node_map (n ∷ ns) m d = (
  get-node_map_other ns (insert n.id n m) n.id d.0 ∙ insert_self n m,
  get-node_map ns (insert n.id n m) d.1,
)

member-nodes_of :
    (id : ℕ) (ns : List StackNode) (k : ℕ)
    → member (ids (λ (n : StackNode). n.id) ns) k ≡ false
    → member (ids (λ (n : StackNode). n.id) (nodes_of id ns)) k ≡ false
unfolding nodes_of member
member-nodes_of id [] k h = h
member-nodes_of id (n ∷ ns) k h =
    let rest = member-nodes_of id ns k (ground arith) in
    elim (Bool-cases (n.executable_id == id)) [
      | inl mine ↦ rw mine (ground arith)
      | inr other ↦ rw other rest
    ]

pub nodes_of-DistinctIds :
    (id : ℕ) (ns : List StackNode)
    → DistinctIds (ids (λ (n : StackNode). n.id) ns)
    → DistinctIds (ids (λ (n : StackNode). n.id) (nodes_of id ns))
unfolding nodes_of
nodes_of-DistinctIds id [] d = tt
nodes_of-DistinctIds id (n ∷ ns) d =
    let rest = nodes_of-DistinctIds id ns d.1 in
    elim (Bool-cases (n.executable_id == id)) [
      | inl mine ↦ rw mine (member-nodes_of id ns n.id d.0, rest)
      | inr other ↦ rw other rest
    ]

-- The number at the root of a flame graph is the sum of the sample counts of the executable's
-- nodes without a parent, up to the wrap-around of an `i64`.
pub draw-value :
    (fuel id : ℕ) (db : Db) (t : Flame)
    → IsWellFormed db
    → draw fuel id db ≡ done t
    → flame_value t
      ≡ sum_of (λ (n : StackNode). n.sample_count) (roots (nodes_of id (values db.nodes))) % 2 ^ 64
unfolding draw
draw-value fuel id db t wf h =
    let sn = nodes_of id (values db.nodes) in
    let (pb, e₁, h₁) = bind-done (unwrap (get db.executables id)) _ t h in
    let (ts, e₂, h₂) = bind-done (build_all _ (roots sn)) _ t h₁ in
    let distinct =
      nodes_of-DistinctIds id (values db.nodes)
        (values-DistinctIds (λ (n : StackNode). n.id) db.nodes wf.nodes.0 wf.nodes.1) in
    let found =
      All-roots (λ (n : StackNode). get (node_map sn []) n.id ≡ some n) sn
        (get-node_map sn [] distinct) in
    ap (λ x. flame_value (from t x)) (sym h₂)
    ∙ build_all-value _ (roots sn) ts
        (All-map (λ (n : StackNode). get (node_map sn []) n.id ≡ some n) _ (roots sn)
          (λ n e u built.
            build_dag-value (node_map sn []) (data_map (datas_of db.datas sn) [])
              (by_parent (node_map sn []) []) fuel n.id n u e built)
          found)
        e₂
