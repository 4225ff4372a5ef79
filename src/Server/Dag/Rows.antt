-- ===== src/Server/Dag/Rows.antt =====
-- The maps that a flame graph is drawn from hold the rows of its executable.
use mathlib.Core.Path.{subst}
use sto.Prelude.{
  ℕ, ◌≡◌, refl, sym, ap, ◌∙◌, Bool, true, false, Option, none, some, List, [], ◌∷◌, ◌++◌, arith,
  ◌==◌, if◌then◌else◌, Map, get, has, insert, All, All-append, All-upsert, has-upsert_self,
  has-upsert_mono, Keyed, Bool-cases, inl, inr,
}
use sto.Defs.{StackNode, StackNodeData}
use sto.Server.Rows.Keeps.{All-get}
use sto.Server.Dag.{
  node_map, data_map, by_parent, file_under, nodes_of, datas_of, add_joined, roots, keep_root,
}

pub get-has {ℓ} : {V : Type ℓ} (m : Map V) (k : ℕ) → has m k ≡ true → (v : V) × (get m k ≡ some v)
unfolding get has
get-has [] k h = cc
get-has ((j, w) ∷ m) k h = elim (Bool-cases (j == k)) [
  | inl same ↦ (w, ground arith)
  | inr other ↦ let (v, found) = get-has m k (ground arith) in (v, ground arith)
]

module _ (P : StackNode → Type 0) where
  pub All-nodes_of : (id : ℕ) (ns : List StackNode) → All P ns → All P (nodes_of id ns)
  unfolding nodes_of
  All-nodes_of id [] h = tt
  All-nodes_of id (n ∷ ns) h = either (n.executable_id == id) _ h.0 (All-nodes_of id ns h.1)
    where
      either :
          (b : Bool) (rest : List StackNode)
          → P n
          → All P rest
          → All P (if b then n ∷ rest else rest)
      either true rest p r = (p, r)
      either false rest p r = r

  pub All-roots : (ns : List StackNode) → All P ns → All P (roots ns)
  unfolding roots
  All-roots [] h = tt
  All-roots (n ∷ ns) h = either n.parent_id _ h.0 (All-roots ns h.1)
    where
      either :
          (o : Option ℕ) (rest : List StackNode) → P n → All P rest → All P (keep_root n o rest)
      either none rest p r = (p, r)
      either (some q) rest p r = r

  -- Every entry is one of the rows.
  pub All-node_map :
      (ns : List StackNode) (m : Map StackNode)
      → All P ns
      → All (λ (e : ℕ × StackNode). P e.1) m
      → All (λ (e : ℕ × StackNode). P e.1) (node_map ns m)
  unfolding node_map
  All-node_map [] m h hm = hm
  All-node_map (n ∷ ns) m h hm =
      All-node_map ns (insert n.id n m) h.1
        (All-upsert (λ (e : ℕ × StackNode). P e.1) n.id (λ _. n) n m (λ _ _. h.0) h.0 hm)

has-node_map_mono :
    (ns : List StackNode) (m : Map StackNode) (k : ℕ)
    → has m k ≡ true
    → has (node_map ns m) k ≡ true
unfolding node_map
has-node_map_mono [] m k h = h
has-node_map_mono (n ∷ ns) m k h =
    has-node_map_mono ns (insert n.id n m) k (has-upsert_mono n.id k (λ _. n) n m h)

-- Every row is found under its identifier.
pub node_map-has :
    (ns : List StackNode) (m : Map StackNode)
    → All (λ (n : StackNode). has (node_map ns m) n.id ≡ true) ns
unfolding node_map
node_map-has [] m = tt
node_map-has (n ∷ ns) m = (
  has-node_map_mono ns (insert n.id n m) n.id (has-upsert_self n.id (λ _. n) n m),
  node_map-has ns (insert n.id n m),
)

has-data_map_mono :
    (ds : List StackNodeData) (m : Map StackNodeData) (k : ℕ)
    → has m k ≡ true
    → has (data_map ds m) k ≡ true
unfolding data_map
has-data_map_mono [] m k h = h
has-data_map_mono (d ∷ ds) m k h =
    has-data_map_mono ds (insert d.id d m) k (has-upsert_mono d.id k (λ _. d) d m h)

pub data_map-has :
    (ds : List StackNodeData) (m : Map StackNodeData)
    → All (λ (d : StackNodeData). has (data_map ds m) d.id ≡ true) ds
unfolding data_map
data_map-has [] m = tt
data_map-has (d ∷ ds) m = (
  has-data_map_mono ds (insert d.id d m) d.id (has-upsert_self d.id (λ _. d) d m),
  data_map-has ds (insert d.id d m),
)

-- The join brings the data of every node.
pub datas_of-known :
    (datas : Map StackNodeData) (known : ℕ → Bool) (ns : List StackNode)
    → Keyed (λ d. d.id) datas
    → All (λ (n : StackNode). has datas n.stack_node_data_id ≡ true) ns
    → All (λ (d : StackNodeData). known d.id ≡ true) (datas_of datas ns)
    → All (λ (n : StackNode). known n.stack_node_data_id ≡ true) ns
unfolding datas_of
datas_of-known datas known [] keyed h all = tt
datas_of-known datas known (n ∷ ns) keyed h all =
    let (d, found) = get-has datas n.stack_node_data_id h.0 in
    let key : d.id ≡ n.stack_node_data_id =
      All-get (λ (e : ℕ × StackNodeData). e.1.id ≡ e.0) datas n.stack_node_data_id d keyed found in
    let all' : All (λ (d : StackNodeData). known d.id ≡ true) (d ∷ datas_of datas ns) =
      subst
        (λ (o : Option StackNodeData).
          All (λ (d : StackNodeData). known d.id ≡ true) (add_joined o (datas_of datas ns)))
        found all in
    (ap known (sym key) ∙ all'.0, datas_of-known datas known ns keyed h.1 all'.1)

-- Every list of children holds nodes that name its parent.
module _ (Q : ℕ → StackNode → Type 0) where
  abbrev pub Filed : Map (List StackNode) → Type 0
  Filed m = All (λ (e : ℕ × List StackNode). All (Q e.0) e.1) m

  file_under-Filed :
      (v : StackNode) (o : Option ℕ) (acc : Map (List StackNode))
      → ((p : ℕ) → o ≡ some p → Q p v)
      → Filed acc
      → Filed (file_under v o acc)
  unfolding file_under
  file_under-Filed v none acc q h = h
  file_under-Filed v (some p) acc q h =
      All-upsert (λ (e : ℕ × List StackNode). All (Q e.0) e.1) p (λ e. e ++ v ∷ []) (v ∷ []) acc
        (λ ns hs. All-append (Q p) ns (v ∷ []) hs (q p refl, tt)) (q p refl, tt) h

  pub by_parent-Filed :
      (m : Map StackNode) (acc : Map (List StackNode))
      → All (λ (e : ℕ × StackNode). (p : ℕ) → e.1.parent_id ≡ some p → Q p e.1) m
      → Filed acc
      → Filed (by_parent m acc)
  unfolding by_parent
  by_parent-Filed [] acc q h = h
  by_parent-Filed ((k, v) ∷ m) acc q h =
      by_parent-Filed m (file_under v v.parent_id acc) q.1
        (file_under-Filed v v.parent_id acc q.0 h)
