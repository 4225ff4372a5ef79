-- ===== src/Server/Subtree/Inner.antt =====
-- What subtree shows.
use mathlib.Core.Path.{subst}
use sto.Prelude.{
  >>=-eq-some, ℕ, zero, suc, ◌<◌, ◌≡◌, ==_iff, refl, sym, true, Option, none, some, List, [], ◌∷◌,
  arith, All, Bool-cases, inl, inr, get, values, length, Keyed, All-values, All-map, ap, ◌∙◌,
}
use sto.Defs.{StackNode, StackNodeData}
use sto.Server.Db.{Db}
use sto.Server.Rows.Keeps.{All-get}
use sto.Server.Ingest.WellFormed.{IsWellFormed}
use sto.Server.Dag.Total.{IsRanked}
use sto.Server.Subtree.{
  Json, Array, null, object, nil, cons, among, distinct, is_parent, children_of, each, aggregate,
  data_id_of, subtree,
}

module _ (db : Db) where
  -- Every object is a node that has a child in the table.
  unfoldable mutual
    pub IsInner : Json → Type 0
    IsInner null = Unit
    IsInner (object id file line_number name value below) =
        (0 < length (children_of id (values db.nodes))) × AreInner below

    pub AreInner : Array → Type 0
    AreInner nil = Unit
    AreInner (cons j js) = IsInner j × AreInner js

  distinct-AreInner : (js : Array) → AreInner js → AreInner (distinct js)
  unfolding distinct AreInner
  distinct-AreInner nil h = h
  distinct-AreInner (cons j js) h = elim (Bool-cases (among j (distinct js))) [
    | inl again ↦ rw again (distinct-AreInner js h.1)
    | inr new ↦ rw new (h.0, distinct-AreInner js h.1)
  ]

  each-AreInner :
      (f : ℕ → Option Json) (cs : List StackNode) (js : Array)
      → each f cs ≡ some js
      → ((id : ℕ) (j : Json) → f id ≡ some j → IsInner j)
      → AreInner js
  unfolding each AreInner
  each-AreInner f [] js e h = let same : nil ≡ js = cc in subst AreInner same tt
  each-AreInner f (c ∷ cs) js e h =
      let (j, one, e₁) = >>=-eq-some (f c.id) _ e in
      let (ks, rest, e₂) = >>=-eq-some (each f cs) _ e₁ in
      let same : cons j ks ≡ js = cc in
      subst AreInner same (h c.id j one, each-AreInner f cs ks rest h)

  -- An array with an entry was made of a child.
  each-cons :
      (f : ℕ → Option Json) (cs : List StackNode) (j : Json) (js : Array)
      → each f cs ≡ some (cons j js)
      → 0 < length cs
  unfolding each
  each-cons f [] j js e = absurd cc
  each-cons f (c ∷ cs) j js e = omega arith

  aggregate-IsInner :
      (o : Option StackNode) (d : Option StackNodeData) (js : Array)
      → ((n : StackNode) (j : Json) (ks : Array)
          → o ≡ some n
          → js ≡ cons j ks
          → 0 < length (children_of n.id (values db.nodes)))
      → AreInner js
      → IsInner (aggregate o d js)
  unfolding aggregate IsInner
  aggregate-IsInner none d js h below = tt
  aggregate-IsInner (some n) none js h below = tt
  aggregate-IsInner (some n) (some d) nil h below = tt
  aggregate-IsInner (some n) (some d) (cons j js) h below =
      (h n j js refl refl, distinct-AreInner (cons j js) below)

each-done :
    (f : ℕ → Option Json) (cs : List StackNode)
    → All (λ (c : StackNode). (j : Json) × (f c.id ≡ some j)) cs
    → (js : Array) × (each f cs ≡ some js)
unfolding each
each-done f [] h = (nil, refl)
each-done f (c ∷ cs) h =
    let (j, one) = h.0 in let (js, rest) = each-done f cs h.1 in (cons j js, rw (one, rest) refl)

is_parent-eq : (id : ℕ) (o : Option ℕ) → is_parent id o ≡ true → o ≡ some id
unfolding is_parent
is_parent-eq id none h = cc
is_parent-eq id (some p) h = ap some ((==_iff p id).0 h)

module _ (rank : ℕ → ℕ) where
  -- The children of a node rank below it.
  children_of-ranked :
      (id : ℕ) (cs : List StackNode)
      → All (λ (c : StackNode). (p : ℕ) → c.parent_id ≡ some p → rank c.id < rank p) cs
      → All (λ (c : StackNode). rank c.id < rank id) (children_of id cs)
  unfolding children_of
  children_of-ranked id [] h = tt
  children_of-ranked id (c ∷ cs) h = elim (Bool-cases (is_parent id c.parent_id)) [
    | inl child ↦
        rw child (h.0 id (is_parent-eq id c.parent_id child), children_of-ranked id cs h.1)
    | inr other ↦ rw other (children_of-ranked id cs h.1)
  ]

  subtree-done :
      (fuel id : ℕ) (db : Db)
      → IsRanked rank db
      → rank id < fuel
      → (j : Json) × (subtree fuel db id ≡ some j)
  unfolding subtree
  subtree-done zero id db ranked r = absurd (omega arith)
  subtree-done (suc fuel) id db ranked r =
      let below = children_of-ranked id (values db.nodes) (
        All-values (λ (e : ℕ × StackNode). (p : ℕ) → e.1.parent_id ≡ some p → rank e.1.id < rank p)
          (λ (c : StackNode). (p : ℕ) → c.parent_id ≡ some p → rank c.id < rank p) db.nodes
          (λ e h. h) ranked) in
      let (js, built) = each-done (subtree fuel db) (children_of id (values db.nodes)) (
        All-map (λ (c : StackNode). rank c.id < rank id) _ (children_of id (values db.nodes))
          (λ c h. subtree-done fuel c.id db ranked (omega arith)) below) in
      (aggregate (get db.nodes id) (get db.datas (data_id_of (get db.nodes id))) js, rw built refl)

result-IsInner :
    (fuel id : ℕ) (db : Db) (j : Json)
    → Keyed (λ (n : StackNode). n.id) db.nodes
    → subtree fuel db id ≡ some j
    → IsInner db j
unfolding subtree
result-IsInner zero id db j keyed h = absurd cc
result-IsInner (suc fuel) id db j keyed h =
    let cs = children_of id (values db.nodes) in
    let (js, below, made) = >>=-eq-some (each (subtree fuel db) cs) _ h in
    let d = get db.datas (data_id_of (get db.nodes id)) in
    let same : aggregate (get db.nodes id) d js ≡ j = cc in
    subst (IsInner db) same (
      aggregate-IsInner db (get db.nodes id) d js
        (λ n k ks found shape.
          let key : n.id ≡ id =
            All-get (λ (e : ℕ × StackNode). e.1.id ≡ e.0) db.nodes id n keyed found in
          let one : 0 < length cs =
            each-cons db (subtree fuel db) cs k ks (below ∙ ap some shape) in
          subst (λ (i : ℕ). 0 < length (children_of i (values db.nodes))) (sym key) one)
        (each-AreInner db (subtree fuel db) cs js below
          (λ i k e. result-IsInner fuel i db k keyed e)))

aggregate-nil : (o : Option StackNode) (d : Option StackNodeData) → aggregate o d nil ≡ null
unfolding aggregate
aggregate-nil none d = refl
aggregate-nil (some n) none = refl
aggregate-nil (some n) (some d) = refl

-- A node without children is shown as null.
subtree-leaf :
    (fuel id : ℕ) (db : Db) (j : Json)
    → subtree fuel db id ≡ some j
    → children_of id (values db.nodes) ≡ []
    → j ≡ null
unfolding subtree each
subtree-leaf zero id db j h leaf = absurd cc
subtree-leaf (suc fuel) id db j h leaf =
    let h' = rw leaf at h in
    let d = get db.datas (data_id_of (get db.nodes id)) in
    let same : aggregate (get db.nodes id) d nil ≡ j = cc in
    sym same ∙ aggregate-nil (get db.nodes id) d

-- On a well-formed database with no cyclic call path, subtree has a result, within as many calls as
-- the ranks need; it shows only nodes that have a child, so that no node at the end of a call path
-- is in it; and the result for such a node is null.
pub subtree-IsInner :
    (rank : ℕ → ℕ) (fuel id : ℕ) (db : Db)
    → IsWellFormed db
    → IsRanked rank db
    → rank id < fuel
    → (j : Json) × (subtree fuel db id ≡ some j)
      × IsInner db j
      × (children_of id (values db.nodes) ≡ [] → j ≡ null)
subtree-IsInner rank fuel id db wf ranked r =
    let (j, built) = subtree-done rank fuel id db ranked r in
    (j, built, result-IsInner fuel id db j wf.nodes.0 built, subtree-leaf fuel id db j built)
