-- ===== src/Server/Dag/Local.antt =====
-- The rows of one executable refer to each other, and to stored node data.
use sto.Prelude.{
  ℕ, ◌≡◌, refl, sym, ap, ◌∙◌, true, Option, none, some, List, [], ◌∷◌, arith, ==_iff, ◌==◌,
  Bool-cases, inl, inr, Map, get, has, values, All, All-upsert, insert, member, Keyed,
}
use sto.Defs.{Text, StackNode, StackNodeData}
use sto.Defs.References.{ParentIn}
use sto.Server.Db.{Db, Refers}
use sto.Server.Rows.Keeps.{All-get}
use sto.Server.Dag.{data_map, nodes_of, datas_of, add_joined}
use sto.Server.Dag.Rows.{get-has}
use sto.Server.Dag.Total.{sn_of, sd_map_of}
use sto.Server.Dag.Weight.{data_weight, node_weight}
use sto.Server.Dag.Filing.{node_ids}

-- A node's parent belongs to its executable, as the tool makes them.
abbrev pub IsLocal : Db → Type 0
IsLocal db =
    All
      (λ (e : ℕ × StackNode).
        (p : ℕ) (m : StackNode)
        → e.1.parent_id ≡ some p
        → get db.nodes p ≡ some m
        → m.executable_id ≡ e.1.executable_id)
      db.nodes

member-nodes_of :
    (id : ℕ) (m : Map StackNode) (p : ℕ) (n : StackNode)
    → Keyed (λ (n : StackNode). n.id) m
    → get m p ≡ some n
    → n.executable_id ≡ id
    → member (node_ids (nodes_of id (values m))) p ≡ true
unfolding get values nodes_of member
member-nodes_of id [] p n k found mine = cc
member-nodes_of id ((j, x) ∷ m) p n k found mine = elim (Bool-cases (j == p)) [
  | inl same ↦
      let value : x ≡ n = ground arith in
      let key : x.id ≡ p = k.0 ∙ (==_iff j p).0 same in
      let owner : x.executable_id ≡ id = ap (λ (v : StackNode). v.executable_id) value ∙ mine in
      ground (arith, key, owner)
  | inr other ↦
      let rest = member-nodes_of id m p n k.1 (rw other at found) mine in ground (arith, rest)
]

-- A node of the executable has its parent among them.
ParentIn-nodes_of :
    (id : ℕ) (db : Db) (n : StackNode) (o : Option ℕ)
    → Keyed (λ (n : StackNode). n.id) db.nodes
    → n.executable_id ≡ id
    → ParentIn (has db.nodes) o
    → ((p : ℕ) (m : StackNode)
        → o ≡ some p
        → get db.nodes p ≡ some m
        → m.executable_id ≡ n.executable_id)
    → ParentIn (member (node_ids (sn_of id db))) o
ParentIn-nodes_of id db n none keyed mine known local = tt
ParentIn-nodes_of id db n (some p) keyed mine known local =
    let (m, found) = get-has db.nodes p known in
    member-nodes_of id db.nodes p m keyed found (local p m refl found ∙ mine)

pub parents :
    (id : ℕ) (db : Db) (m : Map StackNode)
    → Keyed (λ (n : StackNode). n.id) db.nodes
    → All (λ (e : ℕ × StackNode). Refers db e.1) m
    → All
        (λ (e : ℕ × StackNode).
          (p : ℕ) (m : StackNode)
          → e.1.parent_id ≡ some p
          → get db.nodes p ≡ some m
          → m.executable_id ≡ e.1.executable_id)
        m
    → All
        (λ (n : StackNode). ParentIn (member (node_ids (sn_of id db))) n.parent_id)
        (nodes_of id (values m))
unfolding nodes_of values
parents id db [] keyed refers local = tt
parents id db ((k, n) ∷ m) keyed refers local = elim (Bool-cases (n.executable_id == id)) [
  | inl mine ↦ rw mine (
    ParentIn-nodes_of id db n n.parent_id keyed ((==_iff n.executable_id id).0 mine) refers.0.0
        local.0,
    parents id db m keyed refers.1 local.1,
  )
  | inr other ↦ rw other (parents id db m keyed refers.1 local.1)
]

-- The join finds what the table holds.
data_map-All :
    (P : ℕ × StackNodeData → Type 0) (ds : List StackNodeData) (m : Map StackNodeData)
    → All (λ (d : StackNodeData). P (d.id, d)) ds
    → All P m
    → All P (data_map ds m)
unfolding data_map
data_map-All P [] m h all = all
data_map-All P (d ∷ ds) m h all =
    data_map-All P ds (insert d.id d m) h.1 (All-upsert P d.id (λ _. d) d m (λ _ _. h.0) h.0 all)

datas_of-stored :
    (datas : Map StackNodeData) (ns : List StackNode)
    → Keyed (λ (d : StackNodeData). d.id) datas
    → All (λ (d : StackNodeData). get datas d.id ≡ some d) (datas_of datas ns)
unfolding datas_of
datas_of-stored datas [] keyed = tt
datas_of-stored datas (n ∷ ns) keyed =
    with_row (get datas n.stack_node_data_id) refl (datas_of-stored datas ns keyed)
  where
    with_row :
        (o : Option StackNodeData)
        → get datas n.stack_node_data_id ≡ o
        → All (λ (d : StackNodeData). get datas d.id ≡ some d) (datas_of datas ns)
        → All (λ (d : StackNodeData). get datas d.id ≡ some d) (add_joined o (datas_of datas ns))
    with_row none e rest = rest
    with_row (some d) e rest =
        let key : d.id ≡ n.stack_node_data_id =
          All-get (λ (e : ℕ × StackNodeData). e.1.id ≡ e.0) datas n.stack_node_data_id d keyed e in
        (ap (get datas) key ∙ e, rest)

-- Each frame is labelled from the table.
pub node_weight-stored :
    (measure : Text → ℕ → ℕ) (id : ℕ) (db : Db) (n : StackNode)
    → Keyed (λ (d : StackNodeData). d.id) db.datas
    → has (sd_map_of id db) n.stack_node_data_id ≡ true
    → node_weight measure (sd_map_of id db) n ≡ node_weight measure db.datas n
node_weight-stored measure id db n keyed known =
    let (d, found) = get-has (sd_map_of id db) n.stack_node_data_id known in
    let stored =
      All-get (λ (e : ℕ × StackNodeData). get db.datas e.0 ≡ some e.1) (sd_map_of id db)
        n.stack_node_data_id d
        (data_map-All (λ (e : ℕ × StackNodeData). get db.datas e.0 ≡ some e.1)
          (datas_of db.datas (sn_of id db)) [] (datas_of-stored db.datas (sn_of id db) keyed) tt)
        found in
    ap (data_weight measure n.sample_count) (found ∙ sym stored)
