-- ===== src/Server/Subtree.antt =====
-- The function subtree of migrations/20230305040305_init.up.sql, as it is defined last: a node with
-- what is below it, as JSON. PostgreSQL leaves the order of aggregated rows open; here it is that of
-- the table. `fuel` bounds the depth of the recursion.
pub mod Inner
use sto.Prelude.{
  ℕ, zero, suc, Bool, true, false, ◌&&◌, ◌||◌, Option, none, some, List, [], ◌∷◌, ◌>>=◌, ◌==◌,
  if◌then◌else◌, get, values,
}
use sto.Defs.{Text, StackNode, StackNodeData}
use sto.Server.Db.{Db, text_eq}

-- The result is null, or an array of one object.
mutual
  pub data Json : Type 0 where
    null : Json
    object : ℕ → Option Text → Option ℕ → Text → ℕ → Array → Json

  pub data Array : Type 0 where
    nil : Array
    cons : Json → Array → Array

-- Null is like null, for DISTINCT.
unfoldable pub same_text : Option Text → Option Text → Bool
same_text none none = true
same_text (some s) (some t) = text_eq s t
same_text _ _ = false

unfoldable pub same_number : Option ℕ → Option ℕ → Bool
same_number none none = true
same_number (some a) (some b) = a == b
same_number _ _ = false

unfoldable mutual
  unfolding same_text same_number

  pub same_json : Json → Json → Bool
  same_json null null = true
  same_json (object i f l n v c) (object i' f' l' n' v' c') =
      (i == i')
      && (same_text f f' && (same_number l l' && (text_eq n n' && ((v == v') && same_array c c'))))
  same_json _ _ = false

  pub same_array : Array → Array → Bool
  same_array nil nil = true
  same_array (cons j js) (cons k ks) = same_json j k && same_array js ks
  same_array _ _ = false

unfoldable pub among : Json → Array → Bool
unfolding same_json
among j nil = false
among j (cons k ks) = same_json j k || among j ks

-- SELECT DISTINCT
unfoldable pub distinct : Array → Array
unfolding among
distinct nil = nil
distinct (cons j js) = let rest = distinct js in if among j rest then rest else cons j rest

-- join stack_node c ON n.id = c.parent_id
unfoldable pub is_parent : ℕ → Option ℕ → Bool
is_parent id none = false
is_parent id (some p) = p == id

unfoldable pub children_of : ℕ → List StackNode → List StackNode
unfolding is_parent
children_of id [] = []
children_of id (c ∷ cs) =
    let rest = children_of id cs in if is_parent id c.parent_id then c ∷ rest else rest

-- The rows of the inner query, one for each child; none is out of fuel.
unfoldable pub each : (ℕ → Option Json) → List StackNode → Option Array
each f [] = some nil
each f (c ∷ cs) = do j ← f c.id; js ← each f cs; some (cons j js)

-- jsonb_agg over the joined rows: null if there is none
unfoldable pub aggregate : Option StackNode → Option StackNodeData → Array → Json
unfolding distinct
aggregate (some n) (some d) (cons j js) =
    object n.id d.file d.line_number d.symbol n.sample_count (distinct (cons j js))
aggregate _ _ _ = null

abbrev pub data_id_of : Option StackNode → ℕ
data_id_of none = 0
data_id_of (some n) = n.stack_node_data_id

unfoldable pub subtree : ℕ → Db → ℕ → Option Json
unfolding each aggregate children_of
subtree zero db rootid = none
subtree (suc fuel) db rootid = do
  below ← each (subtree fuel db) (children_of rootid (values db.nodes))
  some (aggregate (get db.nodes rootid) (get db.datas (data_id_of (get db.nodes rootid))) below)
