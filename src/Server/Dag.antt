-- ===== src/Server/Dag.antt =====
-- The handler `data` of src/bin/server.rs: the call graph of an executable as a flame graph.
pub mod Name
pub mod Rows
pub mod Total
pub mod Value
pub mod Fuel
pub mod Weight
pub mod Filing
pub mod Local
pub mod Conserved
use sto.Prelude.{
  ℕ, zero, suc, ◌+◌, ◌-◌, ◌^◌, Bool, true, false, Option, none, some, List, [], ◌∷◌, ◌++◌, ◌==◌,
  ltb, if◌then◌else◌, Map, get, insert, upsert, values,
}
use sto.Words.{add_i64}
use sto.Text.{contains, after_last, decimal, codes}
use sto.Defs.{Text, Executable, StackNode, StackNodeData}
use sto.Server.Db.{Db}

-- `D3FlamegraphData`: `Children` is its `Option<Vec<D3FlamegraphData>>`.
mutual
  pub data Flame : Type 0 where
    flame : Text → ℕ → Option Text → Option ℕ → Children → Flame

  pub data Children : Type 0 where
    no_children : Children
    children : Forest → Children

  pub data Forest : Type 0 where
    nil : Forest
    cons : Flame → Forest → Forest

-- A panic ends the request; a call chain that never ends runs out of fuel.
pub data Built {ℓ} (A : Type ℓ) : Type ℓ where
  done : A → Built A
  panicked : Built A
  out_of_fuel : Built A

infixl 5 ◌>>=◌
abbrev pub ◌>>=◌ {ℓ κ} : {A : Type ℓ} {B : Type κ} → Built A → (A → Built B) → Built B
done a >>= f = f a
panicked >>= f = panicked
out_of_fuel >>= f = out_of_fuel

abbrev pub unwrap {ℓ} : {A : Type ℓ} → Option A → Built A
unwrap none = panicked
unwrap (some a) = done a

-- A `line_number`, an `i32`, in decimal
unfoldable pub line_text : ℕ → Text
line_text n = if ltb n (2 ^ 31) then decimal n else codes "-" ++ decimal (2 ^ 32 - n)

-- `:` and the line, if there is one
unfoldable pub line_suffix : Option ℕ → Text
unfolding line_text
line_suffix none = []
line_suffix (some y) = codes ":" ++ line_text y

-- The file, without its directories
unfoldable pub base_filename : Text → Text
base_filename x = if contains b'/' x then after_last b'/' x else x

unfoldable pub label : Text → Option Text → Option ℕ → Text
unfolding base_filename line_suffix
label symbol none line_number = symbol
label symbol (some x) line_number =
    symbol ++ (codes ":" ++ (base_filename x ++ line_suffix line_number))

-- `sn.iter().map(|x| (x.id, x)).collect()`, and the same of the node data
unfoldable pub node_map : List StackNode → Map StackNode → Map StackNode
node_map [] m = m
node_map (n ∷ ns) m = node_map ns (insert n.id n m)

unfoldable pub data_map : List StackNodeData → Map StackNodeData → Map StackNodeData
data_map [] m = m
data_map (d ∷ ds) m = data_map ds (insert d.id d m)

-- The loop that fills `sn_p_id_map`
unfoldable pub file_under : StackNode → Option ℕ → Map (List StackNode) → Map (List StackNode)
file_under v none acc = acc
file_under v (some p) acc = upsert p (λ e. e ++ v ∷ []) (v ∷ []) acc

unfoldable pub by_parent : Map StackNode → Map (List StackNode) → Map (List StackNode)
unfolding file_under
by_parent [] acc = acc
by_parent ((k, v) ∷ m) acc = by_parent m (file_under v v.parent_id acc)

-- `id_list.iter().map(f).collect()`
unfoldable pub build_all : (ℕ → Built Flame) → List StackNode → Built Forest
build_all f [] = done nil
build_all f (x ∷ xs) = do t ← f x.id; ts ← build_all f xs; done (cons t ts)

unfoldable pub build_children : (ℕ → Built Flame) → Option (List StackNode) → Built Children
unfolding build_all
build_children f none = done no_children
build_children f (some id_list) = do forest ← build_all f id_list; done (children forest)

module _ (sn_id_map : Map StackNode) (sd_map : Map StackNodeData)
    (sn_p_id_map : Map (List StackNode)) where
  unfoldable pub build_dag : ℕ → ℕ → Built Flame
  build_dag zero cur_id = out_of_fuel
  build_dag (suc fuel) cur_id = do
    cur_sn ← unwrap (get sn_id_map cur_id)
    cur_sd ← unwrap (get sd_map cur_sn.stack_node_data_id)
    below ← build_children (build_dag fuel) (get sn_p_id_map cur_id)
    done (
        flame (label cur_sd.symbol cur_sd.file cur_sd.line_number) cur_sn.sample_count cur_sd.file
          cur_sd.line_number below)

-- select * from stack_node where executable_id = $1
unfoldable pub nodes_of : ℕ → List StackNode → List StackNode
nodes_of id [] = []
nodes_of id (n ∷ ns) = let rest = nodes_of id ns in if n.executable_id == id then n ∷ rest else rest

-- stack_node_data inner join stack_node, for the nodes of the executable
unfoldable pub add_joined : Option StackNodeData → List StackNodeData → List StackNodeData
add_joined none ds = ds
add_joined (some d) ds = d ∷ ds

unfoldable pub datas_of : Map StackNodeData → List StackNode → List StackNodeData
unfolding add_joined
datas_of datas [] = []
datas_of datas (n ∷ ns) = add_joined (get datas n.stack_node_data_id) (datas_of datas ns)

-- sn.iter().filter(|x| x.parent_id.is_none())
unfoldable pub keep_root : StackNode → Option ℕ → List StackNode → List StackNode
keep_root n none rest = n ∷ rest
keep_root n (some p) rest = rest

unfoldable pub roots : List StackNode → List StackNode
unfolding keep_root
roots [] = []
roots (n ∷ ns) = keep_root n n.parent_id (roots ns)

-- children.iter().map(|x| x.value).sum()
abbrev pub flame_value : Flame → ℕ
flame_value (flame name value filename line_number below) = value

unfoldable pub sum_values : Forest → ℕ
sum_values nil = 0
sum_values (cons t ts) = add_i64 (flame_value t) (sum_values ts)

-- The answer to a request for an executable
unfoldable pub draw : ℕ → ℕ → Db → Built Flame
draw fuel id db =
    let sn = nodes_of id (values db.nodes) in
    let snd = datas_of db.datas sn in
    let sn_id_map = node_map sn [] in
    do
      pb ← unwrap (get db.executables id)
      forest ←
          build_all (build_dag sn_id_map (data_map snd []) (by_parent sn_id_map []) fuel) (roots sn)
      done (flame pb.basename (sum_values forest) none none (children forest))

abbrev pub leaf : Text → ℕ → Flame
leaf name value = flame name value none none no_children

-- The page that the server shows for the identifier 123
abbrev pub junk_test_data : Flame
junk_test_data =
    flame (codes "junk test data") 12 (some (codes "/var/asdas/ffff.cpp")) (some 123)
      (children (cons (leaf (codes "dqwd") 2) (cons (leaf (codes "dsqwd") 3) nil)))

unfoldable pub dag : ℕ → ℕ → Db → Built Flame
dag fuel id db = if id == 123 then done junk_test_data else draw fuel id db
