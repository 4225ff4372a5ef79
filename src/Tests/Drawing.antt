-- ===== src/Tests/Drawing.antt =====
-- The flame graph of a small database.
use sto.Prelude.{
  List, ℕ, ◌+◌, ◌≡◌, refl, none, some, [], ◌∷◌, ◌++◌, arith, has, ◌==◌, if◌then◌else◌, false, ◌⊎◌,
  length, ◌*◌, values, sum_of, ◌%◌, ◌^◌,
}
use sto.Defs.{Text, StackNode}
use sto.Server.Dag.Value.{draw-value}
use sto.Server.Dag.{
  flame_value, roots, nodes_of, Flame, Built, done, flame, children, no_children, cons, nil, label,
  line_suffix, dag, draw,
}
use sto.Text.{decimal, contains, codes}
use sto.Server.Db.{Db}
use sto.Server.Ingest.WellFormed.{IsWellFormed}
use sto.Server.Dag.Name.{label_lem}
use sto.Server.Dag.Total.{draw-done}
use sto.Server.Dag.Conserved.{weigh_below, draw-weigh_below}
use sto.Server.Dag.Weight.{node_weight}
use sto.Tests.Storing.{demo, main_data, log_data, main_node, log_node}

abbrev pub graph : Db
graph = record {
  datas = (4, main_data) ∷ (3, log_data) ∷ [];
  executables = (9, demo) ∷ [];
  nodes = (20, main_node) ∷ (21, log_node) ∷ [];
}

pub graph-IsWellFormed : IsWellFormed graph
unfolding has
graph-IsWellFormed = record {
  datas = ((refl, (refl, tt)), (refl, (refl, tt)));
  executables = ((refl, tt), (refl, tt));
  nodes = ((refl, (refl, tt)), (refl, (refl, tt)));
  references = ((tt, refl, refl), ((refl, refl, refl), tt));
  created = ((100, refl), tt);
}

-- log_node is the leaf.
unfoldable pub rank : ℕ → ℕ
rank n = if n == 20 then 1 else 0

draw-done_example : (t : Flame) × (draw 2 9 graph ≡ done t)
unfolding rank has
draw-done_example =
    draw-done rank 2 9 graph graph-IsWellFormed ((λ p e. cc), ((λ p e. ground arith), tt))
      (omega arith, (omega arith, tt)) refl

abbrev log_flame : Flame
log_flame = flame (codes "log:a.c:3") 1 (some (codes "a.c")) (some 3) no_children

dag_run :
    dag 2 9 graph
    ≡ done (
        flame
          (codes "demo")
          3
          none
          none
          (children (cons (flame (codes "main") 3 none none (children (cons log_flame nil))) nil)))
unfolding dag draw sto.Prelude.get sto.Server.Dag.build_all sto.Server.Dag.roots
    sto.Server.Dag.nodes_of sto.Prelude.values sto.Server.Dag.build_dag sto.Server.Dag.node_map
    sto.Prelude.upsert sto.Server.Dag.data_map sto.Server.Dag.datas_of sto.Server.Dag.build_children
    sto.Server.Dag.by_parent sto.Server.Dag.sum_values label sto.Words.add_i64 contains
    sto.Text.decimal
dag_run = refl

label_lem_example :
    (base : List ℕ) × (label (codes "log") (some (codes "src/a.c")) (some 3)
      ≡ codes "log" ++ (codes ":" ++ (base ++ line_suffix (some 3))))
    × (contains b'/' base ≡ false)
    × ((codes "src/a.c" ≡ base) ⊎ ((dir : List ℕ) × (codes "src/a.c" ≡ dir ++ b'/' ∷ base)))
label_lem_example = label_lem (codes "log") (codes "src/a.c") (some 3)

-- The flame graph of the executable
abbrev graph_flame : Flame
graph_flame =
    flame (codes "demo") 3 none none
      (children (cons (flame (codes "main") 3 none none (children (cons log_flame nil))) nil))

draw-value_example :
    flame_value graph_flame
    ≡ sum_of (λ (n : StackNode). n.sample_count) (roots (nodes_of 9 (values graph.nodes))) % 2 ^ 64
unfolding draw sto.Prelude.get sto.Server.Dag.build_all sto.Server.Dag.roots sto.Server.Dag.nodes_of
    sto.Prelude.values sto.Server.Dag.build_dag sto.Server.Dag.node_map sto.Prelude.upsert
    sto.Server.Dag.data_map sto.Server.Dag.datas_of sto.Server.Dag.build_children
    sto.Server.Dag.by_parent sto.Server.Dag.sum_values label sto.Words.add_i64 contains
    sto.Text.decimal
draw-value_example = draw-value 2 9 graph graph_flame graph-IsWellFormed refl

-- What counts the samples and the frames, and reads the label's length.
abbrev measured : Text → ℕ → ℕ
measured name value = length name + 1000 * value

draw-weigh_below_example :
    (t : Flame) × (draw 2 9 graph ≡ done t)
    × (weigh_below measured t
        ≡ sum_of (node_weight measured graph.datas) (nodes_of 9 (values graph.nodes)))
unfolding rank has sto.Prelude.get
draw-weigh_below_example =
    draw-weigh_below measured rank 2 9 graph graph-IsWellFormed
      ((λ p e. cc), ((λ p e. ground arith), tt)) (omega arith, (omega arith, tt))
      ((λ p m e h. absurd cc), ((λ p m e h. ground arith), tt)) refl
