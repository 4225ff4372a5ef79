-- ===== src/Tests/Subtrees.antt =====
-- The function subtree on a small database.
use sto.Prelude.{◌≡◌, refl, none, some, [], arith, get, values}
use sto.Text.{codes}
use sto.Server.Subtree.{
  Json, null, object, nil, cons, subtree, each, aggregate, children_of, is_parent, distinct, among,
}
use sto.Server.Subtree.Inner.{IsInner, subtree-IsInner}
use sto.Tests.Drawing.{graph, graph-IsWellFormed, rank}

-- main is shown, and log, which it calls, is a null.
subtree_run : subtree 2 graph 20 ≡ some (object 20 none none (codes "main") 3 (cons null nil))
unfolding subtree each aggregate children_of is_parent distinct among get values
subtree_run = refl

subtree-IsInner_example :
    (j : Json) × (subtree 2 graph 20 ≡ some j)
    × IsInner graph j
    × (children_of 20 (values graph.nodes) ≡ [] → j ≡ null)
unfolding rank
subtree-IsInner_example =
    subtree-IsInner rank 2 20 graph graph-IsWellFormed ((λ p e. cc), ((λ p e. ground arith), tt))
      (omega arith)
