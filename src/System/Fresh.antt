-- ===== src/System/Fresh.antt =====
-- The first batch in a database that was empty.
use mathlib.Core.Path.{subst}
use sto.Prelude.{
  >>=-eq-some, ℕ, ◌≤◌, ◌≡◌, refl, sym, ap, ◌∙◌, true, false, none, some, List, [], ◌∷◌, ◌++◌,
  append_assoc, append-nil, arith, Map, get, has, upsert, All, length, DistinctIds,
  take_of_length-le,
}
use sto.Defs.{StackNode, StackNodeData, StoData}
use sto.Server.Db.{Db, empty, same_content}
use sto.Server.Ingest.WellFormed.{IsWellFormed}
use sto.Server.Ingest.Merges.{nodes-insert_datas, nodes-insert_executables}
use sto.Server.Requests.Ready.{IsBatch}
use sto.Server.Requests.Stored.{
  DatasKnown, ExecutablesKnown, empty-IsStored, insert_datas-Commits, insert_executables-Commits,
  insert_nodes-Commits,
}
use sto.Server.Rows.{upsert_rows, merge_row}
use sto.Server.Rows.Lookup.{upsert_rows-cons}
use sto.Server.Ingest.{
  node_id, row_limit, merge_node, checked, executable_sql, insert_nodes, and_then, data_ingest,
}
use sto.Server.Dag.Filing.{entries, node_ids, upsert_new, new_rows, nothing_stored}

get_new {ℓ} : {V : Type ℓ} (m : Map V) (k : ℕ) → has m k ≡ false → get m k ≡ none
unfolding get has
get_new [] k h = refl
get_new ((j, v) ∷ m) k h = ground (arith, get_new m k)

-- A row whose key is not there is added at the end.
merge_row-new :
    (n : StackNode) (m m₁ : Map StackNode)
    → has m n.id ≡ false
    → merge_row node_id merge_node n m (get m n.id) ≡ some m₁
    → m₁ ≡ upsert n.id (λ w. w) n m
unfolding merge_row
merge_row-new n m m₁ fresh made = let made' = rw (get_new m n.id fresh) at made in cc

upsert_rows-new :
    (rows : List StackNode) (seen : List ℕ) (m m' : Map StackNode)
    → upsert_rows node_id merge_node rows seen m ≡ some m'
    → DistinctIds (node_ids rows)
    → All (λ (n : StackNode). has m n.id ≡ false) rows
    → m' ≡ m ++ entries rows
upsert_rows-new [] seen m m' made distinct fresh =
    let same : m ≡ m' = unfold upsert_rows in ground arith in sym same ∙ sym (append-nil m)
upsert_rows-new (n ∷ rows) seen m m' made distinct fresh =
    let (m₁, first, one, rest) = upsert_rows-cons node_id merge_node n rows seen m m' made in
    let added = merge_row-new n m m₁ fresh.0 one in
    upsert_rows-new rows (n.id ∷ seen) m₁ m' rest distinct.1 (
      subst (λ (t : Map StackNode). All (λ (x : StackNode). has t x.id ≡ false) rows) (sym added)
        (new_rows (λ w. w) n rows m distinct.0 fresh.1))
    ∙ ap (λ t. t ++ entries rows) (added ∙ upsert_new n.id (λ w. w) n m fresh.0)
    ∙ append_assoc m ((n.id, n) ∷ []) (entries rows)

nodes-insert_nodes :
    (ns : List StackNode) (db db' : Db)
    → insert_nodes ns db ≡ some db'
    → db.nodes ≡ []
    → DistinctIds (node_ids ns)
    → length ns ≤ row_limit
    → db'.nodes ≡ entries ns
unfolding insert_nodes checked
nodes-insert_nodes ns db db' made empty_table distinct few =
    let made' = rw (take_of_length-le row_limit ns few, empty_table) at made in
    let sql : executable_sql 4 ns ≡ true = ground arith in
    let (nodes', upserted, committed) =
      >>=-eq-some (upsert_rows node_id merge_node ns [] [])
        (λ nodes'. checked (record db { nodes = nodes' })) (rw sql at made') in
    let result : record db { nodes = nodes' } ≡ db' = ground arith in
    ap (λ (t : Db). t.nodes) (sym result)
    ∙ upsert_rows-new ns [] [] nodes' upserted distinct (nothing_stored ns)

module _ (f : StackNodeData → ℕ)
    (content : (a b : StackNodeData) → same_content a b ≡ true → f a ≡ f b) (clock : ℕ → ℕ)
    (created : ℕ) (d : StoData) (batch : IsBatch f d) where
  -- What a batch leaves in a database that was empty.
  pub ingested :
      (db : Db) × (data_ingest clock created d empty ≡ (db, true))
      × IsWellFormed db
      × (db.nodes ≡ entries d.stack_nodes)
      × DatasKnown d db
      × ExecutablesKnown d db
  unfolding data_ingest and_then
  ingested =
      let (db₁, made₁, h₁, more₁, datas₁) =
        insert_datas-Commits f content d empty batch (empty-IsStored f) in
      let (db₂, made₂, h₂, more₂, executables₂) =
        insert_executables-Commits f content d db₁ batch h₁ clock created (omega arith) in
      let datas₂ : DatasKnown d db₂ = λ k posted. more₂.datas k (datas₁ k posted) in
      let (db₃, made₃, h₃, more₃, rest) =
        insert_nodes-Commits f content d db₂ batch h₂ (omega arith) datas₂ executables₂ in
      let untouched : db₂.nodes ≡ [] =
        nodes-insert_executables clock created d.profiled_binaries db₁ db₂ made₂
        ∙ nodes-insert_datas d.stack_node_datas empty db₁ made₁ in
      (
        db₃,
        rw (made₁, made₂, made₃) refl,
        h₃.well_formed,
        nodes-insert_nodes d.stack_nodes db₂ db₃ made₃ untouched batch.closed.distinct_nodes
            batch.few_nodes,
        λ k posted. more₃.datas k (datas₂ k posted),
        λ k posted. more₃.executables k (executables₂ k posted),
      )
