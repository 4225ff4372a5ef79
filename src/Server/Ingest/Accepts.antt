-- ===== src/Server/Ingest/Accepts.antt =====
-- A closed batch is accepted: none of the three transactions fails, and all rows are stored.
use mathlib.Core.Path.{subst}
use sto.Prelude.{
  ℕ, ◌*◌, ◌<◌, ◌≤◌, ◌≡◌, refl, sym, ap, ◌∙◌, Bool, true, false, some, List, [], ◌∷◌, arith, Map,
  ids, DistinctIds, member, take_of_length-le, length, All, All-map, All-anything, has,
}
use sto.Defs.{StackNode, StackNodeData, Executable, StoData}
use sto.Defs.References.{IsClosedData, ParentIn, ParentIn-mono, RefersTo}
use sto.Server.Db.{Db, Refers, same_content}
use sto.Server.Rows.Keeps.{has-kept, All-kept, upsert_rows-keeps}
use sto.Server.Rows.Lookup.{upsert_rows-some, upsert_rows-get}
use sto.Server.Ingest.{
  data_id, executable_id, node_id, row_limit, merge_executable, merge_node, stamp,
  insert_executables, insert_nodes, checked, and_then, data_ingest, executable_sql,
}
use sto.Server.Ingest.Kept.{IsKept, insert_datas-kept, insert_executables-kept, insert_nodes-kept}
use sto.Server.Ingest.References.{All→all_refer, Refers-mono}
use sto.Server.Ingest.WellFormed.{IsWellFormed}
use sto.Server.Ingest.Statements.{
  executable_sql-true, insert_datas-some, upsert_rows-has, length-stamp, id-stamp,
  stamped-Mergeable, FitsExecutables, FitsNodes, nodes-Mergeable,
}

-- Rows whose keys are all there make every posted key known.
pub All-member {ℓ} :
    {V : Type ℓ} (id : V → ℕ) (known : ℕ → Bool) (rows : List V) (k : ℕ)
    → All (λ row. known (id row) ≡ true) rows
    → member (ids id rows) k ≡ true
    → known k ≡ true
unfolding member
All-member id known [] k h e = cc
All-member id known (row ∷ rows) k h e = ground (arith, All-member id known rows k h.1)

unseen-nil {ℓ} :
    {V : Type ℓ} (id : V → ℕ) (rows : List V) → All (λ row. member [] (id row) ≡ false) rows
unfolding member
unseen-nil id [] = tt
unseen-nil id (row ∷ rows) = (refl, unseen-nil id rows)

pub insert_executables-some :
    (clock : ℕ → ℕ) (created : ℕ) (es : List Executable) (db : Db)
    → 0 < length es
    → 8 * length es ≤ 65535
    → DistinctIds (ids executable_id es)
    → All (FitsExecutables db.executables) es
    → (es' : Map Executable) × (insert_executables clock created es db
        ≡ some (record db { executables = es' }))
      × ((k : ℕ) → member (ids executable_id es) k ≡ true → has es' k ≡ true)
      × ((k : ℕ) → has db.executables k ≡ true → has es' k ≡ true)
unfolding insert_executables
insert_executables-some clock created es db some_row few distinct fits =
    let rows = stamp clock created 0 es in
    let same_ids : ids executable_id rows ≡ ids executable_id es = id-stamp clock created 0 es in
    let mergeable = stamped-Mergeable clock created 0 es db.executables fits in
    let (es', upserted) =
      upsert_rows-some executable_id merge_executable rows [] db.executables (rw same_ids distinct)
        (unseen-nil executable_id rows) mergeable in
    let there =
      upsert_rows-has executable_id merge_executable rows db.executables es'
        (upsert_rows-get executable_id merge_executable rows [] db.executables es' upserted)
        mergeable in
    let sql : executable_sql 8 rows ≡ true =
      executable_sql-true 8 rows (rw (length-stamp clock created 0 es) some_row)
        (rw (length-stamp clock created 0 es) few) in
    (
      es',
      rw (take_of_length-le row_limit es (omega arith), sql, upserted),
      λ k posted.
          All-member executable_id (has es') rows k there
            (ap (λ (l : List ℕ). member l k) same_ids ∙ posted),
      λ k.
          upsert_rows-keeps executable_id merge_executable (λ t. has t k ≡ true) _
            (has-kept executable_id merge_executable k) rows [] db.executables es'
            (All-anything rows) upserted,
    )

refers-merge_node :
    (db : Db) (old new w : StackNode) → merge_node old new ≡ some w → Refers db old → Refers db w
unfolding merge_node
refers-merge_node db old new w e h =
    let parent : old.parent_id ≡ w.parent_id = ground arith in
    let data_same : old.stack_node_data_id ≡ w.stack_node_data_id = ground arith in
    let exe_same : old.executable_id ≡ w.executable_id = ground arith in
    (
      subst (ParentIn (has db.nodes)) parent h.0,
      ap (has db.datas) (sym data_same) ∙ h.1,
      ap (has db.executables) (sym exe_same) ∙ h.2,
    )

pub insert_nodes-some :
    (ns : List StackNode) (datas executables : ℕ → Bool) (db : Db)
    → 0 < length ns
    → length ns ≤ row_limit
    → DistinctIds (ids node_id ns)
    → All (FitsNodes db.nodes) ns
    → All (RefersTo (member (ids node_id ns)) datas executables) ns
    → ((k : ℕ) → datas k ≡ true → has db.datas k ≡ true)
    → ((k : ℕ) → executables k ≡ true → has db.executables k ≡ true)
    → All (λ (e : ℕ × StackNode). Refers db e.1) db.nodes
    → (nodes' : Map StackNode) × (insert_nodes ns db ≡ some (record db { nodes = nodes' }))
unfolding insert_nodes
insert_nodes-some ns datas executables db some_row few distinct fits closed kd ke old =
    let mergeable = nodes-Mergeable db.nodes ns fits in
    let (nodes', upserted) =
      upsert_rows-some node_id merge_node ns [] db.nodes distinct (unseen-nil node_id ns)
        mergeable in
    let db' : Db = record db { nodes = nodes' } in
    let there =
      upsert_rows-has node_id merge_node ns db.nodes nodes'
        (upsert_rows-get node_id merge_node ns [] db.nodes nodes' upserted) mergeable in
    let more : (k : ℕ) → has db.nodes k ≡ true → has nodes' k ≡ true = λ k.
      upsert_rows-keeps node_id merge_node (λ t. has t k ≡ true) _ (has-kept node_id merge_node k)
        ns [] db.nodes nodes' (All-anything ns) upserted in
    let new : All (Refers db') ns =
      All-map (RefersTo (member (ids node_id ns)) datas executables) (Refers db') ns
        (λ n h. (
          ParentIn-mono (member (ids node_id ns)) (has nodes') n.parent_id
              (λ k posted. All-member node_id (has nodes') ns k there posted) h.0,
          kd n.stack_node_data_id h.1,
          ke n.executable_id h.2,
        ))
        closed in
    let all : All (λ (e : ℕ × StackNode). Refers db' e.1) nodes' =
      upsert_rows-keeps node_id merge_node _ (Refers db')
        (All-kept node_id merge_node (λ (e : ℕ × StackNode). Refers db' e.1) (Refers db')
          (λ row n. n) (λ o row w e n p. refers-merge_node db' o row w e p))
        ns [] db.nodes nodes' new upserted
        (All-map (λ (e : ℕ × StackNode). Refers db e.1) (λ (e : ℕ × StackNode). Refers db' e.1)
          db.nodes (λ e. Refers-mono db db' e.1 more (λ k p. p) (λ k p. p)) old) in
    (
      nodes',
      rw
          (
            take_of_length-le row_limit ns few,
            executable_sql-true 4 ns some_row (omega arith),
            upserted,
          )
          (unfold checked in rw (All→all_refer db' nodes' all)),
    )

-- A batch that fits the statements of the handler and the counters of the database.
pub record IsAcceptable (f : StackNodeData → ℕ) (d : StoData) (db : Db) : Type 0 where
  pub some_node : 0 < length d.stack_nodes
  pub some_data : 0 < length d.stack_node_datas
  pub some_executable : 0 < length d.profiled_binaries
  pub few_nodes : length d.stack_nodes ≤ row_limit
  pub few_datas : length d.stack_node_datas ≤ row_limit
  pub few_executables : 8 * length d.profiled_binaries ≤ 65535
  pub addressed : All (λ (x : StackNodeData). x.id ≡ f x) d.stack_node_datas
  pub stored_addressed : All (λ (e : ℕ × StackNodeData). e.1.id ≡ f e.1) db.datas
  pub nodes_fit : All (FitsNodes db.nodes) d.stack_nodes
  pub executables_fit : All (FitsExecutables db.executables) d.profiled_binaries

module _ (f : StackNodeData → ℕ)
    (content : (a b : StackNodeData) → same_content a b ≡ true → f a ≡ f b) where
  -- On a well-formed database a batch is stored whole, in all three tables, if it refers only to
  -- itself, has rows for every statement and no more than those take, identifies node data by
  -- their content as the database does, and overflows no counter: the handler goes to its end, and
  -- afterwards the key of each row that was posted holds it, or, where the key was taken, for node
  -- data the row that was there, for a node that row with the samples added, and for an executable
  -- that row with the samples and sizes added and the time of the request.
  pub data_ingest-accepts :
      (clock : ℕ → ℕ) (created : ℕ) (d : StoData) (db : Db)
      → IsWellFormed db
      → IsClosedData d
      → IsAcceptable f d db
      → ((data_ingest clock created d db).1 ≡ true)
        × IsKept clock created d db (data_ingest clock created d db).0
  unfolding data_ingest
  data_ingest-accepts clock created d db wf closed a =
      let (datas', stored, known, more_datas) =
        insert_datas-some f content d.stack_node_datas db a.some_data a.few_datas a.addressed
          a.stored_addressed wf.datas.0 in
      let db₁ : Db = record db { datas = datas' } in
      let (es', inserted, posted, more_es) =
        insert_executables-some clock created d.profiled_binaries db₁ a.some_executable
          a.few_executables closed.distinct_executables a.executables_fit in
      let db₂ : Db = record db₁ { executables = es' } in
      let old : All (λ (e : ℕ × StackNode). Refers db₂ e.1) db.nodes =
        All-map (λ (e : ℕ × StackNode). Refers db e.1) (λ (e : ℕ × StackNode). Refers db₂ e.1)
          db.nodes (λ e. Refers-mono db db₂ e.1 (λ k p. p) more_datas more_es) wf.references in
      let (nodes', committed) =
        insert_nodes-some d.stack_nodes (member (ids data_id d.stack_node_datas))
          (member (ids executable_id d.profiled_binaries)) db₂ a.some_node a.few_nodes
          closed.distinct_nodes a.nodes_fit closed.nodes
          (λ k. All-member data_id (has datas') d.stack_node_datas k known) posted old in
      let datas =
        insert_datas-kept f content d.stack_node_datas db db₁ stored a.few_datas a.addressed
          a.stored_addressed wf.datas.0 closed.distinct_datas in
      let executables =
        insert_executables-kept clock created d.profiled_binaries db₁ db₂ inserted
          (omega (arith, a.few_executables)) a.executables_fit in
      let nodes =
        insert_nodes-kept d.stack_nodes db₂ (record db₂ { nodes = nodes' }) committed a.few_nodes
          a.nodes_fit in
      rw (stored, and_then, inserted, and_then, committed, and_then)
        (refl, record { datas = datas; executables = executables; nodes = nodes })
