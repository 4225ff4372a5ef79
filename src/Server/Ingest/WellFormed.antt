-- ===== src/Server/Ingest/WellFormed.antt =====
-- The invariant of the database, and that no request breaks it.
use mathlib.Core.Path.{subst}
use sto.Prelude.{
  >>=-eq-some, ℕ, suc, ◌≡◌, refl, ◌∙◌, Bool, true, Option, none, some, List, [], ◌∷◌, arith, All,
  All-anything, All-map, has, take,
}
use sto.Defs.{Executable, StackNode, StackNodeData, StoData}
use sto.Server.Db.{Db, Refers, clashes, references_hold, empty}
use sto.Server.Rows.{insert_or_ignore, upsert_rows}
use sto.Server.Rows.Keeps.{
  IsTable, IsTable-kept, has-kept, All-kept, upsert_rows-keeps, insert_or_ignore-keeps,
}
use sto.Server.Ingest.{
  data_id, executable_id, node_id, row_limit, executable_sql, insert_datas, merge_executable, stamp,
  insert_executables, merge_node, checked, insert_nodes, and_then, data_ingest,
}
use sto.Server.Ingest.References.{Refers-mono, all_refer→All}

-- `created_at` is set, which the index page relies on.
abbrev pub IsCreated : ℕ × Executable → Type 0
IsCreated e = (c : ℕ) × (e.1.created_at ≡ some c)

pub record IsWellFormed (db : Db) : Type 0 where
  pub datas : IsTable data_id db.datas
  pub executables : IsTable executable_id db.executables
  pub nodes : IsTable node_id db.nodes
  pub references : All (λ (e : ℕ × StackNode). Refers db e.1) db.nodes
  pub created : All IsCreated db.executables

pub empty-IsWellFormed : IsWellFormed empty
empty-IsWellFormed = record {
  datas = (tt, tt);
  executables = (tt, tt);
  nodes = (tt, tt);
  references = tt;
  created = tt;
}

-- The SET clauses leave the keys alone.
id-merge_executable :
    (old new w : Executable) → merge_executable old new ≡ some w → old.id ≡ new.id → w.id ≡ new.id
unfolding merge_executable
id-merge_executable old new w e h = ground arith

created-merge_executable :
    (old new w : Executable) → merge_executable old new ≡ some w → w.created_at ≡ old.created_at
unfolding merge_executable
created-merge_executable old new w e = ground arith

id-merge_node :
    (old new w : StackNode) → merge_node old new ≡ some w → old.id ≡ new.id → w.id ≡ new.id
unfolding merge_node
id-merge_node old new w e h = ground arith

stamp-created :
    (clock : ℕ → ℕ) (created i : ℕ) (es : List Executable)
    → All (λ (e : Executable). e.created_at ≡ some created) (stamp clock created i es)
unfolding stamp
stamp-created clock created i [] = tt
stamp-created clock created i (e ∷ es) = (refl, stamp-created clock created (suc i) es)

-- A statement with no SET clause replaces no row.
abbrev no_merge : StackNodeData → StackNodeData → Option StackNodeData
no_merge old new = none

pub insert_datas-IsWellFormed :
    (rows : List StackNodeData) (db db' : Db)
    → insert_datas rows db ≡ some db'
    → IsWellFormed db
    → IsWellFormed db'
unfolding insert_datas
insert_datas-IsWellFormed rows db db' e h =
    let taken = take row_limit rows in
    let datas' = insert_or_ignore data_id clashes taken db.datas in
    let result : record db { datas = datas' } ≡ db' = ground arith in
    let more : (k : ℕ) → has db.datas k ≡ true → has datas' k ≡ true = λ k.
      insert_or_ignore-keeps data_id no_merge _ _ (has-kept data_id no_merge k) clashes taken
        db.datas (All-anything taken) in
    subst IsWellFormed result (record {
      datas =
          insert_or_ignore-keeps data_id no_merge (IsTable data_id) _
            (IsTable-kept data_id no_merge (λ old row w p q. cc)) clashes taken db.datas
            (All-anything taken) h.datas;
      executables = h.executables;
      nodes = h.nodes;
      references =
          All-map (λ (e : ℕ × StackNode). Refers db e.1) _ db.nodes
            (λ n. Refers-mono db (record db { datas = datas' }) n.1 (λ k p. p) more (λ k p. p))
            h.references;
      created = h.created;
    })

pub insert_executables-IsWellFormed :
    (clock : ℕ → ℕ) (created : ℕ) (es : List Executable) (db db' : Db)
    → insert_executables clock created es db ≡ some db'
    → IsWellFormed db
    → IsWellFormed db'
unfolding insert_executables
insert_executables-IsWellFormed clock created es db db' e h =
    let rows = stamp clock created 0 (take row_limit es) in
    let sql : executable_sql 8 rows ≡ true = ground arith in
    let (es', upserted, result) =
      >>=-eq-some (upsert_rows executable_id merge_executable rows [] db.executables)
        (λ es'. some (record db { executables = es' })) (rw sql at e) in
    let result' : record db { executables = es' } ≡ db' = cc in
    let more : (k : ℕ) → has db.executables k ≡ true → has es' k ≡ true = λ k.
      upsert_rows-keeps executable_id merge_executable _ _
        (has-kept executable_id merge_executable k) rows [] db.executables es' (All-anything rows)
        upserted in
    subst IsWellFormed result' (record {
      datas = h.datas;
      executables =
          upsert_rows-keeps executable_id merge_executable (IsTable executable_id) _
            (IsTable-kept executable_id merge_executable id-merge_executable) rows [] db.executables
            es' (All-anything rows) upserted h.executables;
      nodes = h.nodes;
      references =
          All-map (λ (e : ℕ × StackNode). Refers db e.1) _ db.nodes
            (λ n. Refers-mono db (record db { executables = es' }) n.1 (λ k p. p) (λ k p. p) more)
            h.references;
      created =
          upsert_rows-keeps executable_id merge_executable (All IsCreated) _
            (All-kept executable_id merge_executable IsCreated
              (λ (e : Executable). e.created_at ≡ some created) (λ row n. (created, n))
              (λ old row w merged n p. (p.0, created-merge_executable old row w merged ∙ p.1)))
            rows [] db.executables es' (stamp-created clock created 0 (take row_limit es)) upserted
            h.created;
    })

checked-some : (db db' : Db) → checked db ≡ some db' → (references_hold db ≡ true) × (db ≡ db')
unfolding checked
checked-some db db' e = (ground arith, ground arith)

pub insert_nodes-IsWellFormed :
    (rows : List StackNode) (db db' : Db)
    → insert_nodes rows db ≡ some db'
    → IsWellFormed db
    → IsWellFormed db'
unfolding insert_nodes
insert_nodes-IsWellFormed rows db db' e h =
    let taken = take row_limit rows in
    let sql : executable_sql 4 taken ≡ true = ground arith in
    let (nodes', upserted, committed) =
      >>=-eq-some (upsert_rows node_id merge_node taken [] db.nodes)
        (λ nodes'. checked (record db { nodes = nodes' })) (rw sql at e) in
    let (hold, result) = checked-some (record db { nodes = nodes' }) db' committed in
    subst IsWellFormed result (record {
      datas = h.datas;
      executables = h.executables;
      nodes =
          upsert_rows-keeps node_id merge_node (IsTable node_id) _
            (IsTable-kept node_id merge_node id-merge_node) taken [] db.nodes nodes'
            (All-anything taken) upserted h.nodes;
      references = all_refer→All (record db { nodes = nodes' }) nodes' hold;
      created = h.created;
    })

and_then-IsWellFormed :
    (db : Db) (result : Option Db) (rest : Db → Db × Bool)
    → IsWellFormed db
    → ((db' : Db) → result ≡ some db' → IsWellFormed (rest db').0)
    → IsWellFormed (and_then db result rest).0
unfolding and_then
and_then-IsWellFormed db none rest h f = h
and_then-IsWellFormed db (some db') rest h f = f db' refl

-- A request keeps the database well-formed, whatever it posts and wherever its handler stops: keys
-- are unique, every foreign key of a node is there, and every executable has its creation date.
pub data_ingest-IsWellFormed :
    (clock : ℕ → ℕ) (created : ℕ) (d : StoData) (db : Db)
    → IsWellFormed db
    → IsWellFormed (data_ingest clock created d db).0
unfolding data_ingest
data_ingest-IsWellFormed clock created d db h =
    and_then-IsWellFormed db (insert_datas d.stack_node_datas db) _ h λ db₁ e₁.
      let h₁ = insert_datas-IsWellFormed d.stack_node_datas db db₁ e₁ h in
      and_then-IsWellFormed db₁ (insert_executables clock created d.profiled_binaries db₁) _ h₁
        λ db₂ e₂.
          let h₂ =
            insert_executables-IsWellFormed clock created d.profiled_binaries db₁ db₂ e₂ h₁ in
          and_then-IsWellFormed db₂ (insert_nodes d.stack_nodes db₂) _ h₂
            λ db₃ e₃. insert_nodes-IsWellFormed d.stack_nodes db₂ db₃ e₃ h₂
