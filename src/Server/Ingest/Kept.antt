-- ===== src/Server/Ingest/Kept.antt =====
-- What stands in the three tables for each row of a batch that data_ingest has stored.
use mathlib.Core.Option
use mathlib.Core.Path.{subst}
use sto.Prelude.{
  >>=-eq-some, ℕ, suc, ◌+◌, ◌≤◌, ◌≡◌, ◌≢◌, refl, ap, ◌∙◌, true, false, Option, none, some, List, [],
  ◌∷◌, arith, ◌<◌, ◌^◌, ◌==◌, if◌then◌else◌, Map, get, get-upsert, or_insert, values, ids, member,
  DistinctIds, take_of_length-le, length, All, All-upsert, has, Keyed, Bool-cases, inl, inr,
}
use sto.Defs.{Executable, StackNode, StackNodeData, StoData}
use sto.Server.Db.{Db, clashes, same_content}
use sto.Server.Rows.{insert_or_ignore, upsert_rows}
use sto.Server.Rows.Lookup.{merged, upsert_rows-get}
use sto.Server.Ingest.{
  data_id, executable_id, node_id, row_limit, executable_sql, merge_executable, merge_node, stamp,
  insert_datas, insert_executables, insert_nodes, checked,
}
use sto.Server.Ingest.Statements.{
  add_bigint-some, FitsExecutables, ExecutableFits, FitsNodes, has-clashes, AllAddressed,
  IsAddressed,
}

-- A row of node data stays as it is; a new one goes in.
abbrev pub kept_data : Option StackNodeData → StackNodeData → StackNodeData
kept_data none x = x
kept_data (some old) x = old

-- A node gains the samples; a new one goes in.
abbrev pub kept_node : Option StackNode → StackNode → StackNode
kept_node none n = n
kept_node (some old) n = record old { sample_count = old.sample_count + n.sample_count }

-- An executable gains the samples and the sizes and the time of the request; a new one goes in
-- with both its times set.
abbrev pub kept_executable : ℕ → ℕ → Option Executable → Executable → Executable
kept_executable now created none e = record e { updated_at = some now; created_at = some created }
kept_executable now created (some old) e = record old {
  sample_count = old.sample_count + e.sample_count;
  updated_at = some now;
  raw_data_size = old.raw_data_size + e.raw_data_size;
  processed_data_size = old.processed_data_size + e.processed_data_size;
}

abbrev pub DatasKept : List StackNodeData → Map StackNodeData → Map StackNodeData → Type 0
DatasKept xs m m' = All (λ (x : StackNodeData). get m' x.id ≡ some (kept_data (get m x.id) x)) xs

abbrev pub NodesKept : List StackNode → Map StackNode → Map StackNode → Type 0
NodesKept ns m m' = All (λ (n : StackNode). get m' n.id ≡ some (kept_node (get m n.id) n)) ns

-- The clock is read once for each row, from the i-th reading on.
abbrev pub ExecutablesKept :
    (ℕ → ℕ) → ℕ → ℕ → List Executable → Map Executable → Map Executable → Type 0
ExecutablesKept clock created i [] m m' = Unit
ExecutablesKept clock created i (e ∷ es) m m' =
    (get m' e.id ≡ some (kept_executable (clock i) created (get m e.id) e))
    × ExecutablesKept clock created (suc i) es m m'

-- All rows of the batch are in the tables, next to or on top of what was there.
pub record IsKept (clock : ℕ → ℕ) (created : ℕ) (d : StoData) (db db' : Db) : Type 0 where
  pub datas : DatasKept d.stack_node_datas db.datas db'.datas
  pub executables :
      ExecutablesKept clock created 0 d.profiled_binaries db.executables db'.executables
  pub nodes : NodesKept d.stack_nodes db.nodes db'.nodes

merged-kept_node :
    (n : StackNode) (found : Option StackNode)
    → ((old : StackNode) → found ≡ some old → old.sample_count + n.sample_count < 2 ^ 63)
    → merged merge_node found n ≡ some (kept_node found n)
unfolding merge_node
merged-kept_node n none fits = refl
merged-kept_node n (some old) fits =
    rw (add_bigint-some old.sample_count n.sample_count (fits old refl)) refl

nodes-kept :
    (ns : List StackNode) (m m' : Map StackNode)
    → All (λ row. get m' (node_id row) ≡ merged merge_node (get m (node_id row)) row) ns
    → All (FitsNodes m) ns
    → NodesKept ns m m'
nodes-kept [] m m' there fits = tt
nodes-kept (n ∷ ns) m m' there fits =
    (there.0 ∙ merged-kept_node n (get m n.id) fits.0, nodes-kept ns m m' there.1 fits.1)

pub insert_nodes-kept :
    (ns : List StackNode) (db db' : Db)
    → insert_nodes ns db ≡ some db'
    → length ns ≤ row_limit
    → All (FitsNodes db.nodes) ns
    → NodesKept ns db.nodes db'.nodes
unfolding insert_nodes
insert_nodes-kept ns db db' e few fits =
    let e' = rw (take_of_length-le row_limit ns few) at e in
    let sql : executable_sql 4 ns ≡ true = ground arith in
    let (nodes', upserted, committed) =
      >>=-eq-some (upsert_rows node_id merge_node ns [] db.nodes)
        (λ nodes'. checked (record db { nodes = nodes' })) (rw sql at e') in
    let result : record db { nodes = nodes' } ≡ db' = unfold checked in ground arith in
    subst (λ (t : Db). NodesKept ns db.nodes t.nodes) result
      (nodes-kept ns db.nodes nodes'
        (upsert_rows-get node_id merge_node ns [] db.nodes nodes' upserted) fits)

merged-kept_executable :
    (now created : ℕ) (e : Executable) (found : Option Executable)
    → ((old : Executable) → found ≡ some old → ExecutableFits old e)
    → merged merge_executable found (record e { updated_at = some now; created_at = some created })
      ≡ some (kept_executable now created found e)
unfolding merge_executable
merged-kept_executable now created e none fits = refl
merged-kept_executable now created e (some old) fits =
    let h = fits old refl in
    rw
      (
        add_bigint-some old.sample_count e.sample_count h.sample_count,
        add_bigint-some old.raw_data_size e.raw_data_size h.raw_data_size,
        add_bigint-some old.processed_data_size e.processed_data_size h.processed_data_size,
      )
      refl

executables-kept :
    (clock : ℕ → ℕ) (created i : ℕ) (es : List Executable) (m m' : Map Executable)
    → All
        (λ row.
          get m' (executable_id row) ≡ merged merge_executable (get m (executable_id row)) row)
        (stamp clock created i es)
    → All (FitsExecutables m) es
    → ExecutablesKept clock created i es m m'
unfolding stamp
executables-kept clock created i [] m m' there fits = tt
executables-kept clock created i (e ∷ es) m m' there fits = (
  there.0 ∙ merged-kept_executable (clock i) created e (get m e.id) fits.0,
  executables-kept clock created (suc i) es m m' there.1 fits.1,
)

pub insert_executables-kept :
    (clock : ℕ → ℕ) (created : ℕ) (es : List Executable) (db db' : Db)
    → insert_executables clock created es db ≡ some db'
    → length es ≤ row_limit
    → All (FitsExecutables db.executables) es
    → ExecutablesKept clock created 0 es db.executables db'.executables
unfolding insert_executables
insert_executables-kept clock created es db db' e few fits =
    let rows = stamp clock created 0 es in
    let e' = rw (take_of_length-le row_limit es few) at e in
    let sql : executable_sql 8 rows ≡ true = ground arith in
    let (es', upserted, result) =
      >>=-eq-some (upsert_rows executable_id merge_executable rows [] db.executables)
        (λ es'. some (record db { executables = es' })) (rw sql at e') in
    let result' : record db { executables = es' } ≡ db' = cc in
    subst (λ (t : Db). ExecutablesKept clock created 0 es db.executables t.executables) result'
      (executables-kept clock created 0 es db.executables es'
        (upsert_rows-get executable_id merge_executable rows [] db.executables es' upserted) fits)

get-has {ℓ} : {V : Type ℓ} (m : Map V) (k : ℕ) → has m k ≡ true → (v : V) × (get m k ≡ some v)
unfolding get has
get-has [] k h = absurd cc
get-has ((j, w) ∷ m) k h = elim (Bool-cases (j == k)) [
  | inl same ↦ (w, rw same refl)
  | inr other ↦ let (v, e) = get-has m k (ground arith) in (v, rw other e)
]

inserted :
    (k : ℕ) (row : StackNodeData) (found : Option StackNodeData)
    → (if k == k then some (Option.get_or (Option.map (λ w. w) found) row) else found)
      ≡ some (kept_data found row)
inserted k row none = ground arith
inserted k row (some old) = ground arith

-- What holds of a table holds of one with the same rows under the keys in question.
datas-elsewhere :
    (k : ℕ) (rows : List StackNodeData) (m m₁ m' : Map StackNodeData)
    → ((j : ℕ) → j ≢ k → get m₁ j ≡ get m j)
    → member (ids data_id rows) k ≡ false
    → DatasKept rows m₁ m'
    → DatasKept rows m m'
unfolding member
datas-elsewhere k [] m m₁ m' same new kept = tt
datas-elsewhere k (row ∷ rows) m m₁ m' same new kept = (
  kept.0 ∙ ap (λ o. some (kept_data o row)) (same row.id (ground arith)),
  datas-elsewhere k rows m m₁ m' same (ground arith) kept.1,
)

module _ (f : StackNodeData → ℕ)
    (content : (a b : StackNodeData) → same_content a b ≡ true → f a ≡ f b) where
  -- One row: its key holds it, or what was there, and every other key is as it was.
  ignored :
      (row : StackNodeData) (m : Map StackNodeData)
      → IsAddressed f content row
      → AllAddressed f content m
      → Keyed data_id m
      → let m' = if clashes row (values m) then m else or_insert row.id row m in
        (get m' row.id ≡ some (kept_data (get m row.id) row))
        × ((k : ℕ) → k ≢ row.id → get m' k ≡ get m k)
        × AllAddressed f content m'
        × Keyed data_id m'
  ignored row m r a k = elim (Bool-cases (clashes row (values m))) [
    | inl like ↦
        let (old, found) = get-has m row.id (has-clashes f content row m r a k like) in
        rw (like, found) (refl, (λ j ne. refl), a, k)
    | inr new ↦ rw new (
      get-upsert row.id row.id (λ w. w) row m ∙ inserted row.id row (get m row.id),
      (λ j ne. ground (arith, get-upsert row.id j (λ w. w) row m)),
      All-upsert (λ (e : ℕ × StackNodeData). e.1.id ≡ f e.1) row.id (λ w. w) row m (λ w p. p) r a,
      All-upsert (λ (e : ℕ × StackNodeData). e.1.id ≡ e.0) row.id (λ w. w) row m (λ w p. p) refl k,
    )
  ]

  ignored-all :
      (rows : List StackNodeData) (m : Map StackNodeData)
      → All (IsAddressed f content) rows
      → AllAddressed f content m
      → Keyed data_id m
      → DistinctIds (ids data_id rows)
      → ((k : ℕ)
          → member (ids data_id rows) k ≡ false
          → get (insert_or_ignore data_id clashes rows m) k ≡ get m k)
        × DatasKept rows m (insert_or_ignore data_id clashes rows m)
  unfolding insert_or_ignore member
  ignored-all [] m r a k d = ((λ j new. refl), tt)
  ignored-all (row ∷ rows) m r a k d =
      let m₁ = if clashes row (values m) then m else or_insert row.id row m in
      let (here, there, a₁, k₁) = ignored row m r.0 a k in
      let (others, all) = ignored-all rows m₁ r.1 a₁ k₁ d.1 in
      (
        (λ j new. others j (ground arith) ∙ there j (ground arith)),
        (
          others row.id d.0 ∙ here,
          datas-elsewhere row.id rows m m₁ (insert_or_ignore data_id clashes rows m₁) there d.0 all,
        ),
      )

  pub insert_datas-kept :
      (rows : List StackNodeData) (db db' : Db)
      → insert_datas rows db ≡ some db'
      → length rows ≤ row_limit
      → All (IsAddressed f content) rows
      → AllAddressed f content db.datas
      → Keyed data_id db.datas
      → DistinctIds (ids data_id rows)
      → DatasKept rows db.datas db'.datas
  unfolding insert_datas
  insert_datas-kept rows db db' e few r a k d =
      let e' = rw (take_of_length-le row_limit rows few) at e in
      let result : insert_or_ignore data_id clashes rows db.datas ≡ db'.datas = ground arith in
      subst (DatasKept rows db.datas) result (ignored-all rows db.datas r a k d).1
