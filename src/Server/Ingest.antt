-- ===== src/Server/Ingest.antt =====
-- `data_ingest` of src/bin/server.rs: the three transactions of a POST to /data/samples. Each
-- commits or leaves its table as it was; `expect` turns its error into a panic, and then the
-- transactions behind it do not run. A request meets no other here; Requests.antt lets them
-- interleave.
pub mod References
pub mod WellFormed
pub mod Statements
pub mod Kept
pub mod Accepts
pub mod Merges
use sto.Prelude.{
  ◌>>=◌, ℕ, suc, ◌+◌, ◌*◌, ◌/◌, Bool, true, false, Option, none, some, List, [], ◌∷◌, if◌then◌else◌,
  ltb, length, take,
}
use sto.Defs.{Executable, StackNode, StackNodeData, StoData}
use sto.Server.Db.{Db, clashes, references_hold}
use sto.Server.Rows.{add_bigint, insert_or_ignore, upsert_rows}

abbrev pub bind_limit : ℕ
bind_limit = 65535

-- BIND_LIMIT / 4, the rows of a statement
abbrev pub row_limit : ℕ
row_limit = bind_limit / 4

abbrev pub data_id : StackNodeData → ℕ
data_id d = d.id

abbrev pub executable_id : Executable → ℕ
executable_id e = e.id

abbrev pub node_id : StackNode → ℕ
node_id n = n.id

-- An INSERT with no rows is no SQL, and one with more parameters than the protocol can count is
-- refused; `width` is the number of parameters of a row.
unfoldable pub executable_sql {ℓ} : {A : Type ℓ} → ℕ → List A → Bool
executable_sql width [] = false
executable_sql width (row ∷ rows) =
    if ltb bind_limit (width * length (row ∷ rows)) then false else true

unfoldable pub insert_datas : List StackNodeData → Db → Option Db
insert_datas datas db =
    let rows = take row_limit datas in
    if executable_sql 4 rows
    then some (record db { datas = insert_or_ignore data_id clashes rows db.datas })
    else none

-- SET sample_count = executable.sample_count + excluded.sample_count, ..
unfoldable pub merge_executable : Executable → Executable → Option Executable
merge_executable old new = do
  sample_count ← add_bigint old.sample_count new.sample_count
  raw_data_size ← add_bigint old.raw_data_size new.raw_data_size
  processed_data_size ← add_bigint old.processed_data_size new.processed_data_size
  some (record old {
    sample_count = sample_count;
    updated_at = new.updated_at;
    raw_data_size = raw_data_size;
    processed_data_size = processed_data_size;
  })

-- The row that is sent: `updated_at` is read from the server's clock for each row, and the column
-- `created_at` takes its default from the database's.
unfoldable pub stamp : (ℕ → ℕ) → ℕ → ℕ → List Executable → List Executable
stamp clock created i [] = []
stamp clock created i (e ∷ es) =
    record e { updated_at = some (clock i); created_at = some created }
    ∷ stamp clock created (suc i) es

unfoldable pub insert_executables : (ℕ → ℕ) → ℕ → List Executable → Db → Option Db
insert_executables clock created executables db =
    let rows = stamp clock created 0 (take row_limit executables) in
    if executable_sql 8 rows
    then (do
      executables' ← upsert_rows executable_id merge_executable rows [] db.executables
      some (record db { executables = executables' }))
    else none

-- SET sample_count = stack_node.sample_count + excluded.sample_count
unfoldable pub merge_node : StackNode → StackNode → Option StackNode
merge_node old new = do
  sample_count ← add_bigint old.sample_count new.sample_count
  some (record old { sample_count = sample_count })

-- The commit of a transaction: the deferred foreign keys are checked.
unfoldable pub checked : Db → Option Db
checked db = if references_hold db then some db else none

-- The sample count is part of the statement's text: four parameters a row.
unfoldable pub insert_nodes : List StackNode → Db → Option Db
insert_nodes nodes db =
    let rows = take row_limit nodes in
    if executable_sql 4 rows
    then (do
      nodes' ← upsert_rows node_id merge_node rows [] db.nodes
      checked (record db { nodes = nodes' }))
    else none

-- `.await.expect("error in data insert")`: the state, and whether the handler goes on.
unfoldable pub and_then : Db → Option Db → (Db → Db × Bool) → Db × Bool
and_then db none rest = (db, false)
and_then db (some db') rest = rest db'

unfoldable pub data_ingest : (ℕ → ℕ) → ℕ → StoData → Db → Db × Bool
unfolding insert_datas insert_executables insert_nodes and_then
data_ingest clock created d db = and_then db (insert_datas d.stack_node_datas db) λ db₁.
    and_then db₁ (insert_executables clock created d.profiled_binaries db₁)
      λ db₂. and_then db₂ (insert_nodes d.stack_nodes db₂) λ db₃. (db₃, true)
