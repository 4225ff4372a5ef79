-- ===== src/Server/Requests/Ready.antt =====
-- The requests that the tool makes, and what their transactions find and leave.
use mathlib.Core.Path.{subst}
use sto.Prelude.{
  >>=-eq-some, Bool-cases, inl, inr, ==_iff, ℕ, ◌+◌, ◌^◌, ◌≤◌, ◌<◌, ◌≡◌, refl, sym, ap, ◌∙◌, false,
  Option, none, some, List, [], ◌∷◌, arith, Map, get, All, length, member, ids, DistinctIds, ◌==◌,
}
use sto.Defs.{StoData, StackNode, StackNodeData, Executable}
use sto.Defs.References.{IsClosedData}
use sto.Server.Db.{Db}
use native.Mathlib.Decide.{ℕ_discrete}
use sto.Server.Rows.{upsert_rows}
use sto.Server.Rows.Lookup.{merged, upsert_rows-get, upsert_rows-get_other}
use sto.Server.Ingest.{
  row_limit, node_id, executable_id, merge_executable, insert_executables, executable_sql, stamp,
}
use sto.Server.Ingest.Merges.{count, posted}
use sto.Server.Ingest.Statements.{FitsNodes, FitsExecutables, add_bigint-some}

-- What one batch may add to a counter
abbrev pub counter_limit : ℕ
counter_limit = 2 ^ 32

-- The counters of an executable are at most b.
pub record ExecutableBelow (b : ℕ) (e : Executable) : Type 0 where
  pub sample_count : e.sample_count ≤ b
  pub raw_data_size : e.raw_data_size ≤ b
  pub processed_data_size : e.processed_data_size ≤ b

-- A batch as the tool makes them: closed, with rows for each statement, one executable, identifiers
-- of node data by content, and counters that one batch can reach.
pub record IsBatch (f : StackNodeData → ℕ) (d : StoData) : Type 0 where
  pub closed : IsClosedData d
  pub some_node : 0 < length d.stack_nodes
  pub some_data : 0 < length d.stack_node_datas
  pub few_nodes : length d.stack_nodes ≤ row_limit
  pub few_datas : length d.stack_node_datas ≤ row_limit
  pub executable :
      (e : Executable) × (d.profiled_binaries ≡ e ∷ []) × ExecutableBelow counter_limit e
  pub addressed : All (λ (x : StackNodeData). x.id ≡ f x) d.stack_node_datas
  pub counts : All (λ (n : StackNode). n.sample_count ≤ counter_limit) d.stack_nodes

-- A batch brings at most the limit for a node, since it has one row for it.
posted_none : (k : ℕ) (ns : List StackNode) → member (ids node_id ns) k ≡ false → posted k ns ≡ 0
unfolding member
posted_none k [] h = refl
posted_none k (n ∷ ns) h = ground (arith, posted_none k ns)

pub posted-le :
    (k : ℕ) (ns : List StackNode)
    → DistinctIds (ids node_id ns)
    → All (λ (n : StackNode). n.sample_count ≤ counter_limit) ns
    → posted k ns ≤ counter_limit
posted-le k [] d c = omega arith
posted-le k (n ∷ ns) d c = elim (Bool-cases (n.id == k)) [
  | inl same ↦
      let unseen : member (ids node_id ns) k ≡ false =
        subst (λ (j : ℕ). member (ids node_id ns) j ≡ false) ((==_iff n.id k).0 same) d.0 in
      rw same (omega (arith, posted_none k ns unseen, c.0))
  | inr other ↦ rw other (omega (arith, posted-le k ns d.1 c.1))
]

-- Every count of a table is at most b.
abbrev pub NodesBelow : ℕ → Map StackNode → Type 0
NodesBelow b m = (k : ℕ) → count (get m k) ≤ b

abbrev pub ExecutablesBelow : ℕ → Map Executable → Type 0
ExecutablesBelow b m = (k : ℕ) (e : Executable) → get m k ≡ some e → ExecutableBelow b e

pub NodesBelow-FitsNodes :
    (b : ℕ) (m : Map StackNode) (ns : List StackNode)
    → b + counter_limit < 2 ^ 63
    → NodesBelow b m
    → All (λ (n : StackNode). n.sample_count ≤ counter_limit) ns
    → All (FitsNodes m) ns
NodesBelow-FitsNodes b m [] room below c = tt
NodesBelow-FitsNodes b m (n ∷ ns) room below c = (
  λ old e. omega (arith, below n.id, ap count e, c.0),
  NodesBelow-FitsNodes b m ns room below c.1,
)

pub ExecutablesBelow-FitsExecutables :
    (b : ℕ) (m : Map Executable) (e : Executable)
    → b + counter_limit < 2 ^ 63
    → ExecutablesBelow b m
    → ExecutableBelow counter_limit e
    → FitsExecutables m e
ExecutablesBelow-FitsExecutables b m e room below c old found =
    let o = below e.id old found in
    record {
      sample_count = omega (arith, o.sample_count, c.sample_count);
      raw_data_size = omega (arith, o.raw_data_size, c.raw_data_size);
      processed_data_size = omega (arith, o.processed_data_size, c.processed_data_size);
    }

-- What an executable's row makes of a table whose counters are at most b.
merge_executable-below :
    (b : ℕ) (old new w : Executable)
    → b + counter_limit < 2 ^ 63
    → merge_executable old new ≡ some w
    → ExecutableBelow b old
    → ExecutableBelow counter_limit new
    → ExecutableBelow (b + counter_limit) w
unfolding merge_executable
merge_executable-below b old new w room e o n =
    let samples : old.sample_count + new.sample_count < 2 ^ 63 =
      omega (arith, o.sample_count, n.sample_count) in
    let raw : old.raw_data_size + new.raw_data_size < 2 ^ 63 =
      omega (arith, o.raw_data_size, n.raw_data_size) in
    let processed : old.processed_data_size + new.processed_data_size < 2 ^ 63 =
      omega (arith, o.processed_data_size, n.processed_data_size) in
    let e' =
      rw
        (
          add_bigint-some old.sample_count new.sample_count samples,
          add_bigint-some old.raw_data_size new.raw_data_size raw,
          add_bigint-some old.processed_data_size new.processed_data_size processed,
        )
        at e in
    let result : record old {
      sample_count = old.sample_count + new.sample_count;
      updated_at = new.updated_at;
      raw_data_size = old.raw_data_size + new.raw_data_size;
      processed_data_size = old.processed_data_size + new.processed_data_size;
    }
        ≡ w =
      cc in
    subst (ExecutableBelow (b + counter_limit)) result (record {
      sample_count = omega (arith, o.sample_count, n.sample_count);
      raw_data_size = omega (arith, o.raw_data_size, n.raw_data_size);
      processed_data_size = omega (arith, o.processed_data_size, n.processed_data_size);
    })

pub ExecutableBelow-mono :
    (b c : ℕ) (e : Executable) → b ≤ c → ExecutableBelow b e → ExecutableBelow c e
ExecutableBelow-mono b c e le h = record {
  sample_count = omega (arith, h.sample_count);
  raw_data_size = omega (arith, h.raw_data_size);
  processed_data_size = omega (arith, h.processed_data_size);
}

merged-below :
    (b : ℕ) (o : Option Executable) (row x : Executable)
    → b + counter_limit < 2 ^ 63
    → ((old : Executable) → o ≡ some old → ExecutableBelow b old)
    → ExecutableBelow counter_limit row
    → merged merge_executable o row ≡ some x
    → ExecutableBelow (b + counter_limit) x
merged-below b none row x room below c e =
    let same : row ≡ x = cc in
    subst (ExecutableBelow (b + counter_limit)) same
      (ExecutableBelow-mono counter_limit (b + counter_limit) row (omega arith) c)
merged-below b (some old) row x room below c e =
    merge_executable-below b old row x room e (below old refl) c

-- The statement of a batch raises the bound by what one batch may add.
pub insert_executables-below :
    (clock : ℕ → ℕ) (created b : ℕ) (e : Executable) (db : Db) (es' : Map Executable)
    → insert_executables clock created (e ∷ []) db ≡ some (record db { executables = es' })
    → b + counter_limit < 2 ^ 63
    → ExecutablesBelow b db.executables
    → ExecutableBelow counter_limit e
    → ExecutablesBelow (b + counter_limit) es'
unfolding insert_executables executable_sql stamp
insert_executables-below clock created b e db es' made room below c k x found =
    let row = record e { updated_at = some (clock 0); created_at = some created } in
    let (es₁, upserted, result) =
      >>=-eq-some (upsert_rows executable_id merge_executable (row ∷ []) [] db.executables)
        (λ es'. some (record db { executables = es' })) made in
    let same : es₁ ≡ es' = cc in
    let upserted' =
      subst (λ t. upsert_rows executable_id merge_executable (row ∷ []) [] db.executables ≡ some t)
        same upserted in
    elim (ℕ_discrete e.id k) [
      | yes mine ↦
          merged-below b (get db.executables e.id) row x room (below e.id)
            (record {
              sample_count = c.sample_count;
              raw_data_size = c.raw_data_size;
              processed_data_size = c.processed_data_size;
            })
            (sym
                (upsert_rows-get executable_id merge_executable (row ∷ []) [] db.executables es'
                  upserted').0
              ∙ ap (get es') mine
              ∙ found)
      | no other ↦ ExecutableBelow-mono b (b + counter_limit) x (omega arith) (
          below k x (
            sym (
              upsert_rows-get_other executable_id merge_executable (row ∷ []) [] db.executables es'
                k upserted' (unfold member in ground arith))
            ∙ found))
    ]
