-- ===== src/Server/Ingest/Statements.antt =====
-- When each of the three statements succeeds, and what is there then.
use mathlib.Core.Path.{subst}
use sto.Prelude.{
  ℕ, suc, ◌+◌, ◌*◌, ◌^◌, ◌<◌, ◌≤◌, ◌≡◌, refl, sym, ap, ◌∙◌, true, false, Option, none, some, List,
  [], ◌∷◌, arith, Map, get, values, or_insert, ids, take_of_length-le, All-anything, length, All,
  has, has-upsert_self, Keyed, All-upsert, Bool-cases, inl, inr,
}
use sto.Defs.{StackNode, StackNodeData, Executable}
use sto.Server.Db.{Db, clashes, same_content}
use sto.Server.Rows.{add_bigint, insert_or_ignore}
use sto.Server.Rows.Keeps.{has-kept, insert_or_ignore-keeps}
use sto.Server.Rows.Lookup.{merged, Mergeable}
use sto.Server.Ingest.{
  data_id, executable_id, node_id, row_limit, bind_limit, executable_sql, merge_executable,
  merge_node, stamp, insert_datas,
}

pub executable_sql-true {ℓ} :
    {A : Type ℓ} (width : ℕ) (rows : List A)
    → 0 < length rows
    → width * length rows ≤ bind_limit
    → executable_sql width rows ≡ true
unfolding executable_sql
executable_sql-true width [] some_row fits = absurd (omega arith)
executable_sql-true width (row ∷ rows) some_row fits = ground arith

pub add_bigint-some : (a b : ℕ) → a + b < 2 ^ 63 → add_bigint a b ≡ some (a + b)
unfolding add_bigint
add_bigint-some a b h = ground arith

pub has-get {ℓ} : {V : Type ℓ} (m : Map V) (k : ℕ) (v : V) → get m k ≡ some v → has m k ≡ true
unfolding get has
has-get [] k v e = cc
has-get ((j, w) ∷ m) k v e = ground (arith, has-get m k v)

abbrev no_merge : StackNodeData → StackNodeData → Option StackNodeData
no_merge old new = none

-- Node data whose identifier is a function of their content.
module _ (f : StackNodeData → ℕ)
    (content : (a b : StackNodeData) → same_content a b ≡ true → f a ≡ f b) where
  abbrev pub IsAddressed : StackNodeData → Type 0
  IsAddressed d = d.id ≡ f d

  abbrev pub AllAddressed : Map StackNodeData → Type 0
  AllAddressed = All (λ (e : ℕ × StackNodeData). IsAddressed e.1)

  -- A row that is like one of the table has its key.
  pub has-clashes :
      (row : StackNodeData) (m : Map StackNodeData)
      → IsAddressed row
      → AllAddressed m
      → Keyed data_id m
      → clashes row (values m) ≡ true
      → has m row.id ≡ true
  unfolding clashes values has
  has-clashes row [] r a k h = cc
  has-clashes row ((j, old) ∷ m) r a k h = elim (Bool-cases (same_content row old)) [
    | inl same ↦
        let key : j ≡ row.id = sym k.0 ∙ a.0 ∙ sym (content row old same) ∙ sym r in ground arith
    | inr differs ↦ ground (arith, has-clashes row m r a.1 k.1)
  ]

  -- A row that is like one of the table is left out; any other goes in.
  insert-like :
      (row : StackNodeData) (rows : List StackNodeData) (m : Map StackNodeData)
      → clashes row (values m) ≡ true
      → insert_or_ignore data_id clashes rows m ≡ insert_or_ignore data_id clashes (row ∷ rows) m
  unfolding insert_or_ignore
  insert-like row rows m h = rw h

  insert-new :
      (row : StackNodeData) (rows : List StackNodeData) (m : Map StackNodeData)
      → clashes row (values m) ≡ false
      → insert_or_ignore data_id clashes rows (or_insert row.id row m)
        ≡ insert_or_ignore data_id clashes (row ∷ rows) m
  unfolding insert_or_ignore
  insert-new row rows m h = rw h

  -- All rows are there under their keys.
  abbrev AllThere : List StackNodeData → Map StackNodeData → Type 0
  AllThere rows t = All (λ (d : StackNodeData). has t d.id ≡ true) rows

  -- Behind the statement every row that was posted is there under its key.
  pub insert_or_ignore-has :
      (rows : List StackNodeData) (m : Map StackNodeData)
      → All IsAddressed rows
      → AllAddressed m
      → Keyed data_id m
      → All (λ d. has (insert_or_ignore data_id clashes rows m) d.id ≡ true) rows
  insert_or_ignore-has [] m r a k = tt
  insert_or_ignore-has (row ∷ rows) m r a k = elim (Bool-cases (clashes row (values m))) [
    | inl like ↦ subst (AllThere (row ∷ rows)) (insert-like row rows m like) (
      insert_or_ignore-keeps data_id no_merge (λ t. has t row.id ≡ true) _
          (has-kept data_id no_merge row.id) clashes rows m (All-anything rows)
          (has-clashes row m r.0 a k like),
      insert_or_ignore-has rows m r.1 a k,
    )
    | inr new ↦
        let m' = or_insert row.id row m in
        subst (AllThere (row ∷ rows)) (insert-new row rows m new) (
          insert_or_ignore-keeps data_id no_merge (λ t. has t row.id ≡ true) _
              (has-kept data_id no_merge row.id) clashes rows m' (All-anything rows)
              (has-upsert_self row.id (λ w. w) row m),
          insert_or_ignore-has rows m' r.1
              (All-upsert (λ (e : ℕ × StackNodeData). IsAddressed e.1) row.id (λ w. w) row m
                (λ w p. p) r.0 a)
              (All-upsert (λ (e : ℕ × StackNodeData). e.1.id ≡ e.0) row.id (λ w. w) row m (λ w p. p)
                refl k),
        )
  ]

  pub insert_datas-some :
      (rows : List StackNodeData) (db : Db)
      → 0 < length rows
      → length rows ≤ row_limit
      → All IsAddressed rows
      → AllAddressed db.datas
      → Keyed data_id db.datas
      → (datas' : Map StackNodeData) × (insert_datas rows db ≡ some (record db { datas = datas' }))
        × All (λ (d : StackNodeData). has datas' d.id ≡ true) rows
        × ((j : ℕ) → has db.datas j ≡ true → has datas' j ≡ true)
  unfolding insert_datas
  insert_datas-some rows db some_row fits r a k = (
    insert_or_ignore data_id clashes rows db.datas,
    rw (take_of_length-le row_limit rows fits, executable_sql-true 4 rows some_row (omega arith)),
    insert_or_ignore-has rows db.datas r a k,
    λ j.
        insert_or_ignore-keeps data_id no_merge (λ t. has t j ≡ true) _
          (has-kept data_id no_merge j) clashes rows db.datas (All-anything rows),
  )

-- The rows of a command, once it has succeeded, are in the table.
pub upsert_rows-has {ℓ} :
    {V : Type ℓ} (id : V → ℕ) (merge : V → V → Option V) (rows : List V) (m m' : Map V)
    → All (λ row. get m' (id row) ≡ merged merge (get m (id row)) row) rows
    → All (Mergeable id merge m) rows
    → All (λ row. has m' (id row) ≡ true) rows
upsert_rows-has id merge [] m m' g n = tt
upsert_rows-has id merge (row ∷ rows) m m' g n =
    (has-get m' (id row) n.0.0 (g.0 ∙ n.0.1), upsert_rows-has id merge rows m m' g.1 n.1)

pub id-stamp :
    (clock : ℕ → ℕ) (created i : ℕ) (es : List Executable)
    → ids executable_id (stamp clock created i es) ≡ ids executable_id es
unfolding stamp
id-stamp clock created i [] = refl
id-stamp clock created i (e ∷ es) = ap (◌∷◌ e.id) (id-stamp clock created (suc i) es)

pub length-stamp :
    (clock : ℕ → ℕ) (created i : ℕ) (es : List Executable)
    → length (stamp clock created i es) ≡ length es
unfolding stamp
length-stamp clock created i [] = refl
length-stamp clock created i (e ∷ es) = ap suc (length-stamp clock created (suc i) es)

-- The three sums of an executable fit a `bigint`.
pub record ExecutableFits (old new : Executable) : Type 0 where
  pub sample_count : old.sample_count + new.sample_count < 2 ^ 63
  pub raw_data_size : old.raw_data_size + new.raw_data_size < 2 ^ 63
  pub processed_data_size : old.processed_data_size + new.processed_data_size < 2 ^ 63

merge_executable-some :
    (old new : Executable)
    → ExecutableFits old new
    → (w : Executable) × (merge_executable old new ≡ some w)
unfolding merge_executable
merge_executable-some old new h = (
  record old {
    sample_count = old.sample_count + new.sample_count;
    updated_at = new.updated_at;
    raw_data_size = old.raw_data_size + new.raw_data_size;
    processed_data_size = old.processed_data_size + new.processed_data_size;
  },
  rw (
    add_bigint-some old.sample_count new.sample_count h.sample_count,
    add_bigint-some old.raw_data_size new.raw_data_size h.raw_data_size,
    add_bigint-some old.processed_data_size new.processed_data_size h.processed_data_size,
  ),
)

merge_node-some :
    (old new : StackNode)
    → old.sample_count + new.sample_count < 2 ^ 63
    → (w : StackNode) × (merge_node old new ≡ some w)
unfolding merge_node
merge_node-some old new h = (
  record old { sample_count = old.sample_count + new.sample_count },
  rw (add_bigint-some old.sample_count new.sample_count h),
)

-- The sums of the rows of a batch with what is stored fit.
abbrev pub FitsExecutables : Map Executable → Executable → Type 0
FitsExecutables m e = (old : Executable) → get m e.id ≡ some old → ExecutableFits old e

abbrev pub FitsNodes : Map StackNode → StackNode → Type 0
FitsNodes m n =
    (old : StackNode) → get m n.id ≡ some old → old.sample_count + n.sample_count < 2 ^ 63

pub stamped-Mergeable :
    (clock : ℕ → ℕ) (created i : ℕ) (es : List Executable) (m : Map Executable)
    → All (FitsExecutables m) es
    → All (Mergeable executable_id merge_executable m) (stamp clock created i es)
unfolding stamp
stamped-Mergeable clock created i [] m h = tt
stamped-Mergeable clock created i (e ∷ es) m h =
    let row = record e { updated_at = some (clock i); created_at = some created } in
    (
      one (get m e.id) refl row (λ old found. record {
        sample_count = (h.0 old found).sample_count;
        raw_data_size = (h.0 old found).raw_data_size;
        processed_data_size = (h.0 old found).processed_data_size;
      }),
      stamped-Mergeable clock created (suc i) es m h.1,
    )
  where
    one :
        (o : Option Executable)
        → get m e.id ≡ o
        → (row : Executable) → ((old : Executable) → get m e.id ≡ some old → ExecutableFits old row)
        → (w : Executable) × (merged merge_executable o row ≡ some w)
    one none found row fits = (row, refl)
    one (some old) found row fits = merge_executable-some old row (fits old found)

node-Mergeable :
    (m : Map StackNode) (n : StackNode) (o : Option StackNode)
    → get m n.id ≡ o
    → FitsNodes m n
    → (w : StackNode) × (merged merge_node o n ≡ some w)
node-Mergeable m n none found fits = (n, refl)
node-Mergeable m n (some old) found fits = merge_node-some old n (fits old found)

pub nodes-Mergeable :
    (m : Map StackNode) (ns : List StackNode)
    → All (FitsNodes m) ns
    → All (Mergeable node_id merge_node m) ns
nodes-Mergeable m [] h = tt
nodes-Mergeable m (n ∷ ns) h = (node-Mergeable m n (get m n.id) refl h.0, nodes-Mergeable m ns h.1)
