-- ===== src/Server/Ingest/Merges.antt =====
-- How a request changes the sample counts of the nodes.
use mathlib.Core.Path.{subst}
use native.Mathlib.Decide.{ℕ_discrete}
use sto.Prelude.{
  >>=-eq-some, ℕ, ◌+◌, ◌^◌, ◌<◌, ◌≡◌, refl, sym, ap, ◌∙◌, Bool, true, false, Option, none, some,
  List, [], ◌∷◌, arith, if◌then◌else◌, Map, get, take, All, All-take, sum_of, ◌==◌, Option-cases,
  inl, inr,
}
use sto.Defs.{StackNode, StoData, StackNodeData, Executable}
use sto.Server.Db.{Db}
use sto.Server.Rows.{add_bigint, upsert_rows, merge_row}
use sto.Server.Rows.Keeps.{All-kept, merge_row-keeps, upsert_rows-keeps, All-get, IsKept}
use sto.Server.Rows.Lookup.{merge_row-get, merged-some, upsert_rows-cons, merged}
use sto.Server.Ingest.{
  node_id, row_limit, executable_sql, merge_node, checked, insert_nodes, insert_datas,
  insert_executables, and_then, data_ingest,
}

-- The samples that stand under a key.
abbrev pub count : Option StackNode → ℕ
count none = 0
count (some n) = n.sample_count

-- The samples that rows bring for a key.
abbrev pub posted : ℕ → List StackNode → ℕ
posted k = sum_of (λ n. if n.id == k then n.sample_count else 0)

-- A count that is not negative, as an `i64`.
abbrev pub IsCount : StackNode → Type 0
IsCount n = n.sample_count < 2 ^ 63

abbrev pub AllCount : Map StackNode → Type 0
AllCount = All (λ (e : ℕ × StackNode). IsCount e.1)

add_bigint-exact :
    (a b c : ℕ) → add_bigint a b ≡ some c → a < 2 ^ 63 → b < 2 ^ 63 → (c ≡ a + b) × (c < 2 ^ 63)
unfolding add_bigint
add_bigint-exact a b c e ha hb = ground arith

merge_node-IsCount :
    (old new w : StackNode)
    → merge_node old new ≡ some w
    → IsCount old
    → IsCount new
    → (w.sample_count ≡ old.sample_count + new.sample_count) × IsCount w
unfolding merge_node
merge_node-IsCount old new w e ho hn =
    let (c, added, r) =
      >>=-eq-some (add_bigint old.sample_count new.sample_count)
        (λ c. some (record old { sample_count = c })) e in
    let exact = add_bigint-exact old.sample_count new.sample_count c added ho hn in
    let r' : w.sample_count ≡ c = ground arith in (r' ∙ exact.0, rw r' exact.1)

pub AllCount-kept : IsKept node_id merge_node AllCount IsCount
AllCount-kept =
    All-kept node_id merge_node (λ (e : ℕ × StackNode). IsCount e.1) IsCount (λ row n. n)
      (λ old row w e n p. (merge_node-IsCount old row w e p n).1)

merged-count :
    (o : Option StackNode) (row v : StackNode)
    → merged merge_node o row ≡ some v
    → ((old : StackNode) → o ≡ some old → IsCount old)
    → IsCount row
    → v.sample_count ≡ count o + row.sample_count
merged-count none row v e ho hr = ground arith
merged-count (some old) row v e ho hr = (merge_node-IsCount old row v e (ho old refl) hr).0

count-merge_row :
    (row : StackNode) (m m' : Map StackNode) (k : ℕ)
    → merge_row node_id merge_node row m (get m row.id) ≡ some m'
    → AllCount m
    → IsCount row
    → count (get m' k) ≡ count (get m k) + (if row.id == k then row.sample_count else 0)
count-merge_row row m m' k e hm hr =
    let (here, there) = merge_row-get node_id merge_node row m m' (get m row.id) refl e in
    let (v, value) = merged-some node_id merge_node row m m' (get m row.id) e in
    elim (ℕ_discrete row.id k) [
      | yes same ↦
          let total : v.sample_count ≡ count (get m row.id) + row.sample_count =
            merged-count (get m row.id) row v value
              (λ old found. All-get (λ (x : ℕ × StackNode). IsCount x.1) m row.id old hm found)
              hr in
          let new : count (get m' row.id) ≡ v.sample_count = ap count (here ∙ value) in
          subst
            (λ (j : ℕ).
              count (get m' j) ≡ count (get m j) + (if row.id == j then row.sample_count else 0))
            same (new ∙ total ∙ ground arith)
      | no other ↦ ap count (there k (λ e'. other (sym e'))) ∙ ground arith
    ]

count-upsert_rows :
    (rows : List StackNode) (seen : List ℕ) (m m' : Map StackNode) (k : ℕ)
    → upsert_rows node_id merge_node rows seen m ≡ some m'
    → AllCount m
    → All IsCount rows
    → count (get m' k) ≡ count (get m k) + posted k rows
count-upsert_rows [] seen m m' k e hm hr =
    unfold upsert_rows in
    ap (λ (t : Map StackNode). count (get t k)) (sym (same_table e)) ∙ omega arith
  where
    same_table : some m ≡ some m' → m ≡ m'
    same_table q = cc
count-upsert_rows (row ∷ rows) seen m m' k e hm hr =
    let (m₁, first, one, rest) = upsert_rows-cons node_id merge_node row rows seen m m' e in
    let step = count-merge_row row m m₁ k one hm hr.0 in
    let hm₁ =
      merge_row-keeps node_id merge_node AllCount IsCount AllCount-kept row m m₁ _ refl hr.0 one
        hm in
    omega (arith, step, count-upsert_rows rows (row.id ∷ seen) m₁ m' k rest hm₁ hr.1)

pub insert_nodes-count :
    (rows : List StackNode) (db db' : Db) (k : ℕ)
    → insert_nodes rows db ≡ some db'
    → AllCount db.nodes
    → All IsCount rows
    → count (get db'.nodes k) ≡ count (get db.nodes k) + posted k (take row_limit rows)
unfolding insert_nodes
insert_nodes-count rows db db' k e hm hr =
    let taken = take row_limit rows in
    let sql : executable_sql 4 taken ≡ true = ground arith in
    let (nodes', upserted, committed) =
      >>=-eq-some (upsert_rows node_id merge_node taken [] db.nodes)
        (λ nodes'. checked (record db { nodes = nodes' })) (rw sql at e) in
    let result : record db { nodes = nodes' } ≡ db' = unfold checked in ground arith in
    ap (λ (t : Db). count (get t.nodes k)) (sym result)
    ∙ count-upsert_rows taken [] db.nodes nodes' k upserted hm (All-take IsCount row_limit rows hr)

-- Nor does a statement make a count negative.
pub insert_nodes-AllCount :
    (rows : List StackNode) (db db' : Db)
    → insert_nodes rows db ≡ some db'
    → AllCount db.nodes
    → All IsCount rows
    → AllCount db'.nodes
unfolding insert_nodes
insert_nodes-AllCount rows db db' e hm hr =
    let taken = take row_limit rows in
    let sql : executable_sql 4 taken ≡ true = ground arith in
    let (nodes', upserted, committed) =
      >>=-eq-some (upsert_rows node_id merge_node taken [] db.nodes)
        (λ nodes'. checked (record db { nodes = nodes' })) (rw sql at e) in
    let result : record db { nodes = nodes' } ≡ db' = unfold checked in ground arith in
    subst (λ (t : Db). AllCount t.nodes) result
      (upsert_rows-keeps node_id merge_node AllCount IsCount AllCount-kept taken [] db.nodes nodes'
        (All-take IsCount row_limit rows hr) upserted hm)

pub nodes-insert_datas :
    (rows : List StackNodeData) (db db' : Db)
    → insert_datas rows db ≡ some db'
    → db'.nodes ≡ db.nodes
unfolding insert_datas
nodes-insert_datas rows db db' e = ground arith

pub nodes-insert_executables :
    (clock : ℕ → ℕ) (created : ℕ) (es : List Executable) (db db' : Db)
    → insert_executables clock created es db ≡ some db'
    → db'.nodes ≡ db.nodes
unfolding insert_executables
nodes-insert_executables clock created es db db' e = ground arith

-- What a request did to the nodes: all of its rows or none.
pub data Counted (d : StoData) (db : Db) (r : Db × Bool) : Type 0 where
  all_counted :
      r.1 ≡ true
      → ((k : ℕ)
          → count (get r.0.nodes k)
            ≡ count (get db.nodes k) + posted k (take row_limit d.stack_nodes))
      → Counted d db r
  none_counted : r.1 ≡ false → r.0.nodes ≡ db.nodes → Counted d db r

-- With counts that are not negative, a request whose handler finishes adds to every node exactly
-- the samples that its first 16383 rows bring for it, and a request whose handler panics leaves
-- every node as it was.
pub data_ingest-Counted :
    (clock : ℕ → ℕ) (created : ℕ) (d : StoData) (db : Db)
    → AllCount db.nodes
    → All IsCount d.stack_nodes
    → Counted d db (data_ingest clock created d db)
unfolding data_ingest and_then
data_ingest-Counted clock created d db hm hr =
    elim (Option-cases (insert_datas d.stack_node_datas db)) [
      | inl e₁ ↦ rw (e₁, and_then) (none_counted refl refl)
      | inr (db₁, e₁) ↦
          let same₁ = nodes-insert_datas d.stack_node_datas db db₁ e₁ in
          elim (Option-cases (insert_executables clock created d.profiled_binaries db₁)) [
            | inl e₂ ↦ rw (e₁, and_then, e₂) (none_counted refl same₁)
            | inr (db₂, e₂) ↦
                let same₂ =
                  nodes-insert_executables clock created d.profiled_binaries db₁ db₂ e₂ ∙ same₁ in
                elim (Option-cases (insert_nodes d.stack_nodes db₂)) [
                  | inl e₃ ↦ rw (e₁, and_then, e₂, e₃) (none_counted refl same₂)
                  | inr (db₃, e₃) ↦
                      rw (e₁, and_then, e₂, e₃)
                        (all_counted refl (λ k.
                          insert_nodes-count d.stack_nodes db₂ db₃ k e₃ (rw same₂ hm) hr
                          ∙ ap
                              (λ (t : Map StackNode).
                                count (get t k) + posted k (take row_limit d.stack_nodes))
                              same₂))
                ]
          ]
    ]
