-- ===== src/Server/Requests/Stored.antt =====
-- What each transaction of a batch makes of a database that the batches of others have filled.
use mathlib.Core.Path.{subst}
use sto.Prelude.{
  ℕ, ◌+◌, ◌^◌, ◌≤◌, ◌<◌, ◌≡◌, true, Option, none, some, List, arith, Map, get, has, take,
  take_of_length-le, member, ids, All, All-map,
}
use sto.Defs.{StoData, StackNode, StackNodeData}
use sto.Server.Db.{Db, empty, clashes, same_content}
use sto.Server.Rows.{insert_or_ignore}
use sto.Server.Rows.Keeps.{All-kept, insert_or_ignore-keeps}
use sto.Server.Ingest.{
  data_id, executable_id, row_limit, insert_datas, insert_executables, insert_nodes,
}
use sto.Server.Ingest.WellFormed.{
  IsWellFormed, empty-IsWellFormed, insert_datas-IsWellFormed, insert_executables-IsWellFormed,
  insert_nodes-IsWellFormed,
}
use sto.Server.Ingest.Statements.{insert_datas-some}
use sto.Server.Ingest.Accepts.{All-member, insert_executables-some, insert_nodes-some}
use sto.Server.Ingest.Merges.{IsCount, AllCount, insert_nodes-count, insert_nodes-AllCount}
use sto.Server.Requests.{Stage, at_datas, at_executables, at_nodes}
use sto.Server.Requests.Ready.{
  counter_limit, ExecutableBelow-mono, IsBatch, posted-le, NodesBelow, ExecutablesBelow,
  NodesBelow-FitsNodes, ExecutablesBelow-FitsExecutables, insert_executables-below,
}

-- Nothing of the two tables that nodes refer to goes away.
pub record Extends (db db' : Db) : Type 0 where
  pub datas : (k : ℕ) → has db.datas k ≡ true → has db'.datas k ≡ true
  pub executables : (k : ℕ) → has db.executables k ≡ true → has db'.executables k ≡ true

abbrev pub DatasKnown : StoData → Db → Type 0
DatasKnown d db = (k : ℕ) → member (ids data_id d.stack_node_datas) k ≡ true → has db.datas k ≡ true

abbrev pub ExecutablesKnown : StoData → Db → Type 0
ExecutablesKnown d db =
    (k : ℕ) → member (ids executable_id d.profiled_binaries) k ≡ true → has db.executables k ≡ true

-- What the transactions of a handler have stored before each stage
abbrev pub KnownAt : Stage → StoData → Db → Type 0
KnownAt at_datas d db = Unit
KnownAt at_executables d db = DatasKnown d db
KnownAt at_nodes d db = DatasKnown d db × ExecutablesKnown d db

pub KnownAt-mono :
    (stage : Stage) (d : StoData) {db db' : Db}
    → Extends db db'
    → KnownAt stage d db
    → KnownAt stage d db'
KnownAt-mono at_datas d more h = tt
KnownAt-mono at_executables d more h = λ k posted. more.datas k (h k posted)
KnownAt-mono at_nodes d more h =
    (λ k posted. more.datas k (h.0 k posted), λ k posted. more.executables k (h.1 k posted))

datas-insert_datas :
    (rows : List StackNodeData) (db db' : Db)
    → insert_datas rows db ≡ some db'
    → db'.datas ≡ insert_or_ignore data_id clashes (take row_limit rows) db.datas
unfolding insert_datas
datas-insert_datas rows db db' e = ground arith

module _ (f : StackNodeData → ℕ) where
  abbrev AllAddressed : Map StackNodeData → Type 0
  AllAddressed = All (λ (e : ℕ × StackNodeData). e.1.id ≡ f e.1)

  -- A well-formed database whose counts are at most bn in nodes and be in executables.
  pub record IsStored (bn be : ℕ) (db : Db) : Type 0 where
    pub well_formed : IsWellFormed db
    pub addressed : AllAddressed db.datas
    pub counts : AllCount db.nodes
    pub nodes : NodesBelow bn db.nodes
    pub executables : ExecutablesBelow be db.executables

  pub empty-IsStored : IsStored 0 0 empty
  unfolding get
  empty-IsStored = record {
    well_formed = empty-IsWellFormed;
    addressed = tt;
    counts = tt;
    nodes = λ k. omega arith;
    executables = λ k e found. absurd cc;
  }

  pub IsStored-mono :
      {bn be : ℕ} (bn' be' : ℕ) {db : Db}
      → bn ≤ bn'
      → be ≤ be'
      → IsStored bn be db
      → IsStored bn' be' db
  IsStored-mono {bn} {be} bn' be' ln le h = record {
    well_formed = h.well_formed;
    addressed = h.addressed;
    counts = h.counts;
    nodes = λ k. omega (arith, h.nodes k, ln);
    executables = λ k e found. ExecutableBelow-mono be be' e le (h.executables k e found);
  }

  -- The transaction commits.
  abbrev pub Commits : ℕ → ℕ → (Db → Option Db) → Db → (Db → Type 0) → Type 0
  Commits bn be run db known =
      (db' : Db) × (run db ≡ some db') × IsStored bn be db' × Extends db db' × known db'

  insert_datas-AllAddressed :
      (rows : List StackNodeData) (db db' : Db)
      → insert_datas rows db ≡ some db'
      → All (λ (x : StackNodeData). x.id ≡ f x) (take row_limit rows)
      → AllAddressed db.datas
      → AllAddressed db'.datas
  insert_datas-AllAddressed rows db db' e new h = rw (datas-insert_datas rows db db' e) (
      insert_or_ignore-keeps data_id (λ old row. none) AllAddressed
        (λ (x : StackNodeData). x.id ≡ f x)
        (All-kept data_id (λ old row. none) (λ (e : ℕ × StackNodeData). e.1.id ≡ f e.1)
          (λ (x : StackNodeData). x.id ≡ f x) (λ row n. n) (λ old row w q n p. absurd cc))
        clashes (take row_limit rows) db.datas new h)

  module _ (content : (a b : StackNodeData) → same_content a b ≡ true → f a ≡ f b) {bn be : ℕ}
      (d : StoData) (db : Db) (batch : IsBatch f d) (h : IsStored bn be db) where
    pub insert_datas-Commits : Commits bn be (insert_datas d.stack_node_datas) db (DatasKnown d)
    insert_datas-Commits =
        let (datas', made, known, more) =
          insert_datas-some f content d.stack_node_datas db batch.some_data batch.few_datas
            batch.addressed h.addressed h.well_formed.datas.0 in
        let db' : Db = record db { datas = datas' } in
        let taken = take_of_length-le row_limit d.stack_node_datas batch.few_datas in
        (
          db',
          made,
          record {
            well_formed = insert_datas-IsWellFormed d.stack_node_datas db db' made h.well_formed;
            addressed =
                insert_datas-AllAddressed d.stack_node_datas db db' made (rw taken batch.addressed)
                  h.addressed;
            counts = h.counts;
            nodes = h.nodes;
            executables = h.executables;
          },
          record { datas = more; executables = λ k p. p },
          λ k. All-member data_id (has datas') d.stack_node_datas k known,
        )

    pub insert_executables-Commits :
        (clock : ℕ → ℕ) (created : ℕ)
        → be + counter_limit < 2 ^ 63
        → Commits bn
            (be + counter_limit)
            (insert_executables clock created d.profiled_binaries)
            db
            (ExecutablesKnown d)
    insert_executables-Commits clock created room =
        let (e, one, below) = batch.executable in
        let fits = ExecutablesBelow-FitsExecutables be db.executables e room h.executables below in
        let (es', made, known, more) =
          insert_executables-some clock created d.profiled_binaries db (rw one (omega arith))
            (rw one (omega arith)) batch.closed.distinct_executables (rw one (fits, tt)) in
        let db' : Db = record db { executables = es' } in
        (
          db',
          made,
          record {
            well_formed =
                insert_executables-IsWellFormed clock created d.profiled_binaries db db' made
                  h.well_formed;
            addressed = h.addressed;
            counts = h.counts;
            nodes = h.nodes;
            executables =
                insert_executables-below clock created be e db es'
                  (subst (λ es. insert_executables clock created es db ≡ some db') one made) room
                  h.executables below;
          },
          record { datas = λ k p. p; executables = more },
          known,
        )

    pub insert_nodes-Commits :
        bn + counter_limit < 2 ^ 63
        → DatasKnown d db
        → ExecutablesKnown d db
        → Commits (bn + counter_limit) be (insert_nodes d.stack_nodes) db (λ db'. Unit {0})
    insert_nodes-Commits room kd ke =
        let (nodes', made) =
          insert_nodes-some d.stack_nodes (member (ids data_id d.stack_node_datas))
            (member (ids executable_id d.profiled_binaries)) db batch.some_node batch.few_nodes
            batch.closed.distinct_nodes
            (NodesBelow-FitsNodes bn db.nodes d.stack_nodes room h.nodes batch.counts)
            batch.closed.nodes kd ke h.well_formed.references in
        let db' : Db = record db { nodes = nodes' } in
        let small : All IsCount d.stack_nodes =
          All-map (λ (n : StackNode). n.sample_count ≤ counter_limit) IsCount d.stack_nodes
            (λ n le. omega (arith, le)) batch.counts in
        (
          db',
          made,
          record {
            well_formed = insert_nodes-IsWellFormed d.stack_nodes db db' made h.well_formed;
            addressed = h.addressed;
            counts = insert_nodes-AllCount d.stack_nodes db db' made h.counts small;
            nodes = λ k.
                let total = insert_nodes-count d.stack_nodes db db' k made h.counts small in
                let le = posted-le k d.stack_nodes batch.closed.distinct_nodes batch.counts in
                omega (
                  arith,
                  rw (take_of_length-le row_limit d.stack_nodes batch.few_nodes) at total,
                  le,
                  h.nodes k,
                );
            executables = h.executables;
          },
          record { datas = λ k p. p; executables = λ k p. p },
          tt,
        )
