-- ===== src/Server/Requests/Totals.antt =====
-- No update of a sample count is lost between requests that run at the same time.
use mathlib.Core.Path.{subst}
use sto.Prelude.{
  ℕ, ◌≡◌, refl, ap, ◌∙◌, Option, none, some, List, [], ◌∷◌, ◌++◌, arith, All, All-append, All-split,
  take, get, Map, sum_of,
}
use sto.Defs.{StoData, StackNode}
use sto.Server.Db.{Db, empty}
use sto.Server.Ingest.{row_limit}
use sto.Server.Ingest.Merges.{
  count, posted, IsCount, AllCount, insert_nodes-count, insert_nodes-AllCount, nodes-insert_datas,
  nodes-insert_executables,
}
use sto.Server.Requests.{
  Stage, at_datas, at_executables, at_nodes, Request, Serving, idle, new_request, transact, go_on,
  settle, serve, Step, arrive, advance, abort, Reach, here, next,
}

-- A payload without negative counts
abbrev pub IsCounting : StoData → Type 0
IsCounting d = All IsCount d.stack_nodes

-- The samples that the requests that have finished brought for a node
abbrev pub brought : ℕ → List StoData → ℕ
brought k = sum_of (λ d. posted k (take row_limit d.stack_nodes))

pub record IsTotal (s : Serving) : Type 0 where
  pub counts : AllCount s.db.nodes
  pub requests : All (λ (r : Request). IsCounting r.payload) s.requests
  pub total : (k : ℕ) → count (get s.db.nodes k) ≡ brought k s.finished

module _ (before after : List Request) (d : StoData) (s : Serving)
    (front : All (λ (r : Request). IsCounting r.payload) before) (counting : IsCounting d)
    (back : All (λ (r : Request). IsCounting r.payload) after) (h : IsTotal s) where
  -- The others, with or without the one that went on.
  others : All (λ (r : Request). IsCounting r.payload) (before ++ after)
  others = All-append (λ (r : Request). IsCounting r.payload) before after front back

  with_stage :
      (stage : Stage)
      → All
          (λ (r : Request). IsCounting r.payload)
          (before ++ record { payload = d; stage = stage } ∷ after)
  with_stage stage =
      All-append (λ (r : Request). IsCounting r.payload) before
        (record { payload = d; stage = stage } ∷ after) front (counting, back)

  -- The nodes are as they were.
  same_nodes :
      (db : Db) (rs : List Request)
      → db.nodes ≡ s.db.nodes
      → All (λ (r : Request). IsCounting r.payload) rs
      → IsTotal (record s { db = db; requests = rs })
  same_nodes db rs same all = record {
    counts = rw same h.counts;
    requests = all;
    total = λ k. ap (λ (m : Map StackNode). count (get m k)) same ∙ h.total k;
  }

  go_on-IsTotal :
      (clock : ℕ → ℕ) (created : ℕ) (stage : Stage) (db : Db)
      → transact clock created stage d s.db ≡ some db
      → IsTotal (go_on stage d before after (record s { db = db }))
  unfolding go_on transact
  go_on-IsTotal clock created at_datas db made =
      same_nodes db _ (nodes-insert_datas d.stack_node_datas s.db db made)
        (with_stage at_executables)
  go_on-IsTotal clock created at_executables db made =
      same_nodes db _ (nodes-insert_executables clock created d.profiled_binaries s.db db made)
        (with_stage at_nodes)
  go_on-IsTotal clock created at_nodes db made = record {
    counts = insert_nodes-AllCount d.stack_nodes s.db db made h.counts counting;
    requests = others;
    total = λ k.
        insert_nodes-count d.stack_nodes s.db db k made h.counts counting
        ∙ omega (arith, h.total k);
  }

settle-IsTotal :
    (clock : ℕ → ℕ) (created : ℕ) (r : Request) (before after : List Request) (s : Serving)
    (result : Option Db)
    → transact clock created r.stage r.payload s.db ≡ result
    → s.requests ≡ before ++ r ∷ after
    → IsTotal s
    → IsTotal (settle r before after result s)
unfolding settle
settle-IsTotal clock created r before after s result made e h =
    let (front, mine, back) =
      All-split (λ (r : Request). IsCounting r.payload) before after r
        (subst (All (λ (r : Request). IsCounting r.payload)) e h.requests) in
    by_result result made front mine back
  where
    by_result :
        (result : Option Db)
        → transact clock created r.stage r.payload s.db ≡ result
        → All (λ (r : Request). IsCounting r.payload) before
        → IsCounting r.payload
        → All (λ (r : Request). IsCounting r.payload) after
        → IsTotal (settle r before after result s)
    by_result none made front mine back = record {
      counts = h.counts;
      requests = All-append (λ (r : Request). IsCounting r.payload) before after front back;
      total = h.total;
    }
    by_result (some db) made front mine back =
        go_on-IsTotal before after r.payload s front mine back h clock created r.stage db made

Step-IsTotal : {s t : Serving} → Step IsCounting s t → IsTotal s → IsTotal t
unfolding serve
Step-IsTotal {s} (arrive d a) h = record {
  counts = h.counts;
  requests =
      All-append (λ (r : Request). IsCounting r.payload) s.requests (new_request d ∷ []) h.requests
        (a, tt);
  total = h.total;
}
Step-IsTotal {s} (advance clock created r before after e) h =
    settle-IsTotal clock created r before after s (transact clock created r.stage r.payload s.db)
      refl e h
Step-IsTotal {s} (abort r before after e) h =
    let (front, mine, back) =
      All-split (λ (r : Request). IsCounting r.payload) before after r
        (subst (All (λ (r : Request). IsCounting r.payload)) e h.requests) in
    record {
      counts = h.counts;
      requests = All-append (λ (r : Request). IsCounting r.payload) before after front back;
      total = h.total;
    }

idle-IsTotal : IsTotal (idle empty)
unfolding get
idle-IsTotal = record { counts = tt; requests = tt; total = λ k. refl }

Reach-IsTotal : {t : Serving} → Reach IsCounting (idle empty) t → IsTotal t
Reach-IsTotal here = idle-IsTotal
Reach-IsTotal (next r step) = Step-IsTotal step (Reach-IsTotal r)

-- However requests without negative counts interleave on a database that was empty: at every
-- moment the count of every node is the sum of what the requests that have finished brought for
-- it in their first 16383 rows. None is lost or counted twice, and a request that panics, that is
-- aborted, or that has not finished, has added nothing.
pub Reach-count :
    {t : Serving}
    → Reach IsCounting (idle empty) t
    → (k : ℕ) → count (get t.db.nodes k) ≡ brought k t.finished
Reach-count r = (Reach-IsTotal r).total
