-- ===== src/Server/Requests.antt =====
-- Requests to `data_ingest` of src/bin/server.rs that run at the same time. Each handler awaits its
-- three transactions one after the other, and between them the transactions of others may commit;
-- a transaction itself is isolated by the database's row locks, and the database may abort it
-- instead, as it does to end a deadlock.
pub mod WellFormed
pub mod Totals
pub mod Progress
pub mod Ready
pub mod Stored
pub mod Committed
pub mod Safe
use sto.Prelude.{ℕ, ◌≡◌, Option, none, some, List, [], ◌∷◌, ◌++◌}
use sto.Defs.{StoData}
use sto.Server.Db.{Db, empty}
use sto.Server.Ingest.{insert_datas, insert_executables, insert_nodes}

-- The transaction that a handler is about to run
pub data Stage : Type 0 where
  at_datas : Stage
  at_executables : Stage
  at_nodes : Stage

pub record Request : Type 0 where
  pub payload : StoData
  pub stage : Stage

abbrev pub new_request : StoData → Request
new_request d = record { payload = d; stage = at_datas }

-- The database and the handlers that run; `finished`, `panicked` and `aborted` remember those
-- that have ended; the two last have both panicked.
pub record Serving : Type 0 where
  pub db : Db
  pub requests : List Request
  pub finished : List StoData
  pub panicked : List StoData
  pub aborted : List StoData

abbrev pub idle : Db → Serving
idle db = record { db = db; requests = []; finished = []; panicked = []; aborted = [] }

unfoldable pub transact : (ℕ → ℕ) → ℕ → Stage → StoData → Db → Option Db
transact clock created at_datas d db = insert_datas d.stack_node_datas db
transact clock created at_executables d db = insert_executables clock created d.profiled_binaries db
transact clock created at_nodes d db = insert_nodes d.stack_nodes db

-- Behind a commit the handler goes on to its next transaction, or returns.
unfoldable pub go_on : Stage → StoData → List Request → List Request → Serving → Serving
go_on at_datas d before after s = record s {
  requests = before ++ record { payload = d; stage = at_executables } ∷ after;
}
go_on at_executables d before after s = record s {
  requests = before ++ record { payload = d; stage = at_nodes } ∷ after;
}
go_on at_nodes d before after s = record s { requests = before ++ after; finished = d ∷ s.finished }

-- An error of the transaction makes `expect` panic, which ends the handler.
unfoldable pub settle : Request → List Request → List Request → Option Db → Serving → Serving
unfolding go_on
settle r before after none s = record s {
  requests = before ++ after;
  panicked = r.payload ∷ s.panicked;
}
settle r before after (some db) s = go_on r.stage r.payload before after (record s { db = db })

-- One transaction of the handler `r`, which stands between `before` and `after`
unfoldable pub serve : (ℕ → ℕ) → ℕ → Request → List Request → List Request → Serving → Serving
unfolding transact settle
serve clock created r before after s =
    settle r before after (transact clock created r.stage r.payload s.db) s

-- The database aborts a transaction: it has no effect, and `expect` ends the handler.
abbrev pub abort_of : Request → List Request → List Request → Serving → Serving
abort_of r before after s = record s { requests = before ++ after; aborted = r.payload ∷ s.aborted }

module _ (Admitted : StoData → Type 0) where
  -- A request arrives, one of those that run takes a step, or its transaction is aborted; the
  -- clocks are what they are then.
  pub data Step (s : Serving) : Serving → Type 0 where
    arrive :
        (d : StoData)
        → Admitted d
        → Step s (record s { requests = s.requests ++ new_request d ∷ [] })
    advance :
        (clock : ℕ → ℕ) (created : ℕ) (r : Request) (before after : List Request)
        → s.requests ≡ before ++ r ∷ after
        → Step s (serve clock created r before after s)
    abort :
        (r : Request) (before after : List Request)
        → s.requests ≡ before ++ r ∷ after
        → Step s (abort_of r before after s)

  pub data Reach (s : Serving) : Serving → Type 0 where
    here : Reach s s
    next : {t u : Serving} → Reach s t → Step t u → Reach s u
