-- ===== src/Server/Requests/WellFormed.antt =====
-- The database stays well-formed however the requests interleave.
use sto.Prelude.{ℕ, ◌≡◌, refl, Option, none, some, List}
use sto.Defs.{StoData}
use sto.Server.Db.{Db}
use sto.Server.Ingest.WellFormed.{
  IsWellFormed, insert_datas-IsWellFormed, insert_executables-IsWellFormed,
  insert_nodes-IsWellFormed,
}
use sto.Server.Requests.{
  Stage, at_datas, at_executables, at_nodes, Request, Serving, transact, go_on, settle, serve, Step,
  arrive, advance, abort, Reach, here, next,
}

transact-IsWellFormed :
    (clock : ℕ → ℕ) (created : ℕ) (stage : Stage) (d : StoData) (db db' : Db)
    → transact clock created stage d db ≡ some db'
    → IsWellFormed db
    → IsWellFormed db'
unfolding transact
transact-IsWellFormed clock created at_datas d db db' =
    insert_datas-IsWellFormed d.stack_node_datas db db'
transact-IsWellFormed clock created at_executables d db db' =
    insert_executables-IsWellFormed clock created d.profiled_binaries db db'
transact-IsWellFormed clock created at_nodes d db db' =
    insert_nodes-IsWellFormed d.stack_nodes db db'

-- What becomes of the database is what the transaction made of it.
pub db-go_on :
    (stage : Stage) (d : StoData) (before after : List Request) (s : Serving)
    → (go_on stage d before after s).db ≡ s.db
unfolding go_on
db-go_on at_datas d before after s = refl
db-go_on at_executables d before after s = refl
db-go_on at_nodes d before after s = refl

settle-IsWellFormed :
    (r : Request) (before after : List Request) (result : Option Db) (s : Serving)
    → IsWellFormed s.db
    → ((db : Db) → result ≡ some db → IsWellFormed db)
    → IsWellFormed (settle r before after result s).db
unfolding settle
settle-IsWellFormed r before after none s h f = h
settle-IsWellFormed r before after (some db) s h f =
    rw (db-go_on r.stage r.payload before after (record s { db = db })) (f db refl)

module _ (Admitted : StoData → Type 0) where
  Step-IsWellFormed : {s t : Serving} → Step Admitted s t → IsWellFormed s.db → IsWellFormed t.db
  unfolding serve
  Step-IsWellFormed (arrive d a) h = h
  Step-IsWellFormed {s} (advance clock created r before after e) h =
      settle-IsWellFormed r before after (transact clock created r.stage r.payload s.db) s h
        (λ db made. transact-IsWellFormed clock created r.stage r.payload s.db db made h)
  Step-IsWellFormed (abort r before after e) h = h

  -- However many requests run at the same time, whatever they post, in whatever order their
  -- transactions commit and whichever of them fail or are aborted: a database that was well-formed at the start
  -- is well-formed at every moment.
  pub Reach-IsWellFormed :
      {s t : Serving} → Reach Admitted s t → IsWellFormed s.db → IsWellFormed t.db
  Reach-IsWellFormed here h = h
  Reach-IsWellFormed (next r step) h = Step-IsWellFormed step (Reach-IsWellFormed r h)
