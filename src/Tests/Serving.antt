-- ===== src/Tests/Serving.antt =====
-- Requests that interleave, on small inputs.
use sto.Prelude.{
  ℕ, ◌+◌, ◌^◌, ◌≤◌, ◌<◌, ◌≡◌, refl, ap, ◌⊎◌, [], ◌∷◌, arith, length, get, member, upsert, has,
  values,
}
use sto.Defs.{StoData}
use sto.Server.Db.{empty, all_refer, clashes, same_content, text_eq}
use sto.Server.Rows.{insert_or_ignore, upsert_rows, merge_row}
use sto.Server.Ingest.{
  executable_sql, insert_datas, insert_executables, insert_nodes, stamp, checked,
}
use sto.Server.Ingest.WellFormed.{IsWellFormed, empty-IsWellFormed}
use sto.Server.Ingest.Merges.{count}
use sto.Server.Requests.{
  at_executables, at_nodes, Request, new_request, Serving, idle, transact, go_on, settle, serve,
  abort_of, Reach, here, next, arrive, advance, abort,
}
use sto.Server.Requests.WellFormed.{Reach-IsWellFormed}
use sto.Server.Requests.Totals.{IsCounting, brought, Reach-count}
use sto.Server.Requests.Progress.{Serves, start, another, work, ended, Serves-progress}
use sto.Server.Requests.Ready.{IsBatch}
use sto.Server.Requests.Safe.{arrived, Reach-panicked}
use sto.Tests.Storing.{sent, sent-IsClosedData, by_length, by_length-content}

abbrev clock : ℕ → ℕ
clock i = 300 + i

abbrev request_at_datas : Request
request_at_datas = new_request sent

abbrev request_at_executables : Request
request_at_executables = record { payload = sent; stage = at_executables }

abbrev request_at_nodes : Request
request_at_nodes = record { payload = sent; stage = at_nodes }

-- Two requests arrive and take their first transaction each; the second goes on to its end, and
-- the first is aborted before its own.
abbrev one_arrived : Serving
one_arrived = record (idle empty) { requests = request_at_datas ∷ [] }

abbrev two_arrived : Serving
two_arrived = record (idle empty) { requests = request_at_datas ∷ request_at_datas ∷ [] }

abbrev first_at_executables : Serving
first_at_executables = serve clock 300 request_at_datas [] (request_at_datas ∷ []) two_arrived

abbrev both_at_executables : Serving
both_at_executables =
    serve clock 300 request_at_datas (request_at_executables ∷ []) [] first_at_executables

abbrev second_at_nodes : Serving
second_at_nodes =
    serve clock 300 request_at_executables (request_at_executables ∷ []) [] both_at_executables

abbrev second_finished : Serving
second_finished = serve clock 300 request_at_nodes (request_at_executables ∷ []) [] second_at_nodes

abbrev first_aborted : Serving
first_aborted = abort_of request_at_executables [] [] second_finished

first_turn : first_at_executables.requests ≡ (request_at_executables ∷ request_at_datas ∷ [])
unfolding serve settle transact go_on insert_datas executable_sql
first_turn = refl

second_turn : both_at_executables.requests ≡ (request_at_executables ∷ request_at_executables ∷ [])
unfolding serve settle transact go_on insert_datas executable_sql
second_turn = refl

third_turn : second_at_nodes.requests ≡ (request_at_executables ∷ request_at_nodes ∷ [])
unfolding serve settle transact go_on insert_datas insert_executables executable_sql stamp
    upsert_rows merge_row member get
third_turn = refl

-- The second request has brought one sample of main.
fourth_turn :
    (second_finished.requests ≡ (request_at_executables ∷ []))
    × (count (get second_finished.db.nodes 20) ≡ 1)
    × (second_finished.finished ≡ (sent ∷ []))
    × (second_finished.panicked ≡ [])
    × (second_finished.aborted ≡ [])
unfolding serve settle transact go_on insert_datas insert_executables insert_nodes checked
    executable_sql stamp upsert_rows merge_row member get upsert has values all_refer clashes
    same_content text_eq insert_or_ignore
fourth_turn = (refl, refl, refl, refl, refl)

run : (Admitted : StoData → Type 0) → Admitted sent → Reach Admitted (idle empty) first_aborted
run Admitted a =
    let two : Reach Admitted (idle empty) two_arrived =
      next (next here (arrive sent a)) (arrive sent a) in
    let datas : Reach Admitted (idle empty) both_at_executables =
      next (next two (advance clock 300 request_at_datas [] (request_at_datas ∷ []) refl))
        (advance clock 300 request_at_datas (request_at_executables ∷ []) [] first_turn) in
    let rest : Reach Admitted (idle empty) second_finished =
      next
        (next datas
          (advance clock 300 request_at_executables (request_at_executables ∷ []) [] second_turn))
        (advance clock 300 request_at_nodes (request_at_executables ∷ []) [] third_turn) in
    next rest (abort request_at_executables [] [] fourth_turn.0)

abbrev Anything : StoData → Type 0
Anything d = Unit

Reach-IsWellFormed_example : IsWellFormed first_aborted.db
Reach-IsWellFormed_example = Reach-IsWellFormed Anything (run Anything tt) empty-IsWellFormed

Reach-count_example : count (get first_aborted.db.nodes 20) ≡ brought 20 first_aborted.finished
Reach-count_example = Reach-count (run IsCounting (omega arith, (omega arith, tt))) 20

sent-IsBatch : IsBatch by_length sent
unfolding by_length
sent-IsBatch = record {
  closed = sent-IsClosedData;
  some_node = omega arith;
  some_data = omega arith;
  few_nodes = omega arith;
  few_datas = omega arith;
  executable = (
    _,
    refl,
    record {
      sample_count = omega arith;
      raw_data_size = omega arith;
      processed_data_size = omega arith;
    },
  );
  addressed = (refl, (refl, tt));
  counts = (omega arith, (omega arith, tt));
}

few_arrived : arrived first_aborted < 2 ^ 31
few_arrived =
    let (one, counted, finished, panicked, aborted) = fourth_turn in
    omega (arith, ap length finished, ap length panicked, ap length aborted)

Reach-panicked_example : first_aborted.panicked ≡ []
Reach-panicked_example =
    Reach-panicked by_length by_length-content (run (IsBatch by_length) sent-IsBatch) few_arrived

first_served : Serves two_arrived 2 both_at_executables
first_served =
    another clock 300 request_at_datas (request_at_executables ∷ []) []
      (another clock 300 request_at_datas [] (request_at_datas ∷ []) start refl) first_turn

Serves-progress_example :
    (2 + work both_at_executables.requests ≤ work two_arrived.requests)
    × (ended both_at_executables + length both_at_executables.requests
        ≡ ended two_arrived + length two_arrived.requests)
    × ((both_at_executables.requests ≡ []) ⊎ ((u : Serving) × Serves two_arrived 3 u))
Serves-progress_example = Serves-progress first_served
