-- ===== src/Server/Requests/Committed.antt =====
-- The invariant of a server that only the tool posts to, and what a transaction makes of it.

use sto.Prelude.{
  ℕ, ◌+◌, ◌*◌, ◌^◌, ◌≤◌, ◌<◌, ◌≡◌, true, List, [], ◌∷◌, ◌++◌, arith, All, All-append, All-map,
  length, sum_of, sum_of-append,
}
use sto.Defs.{StoData, StackNodeData}
use sto.Server.Db.{Db, same_content}
use sto.Server.Requests.{
  Stage, at_datas, at_executables, at_nodes, Request, Serving, transact, go_on, settle, serve,
}
use sto.Server.Requests.Progress.{ended, length-around}
use sto.Server.Requests.Ready.{counter_limit, IsBatch}
use sto.Server.Requests.Stored.{
  Extends, KnownAt, KnownAt-mono, IsStored, IsStored-mono, insert_datas-Commits,
  insert_executables-Commits, insert_nodes-Commits,
}

-- A request whose executable is counted
abbrev pub counted : Stage → ℕ
counted at_datas = 0
counted at_executables = 0
counted at_nodes = 1

abbrev pub counted_in : List Request → ℕ
counted_in = sum_of (λ r. counted r.stage)

pub counted_in-around :
    (before after : List Request) (r : Request)
    → counted_in (before ++ r ∷ after) ≡ counted_in before + (counted r.stage + counted_in after)
counted_in-around before after r = sum_of-append (λ r. counted r.stage) before (r ∷ after)

pub counted_in-append :
    (before after : List Request)
    → counted_in (before ++ after) ≡ counted_in before + counted_in after
counted_in-append before after = sum_of-append (λ r. counted r.stage) before after

pub counted-le : (stage : Stage) → counted stage ≤ 1
counted-le at_datas = omega arith
counted-le at_executables = omega arith
counted-le at_nodes = omega arith

counted_in-le : (rs : List Request) → counted_in rs ≤ length rs
counted_in-le [] = omega arith
counted_in-le (r ∷ rs) = omega (arith, counted-le r.stage, counted_in-le rs)

module _ (f : StackNodeData → ℕ) where
  pub record IsReady (db : Db) (r : Request) : Type 0 where
    pub batch : IsBatch f r.payload
    pub known : KnownAt r.stage r.payload db

  all-IsReady :
      (rs : List Request) {db db' : Db}
      → Extends db db'
      → All (IsReady db) rs
      → All (IsReady db') rs
  all-IsReady rs {db} {db'} more =
      All-map (IsReady db) (IsReady db') rs
        λ r h. record { batch = h.batch; known = KnownAt-mono r.stage r.payload more h.known }

  -- Every request that has ended, or that waits for its last transaction, has been counted at most
  -- once.
  pub record IsSafe (s : Serving) : Type 0 where
    pub stored :
        IsStored f
          (ended s * counter_limit)
          ((ended s + counted_in s.requests) * counter_limit)
          s.db
    pub ready : All (IsReady s.db) s.requests
    pub no_panic : s.panicked ≡ []

  module _ (content : (a b : StackNodeData) → same_content a b ≡ true → f a ≡ f b) (clock : ℕ → ℕ)
      (created : ℕ) (d : StoData) (before after : List Request) (s : Serving)
      (front : All (IsReady s.db) before) (back : All (IsReady s.db) after) (batch : IsBatch f d)
      (no_panic : s.panicked ≡ []) where
    abbrev served : Stage → Serving
    served stage = serve clock created (record { payload = d; stage = stage }) before after s

    datas-IsSafe :
        IsStored f
          (ended s * counter_limit)
          ((ended s + counted_in (before ++ record { payload = d; stage = at_datas } ∷ after))
            * counter_limit)
          s.db
        → IsSafe (served at_datas)
    unfolding serve transact settle go_on
    datas-IsSafe h =
        let (db', made, h', more, known) = insert_datas-Commits f content d s.db batch h in
        let now = counted_in-around before after (record { payload = d; stage = at_datas }) in
        let later =
          counted_in-around before after (record { payload = d; stage = at_executables }) in
        rw made (record {
          stored = IsStored-mono f _ _ (omega arith) (omega (arith, now, later)) h';
          ready =
              All-append (IsReady db') before
                (record { payload = d; stage = at_executables } ∷ after)
                (all-IsReady before more front)
                (record { batch = batch; known = known }, all-IsReady after more back);
          no_panic = no_panic;
        })

    executables-IsSafe :
        (ended s + counted_in (before ++ record { payload = d; stage = at_executables } ∷ after))
              * counter_limit
            + counter_limit
          < 2 ^ 63
        → KnownAt at_executables d s.db
        → IsStored f
            (ended s * counter_limit)
            ((ended s
                + counted_in (before ++ record { payload = d; stage = at_executables } ∷ after))
              * counter_limit)
            s.db
        → IsSafe (served at_executables)
    unfolding serve transact settle go_on
    executables-IsSafe room known h =
        let (db', made, h', more, known') =
          insert_executables-Commits f content d s.db batch h clock created room in
        let now = counted_in-around before after (record { payload = d; stage = at_executables }) in
        let later = counted_in-around before after (record { payload = d; stage = at_nodes }) in
        rw made (record {
          stored = IsStored-mono f _ _ (omega arith) (omega (arith, now, later)) h';
          ready =
              All-append (IsReady db') before (record { payload = d; stage = at_nodes } ∷ after)
                (all-IsReady before more front)
                (
                  record {
                    batch = batch;
                    known = (λ k posted. more.datas k (known k posted), known');
                  },
                  all-IsReady after more back,
                );
          no_panic = no_panic;
        })

    nodes-IsSafe :
        ended s * counter_limit + counter_limit < 2 ^ 63
        → KnownAt at_nodes d s.db
        → IsStored f
            (ended s * counter_limit)
            ((ended s + counted_in (before ++ record { payload = d; stage = at_nodes } ∷ after))
              * counter_limit)
            s.db
        → IsSafe (served at_nodes)
    unfolding serve transact settle go_on
    nodes-IsSafe room known h =
        let (db', made, h', more, known') =
          insert_nodes-Commits f content d s.db batch h room known.0 known.1 in
        let now = counted_in-around before after (record { payload = d; stage = at_nodes }) in
        let later = counted_in-append before after in
        rw made (record {
          stored = IsStored-mono f _ _ (omega arith) (omega (arith, now, later)) h';
          ready =
              All-append (IsReady db') before after (all-IsReady before more front)
                (all-IsReady after more back);
          no_panic = no_panic;
        })

    pub serve-IsSafe :
        (stage : Stage)
        → KnownAt stage d s.db
        → IsStored f
            (ended s * counter_limit)
            ((ended s + counted_in (before ++ record { payload = d; stage = stage } ∷ after))
              * counter_limit)
            s.db
        → ended s + length (before ++ record { payload = d; stage = stage } ∷ after) < 2 ^ 31
        → IsSafe (served stage)
    serve-IsSafe at_datas known h room = datas-IsSafe h
    serve-IsSafe at_executables known h room =
        let r : Request = record { payload = d; stage = at_executables } in
        executables-IsSafe
          (omega (
            arith,
            counted_in-around before after r,
            length-around before after r,
            counted_in-le before,
            counted_in-le after,
            room,
          ))
          known h
    serve-IsSafe at_nodes known h room =
        let r : Request = record { payload = d; stage = at_nodes } in
        nodes-IsSafe (omega (arith, length-around before after r, room)) known h
