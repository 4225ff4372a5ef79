-- ===== src/Server/Requests/Safe.antt =====
-- No batch of the tool is refused, however the requests interleave.
use mathlib.Core.Path.{subst}
use sto.Prelude.{
  ℕ, ◌+◌, ◌*◌, ◌^◌, ◌≤◌, ◌<◌, ◌≡◌, refl, ap, ◌∙◌, true, List, [], ◌∷◌, ◌++◌, arith, All, All-append,
  All-split, length, length-append,
}
use sto.Defs.{StoData, StackNodeData}
use sto.Server.Db.{empty, same_content}
use sto.Server.Requests.{
  Request, new_request, Serving, idle, abort_of, Step, arrive, advance, abort, Reach, here, next,
}
use sto.Server.Requests.Progress.{ended, serve-Advances, removed, left_at-pos}
use sto.Server.Requests.Ready.{counter_limit, IsBatch}
use sto.Server.Requests.Stored.{empty-IsStored, IsStored, IsStored-mono}
use sto.Server.Requests.Committed.{
  IsReady, IsSafe, counted_in, counted_in-around, counted_in-append, counted-le, serve-IsSafe,
}

-- The requests that ever arrived
abbrev pub arrived : Serving → ℕ
arrived s = ended s + length s.requests

module _ (f : StackNodeData → ℕ) where
  abort-IsSafe :
      (r : Request) (before after : List Request) (s : Serving)
      → s.requests ≡ before ++ r ∷ after
      → IsSafe f s
      → IsSafe f (abort_of r before after s)
  abort-IsSafe r before after s e h =
      let (front, mine, back) =
        All-split (IsReady f s.db) before after r (subst (All (IsReady f s.db)) e h.ready) in
      let now = ap counted_in e ∙ counted_in-around before after r in
      let later = counted_in-append before after in
      record {
        stored =
            IsStored-mono f _ _ (omega arith) (omega (arith, now, later, counted-le r.stage))
              h.stored;
        ready = All-append (IsReady f s.db) before after front back;
        no_panic = h.no_panic;
      }

  arrive-IsSafe :
      (d : StoData) (s : Serving)
      → IsBatch f d
      → IsSafe f s
      → IsSafe f (record s { requests = s.requests ++ new_request d ∷ [] })
  arrive-IsSafe d s a h = record {
    stored =
        IsStored-mono f _ _ (omega arith)
          (omega (arith, counted_in-append s.requests (new_request d ∷ []))) h.stored;
    ready =
        All-append (IsReady f s.db) s.requests (new_request d ∷ []) h.ready
          (record { batch = a; known = tt }, tt);
    no_panic = h.no_panic;
  }

  empty-IsSafe : IsSafe f (idle empty)
  empty-IsSafe = record { stored = empty-IsStored f; ready = tt; no_panic = refl }

  -- No request is forgotten.
  Step-arrived : {s t : Serving} → Step (IsBatch f) s t → arrived s ≤ arrived t
  Step-arrived {s} (arrive d a) = omega (arith, length-append s.requests (new_request d ∷ []))
  Step-arrived {s} (advance clock created r before after e) =
      let (less, same) = serve-Advances clock created r before after s in
      omega (arith, same, ap length e)
  Step-arrived {s} (abort r before after e) =
      let (less, same) = removed r before after (left_at-pos r.stage) in
      omega (arith, same, ap length e)

  module _ (content : (a b : StackNodeData) → same_content a b ≡ true → f a ≡ f b) where
    Step-IsSafe :
        {s t : Serving} → Step (IsBatch f) s t → arrived s < 2 ^ 31 → IsSafe f s → IsSafe f t
    Step-IsSafe {s} (arrive d a) room h = arrive-IsSafe d s a h
    Step-IsSafe {s} (advance clock created r before after e) room h =
        let (front, mine, back) =
          All-split (IsReady f s.db) before after r (subst (All (IsReady f s.db)) e h.ready) in
        serve-IsSafe f content clock created r.payload before after s front back mine.batch
          h.no_panic r.stage mine.known
          (subst
            (λ rs.
              IsStored f (ended s * counter_limit) ((ended s + counted_in rs) * counter_limit) s.db)
            e h.stored)
          (omega (arith, ap length e, room))
    Step-IsSafe {s} (abort r before after e) room h = abort-IsSafe r before after s e h

    -- However the requests of the tool interleave on a database that was empty, and whichever the
    -- database aborts: as long as fewer than 2 ^ 31 have arrived, no transaction is refused, so that
    -- no handler panics unless it was aborted. A request is one of the tool's if it is closed, has
    -- rows for each statement and no more than those take, has one executable, identifies node
    -- data by content as the unique index does, and has counters of at most 2 ^ 32.
    pub Reach-panicked :
        {t : Serving} → Reach (IsBatch f) (idle empty) t → arrived t < 2 ^ 31 → t.panicked ≡ []
    Reach-panicked r room = (Reach-IsSafe r room).no_panic
      where
        Reach-IsSafe :
            {t : Serving} → Reach (IsBatch f) (idle empty) t → arrived t < 2 ^ 31 → IsSafe f t
        Reach-IsSafe here room = empty-IsSafe
        Reach-IsSafe (next {t} r step) room =
            let before : arrived t < 2 ^ 31 = omega (arith, Step-arrived step, room) in
            Step-IsSafe step before (Reach-IsSafe r before)
