-- ===== src/Server/Requests/Progress.antt =====
-- Handlers end: the server gets through its requests.
use sto.Prelude.{
  ℕ, zero, suc, ◌+◌, ◌≤◌, ◌≡◌, refl, ap, ◌∙◌, ◌⊎◌, inl, inr, Option, none, some, List, [], ◌∷◌,
  ◌++◌, arith, sum_of, sum_of-append, length, length-append,
}
use sto.Defs.{StoData}
use sto.Server.Db.{Db}
use sto.Server.Requests.{
  Stage, at_datas, at_executables, at_nodes, Request, Serving, abort_of, transact, go_on, settle,
  serve,
}

-- The transactions that a handler may still run
abbrev pub left_at : Stage → ℕ
left_at at_datas = 3
left_at at_executables = 2
left_at at_nodes = 1

abbrev pub work : List Request → ℕ
work = sum_of (λ r. left_at r.stage)

-- The handlers that have ended
abbrev pub ended : Serving → ℕ
ended s = length s.finished + (length s.panicked + length s.aborted)

-- A run of n transactions, of any handlers in any order, with no arrival; some may be aborted.
pub data Serves (s : Serving) : ℕ → Serving → Type 0 where
  start : Serves s zero s
  another :
      {n : ℕ} {t : Serving} (clock : ℕ → ℕ) (created : ℕ) (r : Request)
      (before after : List Request)
      → Serves s n t
      → t.requests ≡ before ++ r ∷ after
      → Serves s (suc n) (serve clock created r before after t)
  aborted_one :
      {n : ℕ} {t : Serving} (r : Request) (before after : List Request)
      → Serves s n t
      → t.requests ≡ before ++ r ∷ after
      → Serves s (suc n) (abort_of r before after t)

work-around :
    (before after : List Request) (r : Request)
    → work (before ++ r ∷ after) ≡ work before + (left_at r.stage + work after)
work-around before after r = sum_of-append (λ r. left_at r.stage) before (r ∷ after)

pub length-around :
    (before after : List Request) (r : Request)
    → length (before ++ r ∷ after) ≡ suc (length before + length after)
length-around before after r = omega (arith, length-append before (r ∷ after))

-- A transaction is work done, and no handler is forgotten.
abbrev pub Advances : Request → List Request → List Request → Serving → Serving → Type 0
Advances r before after s t =
    (work t.requests + 1 ≤ work (before ++ r ∷ after))
    × (ended t + length t.requests ≡ ended s + length (before ++ r ∷ after))

pub removed :
    (r : Request) (before after : List Request)
    → 1 ≤ left_at r.stage
    → (work (before ++ after) + 1 ≤ work (before ++ r ∷ after))
      × (suc (length (before ++ after)) ≡ length (before ++ r ∷ after))
removed r before after h = (
  omega (
    arith,
    work-around before after r,
    sum_of-append (λ (r : Request). left_at r.stage) before after,
  ),
  omega (arith, length-around before after r, length-append before after),
)

go_on-Advances :
    (stage : Stage) (d : StoData) (before after : List Request) (s : Serving)
    → Advances (record { payload = d; stage = stage }) before after s (go_on stage d before after s)
unfolding go_on
go_on-Advances at_datas d before after s =
    let old = work-around before after (record { payload = d; stage = at_datas }) in
    let new = work-around before after (record { payload = d; stage = at_executables }) in
    let n = length-around before after (record { payload = d; stage = at_datas }) in
    let m = length-around before after (record { payload = d; stage = at_executables }) in
    (omega (arith, old, new), omega (arith, n, m))
go_on-Advances at_executables d before after s =
    let old = work-around before after (record { payload = d; stage = at_executables }) in
    let new = work-around before after (record { payload = d; stage = at_nodes }) in
    let n = length-around before after (record { payload = d; stage = at_executables }) in
    let m = length-around before after (record { payload = d; stage = at_nodes }) in
    (omega (arith, old, new), omega (arith, n, m))
go_on-Advances at_nodes d before after s =
    let (less, one) =
      removed (record { payload = d; stage = at_nodes }) before after (omega arith) in
    (less, omega (arith, one))

pub left_at-pos : (stage : Stage) → 1 ≤ left_at stage
left_at-pos at_datas = omega arith
left_at-pos at_executables = omega arith
left_at-pos at_nodes = omega arith

settle-Advances :
    (r : Request) (before after : List Request) (result : Option Db) (s : Serving)
    → Advances r before after s (settle r before after result s)
unfolding settle
settle-Advances r before after none s =
    let (less, one) = removed r before after (left_at-pos r.stage) in (less, omega (arith, one))
settle-Advances r before after (some db) s =
    go_on-Advances r.stage r.payload before after (record s { db = db })

pub serve-Advances :
    (clock : ℕ → ℕ) (created : ℕ) (r : Request) (before after : List Request) (s : Serving)
    → Advances r before after s (serve clock created r before after s)
unfolding serve
serve-Advances clock created r before after s =
    settle-Advances r before after (transact clock created r.stage r.payload s.db) s

Serves-work :
    {s t : Serving} {n : ℕ}
    → Serves s n t
    → (n + work t.requests ≤ work s.requests)
      × (ended t + length t.requests ≡ ended s + length s.requests)
Serves-work start = (omega arith, refl)
Serves-work (another {n} {t} clock created r before after run e) =
    let (so_far, all) = Serves-work run in
    let (less, none_lost) = serve-Advances clock created r before after t in
    (omega (arith, so_far, less, ap work e), none_lost ∙ omega (arith, all, ap length e))
Serves-work (aborted_one {n} {t} r before after run e) =
    let (so_far, all) = Serves-work run in
    let (less, one) = removed r before after (left_at-pos r.stage) in
    (omega (arith, so_far, less, ap work e), omega (arith, one, all, ap length e))

-- A run goes on as long as there is a request.
goes_on :
    {s t : Serving} {n : ℕ} (rs : List Request)
    → t.requests ≡ rs
    → Serves s n t
    → (t.requests ≡ []) ⊎ ((u : Serving) × Serves s (suc n) u)
goes_on [] e run = inl e
goes_on (r ∷ rs) e run = inr (_, another (λ i. i) 0 r [] rs run e)

-- The server gets through its requests, whichever handler comes next: a run of transactions with
-- no arrival is never longer than what its requests have left, which is at most three each; it can
-- go on as long as a request is there; and every request that is gone has finished, panicked or been aborted.
pub Serves-progress :
    {s t : Serving} {n : ℕ}
    → Serves s n t
    → (n + work t.requests ≤ work s.requests)
      × (ended t + length t.requests ≡ ended s + length s.requests)
      × ((t.requests ≡ []) ⊎ ((u : Serving) × Serves s (suc n) u))
Serves-progress {t} run =
    let (bound, all) = Serves-work run in (bound, all, goes_on t.requests refl run)
