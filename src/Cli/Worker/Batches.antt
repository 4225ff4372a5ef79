-- ===== src/Cli/Worker/Batches.antt =====
-- Which samples the worker keeps, and in which batches.
use native.Mathlib.Decide.{dec_lt}
use native.Mathlib.Nat.{add-zero, add-suc, suc-add, zero-add}
use sto.Prelude.{
  ℕ, suc, ◌+◌, ◌*◌, ◌≤◌, ◌<◌, ◌≡◌, refl, sym, ap, ◌∙◌, Option, none, some, List, [], ◌∷◌, ◌++◌, map,
  append-nil, append_assoc, arith, All, All-append, length, length-append, concat, concat-append,
  ltb, ltb→lt, Bool, ◌==◌, if◌then◌else◌, true, false,
}
use sto.Cli.Worker.{Worker, init, buffer_size, on_recv, run}

-- The chunks among the messages.
unfoldable pub chunks {ℓ} : {A : Type ℓ} → List (Option A) → List A
chunks [] = []
chunks (none ∷ messages) = chunks messages
chunks (some c ∷ messages) = c ∷ chunks messages

-- What stays of a stream if `k` of 200 elements were kept since the last one that was dropped.
unfoldable pub keep {ℓ} : {A : Type ℓ} → ℕ → List A → List A
keep k [] = []
keep k (c ∷ cs) =
    let dropped = keep 0 cs in
    let kept = keep (suc k) cs in if k == buffer_size then dropped else c ∷ kept

at_limit : (n : ℕ) → ltb n buffer_size ≡ false → n ≤ buffer_size → n ≡ buffer_size
at_limit n full bounded = ground arith

module _ {ℓ} {A : Type ℓ} where
  keep-room :
      (k : ℕ) (c : A) (cs : List A) → k < buffer_size → keep k (c ∷ cs) ≡ c ∷ keep (suc k) cs
  unfolding keep
  keep-room k c cs room = ground arith

  keep-full : (k : ℕ) (c : A) (cs : List A) → k ≡ buffer_size → keep k (c ∷ cs) ≡ keep 0 cs
  unfolding keep
  keep-full k c cs full = ground arith

module _ {κ} {B : Type κ} where
  pub record IsBatched (n : ℕ) (w : Worker B) : Type κ where
    pub bounded : length w.buf ≤ buffer_size
    pub full : All (λ (b : List B). length b ≡ buffer_size) w.sunk
    pub counted : length w.sunk * 201 + length w.buf ≡ n

  -- All that is kept, in order.
  abbrev pub kept : Worker B → List B
  kept w = concat w.sunk ++ w.buf

module _ {ℓ κ} {A : Type ℓ} {B : Type κ} (symbolize : A → B) where
  step-IsBatched :
      (n : ℕ) (c : A) (w : Worker B) (b : Bool)
      → ltb (length w.buf) buffer_size ≡ b
      → IsBatched n w
      → IsBatched (suc n) (
          if b
          then record w { buf = w.buf ++ symbolize c ∷ [] }
          else record { buf = []; sunk = w.sunk ++ w.buf ∷ [] })
  step-IsBatched n c w true room h = record {
    bounded =
        omega
          (arith, length-append w.buf (symbolize c ∷ []), ltb→lt (length w.buf) buffer_size room);
    full = h.full;
    counted = omega (arith, length-append w.buf (symbolize c ∷ []), h.counted);
  }
  step-IsBatched n c w false full h =
      let reached : length w.buf ≡ buffer_size = at_limit (length w.buf) full h.bounded in
      record {
        bounded = omega arith;
        full = All-append (λ (b : List B). length b ≡ buffer_size) w.sunk _ h.full (reached, tt);
        counted = omega (arith, length-append w.sunk (w.buf ∷ []), reached, h.counted);
      }

  run-IsBatched :
      (n : ℕ) (messages : List (Option A)) (w : Worker B)
      → IsBatched n w
      → IsBatched (n + length (chunks messages)) (run symbolize messages w)
  unfolding run chunks on_recv
  run-IsBatched n [] w h = rw (add-zero n) h
  run-IsBatched n (none ∷ messages) w h = run-IsBatched n messages w h
  run-IsBatched n (some c ∷ messages) w h =
      rw (add-suc n (length (chunks messages)), ← suc-add n (length (chunks messages)))
        (run-IsBatched (suc n) messages (on_recv symbolize (some c) w)
          (step-IsBatched n c w (ltb (length w.buf) buffer_size) refl h))

  -- Whatever arrives, the buffer never holds more than 200 samples, every batch that is handed on
  -- holds exactly 200, and the chunks that arrived are 201 for each batch and those in the buffer.
  pub run-init-IsBatched :
      (messages : List (Option A))
      → IsBatched (length (chunks messages)) (run symbolize messages init)
  run-init-IsBatched messages = rw (← zero-add (length (chunks messages))) (
      run-IsBatched 0 messages init
        (record { bounded = omega arith; full = tt; counted = omega arith }))

  push-kept :
      (c : A) (rest : List B) (w : Worker B)
      → kept (record w { buf = w.buf ++ symbolize c ∷ [] }) ++ rest ≡ kept w ++ symbolize c ∷ rest
  push-kept c rest w =
      ap (λ (l : List B). l ++ rest) (sym (append_assoc (concat w.sunk) w.buf (symbolize c ∷ [])))
      ∙ append_assoc (kept w) (symbolize c ∷ []) rest

  sink-kept :
      (rest : List B) (w : Worker B)
      → kept (record { buf = []; sunk = w.sunk ++ w.buf ∷ [] }) ++ rest ≡ kept w ++ rest
  sink-kept rest w =
      ap (λ (l : List B). l ++ rest)
        (append-nil (concat (w.sunk ++ w.buf ∷ []))
          ∙ concat-append w.sunk (w.buf ∷ [])
          ∙ ap (λ (l : List B). concat w.sunk ++ l) (append-nil w.buf))

  length-push : (c : A) (w : Worker B) → length (w.buf ++ symbolize c ∷ []) ≡ suc (length w.buf)
  length-push c w = omega (arith, length-append w.buf (symbolize c ∷ []))

  on_recv-none : (w : Worker B) → on_recv symbolize none w ≡ w
  unfolding on_recv
  on_recv-none w = refl

  on_recv-room :
      (c : A) (w : Worker B)
      → length w.buf < buffer_size
      → on_recv symbolize (some c) w ≡ record w { buf = w.buf ++ symbolize c ∷ [] }
  unfolding on_recv
  on_recv-room c w room = ground arith

  on_recv-full :
      (c : A) (w : Worker B)
      → length w.buf ≡ buffer_size
      → on_recv symbolize (some c) w ≡ record { buf = []; sunk = w.sunk ++ w.buf ∷ [] }
  unfolding on_recv
  on_recv-full c w full = ground arith

  run-kept :
      (messages : List (Option A)) (w : Worker B)
      → length w.buf ≤ buffer_size
      → kept (run symbolize messages w)
        ≡ kept w ++ map symbolize (keep (length w.buf) (chunks messages))
  unfolding run chunks
  run-kept [] w bounded = unfold keep in sym (append-nil (kept w))
  run-kept (none ∷ messages) w bounded =
      ap (λ (v : Worker B). kept (run symbolize messages v)) (on_recv-none w)
      ∙ run-kept messages w bounded
  run-kept (some c ∷ messages) w bounded = elim (dec_lt (length w.buf) buffer_size) [
    | yes room ↦
        ap (λ (v : Worker B). kept (run symbolize messages v)) (on_recv-room c w room)
        ∙ run-kept messages (record w { buf = w.buf ++ symbolize c ∷ [] })
            (omega (arith, length-push c w))
        ∙ rw (length-push c w, keep-room (length w.buf) c (chunks messages) room) (push-kept c _ w)
    | no full ↦
        let reached : length w.buf ≡ buffer_size = omega arith in
        ap (λ (v : Worker B). kept (run symbolize messages v)) (on_recv-full c w reached)
        ∙ run-kept messages (record { buf = []; sunk = w.sunk ++ w.buf ∷ [] }) (omega arith)
        ∙ rw (keep-full (length w.buf) c (chunks messages) reached) (sink-kept _ w)
  ]

  -- What the worker has handed on or still buffers is, in order, the symbolised stream without
  -- every 201st chunk: the chunk that finds the buffer full is lost.
  pub run-init-kept :
      (messages : List (Option A))
      → kept (run symbolize messages init) ≡ map symbolize (keep 0 (chunks messages))
  run-init-kept messages = run-kept messages init (omega arith)
