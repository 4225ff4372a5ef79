-- ===== src/Cli/Threads.antt =====
-- The threads of `profile` and `process` of src/bin/cli.rs. The callback of the ring buffer spawns
-- a thread for each sample, which sends it on the channel; the worker receives. Any of them may
-- take the next step. `rx.recv()` waits while the channel is empty: a sender is there as long as
-- `profile` runs.
pub mod Conserved
pub mod Drained
use sto.Prelude.{ℕ, zero, suc, ◌≡◌, Option, none, some, List, [], ◌∷◌, ◌++◌}
use sto.Defs.{Args, StackInfo}
use sto.Cli.Sample.{Callback, returned, on_sample}
use sto.Cli.Worker.{Worker, init, on_recv}

-- `waiting` are the threads that have not sent yet; `sampled` and `received` remember what came
-- into the tool and what came to the worker.
pub record Tool (B : Type 0) : Type 0 where
  pub waiting : List StackInfo
  pub channel : List StackInfo
  pub worker : Worker B
  pub sampled : List StackInfo
  pub received : List StackInfo

abbrev pub start : {B : Type 0} → Tool B
start = record { waiting = []; channel = []; worker = init; sampled = []; received = [] }

-- The callback has a sample: a thread is spawned.
unfoldable pub spawn : {B : Type 0} → StackInfo → Tool B → Tool B
spawn info s = record s { waiting = s.waiting ++ info ∷ []; sampled = s.sampled ++ info ∷ [] }

-- The thread of `info`, between `before` and `after`, sends.
unfoldable pub send : {B : Type 0} → List StackInfo → StackInfo → List StackInfo → Tool B → Tool B
send before info after s = record s { waiting = before ++ after; channel = s.channel ++ info ∷ [] }

module _ {B : Type 0} (symbolize : StackInfo → B) where
  -- The worker takes the first of the channel.
  unfoldable pub receive : StackInfo → List StackInfo → Tool B → Tool B
  unfolding on_recv
  receive info rest s = record s {
    channel = rest;
    worker = on_recv symbolize (some info) s.worker;
    received = s.received ++ info ∷ [];
  }

  module _ (args : Args) where
    pub data Step (s : Tool B) : Tool B → Type 0 where
      on_data :
          (bytes : List ℕ) (info : StackInfo)
          → on_sample args bytes ≡ returned (some info)
          → Step s (spawn info s)
      on_idle : (bytes : List ℕ) → on_sample args bytes ≡ returned none → Step s s
      on_send :
          (before after : List StackInfo) (info : StackInfo)
          → s.waiting ≡ before ++ info ∷ after
          → Step s (send before info after s)
      on_receive :
          (info : StackInfo) (rest : List StackInfo)
          → s.channel ≡ info ∷ rest
          → Step s (receive info rest s)

    pub data Reach (s : Tool B) : Tool B → Type 0 where
      here : Reach s s
      next : {t u : Tool B} → Reach s t → Step t u → Reach s u

  -- A run of n steps of the threads, in which no sample comes in.
  pub data Drains (s : Tool B) : ℕ → Tool B → Type 0 where
    none_yet : Drains s zero s
    one_sent :
        {n : ℕ} {t : Tool B} (before after : List StackInfo) (info : StackInfo)
        → Drains s n t
        → t.waiting ≡ before ++ info ∷ after
        → Drains s (suc n) (send before info after t)
    one_received :
        {n : ℕ} {t : Tool B} (info : StackInfo) (rest : List StackInfo)
        → Drains s n t
        → t.channel ≡ info ∷ rest
        → Drains s (suc n) (receive info rest t)
