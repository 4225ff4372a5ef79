-- ===== src/Cli/Worker.antt =====
-- The thread that `process` of src/bin/cli.rs spawns: it symbolises what the profiler sends and
-- hands full buffers to `process_and_sink_data`. The channel gives an end as soon as every sender is
-- gone; the loop ignores that.
pub mod Batches
use sto.Prelude.{ℕ, Option, none, some, List, [], ◌∷◌, ◌++◌, length, ltb, if◌then◌else◌}

abbrev pub buffer_size : ℕ
buffer_size = 200

-- `buf`, and the buffers that were handed to a sinking thread.
pub record Worker {ℓ} (B : Type ℓ) : Type ℓ where
  pub buf : List B
  pub sunk : List (List B)

abbrev pub init {ℓ} : {B : Type ℓ} → Worker B
init = record { buf = []; sunk = [] }

-- `symbolize` is a call of the symboliser, crate blazesym.
module _ {ℓ κ} {A : Type ℓ} {B : Type κ} (symbolize : A → B) where
  -- One turn of the loop, on what `rx.recv()` returned.
  unfoldable pub on_recv : Option A → Worker B → Worker B
  on_recv none w = w
  on_recv (some data_chunk) w =
      if ltb (length w.buf) buffer_size
      then record w { buf = w.buf ++ symbolize data_chunk ∷ [] }
      else record { buf = []; sunk = w.sunk ++ w.buf ∷ [] }

  unfoldable pub run : List (Option A) → Worker B → Worker B
  run [] w = w
  run (message ∷ messages) w = run messages (on_recv message w)
