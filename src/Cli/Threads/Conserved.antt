-- ===== src/Cli/Threads/Conserved.antt =====
-- No sample is lost on its way to the worker, in whatever order the threads run.
use mathlib.Core.Path.{subst}
use sto.Prelude.{
  ℕ, ◌+◌, ◌≡◌, refl, sym, ap, ◌∙◌, some, List, [], ◌∷◌, ◌++◌, map, arith, length, sum_of,
  sum_of-append,
}
use sto.Defs.{Args, StackInfo}
use sto.Cli.Worker.{Worker, init, on_recv, run}
use sto.Cli.Worker.Batches.{IsBatched, chunks, keep, kept, run-init-IsBatched, run-init-kept}
use sto.Cli.Threads.{
  Tool, start, spawn, send, receive, Step, on_data, on_idle, on_send, on_receive, Reach, here, next,
}

chunks-map : (infos : List StackInfo) → chunks (map some infos) ≡ infos
unfolding chunks
chunks-map [] = refl
chunks-map (info ∷ infos) = ap (◌∷◌ info) (chunks-map infos)

pub sum_of-around :
    (f : StackInfo → ℕ) (before after : List StackInfo) (info : StackInfo)
    → sum_of f (before ++ info ∷ after) ≡ sum_of f (before ++ after) + f info
sum_of-around f before after info =
    omega (arith, sum_of-append f before (info ∷ after), sum_of-append f before after)

module _ {B : Type 0} (symbolize : StackInfo → B) where
  pub run-append :
      (infos : List StackInfo) (info : StackInfo) (w : Worker B)
      → run symbolize (map some (infos ++ info ∷ [])) w
        ≡ on_recv symbolize (some info) (run symbolize (map some infos) w)
  unfolding run
  run-append [] info w = refl
  run-append (x ∷ infos) info w = run-append infos info (on_recv symbolize (some x) w)

  -- What is on its way, by any measure of a sample
  abbrev pub Conserved : (StackInfo → ℕ) → Tool B → Type 0
  Conserved f t =
      sum_of f t.sampled ≡ sum_of f t.waiting + (sum_of f t.channel + sum_of f t.received)

  record IsSound (f : StackInfo → ℕ) (t : Tool B) : Type 0 where
    conserved : Conserved f t
    worker : t.worker ≡ run symbolize (map some t.received) init

  module _ (f : StackInfo → ℕ) where
    Step-IsSound :
        (args : Args) {s t : Tool B} → Step symbolize args s t → IsSound f s → IsSound f t
    unfolding spawn send receive
    Step-IsSound args {s} (on_data bytes info e) h = record {
      conserved = omega (
        arith,
        sum_of-append f s.waiting (info ∷ []),
        sum_of-append f s.sampled (info ∷ []),
        h.conserved,
      );
      worker = h.worker;
    }
    Step-IsSound args (on_idle bytes e) h = h
    Step-IsSound args {s} (on_send before after info e) h = record {
      conserved = omega (
        arith,
        ap (sum_of f) e,
        sum_of-around f before after info,
        sum_of-append f s.channel (info ∷ []),
        h.conserved,
      );
      worker = h.worker;
    }
    Step-IsSound args {s} (on_receive info rest e) h = record {
      conserved =
          omega (arith, ap (sum_of f) e, sum_of-append f s.received (info ∷ []), h.conserved);
      worker = ap (on_recv symbolize (some info)) h.worker ∙ sym (run-append s.received info init);
    }

    Reach-IsSound : (args : Args) {t : Tool B} → Reach symbolize args start t → IsSound f t
    Reach-IsSound args here = record { conserved = refl; worker = unfold run in refl }
    Reach-IsSound args (next r step) = Step-IsSound args step (Reach-IsSound args r)

  -- In whatever order the threads of the tool run, at every moment: each sample that came in is
  -- with a thread that has still to send it, in the channel, or received, exactly once, by any
  -- measure of the samples; what the worker has handed on or buffers is, in order, the stream
  -- that it received without every 201st sample; and each batch that it handed on holds 200.
  pub Reach-Conserved :
      (f : StackInfo → ℕ) (args : Args) {t : Tool B}
      → Reach symbolize args start t
      → Conserved f t
        × (kept t.worker ≡ map symbolize (keep 0 t.received))
        × IsBatched (length t.received) t.worker
  Reach-Conserved f args {t} r =
      let sound = Reach-IsSound f args r in
      let messages = map some t.received in
      let same = chunks-map t.received in
      (
        sound.conserved,
        ap kept sound.worker
            ∙ run-init-kept symbolize messages
            ∙ ap (λ infos. map symbolize (keep 0 infos)) same,
        subst (λ w. IsBatched (length t.received) w) (sym sound.worker)
            (subst (λ infos. IsBatched (length infos) (run symbolize messages init)) same
              (run-init-IsBatched symbolize messages)),
      )
