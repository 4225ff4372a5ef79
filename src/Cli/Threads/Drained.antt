-- ===== src/Cli/Threads/Drained.antt =====
-- What came in reaches the worker.
use sto.Prelude.{
  ℕ, suc, ◌+◌, ◌*◌, ◌≡◌, refl, ap, ◌∙◌, ◌⊎◌, inl, inr, List, [], ◌∷◌, ◌++◌, arith, length,
  length-append, sum_of, sum_of-append, map, some, sym, append-nil, append_assoc,
}
use sto.Defs.{StackInfo}
use sto.Cli.Worker.{on_recv, run}
use sto.Cli.Threads.Conserved.{sum_of-around, run-append}
use sto.Cli.Threads.{Tool, send, receive, Drains, none_yet, one_sent, one_received}

-- The steps that the samples on their way still take
abbrev pub left : {B : Type 0} → Tool B → ℕ
left t = 2 * length t.waiting + length t.channel

length-around :
    (before after : List StackInfo) (info : StackInfo)
    → length (before ++ info ∷ after) ≡ suc (length (before ++ after))
length-around before after info =
    omega (arith, length-append before (info ∷ after), length-append before after)

-- All samples that are in the tool, by any measure of a sample
abbrev pub in_tool : {B : Type 0} → (StackInfo → ℕ) → Tool B → ℕ
in_tool f t = sum_of f t.waiting + (sum_of f t.channel + sum_of f t.received)

module _ {B : Type 0} (symbolize : StackInfo → B) where
  -- What the worker has received since s, and what that has made of it
  abbrev pub Receives : Tool B → Tool B → Type 0
  Receives s t =
      (new : List StackInfo) × (t.received ≡ s.received ++ new)
      × (t.worker ≡ run symbolize (map some new) s.worker)

  Drains-left : {s t : Tool B} {n : ℕ} → Drains symbolize s n t → n + left t ≡ left s
  unfolding send receive
  Drains-left none_yet = omega arith
  Drains-left (one_sent {n} {t} before after info steps e) =
      let so_far = Drains-left steps in
      let one = ap length e ∙ length-around before after info in
      let more = length-append t.channel (info ∷ []) in omega (arith, so_far, one, more)
  Drains-left (one_received {n} {t} info rest steps e) =
      let so_far = Drains-left steps in let one = ap length e in omega (arith, so_far, one)

  Drains-in_tool :
      {s t : Tool B} {n : ℕ} (f : StackInfo → ℕ)
      → Drains symbolize s n t
      → in_tool f t ≡ in_tool f s
  unfolding send receive
  Drains-in_tool f none_yet = refl
  Drains-in_tool f (one_sent {n} {t} before after info steps e) =
      let so_far = Drains-in_tool f steps in
      let one = ap (sum_of f) e ∙ sum_of-around f before after info in
      let more = sum_of-append f t.channel (info ∷ []) in omega (arith, so_far, one, more)
  Drains-in_tool f (one_received {n} {t} info rest steps e) =
      let so_far = Drains-in_tool f steps in
      let one = ap (sum_of f) e in
      let more = sum_of-append f t.received (info ∷ []) in omega (arith, so_far, one, more)

  Drains-Receives : {s t : Tool B} {n : ℕ} → Drains symbolize s n t → Receives s t
  unfolding send receive
  Drains-Receives none_yet = ([], sym (append-nil _), unfold run in refl)
  Drains-Receives (one_sent before after info steps e) = Drains-Receives steps
  Drains-Receives {s} (one_received {n} {t} info rest steps e) =
      let (new, same, worker) = Drains-Receives steps in
      (
        new ++ info ∷ [],
        ap (λ infos. infos ++ info ∷ []) same ∙ append_assoc s.received new (info ∷ []),
        ap (on_recv symbolize (some info)) worker ∙ sym (run-append symbolize new info s.worker),
      )

  goes_on :
      {s t : Tool B} {n : ℕ} (waiting channel : List StackInfo)
      → t.waiting ≡ waiting
      → t.channel ≡ channel
      → Drains symbolize s n t
      → ((t.waiting ≡ []) × (t.channel ≡ [])) ⊎ ((u : Tool B) × Drains symbolize s (suc n) u)
  goes_on [] [] ew ec run = inl (ew, ec)
  goes_on [] (info ∷ rest) ew ec run = inr (_, one_received info rest run ec)
  goes_on (info ∷ waiting) channel ew ec run = inr (_, one_sent [] waiting info run ew)

  -- With no more samples the tool drains, whichever thread comes next: each step takes one off what
  -- is left to do, so that no run takes more steps than two for each sender and one for each
  -- sample in the channel; a run can go on until both are empty; no sample is lost, changed or
  -- doubled, by any measure of the samples waiting, in the channel and received; and the worker
  -- is where taking what it has received since, in that order, leaves it. So when both are empty
  -- it has received every sample that was on its way.
  pub Drains-progress :
      {s t : Tool B} {n : ℕ} (f : StackInfo → ℕ)
      → Drains symbolize s n t
      → (n + left t ≡ left s)
        × (((t.waiting ≡ []) × (t.channel ≡ [])) ⊎ ((u : Tool B) × Drains symbolize s (suc n) u))
        × (in_tool f t ≡ in_tool f s)
        × Receives s t
  Drains-progress {s} {t} f steps = (
    Drains-left steps,
    goes_on t.waiting t.channel refl refl steps,
    Drains-in_tool f steps,
    Drains-Receives steps,
  )
