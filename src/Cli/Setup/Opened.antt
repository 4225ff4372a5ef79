-- ===== src/Cli/Setup/Opened.antt =====
-- Which perf events `profile` of src/bin/cli.rs opens.
use mathlib.Core.Path.{subst}
use sto.Prelude.{
  ℕ, zero, suc, ◌≤◌, ◌≡◌, refl, sym, ◌∙◌, ◌⊎◌, inl, inr, Option, none, some, List, [], ◌∷◌, ◌++◌,
  arith, Map, append-nil, append_assoc,
}
use sto.Defs.{Args}
use sto.Cli.Setup.{
  Perf, PerfLaws, PerfEventAttr, attributes, open_on, open_if, open_from, open_events, asked,
}

module _ (k : Perf) (laws : PerfLaws k) (attr_size : ℕ) (args : Args) where
  -- Either all n CPUs were asked for, in order, or only some, and then it is an error.
  abbrev pub Opened : ℕ → ℕ → List (PerfEventAttr × ℕ × ℕ) → Option (Map k.Link) × k.State → Type 0
  Opened n cpu before r =
      ((perf_fds : Map k.Link) × (r.0 ≡ some perf_fds)
        × (k.opened r.1 ≡ before ++ asked k attr_size args n cpu))
      ⊎ ((r.0 ≡ none) × (m : ℕ) × (m ≤ n) × (k.opened r.1 ≡ before ++ asked k attr_size args m cpu))

  open_on-opened :
      (cpu : ℕ) (perf_fds : Map k.Link) (s : k.State)
      → k.opened (open_on k attr_size args cpu perf_fds s).1
        ≡ k.opened s ++ (attributes attr_size args, args.pid, cpu) ∷ []
  unfolding open_on
  open_on-opened cpu perf_fds s =
      laws.attach_keeps (k.perf_event_open (attributes attr_size args) args.pid cpu s).0
        (k.perf_event_open (attributes attr_size args) args.pid cpu s).1
      ∙ laws.open_logs (attributes attr_size args) args.pid cpu s

  open_from-none :
      (n cpu : ℕ) (s : k.State) → open_from k attr_size args n cpu (none, s) ≡ (none, s)
  unfolding open_from open_if
  open_from-none zero cpu s = refl
  open_from-none (suc n) cpu s = open_from-none n (suc cpu) s

  -- One CPU more in front.
  Opened-suc :
      (n cpu : ℕ) (before : List (PerfEventAttr × ℕ × ℕ)) (r : Option (Map k.Link) × k.State)
      → Opened n (suc cpu) (before ++ (attributes attr_size args, args.pid, cpu) ∷ []) r
      → Opened (suc n) cpu before r
  Opened-suc n cpu before r h = elim h [
    | inl (perf_fds, fine, all) ↦
        inl (perf_fds, fine, all ∙ append_assoc before _ (asked k attr_size args n (suc cpu)))
    | inr (failed, m, few, part) ↦ inr (
      failed,
      suc m,
      omega (arith, few),
      part ∙ append_assoc before _ (asked k attr_size args m (suc cpu)),
    )
  ]

  open_from-Opened :
      (n cpu : ℕ) (perf_fds : Map k.Link) (s : k.State)
      → Opened n cpu (k.opened s) (open_from k attr_size args n cpu (some perf_fds, s))
  unfolding open_from open_if
  open_from-Opened zero cpu perf_fds s = inl (perf_fds, refl, sym (append-nil (k.opened s)))
  open_from-Opened (suc n) cpu perf_fds s =
      by_result (open_on k attr_size args cpu perf_fds s) (open_on-opened cpu perf_fds s)
        (λ fds t. open_from-Opened n (suc cpu) fds t)
    where
      by_result :
          (r : Option (Map k.Link) × k.State)
          → k.opened r.1 ≡ k.opened s ++ (attributes attr_size args, args.pid, cpu) ∷ []
          → ((fds : Map k.Link) (t : k.State)
              → Opened n
                  (suc cpu)
                  (k.opened t)
                  (open_from k attr_size args n (suc cpu) (some fds, t)))
          → Opened (suc n) cpu (k.opened s) (open_from k attr_size args n (suc cpu) r)
      by_result (none, t) log rest =
          rw (open_from-none n (suc cpu) t) (inr (refl, 1, omega arith, log))
      by_result (some fds, t) log rest = Opened-suc n cpu (k.opened s) _ (
          subst
            (λ before.
              Opened n (suc cpu) before (open_from k attr_size args n (suc cpu) (some fds, t)))
            log (rest fds t))

  -- The tool asks for one perf event on each CPU, in the order of their numbers, for the process
  -- and with the attributes of its arguments; or it ends with an error, and has asked for only the
  -- first of them.
  pub open_events-Opened :
      (num_cpus : ℕ) (s : k.State)
      → Opened num_cpus 0 (k.opened s) (open_events k attr_size args num_cpus s)
  unfolding open_events
  open_events-Opened num_cpus s = open_from-Opened num_cpus 0 [] s
