-- ===== src/Tests/Setting.antt =====
-- The set-up of the tool, with a system of four CPUs.
use sto.Prelude.{
  ℕ, ◌+◌, ◌≡◌, refl, arith, ◌⊎◌, Bool-cases, inl, inr, Bool, true, false, ltb, none, some, List, [],
  ◌∷◌, ◌++◌, if◌then◌else◌,
}
use sto.Cli.Setup.{
  Limits, Rlimit, RlimitLaws, IsEnough, bump_memlock_rlimit, bump_memlock_rlimit_lem, Perf,
  PerfLaws, PerfEventAttr, open_events,
}
use sto.Cli.Setup.Opened.{Opened, open_events-Opened}
use sto.Tests.Sampling.{args}

-- A system that keeps the limits and lets no limit be set above the hard one
abbrev system : Rlimit
system = record {
  State = Limits;
  get_memlock = λ l. some l;
  set_memlock = λ l now. if ltb now.hard l.hard then (false, now) else (true, l);
}

abbrev set_by : Limits → Limits → Bool × Limits
set_by = system.set_memlock

system_laws : RlimitLaws system
system_laws = record {
  set_ok = λ l now done. elim (Bool-cases (ltb now.hard l.hard)) [
    | inl above ↦ ground (arith, above, done)
    | inr below ↦ rw below refl
  ];
  set_err = λ l now failed. elim (Bool-cases (ltb now.hard l.hard)) [
    | inl above ↦ rw above refl
    | inr below ↦ ground (arith, below, failed)
  ];
}

abbrev limits : Limits
limits = record { soft = 65536; hard = 2147483648 }

bump_memlock_rlimit_lem_example :
    (((bump_memlock_rlimit system limits).0 ≡ true)
      × IsEnough system (some (bump_memlock_rlimit system limits).1))
    ⊎ (((bump_memlock_rlimit system limits).0 ≡ false)
        × (some (bump_memlock_rlimit system limits).1 ≡ some limits)
        × ¬ IsEnough system (some limits))
bump_memlock_rlimit_lem_example = bump_memlock_rlimit_lem system system_laws limits

-- Events can be attached on the CPUs below 4; the descriptor is the CPU's number after 3.
abbrev four_cpus : Perf
four_cpus = record {
  State = List (PerfEventAttr × ℕ × ℕ);
  Link = ℕ;
  perf_event_open = λ attrs pid cpu s. (3 + cpu, s ++ (attrs, pid, cpu) ∷ []);
  attach_perf_event = λ fd s. (if ltb fd 7 then some fd else none, s);
  opened = λ s. s;
}

four_cpus_laws : PerfLaws four_cpus
four_cpus_laws = record { open_logs = λ attrs pid cpu s. refl; attach_keeps = λ fd s. refl }

open_events-Opened_example :
    Opened four_cpus four_cpus_laws 120 args 4 0 [] (open_events four_cpus 120 args 4 [])
open_events-Opened_example = open_events-Opened four_cpus four_cpus_laws 120 args 4 []
