-- ===== src/Cli/Setup.antt =====
-- What the tool does before it samples: `main`, `bump_memlock_rlimit` and the loop over the CPUs
-- in `profile` of src/bin/cli.rs. The system calls are parameters; the log is left out.
pub mod Opened
use sto.Prelude.{
  ℕ, zero, suc, ◌+◌, ◌*◌, ◌^◌, ◌≤◌, ◌≡◌, refl, ap, ◌∙◌, Bool, true, false, Option, none, some, List,
  [], ◌∷◌, ◌++◌, ltb, if◌then◌else◌, arith, Map, insert, append-nil, append_assoc, Bool-cases,
  Option-cases, inl, inr, ◌⊎◌, ◌==◌,
}
use sto.Text.{codes}
use sto.Defs.{Text, Args, EventType, cycles, clock}

-- args.binary, with the name that stands for none
unfoldable pub default_binary : Option Text → Text
default_binary none = codes "provide_a_meaningful_name"
default_binary (some binary) = binary

-- The arguments that `main` hands to `process`; none is its exit for want of a pid.
unfoldable pub main_args : Args → Option Args
main_args args =
    if args.pid == 0
    then none
    else some (record args { binary = some (default_binary args.binary) })

-- The soft and the hard limit of a resource
pub record Limits : Type 0 where
  pub soft : ℕ
  pub hard : ℕ

-- 128 << 20
abbrev pub memlock : ℕ
memlock = 128 * 2 ^ 20

unfoldable pub min : ℕ → ℕ → ℕ
min m n = if ltb n m then n else m

abbrev pub wanted : Limits
wanted = record { soft = memlock; hard = memlock }

-- `Resource::get` and `Resource::set` of crate rlimit on MEMLOCK; none and false are their errors.
pub record Rlimit : Type 1 where
  pub State : Type 0
  pub get_memlock : State → Option Limits
  pub set_memlock : Limits → State → Bool × State

-- What was set can be read, and an error sets nothing.
pub record RlimitLaws (k : Rlimit) : Type 0 where
  pub set_ok :
      (l : Limits) (s : k.State)
      → (k.set_memlock l s).0 ≡ true
      → k.get_memlock (k.set_memlock l s).1 ≡ some l
  pub set_err :
      (l : Limits) (s : k.State)
      → (k.set_memlock l s).0 ≡ false
      → k.get_memlock (k.set_memlock l s).1 ≡ k.get_memlock s

module _ (k : Rlimit) where
  -- What follows the call of get, whose error is passed on
  unfoldable pub raise_if_low : Option Limits → k.State → Bool × k.State
  raise_if_low none s = (false, s)
  raise_if_low (some l) s =
      if ltb (min l.soft l.hard) memlock then k.set_memlock wanted s else (true, s)

  -- Whether it returned Ok, and the state afterwards
  unfoldable pub bump_memlock_rlimit : k.State → Bool × k.State
  bump_memlock_rlimit s = raise_if_low (k.get_memlock s) s

  abbrev pub IsEnough : Option Limits → Type 0
  IsEnough none = ⊥
  IsEnough (some l) = (memlock ≤ l.soft) × (memlock ≤ l.hard)

  -- Either the call is fine, and the limits that can be read afterwards are both at least 128 MB;
  -- or it is an error, what can be read is as it was, and it was not enough: get failed, or one of
  -- the limits was lower. For a crate rlimit whose set, when it succeeds, can be read, and when it
  -- fails, changes nothing.
  pub bump_memlock_rlimit_lem :
      RlimitLaws k
      → (s : k.State)
      → (((bump_memlock_rlimit s).0 ≡ true) × IsEnough (k.get_memlock (bump_memlock_rlimit s).1))
        ⊎ (((bump_memlock_rlimit s).0 ≡ false)
            × (k.get_memlock (bump_memlock_rlimit s).1 ≡ k.get_memlock s)
            × ¬ IsEnough (k.get_memlock s))
  unfolding bump_memlock_rlimit raise_if_low min
  bump_memlock_rlimit_lem laws s = elim (Option-cases (k.get_memlock s)) [
    | inl none_read ↦ inr (rw none_read (refl, none_read, λ e. e))
    | inr (l, read) ↦
        elim (Bool-cases (ltb (if ltb l.hard l.soft then l.hard else l.soft) memlock)) [
          | inl low ↦ elim (Bool-cases (k.set_memlock wanted s).0) [
            | inl raised ↦ inl (
                rw (read, low)
                  (raised, rw (laws.set_ok wanted s raised) (omega arith, omega arith)))
            | inr refused ↦ inr (
                rw (read, low)
                  (refused, laws.set_err wanted s refused ∙ read, λ e. ground (arith, e)))
          ]
          | inr high ↦ inl (rw (read, high) (refl, rw read (ground arith, ground arith)))
        ]
  ]

-- What `profile` sets of a `perf_event_attr`; the rest is zero.
pub record PerfEventAttr : Type 0 where
  pub size : ℕ
  pub type_ : ℕ
  pub config : ℕ
  pub sample_freq : ℕ
  pub freq : ℕ
  pub exclude_hv : ℕ

-- perf_type_id, perf_hw_id and perf_sw_ids
abbrev pub perf_type_hardware : ℕ
perf_type_hardware = 0

abbrev pub perf_type_software : ℕ
perf_type_software = 1

abbrev pub perf_count_hw_cpu_cycles : ℕ
perf_count_hw_cpu_cycles = 0

abbrev pub perf_count_sw_cpu_clock : ℕ
perf_count_sw_cpu_clock = 0

abbrev pub event_type_id : EventType → ℕ
event_type_id cycles = perf_type_hardware
event_type_id clock = perf_type_software

abbrev pub event_config : EventType → ℕ
event_config cycles = perf_count_hw_cpu_cycles
event_config clock = perf_count_sw_cpu_clock

-- The attributes; the size is that of the structure in crate perf.
unfoldable pub attributes : ℕ → Args → PerfEventAttr
attributes size args = record {
  size = size;
  type_ = event_type_id args.event_type;
  config = event_config args.event_type;
  sample_freq = args.sample_freq;
  freq = 1;
  exclude_hv = 1;
}

-- perf_event_open(attrs, pid, cpu, ..) and attach_perf_event(fd); a descriptor is a bit pattern,
-- and the link is none on an error. `opened` is what was asked for so far.
pub record Perf : Type 1 where
  pub State : Type 0
  pub Link : Type 0
  pub perf_event_open : PerfEventAttr → ℕ → ℕ → State → ℕ × State
  pub attach_perf_event : ℕ → State → Option Link × State
  pub opened : State → List (PerfEventAttr × ℕ × ℕ)

pub record PerfLaws (k : Perf) : Type 0 where
  pub open_logs :
      (attrs : PerfEventAttr) (pid cpu : ℕ) (s : k.State)
      → k.opened (k.perf_event_open attrs pid cpu s).1 ≡ k.opened s ++ (attrs, pid, cpu) ∷ []
  pub attach_keeps : (fd : ℕ) (s : k.State) → k.opened (k.attach_perf_event fd s).1 ≡ k.opened s

-- perf_fds.insert(result, link), or the `?` behind attach_perf_event
unfoldable pub insert_link : {L : Type 0} → ℕ → Option L → Map L → Option (Map L)
insert_link fd none perf_fds = none
insert_link fd (some link) perf_fds = some (insert fd link perf_fds)

module _ (k : Perf) (attr_size : ℕ) (args : Args) where
  -- The body of the loop
  unfoldable pub open_on : ℕ → Map k.Link → k.State → Option (Map k.Link) × k.State
  open_on cpu perf_fds s =
      let (fd, s₁) = k.perf_event_open (attributes attr_size args) args.pid cpu s in
      let (link, s₂) = k.attach_perf_event fd s₁ in (insert_link fd link perf_fds, s₂)

  -- Nothing more is opened once an error has ended the loop.
  unfoldable pub open_if : ℕ → Option (Map k.Link) × k.State → Option (Map k.Link) × k.State
  open_if cpu (none, s) = (none, s)
  open_if cpu (some perf_fds, s) = open_on cpu perf_fds s

  -- The loop for n more CPUs from `cpu` on; none is the error that ends `profile`.
  unfoldable pub open_from : ℕ → ℕ → Option (Map k.Link) × k.State → Option (Map k.Link) × k.State
  open_from zero cpu r = r
  open_from (suc n) cpu r = open_from n (suc cpu) (open_if cpu r)

  -- for cpu in 0..num_cpus::get()
  unfoldable pub open_events : ℕ → k.State → Option (Map k.Link) × k.State
  open_events num_cpus s = open_from num_cpus 0 (some [], s)

  -- One request for each of n CPUs from `cpu` on.
  abbrev pub asked : ℕ → ℕ → List (PerfEventAttr × ℕ × ℕ)
  asked zero cpu = []
  asked (suc n) cpu = (attributes attr_size args, args.pid, cpu) ∷ asked n (suc cpu)
