-- ===== src/Tests/Loads.antt =====
-- The programs that make load, at concrete inputs.
use sto.Prelude.{
  ℕ, ◌+◌, ◌%◌, ◌*◌, ◌^◌, ◌≤◌, ◌≡◌, Bool, List, [], ◌∷◌, zero, suc, ◌<◌, ltb, if◌then◌else◌, some,
  arith, length, ◌==◌,
}
use sto.Text.{codes}
use sto.Load.Demo.{residues, calls, calls-application_logic}
use sto.Load.Burn.{Flags, Burn, running, state_of, fill_str, burn_from, burn_cycles}
use sto.Load.Burn.Strings.{IsFull, burn_cycles-IsFull, burn_from-running}

-- Results that leave each remainder once, from n - 1 down to 0
rands : ℕ → List ℕ
rands zero = []
rands (suc n) = 101 * n ∷ rands n

residues-rands : (n c : ℕ) → n ≤ 100 → c < 100 → residues c (rands n) ≡ (if ltb c n then 1 else 0)
unfolding rands
residues-rands zero c b h = ground arith
residues-rands (suc n) c b h =
    let rest = residues-rands n c (omega arith) h in
    let same : 101 * n % 100 ≡ n = omega arith in rw same (ground (arith, rest))

even : (c : ℕ) → c < 100 → residues c (rands 100) ≡ 1
even c h = ground (arith, residues-rands 100 c (omega arith) h)

-- The percentage of `main`
calls-application_logic_example :
    calls 50 (rands 100) ≡ some (1000000 * length (rands 100) + 10000000 * (1 * 50))
calls-application_logic_example = calls-application_logic 50 1 (rands 100) (omega arith) even

-- The defaults of the flags
abbrev flags : Flags
flags = record { seconds = 300; dump_size = 500 }

rand32 : ℕ → ℕ
rand32 i = (1664525 * i + 1013904223) % 2 ^ 32

above_ratio : ℕ → Bool
above_ratio i = i % 2 == 0

abbrev begun : Burn
begun = record { new_str = []; old_str = []; big_map = (codes "k", codes "v") ∷ []; draws = 5 }

burn_cycles-IsFull_example :
    (100 ≤ length (fill_str rand32 above_ratio 100 begun).new_str)
    × IsFull (state_of (burn_cycles rand32 above_ratio 3 flags 1000 1000)).big_map
burn_cycles-IsFull_example = burn_cycles-IsFull rand32 above_ratio flags begun 3 1000 1000

burn_from-running_example :
    (t : Burn) × (burn_from rand32 above_ratio 3 flags 1000 1000 begun ≡ running t)
    × (length begun.big_map ≤ length t.big_map)
burn_from-running_example =
    burn_from-running rand32 above_ratio flags 3 1000 1000 begun (omega arith) (omega arith)
