-- ===== src/Load/Demo.antt =====
-- demo/demo.c: work that logs in a given share of the calls. An `int` is a bit pattern below
-- 2 ^ 32, and a signed overflow, which C leaves undefined, is none.
use sto.Prelude.{
  ◌==◌, ◌&&◌, ℕ, zero, suc, ◌+◌, ◌-◌, ◌*◌, ◌%◌, ◌^◌, ◌≤◌, ◌<◌, ◌≡◌, refl, Option, none, some, ltb,
  leb, if◌then◌else◌, arith, List, [], ◌∷◌, length, sum_of, Bool-cases, inl, inr, ap, ap₂, ◌∙◌,
}

-- for(int i = n; i>0; i--); counts its turns.
unfoldable pub spin : ℕ → ℕ
spin zero = 0
spin (suc i) = suc (spin i)

-- 1000000*x
unfoldable pub times_million : ℕ → Option ℕ
times_million x =
    if ltb x (2 ^ 31)
    then (if ltb (1000000 * x) (2 ^ 31) then some (1000000 * x) else none)
    else (if leb (1000000 * (2 ^ 32 - x)) (2 ^ 31)
        then some (2 ^ 32 - 1000000 * (2 ^ 32 - x))
        else none)

-- The turns of the loop: none at all for a start that is not positive
unfoldable pub turns : Option ℕ → Option ℕ
turns none = none
turns (some i) = if ltb i (2 ^ 31) then some (spin i) else some 0

unfoldable pub simulate_work : ℕ → Option ℕ
simulate_work x = turns (times_million x)

unfoldable pub do_business_logic : ℕ → Option ℕ
do_business_logic x = simulate_work x

unfoldable pub do_logging : ℕ → Option ℕ
do_logging x = simulate_work x

-- Two pieces of work, one after the other
unfoldable pub in_sequence : Option ℕ → Option ℕ → Option ℕ
in_sequence none b = none
in_sequence (some m) none = none
in_sequence (some m) (some n) = some (m + n)

-- `rand` is what rand() returns, which is not negative.
unfoldable pub application_logic : ℕ → ℕ → Option ℕ
application_logic log_pct rand =
    if ltb log_pct (2 ^ 31) && ltb (rand % 100) log_pct
    then in_sequence (do_business_logic 1) (do_logging 10)
    else do_business_logic 1

spin_lem : (n : ℕ) → spin n ≡ n
unfolding spin
spin_lem zero = refl
spin_lem (suc n) = omega (arith, spin_lem n)

-- simulateWork(x) takes 1000000 * x turns if that fits an int and x is not negative.
simulate_work_lem : (x : ℕ) → 1000000 * x < 2 ^ 31 → simulate_work x ≡ some (1000000 * x)
unfolding simulate_work turns times_million
simulate_work_lem x h = ground (arith, spin_lem (1000000 * x))

-- The loop of `main`, over the results of rand(); counts the turns of all the work.
unfoldable pub calls : ℕ → List ℕ → Option ℕ
calls log_pct [] = some 0
calls log_pct (rand ∷ rands) = in_sequence (application_logic log_pct rand) (calls log_pct rands)

business_lem : do_business_logic 1 ≡ some 1000000
unfolding do_business_logic
business_lem = simulate_work_lem 1 (omega arith)

logging_lem : do_logging 10 ≡ some 10000000
unfolding do_logging
logging_lem = simulate_work_lem 10 (omega arith)

application_logic_lem :
    (log_pct rand : ℕ)
    → log_pct ≤ 100
    → application_logic log_pct rand
      ≡ (if ltb (rand % 100) log_pct then some 11000000 else some 1000000)
unfolding application_logic in_sequence
application_logic_lem log_pct rand h = rw (business_lem, logging_lem) (ground arith)

-- How many of the results leave c as the remainder
abbrev pub residues : ℕ → List ℕ → ℕ
residues c = sum_of (λ rand. if rand % 100 == c then 1 else 0)

-- How many of the results are below the percentage
abbrev logged : ℕ → List ℕ → ℕ
logged log_pct = sum_of (λ rand. if ltb (rand % 100) log_pct then 1 else 0)

calls-logged :
    (log_pct : ℕ) (rands : List ℕ)
    → log_pct ≤ 100
    → calls log_pct rands ≡ some (1000000 * length rands + 10000000 * logged log_pct rands)
unfolding calls in_sequence
calls-logged log_pct [] h = refl
calls-logged log_pct (rand ∷ rands) h =
    rw (application_logic_lem log_pct rand h, calls-logged log_pct rands h)
      (elim (Bool-cases (ltb (rand % 100) log_pct)) [
        | inl low ↦ rw low (ap some (omega arith))
        | inr high ↦ rw high (ap some (omega arith))
      ])

logged-zero : (rands : List ℕ) → logged 0 rands ≡ 0
logged-zero [] = refl
logged-zero (rand ∷ rands) = ground (arith, logged-zero rands)

logged-suc : (c : ℕ) (rands : List ℕ) → logged (suc c) rands ≡ logged c rands + residues c rands
logged-suc c [] = refl
logged-suc c (rand ∷ rands) = ground (arith, logged-suc c rands)

logged_lem :
    (log_pct m : ℕ) (rands : List ℕ)
    → log_pct ≤ 100
    → ((c : ℕ) → c < 100 → residues c rands ≡ m)
    → logged log_pct rands ≡ m * log_pct
logged_lem zero m rands h even = logged-zero rands ∙ omega arith
logged_lem (suc c) m rands h even =
    let before = logged_lem c m rands (omega arith) even in
    let one = even c (omega arith) in logged-suc c rands ∙ (ap₂ ◌+◌ before one ∙ grind arith)

-- The demo logs in the share of its calls that it is told: whatever results rand() gave in any
-- order, as long as each of the remainders 0 to 99 came m times, and the percentage is at most
-- 100, the loop spends 1000000 turns on each call and 10000000 more on m calls for each percent.
-- No call overflows.
pub calls-application_logic :
    (log_pct m : ℕ) (rands : List ℕ)
    → log_pct ≤ 100
    → ((c : ℕ) → c < 100 → residues c rands ≡ m)
    → calls log_pct rands ≡ some (1000000 * length rands + 10000000 * (m * log_pct))
calls-application_logic log_pct m rands h even =
    rw (calls-logged log_pct rands h, logged_lem log_pct m rands h even) refl
