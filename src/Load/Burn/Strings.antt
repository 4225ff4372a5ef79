-- ===== src/Load/Burn/Strings.antt =====
-- The strings that burn_cycles of testApp/main.cpp makes, and its loops.
use sto.Prelude.{
  ℕ, zero, suc, ◌+◌, ◌/◌, ◌%◌, ◌≤◌, ◌<◌, ◌≡◌, refl, Bool, false, List, [], ◌∷◌, ◌++◌, ltb, leb,
  arith, length, length-append, Bool-cases, inl, inr, ◌⊎◌, All, lt→ltb,
}
use sto.Text.{decimal, digits_onto}
use sto.Defs.{Text}
use sto.Server.Db.{text_eq}
use sto.Load.Burn.{
  Flags, Burn, running, state_of, map_write, clear_if, fill_str, use_strings, turn, burn_from,
  burn_cycles,
}

digits_onto-length :
    (fuel n : ℕ) (out : List ℕ) → suc (length out) ≤ length (digits_onto fuel n out)
unfolding digits_onto
digits_onto-length zero n out = omega arith
digits_onto-length (suc fuel) n out =
    ground (arith, digits_onto-length fuel (n / 10) ((48 + n % 10) ∷ out))

decimal-length : (n : ℕ) → 1 ≤ length (decimal n)
unfolding decimal
decimal-length n = omega (arith, digits_onto-length n n [])

module _ (rand32 : ℕ → ℕ) (above_ratio : ℕ → Bool) where
  fill_str-length :
      (fuel : ℕ) (s : Burn)
      → 100 ≤ length s.new_str + fuel
      → 100 ≤ length (fill_str rand32 above_ratio fuel s).new_str
  unfolding fill_str
  fill_str-length zero s h = omega arith
  fill_str-length (suc fuel) s h =
      let more = decimal-length (rand32 s.draws) in
      let sum = length-append s.new_str (decimal (rand32 s.draws)) in
      ground (
        arith,
        fill_str-length fuel
            (record s { new_str = s.new_str ++ decimal (rand32 s.draws); draws = suc s.draws })
            (omega arith),
      )

  fill_str-big_map :
      (fuel : ℕ) (s : Burn) → (fill_str rand32 above_ratio fuel s).big_map ≡ s.big_map
  unfolding fill_str
  fill_str-big_map zero s = refl
  fill_str-big_map (suc fuel) s = ground (
    arith,
    fill_str-big_map fuel
        (record s { new_str = s.new_str ++ decimal (rand32 s.draws); draws = suc s.draws }),
  )

  fill_str-old_str :
      (fuel : ℕ) (s : Burn) → (fill_str rand32 above_ratio fuel s).old_str ≡ s.old_str
  unfolding fill_str
  fill_str-old_str zero s = refl
  fill_str-old_str (suc fuel) s = ground (
    arith,
    fill_str-old_str fuel
        (record s { new_str = s.new_str ++ decimal (rand32 s.draws); draws = suc s.draws }),
  )

-- Empty, or of at least 100 characters
abbrev pub IsFilled : Text → Type 0
IsFilled s = (s ≡ []) ⊎ (100 ≤ length s)

-- Every key in the map is filled or empty, and every value has at least 100 characters.
abbrev pub IsFull : List (Text × Text) → Type 0
IsFull m = All (λ (e : Text × Text). IsFilled e.0 × (100 ≤ length e.1)) m

map_write-IsFull :
    (k v : Text) (m : List (Text × Text))
    → IsFilled k
    → 100 ≤ length v
    → IsFull m
    → IsFull (map_write k v m)
unfolding map_write
map_write-IsFull k v [] key h full = ((key, h), tt)
map_write-IsFull k v ((j, w) ∷ m) key h full = elim (Bool-cases (text_eq j k)) [
  | inl same ↦ rw same ((full.0.0, h), full.1)
  | inr other ↦ rw other (full.0, map_write-IsFull k v m key h full.1)
]

map_write-length : (k v : Text) (m : List (Text × Text)) → length m ≤ length (map_write k v m)
unfolding map_write
map_write-length k v [] = omega arith
map_write-length k v ((j, w) ∷ m) = ground (arith, map_write-length k v m)

module _ (rand32 : ℕ → ℕ) (above_ratio : ℕ → Bool) (flags : Flags) where
  abbrev Holds : Burn → Type 0
  Holds s = IsFilled s.old_str × IsFull s.big_map

  clear_if-Holds : (s : Burn) → Holds s → Holds (clear_if flags s)
  unfolding clear_if
  clear_if-Holds s h = elim (Bool-cases (leb flags.dump_size 0)) [
    | inl clear ↦ rw clear (h.0, tt)
    | inr keep ↦ rw keep h
  ]

  use_strings-Holds :
      (s : Burn) → 100 ≤ length s.new_str → Holds s → Holds (use_strings rand32 above_ratio s)
  unfolding use_strings
  use_strings-Holds s h (old, full) = elim (Bool-cases (above_ratio s.draws)) [
    | inl write ↦ rw write (inr h, map_write-IsFull s.old_str s.new_str s.big_map old h full)
    | inr keep ↦ rw keep (old, full)
  ]

  turn-Holds : (s : Burn) → Holds s → Holds (turn rand32 above_ratio flags s)
  unfolding turn
  turn-Holds s h =
      let s' = clear_if flags s in
      use_strings-Holds (fill_str rand32 above_ratio 100 s')
        (fill_str-length rand32 above_ratio 100 s' (omega arith))
        (rw (fill_str-big_map rand32 above_ratio 100 s', fill_str-old_str rand32 above_ratio 100 s')
          (clear_if-Holds s h))

  burn_from-Holds :
      (fuel start cur : ℕ) (s : Burn)
      → Holds s
      → Holds (state_of (burn_from rand32 above_ratio fuel flags start cur s))
  unfolding burn_from
  burn_from-Holds zero start cur s h = h
  burn_from-Holds (suc fuel) start cur s h =
      let rest =
        burn_from-Holds fuel start cur (turn rand32 above_ratio flags s) (turn-Holds s h) in
      elim (Bool-cases (ltb cur (start + flags.seconds))) [
        | inl early ↦ rw early rest
        | inr late ↦ rw late h
      ]

  -- Whatever the random numbers: from any state 100 turns of the inner loop leave a string of at
  -- least 100 characters, where its condition is false; and whenever the coroutine is looked at,
  -- every value that it has written to the map has at least 100 characters, and so has every key
  -- but an empty one.
  pub burn_cycles-IsFull :
      (s : Burn) (fuel start cur : ℕ)
      → (100 ≤ length (fill_str rand32 above_ratio 100 s).new_str)
        × IsFull (state_of (burn_cycles rand32 above_ratio fuel flags start cur)).big_map
  burn_cycles-IsFull s fuel start cur = (
    fill_str-length rand32 above_ratio 100 s (omega arith),
    (burn_from-Holds fuel start cur _ (inl refl, tt)).1,
  )

  turn-length :
      (s : Burn)
      → 1 ≤ flags.dump_size
      → length s.big_map ≤ length (turn rand32 above_ratio flags s).big_map
  unfolding turn clear_if use_strings
  turn-length s h =
      let kept : leb flags.dump_size 0 ≡ false = ground arith in
      let s' = fill_str rand32 above_ratio 100 s in
      let same = fill_str-big_map rand32 above_ratio 100 s in
      rw kept (elim (Bool-cases (above_ratio s'.draws)) [
        | inl write ↦ rw (write, same) (map_write-length s'.old_str s'.new_str s.big_map)
        | inr keep ↦ rw (keep, same) (omega arith)
      ])

  -- With a dump size of at least 1, once the loop has begun: the coroutine has not returned after
  -- any number of turns, since the time is not taken again, and the map has not shrunk meanwhile.
  pub burn_from-running :
      (fuel start cur : ℕ) (s : Burn)
      → 1 ≤ flags.dump_size
      → cur < start + flags.seconds
      → (t : Burn) × (burn_from rand32 above_ratio fuel flags start cur s ≡ running t)
        × (length s.big_map ≤ length t.big_map)
  unfolding burn_from
  burn_from-running zero start cur s d h = (s, refl, omega arith)
  burn_from-running (suc fuel) start cur s d h =
      let (t, run, grow) = burn_from-running fuel start cur (turn rand32 above_ratio flags s) d h in
      let more = turn-length s d in (t, rw (lt→ltb cur (start + flags.seconds) h) run, omega arith)
