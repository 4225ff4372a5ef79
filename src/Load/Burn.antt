-- ===== src/Load/Burn.antt =====
-- testApp/main.cpp: the coroutine burn_cycles and the calls on its map. The random numbers and the
-- clock of folly and of the C++ library are parameters.
pub mod Strings
use sto.Prelude.{
  ◌+◌, ◌≤◌, ◌<◌, ◌≡◌, refl, sym, ◌∙◌, false, arith, length-append, Bool-cases, inl, inr, ℕ, zero,
  suc, Bool, List, [], ◌∷◌, ◌++◌, ltb, leb, if◌then◌else◌, length,
}
use sto.Text.{decimal}
use sto.Defs.{Text}
use sto.Server.Db.{text_eq}

-- FLAGS_seconds and FLAGS_dump_size
pub record Flags : Type 0 where
  pub seconds : ℕ
  pub dump_size : ℕ

-- The local strings, the map that they are written to, and how many random numbers were drawn
pub record Burn : Type 0 where
  pub new_str : Text
  pub old_str : Text
  pub big_map : List (Text × Text)
  pub draws : ℕ

-- Whether the coroutine has returned, and the state that it is in
pub data Outcome : Type 0 where
  finished : Burn → Outcome
  running : Burn → Outcome

abbrev pub state_of : Outcome → Burn
state_of (finished s) = s
state_of (running s) = s

-- insert_or_assign
unfoldable pub map_write : Text → Text → List (Text × Text) → List (Text × Text)
map_write k v [] = (k, v) ∷ []
map_write k v ((j, w) ∷ m) =
    let rest = map_write k v m in if text_eq j k then (j, v) ∷ m else (j, w) ∷ rest

abbrev pub map_clear : List (Text × Text) → List (Text × Text)
map_clear m = []

abbrev pub map_size : List (Text × Text) → ℕ
map_size m = length m

unfoldable pub clear_if : Flags → Burn → Burn
clear_if flags s = if leb flags.dump_size 0 then record s { big_map = map_clear s.big_map } else s

module _ (rand32 : ℕ → ℕ) (above_ratio : ℕ → Bool) where
  -- while(new_str.length() < 100)
  unfoldable pub fill_str : ℕ → Burn → Burn
  fill_str zero s = s
  fill_str (suc fuel) s =
      let rest =
        fill_str fuel
          (record s { new_str = s.new_str ++ decimal (rand32 s.draws); draws = suc s.draws }) in
      if ltb (length s.new_str) 100 then rest else s

  -- The write of the strings, or their way to nowhere
  unfoldable pub use_strings : Burn → Burn
  use_strings s =
      if above_ratio s.draws
      then record {
        new_str = [];
        old_str = s.new_str;
        big_map = map_write s.old_str s.new_str s.big_map;
        draws = suc s.draws;
      }
      else record s { draws = suc s.draws }

  -- One turn of the outer loop; each append adds a character, so 100 of them are enough.
  unfoldable pub turn : Flags → Burn → Burn
  turn flags s = use_strings (fill_str 100 (clear_if flags s))

  -- Up to `fuel` turns; the time is taken once, before the loop.
  unfoldable pub burn_from : ℕ → Flags → ℕ → ℕ → Burn → Outcome
  burn_from zero flags start cur s = running s
  burn_from (suc fuel) flags start cur s =
      let rest = burn_from fuel flags start cur (turn flags s) in
      if ltb cur (start + flags.seconds) then rest else finished s

  abbrev pub burn_cycles : ℕ → Flags → ℕ → ℕ → Outcome
  burn_cycles fuel flags start cur =
      burn_from fuel flags start cur
        (record { new_str = []; old_str = []; big_map = []; draws = 0 })
