-- ===== src/Prelude/Maps.antt =====
-- A `HashMap<i64, V>` as an association list over bit patterns, with the calls of its entry API.
-- The order of entries is that of insertion: the program relies on none.
use Prim.Native.Nat.{ℕ}
use mathlib.Core.Path.{◌≡◌}
use mathlib.Core.List.{List, [], ◌∷◌}
use mathlib.Core.Option
use mathlib.Core.Option.{Option, none, some}
use native.Mathlib.Omega.{arith}
use sto.Prelude.Tests.{◌==◌, if◌then◌else◌}

abbrev pub Map {ℓ} : Type ℓ → Type ℓ
Map V = List (ℕ × V)

module _ {ℓ} {V : Type ℓ} where
  -- m.get(&k)
  unfoldable pub get : Map V → ℕ → Option V
  get [] k = none
  get ((j, v) ∷ m) k = if j == k then some v else get m k

  -- m.entry(k).and_modify(f)
  unfoldable pub and_modify : ℕ → (V → V) → Map V → Map V
  and_modify k f [] = []
  and_modify k f ((j, v) ∷ m) = if j == k then (j, f v) ∷ m else (j, v) ∷ and_modify k f m

  -- m.entry(k).and_modify(f).or_insert(v); `or_insert` alone is `upsert` with the identity
  unfoldable pub upsert : ℕ → (V → V) → V → Map V → Map V
  upsert k f v [] = (k, v) ∷ []
  upsert k f v ((j, w) ∷ m) = if j == k then (j, f w) ∷ m else (j, w) ∷ upsert k f v m

  -- m.entry(k).or_insert(v)
  abbrev pub or_insert : ℕ → V → Map V → Map V
  or_insert k v m = upsert k (λ w. w) v m

  -- m.insert(k, v)
  abbrev pub insert : ℕ → V → Map V → Map V
  insert k v m = upsert k (λ w. v) v m

  -- m.values()
  unfoldable pub values : Map V → List V
  values [] = []
  values ((k, v) ∷ m) = v ∷ values m

  pub get-upsert :
      (k j : ℕ) (f : V → V) (v : V) (m : Map V)
      → get (upsert k f v m) j
        ≡ (if k == j then some (Option.get_or (Option.map f (get m k)) v) else get m j)
  unfolding get upsert
  get-upsert k j f v [] = ground arith
  get-upsert k j f v ((i, w) ∷ m) = ground (arith, get-upsert k j f v m)

  pub get-and_modify :
      (k j : ℕ) (f : V → V) (m : Map V)
      → get (and_modify k f m) j ≡ (if k == j then Option.map f (get m k) else get m j)
  unfolding get and_modify
  get-and_modify k j f [] = ground arith
  get-and_modify k j f ((i, w) ∷ m) = ground (arith, get-and_modify k j f m)
