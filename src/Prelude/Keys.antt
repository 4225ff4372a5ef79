-- ===== src/Prelude/Keys.antt =====
-- Lists of identifiers, and the identifiers of the values of a map.
use Prim.Native.Nat.{ℕ}
use mathlib.Core.Path.{◌≡◌, refl, ap, ◌∙◌}
use mathlib.Core.Bool.{Bool, false, ◌||◌}
use mathlib.Core.List.{List, [], ◌∷◌, map}
use sto.Prelude.Tests.{◌==◌}
use sto.Prelude.Lists.{All}
use sto.Prelude.Maps.{Map, values}
use sto.Prelude.Entries.{has, Distinct}

-- ids.contains(&k)
unfoldable pub member : List ℕ → ℕ → Bool
member [] k = false
member (j ∷ ids) k = (j == k) || member ids k

-- No identifier occurs twice.
abbrev pub DistinctIds : List ℕ → Type 0
DistinctIds [] = Unit
DistinctIds (k ∷ ids) = (member ids k ≡ false) × DistinctIds ids

module _ {ℓ} {V : Type ℓ} (id : V → ℕ) where
  abbrev pub ids : List V → List ℕ
  ids vs = map id vs

  -- Every entry is stored under the identifier of its value.
  abbrev pub Keyed : Map V → Type 0
  Keyed m = All (λ (e : ℕ × V). id e.1 ≡ e.0) m

  pub member-values : (m : Map V) (k : ℕ) → Keyed m → member (ids (values m)) k ≡ has m k
  unfolding member values has
  member-values [] k h = refl
  member-values ((j, v) ∷ m) k h = rw h.0 (ap (λ b. (j == k) || b) (member-values m k h.1))

  pub values-DistinctIds : (m : Map V) → Keyed m → Distinct m → DistinctIds (ids (values m))
  unfolding values
  values-DistinctIds [] h d = tt
  values-DistinctIds ((j, v) ∷ m) h d =
      (rw h.0 (member-values m j h.1 ∙ d.0), values-DistinctIds m h.1 d.1)

pub All-values {ℓ κ} :
    {V : Type ℓ} (P : ℕ × V → Type κ) (Q : V → Type κ) (m : Map V)
    → ((e : ℕ × V) → P e → Q e.1)
    → All P m
    → All Q (values m)
unfolding values
All-values P Q [] f h = tt
All-values P Q ((k, v) ∷ m) f h = (f (k, v) h.0, All-values P Q m f h.1)
