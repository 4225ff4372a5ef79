-- ===== src/Prelude/Entries.antt =====
-- Laws of the maps: which keys are there, predicates on all entries, sums over the values.
use Prim.Native.Nat.{ℕ}
use mathlib.Core.Path.{◌≡◌, refl, sym, subst}
use native.Mathlib.Decide.{ℕ_discrete}
use mathlib.Core.Bool.{Bool, true, false, ◌||◌}
use mathlib.Core.List.{[], ◌∷◌}
use native.Mathlib.Omega.{arith}
use sto.Prelude.Tests.{◌==◌}
use sto.Prelude.Lists.{All}
use sto.Prelude.Maps.{Map, upsert, and_modify}

module _ {ℓ} {V : Type ℓ} where
  -- m.contains_key(&k)
  unfoldable pub has : Map V → ℕ → Bool
  has [] k = false
  has ((j, v) ∷ m) k = (j == k) || has m k

  -- No key occurs twice.
  abbrev pub Distinct : Map V → Type 0
  Distinct [] = Unit
  Distinct ((k, v) ∷ m) = (has m k ≡ false) × Distinct m

  pub has-upsert :
      (k j : ℕ) (f : V → V) (v : V) (m : Map V) → has (upsert k f v m) j ≡ (k == j) || has m j
  unfolding has upsert
  has-upsert k j f v [] = ground arith
  has-upsert k j f v ((i, w) ∷ m) = ground (arith, has-upsert k j f v m)

  pub has-upsert_mono :
      (k j : ℕ) (f : V → V) (v : V) (m : Map V) → has m j ≡ true → has (upsert k f v m) j ≡ true
  has-upsert_mono k j f v m h = ground (arith, has-upsert k j f v m)

  pub has-upsert_self : (k : ℕ) (f : V → V) (v : V) (m : Map V) → has (upsert k f v m) k ≡ true
  has-upsert_self k f v m = ground (arith, has-upsert k k f v m)

  pub has-and_modify : (k j : ℕ) (f : V → V) (m : Map V) → has (and_modify k f m) j ≡ has m j
  unfolding has and_modify
  has-and_modify k j f [] = refl
  has-and_modify k j f ((i, w) ∷ m) = ground (arith, has-and_modify k j f m)

  pub upsert-Distinct :
      (k : ℕ) (f : V → V) (v : V) (m : Map V) → Distinct m → Distinct (upsert k f v m)
  unfolding upsert has
  upsert-Distinct k f v [] d = (refl, tt)
  upsert-Distinct k f v ((j, w) ∷ m) d =
      ground (arith, has-upsert k j f v m, upsert-Distinct k f v m)

  pub and_modify-Distinct :
      (k : ℕ) (f : V → V) (m : Map V) → Distinct m → Distinct (and_modify k f m)
  unfolding and_modify
  and_modify-Distinct k f [] d = tt
  and_modify-Distinct k f ((j, w) ∷ m) d =
      ground (arith, has-and_modify k j f m, and_modify-Distinct k f m)

==-self : (j k : ℕ) → j ≡ k → (j == k) ≡ true
==-self j k e = ground arith

==-other : (j k : ℕ) → (j ≡ k → ⊥) → (j == k) ≡ false
==-other j k ne = ground arith

module _ {ℓ κ} {V : Type ℓ} (P : ℕ × V → Type κ) where
  pub All-upsert :
      (k : ℕ) (f : V → V) (v : V) (m : Map V)
      → ((w : V) → P (k, w) → P (k, f w))
      → P (k, v)
      → All P m
      → All P (upsert k f v m)
  unfolding upsert
  All-upsert k f v [] step new all = (new, tt)
  All-upsert k f v ((j, w) ∷ m) step new all = elim (ℕ_discrete j k) [
    | yes same ↦ rw (==-self j k same) (
      subst (λ (i : ℕ). P (i, f w)) (sym same) (step w (subst (λ (i : ℕ). P (i, w)) same all.0)),
      all.1,
    )
    | no other ↦ rw (==-other j k other) (all.0, All-upsert k f v m step new all.1)
  ]

  pub All-and_modify :
      (k : ℕ) (f : V → V) (m : Map V)
      → ((w : V) → P (k, w) → P (k, f w))
      → All P m
      → All P (and_modify k f m)
  unfolding and_modify
  All-and_modify k f [] step all = tt
  All-and_modify k f ((j, w) ∷ m) step all = elim (ℕ_discrete j k) [
    | yes same ↦ rw (==-self j k same) (
      subst (λ (i : ℕ). P (i, f w)) (sym same) (step w (subst (λ (i : ℕ). P (i, w)) same all.0)),
      all.1,
    )
    | no other ↦ rw (==-other j k other) (all.0, All-and_modify k f m step all.1)
  ]
