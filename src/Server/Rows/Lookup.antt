-- ===== src/Server/Rows/Lookup.antt =====
-- What a table answers after an INSERT .. ON CONFLICT DO UPDATE, and when the command succeeds.

use native.Mathlib.Decide.{ℕ_discrete}
use sto.Prelude.{
  >>=-eq-some, ℕ, ◌≡◌, ◌≢◌, refl, sym, ap, ◌∙◌, Bool, true, false, Option, none, some, List, [],
  ◌∷◌, arith, Map, get, get-upsert, or_insert, insert, member, ids, DistinctIds, All, Bool-cases,
  inl, inr,
}
use sto.Server.Rows.{merge_row, upsert_rows}

-- What becomes of a key: the new row, or what the SET clause makes of the old one.
abbrev pub merged {ℓ} : {V : Type ℓ} → (V → V → Option V) → Option V → V → Option V
merged merge none row = some row
merged merge (some old) row = merge old row

member_self : (k : ℕ) (ks : List ℕ) → member (k ∷ ks) k ≡ true
unfolding member
member_self k ks = ground arith

module _ {ℓ} {V : Type ℓ} (id : V → ℕ) (merge : V → V → Option V) where
  -- One row changes what stands under its key, and nothing else.
  pub merge_row-get :
      (row : V) (m m' : Map V) (found : Option V)
      → get m (id row) ≡ found
      → merge_row id merge row m found ≡ some m'
      → (get m' (id row) ≡ merged merge found row) × ((j : ℕ) → j ≢ id row → get m' j ≡ get m j)
  unfolding merge_row
  merge_row-get row m m' none e r =
      let r' : or_insert (id row) row m ≡ m' = cc in
      (
        ap (λ (t : Map V). get t (id row)) (sym r')
            ∙ ground (arith, get-upsert (id row) (id row) (λ (w : V). w) row m),
        λ j ne.
            ap (λ (t : Map V). get t j) (sym r')
            ∙ ground (arith, get-upsert (id row) j (λ (w : V). w) row m),
      )
  merge_row-get row m m' (some old) e r =
      let (w, value, r₁) = >>=-eq-some (merge old row) (λ w. some (insert (id row) w m)) r in
      let r' : insert (id row) w m ≡ m' = cc in
      (
        ap (λ (t : Map V). get t (id row)) (sym r')
            ∙ ground (arith, get-upsert (id row) (id row) (λ (_ : V). w) w m),
        λ j ne.
            ap (λ (t : Map V). get t j) (sym r')
            ∙ ground (arith, get-upsert (id row) j (λ (_ : V). w) w m),
      )

  pub merged-some :
      (row : V) (m m' : Map V) (found : Option V)
      → merge_row id merge row m found ≡ some m'
      → (v : V) × (merged merge found row ≡ some v)
  unfolding merge_row
  merged-some row m m' none r = (row, refl)
  merged-some row m m' (some old) r =
      let (w, value, _) = >>=-eq-some (merge old row) (λ w. some (insert (id row) w m)) r in
      (w, value)

  -- The first row of a command that succeeds was not seen, and the rest succeeds too.
  pub upsert_rows-cons :
      (row : V) (rows : List V) (seen : List ℕ) (m m' : Map V)
      → upsert_rows id merge (row ∷ rows) seen m ≡ some m'
      → (m₁ : Map V) × (member seen (id row) ≡ false)
        × (merge_row id merge row m (get m (id row)) ≡ some m₁)
        × (upsert_rows id merge rows (id row ∷ seen) m₁ ≡ some m')
  unfolding upsert_rows
  upsert_rows-cons row rows seen m m' r = elim (Bool-cases (member seen (id row))) [
    | inl again ↦ absurd (ground arith)
    | inr first ↦
        let (m₁, one, rest) =
          >>=-eq-some (merge_row id merge row m (get m (id row)))
            (λ m₁. upsert_rows id merge rows (id row ∷ seen) m₁) (rw first at r) in
        (m₁, first, one, rest)
  ]

  -- No row has a key that was seen.
  unseen :
      (rows : List V) (seen : List ℕ) (m m' : Map V) (k : ℕ)
      → upsert_rows id merge rows seen m ≡ some m'
      → member seen k ≡ true
      → member (ids id rows) k ≡ false
  unfolding member
  unseen [] seen m m' k r h = refl
  unseen (row ∷ rows) seen m m' k r h =
      let (m₁, first, one, rest) = upsert_rows-cons row rows seen m m' r in
      let later : member (ids id rows) k ≡ false =
        unseen rows (id row ∷ seen) m₁ m' k rest (ground arith) in
      elim (ℕ_discrete (id row) k) [
        | yes same ↦ absurd (different (member seen k) h (ap (member seen) (sym same) ∙ first))
        | no other ↦ ground arith
      ]
    where
      different : (b : Bool) → b ≡ true → b ≡ false → ⊥
      different b t f = cc

  -- A key that no row has keeps its row.
  pub upsert_rows-get_other :
      (rows : List V) (seen : List ℕ) (m m' : Map V) (k : ℕ)
      → upsert_rows id merge rows seen m ≡ some m'
      → member (ids id rows) k ≡ false
      → get m' k ≡ get m k
  unfolding member
  upsert_rows-get_other [] seen m m' k r h =
      unfold upsert_rows in ap (λ (t : Map V). get t k) (sym (same_table r))
    where
      same_table : some m ≡ some m' → m ≡ m'
      same_table e = cc
  upsert_rows-get_other (row ∷ rows) seen m m' k r h =
      let (m₁, first, one, rest) = upsert_rows-cons row rows seen m m' r in
      upsert_rows-get_other rows (id row ∷ seen) m₁ m' k rest (ground arith)
      ∙ (merge_row-get row m m₁ (get m (id row)) refl one).1 k (ground arith)

  elsewhere :
      (k : ℕ) (m m₁ m' : Map V) (rows : List V)
      → ((j : ℕ) → j ≢ k → get m₁ j ≡ get m j)
      → member (ids id rows) k ≡ false
      → All (λ row. get m' (id row) ≡ merged merge (get m₁ (id row)) row) rows
      → All (λ row. get m' (id row) ≡ merged merge (get m (id row)) row) rows
  unfolding member
  elsewhere k m m₁ m' [] same h all = tt
  elsewhere k m m₁ m' (row ∷ rows) same h all = (
    all.0 ∙ ap (λ (o : Option V). merged merge o row) (same (id row) (ground arith)),
    elsewhere k m m₁ m' rows same (ground arith) all.1,
  )

  -- Under the key of each row stands what the command makes of it.
  pub upsert_rows-get :
      (rows : List V) (seen : List ℕ) (m m' : Map V)
      → upsert_rows id merge rows seen m ≡ some m'
      → All (λ row. get m' (id row) ≡ merged merge (get m (id row)) row) rows
  upsert_rows-get [] seen m m' r = tt
  upsert_rows-get (row ∷ rows) seen m m' r =
      let (m₁, first, one, rest) = upsert_rows-cons row rows seen m m' r in
      let (here, there) = merge_row-get row m m₁ (get m (id row)) refl one in
      let later : member (ids id rows) (id row) ≡ false =
        unseen rows (id row ∷ seen) m₁ m' (id row) rest (member_self (id row) seen) in
      (
        upsert_rows-get_other rows (id row ∷ seen) m₁ m' (id row) rest later ∙ here,
        elsewhere (id row) m m₁ m' rows there later
            (upsert_rows-get rows (id row ∷ seen) m₁ m' rest),
      )

  merge_row-some :
      (row w : V) (m : Map V) (found : Option V)
      → merged merge found row ≡ some w
      → (m' : Map V) × (merge_row id merge row m found ≡ some m')
  unfolding merge_row
  merge_row-some row w m none e = (or_insert (id row) row m, refl)
  merge_row-some row w m (some old) e = (insert (id row) w m, rw e)

  -- The rows of a command that succeeds: each has a key of its own that was not seen, and can be
  -- merged with what stands there.
  abbrev pub Mergeable : Map V → V → Type ℓ
  Mergeable m row = (w : V) × (merged merge (get m (id row)) row ≡ some w)

  Mergeable-elsewhere :
      (k : ℕ) (m m₁ : Map V) (rows : List V)
      → ((j : ℕ) → j ≢ k → get m₁ j ≡ get m j)
      → member (ids id rows) k ≡ false
      → All (Mergeable m) rows
      → All (Mergeable m₁) rows
  unfolding member
  Mergeable-elsewhere k m m₁ [] same h all = tt
  Mergeable-elsewhere k m m₁ (row ∷ rows) same h all = (
    (all.0.0, ap (λ (o : Option V). merged merge o row) (same (id row) (ground arith)) ∙ all.0.1),
    Mergeable-elsewhere k m m₁ rows same (ground arith) all.1,
  )

  unseen_cons :
      (k : ℕ) (seen : List ℕ) (rows : List V)
      → member (ids id rows) k ≡ false
      → All (λ row. member seen (id row) ≡ false) rows
      → All (λ row. member (k ∷ seen) (id row) ≡ false) rows
  unfolding member
  unseen_cons k seen [] h all = tt
  unseen_cons k seen (row ∷ rows) h all =
      (ground arith, unseen_cons k seen rows (ground arith) all.1)

  pub upsert_rows-some :
      (rows : List V) (seen : List ℕ) (m : Map V)
      → DistinctIds (ids id rows)
      → All (λ row. member seen (id row) ≡ false) rows
      → All (Mergeable m) rows
      → (m' : Map V) × (upsert_rows id merge rows seen m ≡ some m')
  unfolding upsert_rows
  upsert_rows-some [] seen m d new all = (m, refl)
  upsert_rows-some (row ∷ rows) seen m d new all =
      let (m₁, one) = merge_row-some row all.0.0 m (get m (id row)) all.0.1 in
      let there = (merge_row-get row m m₁ (get m (id row)) refl one).1 in
      let (m', rest) =
        upsert_rows-some rows (id row ∷ seen) m₁ d.1 (unseen_cons (id row) seen rows d.0 new.1)
          (Mergeable-elsewhere (id row) m m₁ rows there d.0 all.1) in
      (m', rw (new.0, one) rest)
