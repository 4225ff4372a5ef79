-- ===== src/Server/Rows/Keeps.antt =====
-- What an INSERT keeps of a table: its keys, and what holds of every row.
use sto.Prelude.{
  ◌>>=◌, >>=-eq-some, ℕ, ◌≡◌, refl, Bool, true, false, Option, none, some, List, [], ◌∷◌, arith,
  if◌then◌else◌, Map, get, or_insert, insert, member, values, All, All-upsert, has, has-upsert_mono,
  Distinct, upsert-Distinct, Keyed, inl, inr, Bool-cases,
}
use native.Mathlib.Decide.{ℕ_discrete}
use mathlib.Core.Path.{subst}
use sto.Server.Rows.{insert_or_ignore, merge_row, upsert_rows}

-- What holds of a table and of every table that one more row makes of it, given `new` of the row.
module _ {ℓ} {V : Type ℓ} (id : V → ℕ) (merge : V → V → Option V) (I : Map V → Type 0)
    (new : V → Type 0) where
  -- `I` is kept by each way to insert or replace a row.
  pub record IsKept : Type ℓ where
    pub inserted : (row : V) (m : Map V) → new row → I m → I (or_insert (id row) row m)
    pub replaced :
        (row old w : V) (m : Map V)
        → get m (id row) ≡ some old
        → merge old row ≡ some w
        → new row
        → I m
        → I (insert (id row) w m)

  module _ (kept : IsKept) where
    pub merge_row-keeps :
        (row : V) (m m' : Map V) (found : Option V)
        → get m (id row) ≡ found
        → new row
        → merge_row id merge row m found ≡ some m'
        → I m
        → I m'
    unfolding merge_row
    merge_row-keeps row m m' none e n r h =
        let e' : or_insert (id row) row m ≡ m' = cc in subst I e' (kept.inserted row m n h)
    merge_row-keeps row m m' (some old) e n r h =
        let (w, merged, r') = >>=-eq-some (merge old row) (λ w. some (insert (id row) w m)) r in
        let e' : insert (id row) w m ≡ m' = cc in
        subst I e' (kept.replaced row old w m e merged n h)

    pub upsert_rows-keeps :
        (rows : List V) (seen : List ℕ) (m m' : Map V)
        → All new rows
        → upsert_rows id merge rows seen m ≡ some m'
        → I m
        → I m'
    unfolding upsert_rows
    upsert_rows-keeps [] seen m m' n r h = let e' : m ≡ m' = cc in subst I e' h
    upsert_rows-keeps (row ∷ rows) seen m m' n r h = elim (Bool-cases (member seen (id row))) [
      | inl again ↦ absurd (ground (arith))
      | inr first ↦
          let r' : (do
            m₁ ← merge_row id merge row m (get m (id row))
            upsert_rows id merge rows (id row ∷ seen) m₁)
              ≡ some m' =
            rw first at r in
          let (m₁, one, rest) =
            >>=-eq-some (merge_row id merge row m (get m (id row)))
              (λ m₁. upsert_rows id merge rows (id row ∷ seen) m₁) r' in
          upsert_rows-keeps rows (id row ∷ seen) m₁ m' n.1 rest
            (merge_row-keeps row m m₁ (get m (id row)) refl n.0 one h)
    ]

    -- INSERT .. ON CONFLICT DO NOTHING replaces no row.
    pub insert_or_ignore-keeps :
        (clashes : V → List V → Bool) (rows : List V) (m : Map V)
        → All new rows
        → I m
        → I (insert_or_ignore id clashes rows m)
    unfolding insert_or_ignore
    insert_or_ignore-keeps clashes [] m n h = h
    insert_or_ignore-keeps clashes (row ∷ rows) m n h =
        insert_or_ignore-keeps clashes rows _ n.1
          (kept_if (clashes row (values m)) h (kept.inserted row m n.0 h))
      where
        kept_if : (b : Bool) {m₁ m₂ : Map V} → I m₁ → I m₂ → I (if b then m₁ else m₂)
        kept_if true h₁ h₂ = h₁
        kept_if false h₁ h₂ = h₂

-- Every row stands under its key, and no key twice.
abbrev pub IsTable {ℓ} : {V : Type ℓ} (id : V → ℕ) → Map V → Type 0
IsTable id m = Keyed id m × Distinct m

-- The keys of a table.
module _ {ℓ} {V : Type ℓ} (id : V → ℕ) (merge : V → V → Option V)
    (same_key : (old row w : V) → merge old row ≡ some w → id old ≡ id row → id w ≡ id row) where
  Keyed-get : (m : Map V) (k : ℕ) (v : V) → Keyed id m → get m k ≡ some v → id v ≡ k
  unfolding get
  Keyed-get [] k v h e = cc
  Keyed-get ((j, w) ∷ m) k v h e = ground (arith, Keyed-get m k v)

  pub IsTable-kept : IsKept id merge (IsTable id) (λ row. Unit {0})
  IsTable-kept = record {
    inserted = λ row m n h. (
      All-upsert (λ (e : ℕ × V). id e.1 ≡ e.0) (id row) (λ w. w) row m (λ w k. k) refl h.0,
      upsert-Distinct (id row) (λ w. w) row m h.1,
    );
    replaced = λ row old w m found merged n h.
        let key : id w ≡ id row = same_key old row w merged (Keyed-get m (id row) old h.0 found) in
        (
          All-upsert (λ (e : ℕ × V). id e.1 ≡ e.0) (id row) (λ _. w) w m (λ _ _. key) key h.0,
          upsert-Distinct (id row) (λ _. w) w m h.1,
        );
  }

module _ {ℓ} {V : Type ℓ} (id : V → ℕ) (merge : V → V → Option V) where
  -- No key goes away.
  pub has-kept : (k : ℕ) → IsKept id merge (λ m. has m k ≡ true) (λ row. Unit {0})
  has-kept k = record {
    inserted = λ row m n h. has-upsert_mono (id row) k (λ w. w) row m h;
    replaced = λ row old w m found merged n h. has-upsert_mono (id row) k (λ _. w) w m h;
  }

pub All-get {ℓ} :
    {V : Type ℓ} (P : ℕ × V → Type 0) (m : Map V) (k : ℕ) (v : V)
    → All P m
    → get m k ≡ some v
    → P (k, v)
unfolding get
All-get {V} P [] k v h e = cc
All-get {V} P ((j, w) ∷ m) k v h e = elim (ℕ_discrete j k) [
  | yes same ↦
      let value : w ≡ v = ground arith in
      subst (λ (i : ℕ). P (i, v)) same (subst (λ (x : V). P (j, x)) value h.0)
  | no other ↦ All-get P m k v h.1 (ground arith)
]

-- What holds of every row.
module _ {ℓ} {V : Type ℓ} (id : V → ℕ) (merge : V → V → Option V) (P : ℕ × V → Type 0)
    (new : V → Type 0) (fresh : (row : V) → new row → P (id row, row))
    (merged : (old row w : V)
      → merge old row ≡ some w
      → new row
      → P (id row, old)
      → P (id row, w)) where
  pub All-kept : IsKept id merge (All P) new
  All-kept = record {
    inserted = λ row m n h. All-upsert P (id row) (λ w. w) row m (λ w p. p) (fresh row n) h;
    replaced = λ row old w m found e n h.
        let p : P (id row, w) = merged old row w e n (All-get P m (id row) old h found) in
        All-upsert P (id row) (λ _. w) w m (λ _ _. p) p h;
  }
