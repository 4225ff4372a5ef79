-- ===== src/Server/Rows.antt =====
-- The two kinds of INSERT that the server issues, over a table with a primary key: what
-- PostgreSQL does with the rows, one after the other.
pub mod Lookup
pub mod Keeps
use sto.Prelude.{
  ◌>>=◌, >>=-eq-some, ℕ, ◌≡◌, refl, ◌+◌, ◌%◌, ◌^◌, Bool, true, false, ◌&&◌, not, Option, none, some,
  List, [], ◌∷◌, if◌then◌else◌, Map, get, or_insert, insert, member, values,
}
use sto.Words.{is_negative}

-- a + b of two `bigint`s: PostgreSQL reports an error where the sum does not fit.
unfoldable pub add_bigint : ℕ → ℕ → Option ℕ
add_bigint a b =
    let sum : ℕ = (a + b) % 2 ^ 64 in
    if not (is_negative a) && (not (is_negative b) && is_negative sum)
    then none
    else if is_negative a && (is_negative b && not (is_negative sum))
    then none
    else some sum

module _ {ℓ} {V : Type ℓ} (id : V → ℕ) where
  -- INSERT .. ON CONFLICT DO NOTHING: a row is left out if its key is there, or if a unique index
  -- has its like.
  unfoldable pub insert_or_ignore : (V → List V → Bool) → List V → Map V → Map V
  insert_or_ignore clashes [] m = m
  insert_or_ignore clashes (row ∷ rows) m =
      insert_or_ignore clashes rows (if clashes row (values m) then m else or_insert (id row) row m)

  -- One row of INSERT .. ON CONFLICT (id) DO UPDATE: `merge` is the SET clause, and may fail.
  unfoldable pub merge_row : (V → V → Option V) → V → Map V → Option V → Option (Map V)
  merge_row merge row m none = some (or_insert (id row) row m)
  merge_row merge row m (some old) = do w ← merge old row; some (insert (id row) w m)

  -- `seen` holds the keys that this command has inserted or updated: a second time is an error.
  unfoldable pub upsert_rows : (V → V → Option V) → List V → List ℕ → Map V → Option (Map V)
  unfolding merge_row
  upsert_rows merge [] seen m = some m
  upsert_rows merge (row ∷ rows) seen m = if member seen (id row) then none else (do
    m' ← merge_row merge row m (get m (id row))
    upsert_rows merge rows (id row ∷ seen) m')
