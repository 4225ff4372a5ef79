-- ===== src/Server/Dag/Name.antt =====
-- The names that the flame graph shows.
use sto.Prelude.{
  ℕ, ◌≡◌, refl, sym, ap, ◌⊎◌, inl, inr, true, false, Option, some, [], ◌∷◌, ◌++◌, arith,
  if◌then◌else◌, Bool-cases,
}
use sto.Text.{contains, after_last, codes}
use sto.Text.Bytes.{contains-after_last}
use sto.Defs.{Text}
use sto.Server.Dag.{base_filename, line_suffix, label}

-- What stands before the last `c`.
unfoldable before_last : ℕ → Text → Text
before_last c [] = []
before_last c (d ∷ ds) = let rest = before_last c ds in if contains c ds then d ∷ rest else []

split_last : (c : ℕ) (s : Text) → contains c s ≡ true → s ≡ before_last c s ++ c ∷ after_last c s
unfolding contains after_last before_last
split_last c [] h = cc
split_last c (d ∷ ds) h = elim (Bool-cases (contains c ds)) [
  | inl later ↦ rw later (ap (◌∷◌ d) (split_last c ds later))
  | inr last ↦ ground arith
]

-- The frame of a function with a file is named after the function, a colon, what of the file
-- stands behind its last slash, and the line if there is one. The part behind the slash holds no
-- slash, and is the whole file if that has none.
pub label_lem :
    (symbol file : Text) (line : Option ℕ)
    → (base : Text) × (label symbol (some file) line
        ≡ symbol ++ (codes ":" ++ (base ++ line_suffix line)))
      × (contains b'/' base ≡ false)
      × ((file ≡ base) ⊎ ((dir : Text) × (file ≡ dir ++ b'/' ∷ base)))
unfolding label
label_lem symbol file line = elim (Bool-cases (contains b'/' file)) [
  | inl slash ↦
      let base_lem : base_filename file ≡ after_last b'/' file = unfold base_filename in rw slash in
      (
        base_filename file,
        refl,
        rw base_lem (contains-after_last b'/' file),
        inr (before_last b'/' file, rw base_lem (split_last b'/' file slash)),
      )
  | inr plain ↦
      let base_lem : base_filename file ≡ file = unfold base_filename in rw plain in
      (base_filename file, refl, rw base_lem plain, inl (sym base_lem))
]
