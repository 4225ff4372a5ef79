-- ===== src/Text/Bytes.antt =====
-- The UTF-8 bytes of a concatenation, and the file name behind the last slash.
use sto.Prelude.{ℕ, ◌≡◌, refl, true, false, List, [], ◌∷◌, ◌++◌, append_assoc, arith, sym}
use sto.Text.{as_bytes, utf8, contains, after_last}

pub as_bytes-append : (s t : List ℕ) → as_bytes (s ++ t) ≡ as_bytes s ++ as_bytes t
unfolding as_bytes
as_bytes-append [] t = refl
as_bytes-append (c ∷ s) t =
    rw (as_bytes-append s t) (sym (append_assoc (utf8 c) (as_bytes s) (as_bytes t)))

-- What stands behind the last `c` holds no `c`.
pub contains-after_last : (c : ℕ) (s : List ℕ) → contains c (after_last c s) ≡ false
unfolding contains after_last
contains-after_last c [] = refl
contains-after_last c (d ∷ ds) = ground (arith, contains-after_last c ds)

contains-middle : (c : ℕ) (dir base : List ℕ) → contains c (dir ++ c ∷ base) ≡ true
unfolding contains
contains-middle c [] base = ground arith
contains-middle c (d ∷ dir) base = ground (arith, contains-middle c dir base)

-- Behind the last `c` of `dir c base` stands `base`, if that holds no further `c`.
pub after_last-append :
    (c : ℕ) (dir base : List ℕ) → contains c base ≡ false → after_last c (dir ++ c ∷ base) ≡ base
unfolding contains after_last
after_last-append c [] base h = ground arith
after_last-append c (d ∷ dir) base h =
    ground (arith, after_last-append c dir base h, contains-middle c dir base)
