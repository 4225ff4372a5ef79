-- ===== src/Kernel/Layout/Size.antt =====
-- The sizes of C types: every element of an array is aligned as its type asks.
use mathlib.Core.Path.{subst}
use sto.Prelude.{ℕ, zero, suc, ◌+◌, ◌*◌, ◌%◌, ◌≡◌, refl, arith}
use sto.Kernel.Layout.{
  Align, by_1, by_2, by_4, by_8, bits, round_up, CType, scalar, array, structure, packed, union,
  align_of, align_fields, size_of, fields_end, packed_end, widest,
}

-- Whether a position, or a size, is a multiple of an alignment
abbrev pub IsAligned : Align → ℕ → Type 0
IsAligned a p = p % bits a ≡ 0

pub round_up-IsAligned : (a : Align) (p : ℕ) → IsAligned a (round_up a p)
unfolding round_up
round_up-IsAligned by_1 p = omega arith
round_up-IsAligned by_2 p = omega arith
round_up-IsAligned by_4 p = omega arith
round_up-IsAligned by_8 p = omega arith

pub IsAligned-add : (a : Align) (p q : ℕ) → IsAligned a p → IsAligned a q → IsAligned a (p + q)
IsAligned-add by_1 p q hp hq = omega arith
IsAligned-add by_2 p q hp hq = omega arith
IsAligned-add by_4 p q hp hq = omega arith
IsAligned-add by_8 p q hp hq = omega arith

IsAligned-zero : (a : Align) → IsAligned a 0
IsAligned-zero by_1 = refl
IsAligned-zero by_2 = refl
IsAligned-zero by_4 = refl
IsAligned-zero by_8 = refl

IsAligned-bits : (a : Align) → IsAligned a (bits a)
IsAligned-bits by_1 = refl
IsAligned-bits by_2 = refl
IsAligned-bits by_4 = refl
IsAligned-bits by_8 = refl

IsAligned-mul : (a : Align) (n s : ℕ) → IsAligned a s → IsAligned a (n * s)
IsAligned-mul a zero s h =
    let none : 0 ≡ 0 * s = omega arith in subst (IsAligned a) none (IsAligned-zero a)
IsAligned-mul a (suc n) s h =
    let more : s + n * s ≡ suc n * s = omega arith in
    subst (IsAligned a) more (IsAligned-add a s (n * s) h (IsAligned-mul a n s h))

-- The size of a type is a multiple of its alignment.
pub size_of-IsAligned : (t : CType) → IsAligned (align_of t) (size_of t)
unfolding align_of size_of
size_of-IsAligned (scalar a) = IsAligned-bits a
size_of-IsAligned (array n t) = IsAligned-mul (align_of t) n (size_of t) (size_of-IsAligned t)
size_of-IsAligned (structure fs) = round_up-IsAligned (align_fields fs) (fields_end 0 fs)
size_of-IsAligned (packed fs) = round_up-IsAligned by_1 (packed_end 0 fs)
size_of-IsAligned (union fs) = round_up-IsAligned (align_fields fs) (widest fs)

-- The element i of an array that begins at an aligned position p begins at p + i * size_of t,
-- which is aligned as well, so an array needs no space between its elements.
pub array-IsAligned :
    (t : CType) (p i : ℕ) → IsAligned (align_of t) p → IsAligned (align_of t) (p + i * size_of t)
array-IsAligned t p i h =
    IsAligned-add (align_of t) p (i * size_of t) h
      (IsAligned-mul (align_of t) i (size_of t) (size_of-IsAligned t))
