-- ===== src/Kernel/Layout.antt =====
-- How C lays out a structure on x86-64, as the BPF program and the kernel must agree on it. Sizes
-- and positions are in bits, since a field of src/bpf/vmlinux.h may be a bit-field.
pub mod Size
use Prim.Native.String.{String}
use sto.Prelude.{
  ℕ, zero, suc, ◌+◌, ◌*◌, ◌/◌, ◌%◌, Bool, List, [], ◌∷◌, ltb, leb, ◌==◌, ◌||◌, if◌then◌else◌,
}

-- The alignments of the types, in bytes
pub data Align : Type 0 where
  by_1 : Align
  by_2 : Align
  by_4 : Align
  by_8 : Align

abbrev pub bits : Align → ℕ
bits by_1 = 8
bits by_2 = 16
bits by_4 = 32
bits by_8 = 64

-- The stricter of two alignments
unfoldable pub stricter : Align → Align → Align
stricter by_1 b = b
stricter by_2 by_1 = by_2
stricter by_2 b = b
stricter by_4 by_8 = by_8
stricter by_4 b = by_4
stricter by_8 b = by_8

-- The next position that is aligned
unfoldable pub round_up : Align → ℕ → ℕ
round_up by_1 p = (p + 7) / 8 * 8
round_up by_2 p = (p + 15) / 16 * 16
round_up by_4 p = (p + 31) / 32 * 32
round_up by_8 p = (p + 63) / 64 * 64

-- A scalar is as long as its alignment: an integer, an enum, or a pointer. A structure that is
-- packed has the attribute. `◌at◌` is a field, `bit_field` one with a width, and `padding` one
-- without a name, which only takes space.
infixr 5 ◌▸◌
infix 6 ◌at◌
mutual
  pub data CType : Type 0 where
    scalar : Align → CType
    array : ℕ → CType → CType
    structure : Fields → CType
    packed : Fields → CType
    union : Fields → CType

  pub data Field : Type 0 where
    ◌at◌ : String → CType → Field
    bit_field : String → Align → ℕ → Field
    padding : Align → ℕ → Field

  pub data Fields : Type 0 where
    end : Fields
    ◌▸◌ : Field → Fields → Fields

-- The scalars of the ABI; an enum is an `int`.
abbrev pub char : CType
char = scalar by_1

abbrev pub short : CType
short = scalar by_2

abbrev pub int : CType
int = scalar by_4

abbrev pub long : CType
long = scalar by_8

abbrev pub pointer : CType
pointer = scalar by_8

unfoldable mutual
  pub align_of : CType → Align
  align_of (scalar a) = a
  align_of (array n t) = align_of t
  align_of (structure fs) = align_fields fs
  align_of (packed fs) = by_1
  align_of (union fs) = align_fields fs

  pub align_field : Field → Align
  align_field (name at t) = align_of t
  align_field (bit_field name a w) = a
  align_field (padding a w) = by_1

  pub align_fields : Fields → Align
  align_fields end = by_1
  align_fields (f ▸ fs) = stricter (align_field f) (align_fields fs)

-- A bit-field that would cross the end of a unit of its type begins in the next unit, and one of
-- width 0 ends the unit.
unfoldable pub unit_start : Align → ℕ → ℕ → ℕ
unit_start a w p = if (w == 0) || ltb (bits a) (p % bits a + w) then round_up a p else p

unfoldable pub larger : ℕ → ℕ → ℕ
larger m n = if ltb m n then n else m

unfoldable mutual
  pub size_of : CType → ℕ
  size_of (scalar a) = bits a
  size_of (array n t) = n * size_of t
  size_of (structure fs) = round_up (align_fields fs) (fields_end 0 fs)
  size_of (packed fs) = round_up by_1 (packed_end 0 fs)
  size_of (union fs) = round_up (align_fields fs) (widest fs)

  -- The size of a field
  pub width : Field → ℕ
  width (name at t) = size_of t
  width (bit_field name a w) = w
  width (padding a w) = w

  -- Where the field begins if what stands before it ends at p
  pub field_start : ℕ → Field → ℕ
  field_start p (name at t) = round_up (align_of t) p
  field_start p (bit_field name a w) = unit_start a w p
  field_start p (padding a w) = unit_start a w p

  pub fields_end : ℕ → Fields → ℕ
  fields_end p end = p
  fields_end p (f ▸ fs) = fields_end (field_start p f + width f) fs

  pub packed_end : ℕ → Fields → ℕ
  packed_end p end = p
  packed_end p (f ▸ fs) = packed_end (packed_start p f + width f) fs

  -- In a packed structure a field begins at the next byte, and a bit-field at the next bit.
  pub packed_start : ℕ → Field → ℕ
  packed_start p (name at t) = round_up by_1 p
  packed_start p (bit_field name a w) = p
  packed_start p (padding a w) = p

  pub widest : Fields → ℕ
  widest end = 0
  widest (f ▸ fs) = larger (width f) (widest fs)

-- Where each field of a structure stands
pub record Place : Type 0 where
  pub field : Field
  pub start : ℕ
  pub size : ℕ

unfoldable pub places : ℕ → Fields → List Place
places p end = []
places p (f ▸ fs) =
    record { field = f; start = field_start p f; size = width f }
    ∷ places (field_start p f + width f) fs

-- The fields of a structure
abbrev pub fields_of : CType → Fields
fields_of (structure fs) = fs
fields_of t = end
