-- ===== src/Words/Bytes.antt =====
-- Words as byte strings, least significant byte first (memory) and last (`to_be_bytes`).
use mathlib.Core.List.{reverse, reverse-reverse}
use native.Mathlib.Nat.{pow-suc}
use sto.Prelude.{
  ℕ, zero, suc, ◌+◌, ◌*◌, ◌/◌, ◌%◌, ◌^◌, ◌<◌, ◌≡◌, refl, sym, ap, ap₂, append_assoc, ◌∙◌, List, [],
  ◌∷◌, ◌++◌, arith, length, take, All, drop, length-append, length-reverse, take-length-append,
  drop-length-append,
}

-- The `k` bytes of `w` as they lie in little-endian memory.
unfoldable pub le_bytes : ℕ → ℕ → List ℕ
le_bytes zero w = []
le_bytes (suc k) w = (w % 256) ∷ le_bytes k (w / 256)

unfoldable pub of_le_bytes : List ℕ → ℕ
of_le_bytes [] = 0
of_le_bytes (b ∷ bs) = b + 256 * of_le_bytes bs

-- `to_be_bytes` of a word of `k` bytes
unfoldable pub to_be_bytes : ℕ → ℕ → List ℕ
to_be_bytes k w = reverse (le_bytes k w)

pub length-le_bytes : (k w : ℕ) → length (le_bytes k w) ≡ k
unfolding le_bytes
length-le_bytes zero w = refl
length-le_bytes (suc k) w = ap suc (length-le_bytes k (w / 256))

pub of_le_bytes-le_bytes : (k w : ℕ) → w < 256 ^ k → of_le_bytes (le_bytes k w) ≡ w
unfolding le_bytes of_le_bytes
of_le_bytes-le_bytes zero w h = omega arith
of_le_bytes-le_bytes (suc k) w h =
    let h' : w < 256 ^ k * 256 = rw (← pow-suc 256 k) h in
    omega (arith, of_le_bytes-le_bytes k (w / 256) (omega arith))

pub length-to_be_bytes : (k w : ℕ) → length (to_be_bytes k w) ≡ k
unfolding to_be_bytes
length-to_be_bytes k w = length-reverse (le_bytes k w) ∙ length-le_bytes k w

-- A word is determined by its bytes.
pub to_be_bytes-injective :
    (k v w : ℕ) → v < 256 ^ k → w < 256 ^ k → to_be_bytes k v ≡ to_be_bytes k w → v ≡ w
unfolding to_be_bytes
to_be_bytes-injective k v w hv hw e =
    let e' : le_bytes k v ≡ le_bytes k w =
      sym (reverse-reverse (le_bytes k v)) ∙ ap reverse e ∙ reverse-reverse (le_bytes k w) in
    sym (of_le_bytes-le_bytes k v hv) ∙ ap of_le_bytes e' ∙ of_le_bytes-le_bytes k w hw

-- Reading a word of `k` bytes at the front of a buffer.
unfoldable pub read_le : ℕ → List ℕ → ℕ
read_le k bs = of_le_bytes (take k bs)

pub read_le-le_bytes :
    (k w : ℕ) (rest : List ℕ) → w < 256 ^ k → read_le k (le_bytes k w ++ rest) ≡ w
unfolding read_le
read_le-le_bytes k w rest h =
    rw (take-length-append (le_bytes k w) rest k (length-le_bytes k w)) (of_le_bytes-le_bytes k w h)

-- An array of `n` words of `k` bytes each, in memory order.
unfoldable pub array_bytes : ℕ → List ℕ → List ℕ
array_bytes k [] = []
array_bytes k (w ∷ ws) = le_bytes k w ++ array_bytes k ws

unfoldable pub read_array : ℕ → ℕ → List ℕ → List ℕ
read_array zero k bs = []
read_array (suc n) k bs = read_le k bs ∷ read_array n k (drop k bs)

pub length-array_bytes : (k : ℕ) (ws : List ℕ) → length (array_bytes k ws) ≡ length ws * k
unfolding array_bytes
length-array_bytes k [] = omega arith
length-array_bytes k (w ∷ ws) = omega (
  arith,
  length-append (le_bytes k w) (array_bytes k ws),
  length-le_bytes k w,
  length-array_bytes k ws,
)

pub read_array-array_bytes :
    (k : ℕ) (ws rest : List ℕ)
    → All (λ w. w < 256 ^ k) ws
    → read_array (length ws) k (array_bytes k ws ++ rest) ≡ ws
unfolding read_array array_bytes
read_array-array_bytes k [] rest h = refl
read_array-array_bytes k (w ∷ ws) rest h =
    rw (append_assoc (le_bytes k w) (array_bytes k ws) rest) (
      ap₂ ◌∷◌ (read_le-le_bytes k w (array_bytes k ws ++ rest) h.0) (
        rw (drop-length-append (le_bytes k w) (array_bytes k ws ++ rest) k (length-le_bytes k w))
          (read_array-array_bytes k ws rest h.1)))
