-- ===== src/Words.antt =====
-- Machine words as bit patterns: a `u64` or an `i64` is a number below 2 ^ 64, a `u32` or an `i32`
-- one below 2 ^ 32. Release builds of the program (Cargo.toml) wrap on overflow.
mod Bytes
pub use Bytes.*
use sto.Prelude.{ℕ, ◌+◌, ◌-◌, ◌%◌, ◌^◌, ◌≤◌, ◌<◌, ◌≡◌, ltb, if◌then◌else◌, arith, Bool}

abbrev pub two_64 : ℕ
two_64 = 2 ^ 64

abbrev pub two_63 : ℕ
two_63 = 2 ^ 63

-- a + b of `i64`
unfoldable pub add_i64 : ℕ → ℕ → ℕ
add_i64 a b = (a + b) % 2 ^ 64

-- Whether a pattern is a negative `i64`.
abbrev pub is_negative : ℕ → Bool
is_negative w = ltb (2 ^ 63 - 1) w

-- `i64::abs`, which wraps at the least number
unfoldable pub abs_i64 : ℕ → ℕ
abs_i64 w = if ltb w (2 ^ 63) then w else 2 ^ 64 - w

pub abs_i64-le : (w : ℕ) → w < 2 ^ 64 → abs_i64 w ≤ 2 ^ 63
unfolding abs_i64
abs_i64-le w h = ground arith

pub abs_i64-lt : (w : ℕ) → w < 2 ^ 64 → (w ≡ 2 ^ 63 → ⊥) → abs_i64 w < 2 ^ 63
unfolding abs_i64
abs_i64-lt w h ne = ground arith

pub add_i64-lt : (a b : ℕ) → add_i64 a b < 2 ^ 64
unfolding add_i64
add_i64-lt a b = omega arith
