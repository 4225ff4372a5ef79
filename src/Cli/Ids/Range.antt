-- ===== src/Cli/Ids/Range.antt =====
-- The range of an identifier.
use sto.Prelude.{◌^◌, ◌<◌, ◌≡◌, ◌≢◌, arith}
use sto.Words.{abs_i64, abs_i64-lt}
use sto.Cli.Ids.{Hasher, HasherLaws, to_id}

module _ (h : Hasher) (laws : HasherLaws h) where
  -- An identifier is a pattern that fits an `i64`, and it is not negative as long as the digest is
  -- not the one number that `abs` cannot make positive.
  pub to_id-lt :
      (s : h.State)
      → (to_id h s < 2 ^ 64)
        × (h.finalize64 s ≢ 2 ^ 63 → to_id h s < 2 ^ 63)
        × (h.finalize64 s ≡ 2 ^ 63 → to_id h s ≡ 2 ^ 63)
  unfolding to_id abs_i64
  to_id-lt s = (
    ground (arith, laws.finalize64_word s),
    λ ne. abs_i64-lt (h.finalize64 s) (laws.finalize64_word s) ne,
    λ e. rw e,
  )
