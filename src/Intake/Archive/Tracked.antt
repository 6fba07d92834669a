-- ===== src/Intake/Archive/Tracked.antt =====
-- intake/adapters/archive.py, intake/limits.py: the ratio test on the members of a tar archive.
use brain_flow.Prelude.{ℕ, ◌*◌, ◌≤◌, String, ◌≡◌, ◌≢◌, false, some, arith}
use brain_flow.Intake.Limits.{LimitTracker, ratio, add_decompressed}
use brain_flow.Intake.Archive.{tar_compressed}

module _ (to_lower : String → String) (binary_preview : ℕ → String) (depth : ℕ) where
  -- A tar's member has no compressed size, and the adapter takes a tenth of its size.
  tar_compressed-le : (size : ℕ) → size ≤ 19 * tar_compressed to_lower binary_preview depth size
  tar_compressed-le size = ground arith

  -- The ratio test on a tar's member never fails, whatever its size, where the limit lets a ratio of
  -- 19 through: the compressed size that the adapter makes up is too close to the member's size.
  tar-ratio_never :
      (size : ℕ) (t : LimitTracker)
      → ((expanded compressed : ℕ)
          → expanded ≤ 19 * compressed
          → t.limits.ratio_exceeds expanded compressed ≡ false)
      → (add_decompressed (tar_compressed to_lower binary_preview depth size) size t).1 ≢ some ratio
  unfolding add_decompressed
  tar-ratio_never size t fits e = ground (
    arith,
    fits size (tar_compressed to_lower binary_preview depth size) (tar_compressed-le size),
  )
