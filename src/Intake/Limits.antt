-- ===== src/Intake/Limits.antt =====
-- intake/limits.py: the limits of an intake, and the tracker that counts against them. The ratio of
-- two sizes is a float in the program: whether it passes the limit is a parameter.
use brain_flow.Prelude.{ℕ, ◌+◌, Bool, Option, none, some, ltb, if◌then◌else◌}

-- The limits that the archive adapter and the pipeline read. `ratio_exceeds e c` is
-- `e / c > max_decompression_ratio`.
pub record IntakeLimits : Type 0 where
  pub max_file_bytes : ℕ
  pub max_archive_depth : ℕ
  pub max_archive_entries : ℕ
  pub max_decompressed_bytes : ℕ
  pub ratio_exceeds : ℕ → ℕ → Bool
  pub max_segments : ℕ
  pub max_segment_chars : ℕ

pub record LimitTracker : Type 0 where
  pub limits : IntakeLimits
  pub decompressed_bytes : ℕ
  pub entries_seen : ℕ

pub data LimitError : Type 0 where
  file_size depth entry_count decompressed ratio : LimitError

unfoldable pub check_file_size : ℕ → LimitTracker → Option LimitError
check_file_size size t = if ltb t.limits.max_file_bytes size then some file_size else none

-- The tracker after the call, and the error.
unfoldable pub add_decompressed : ℕ → ℕ → LimitTracker → LimitTracker × Option LimitError
add_decompressed compressed expanded t =
    let t' = record t { decompressed_bytes = t.decompressed_bytes + expanded } in
    (
      t',
      if ltb t'.limits.max_decompressed_bytes t'.decompressed_bytes
          then some decompressed
          else if ltb 0 compressed
          then (if t'.limits.ratio_exceeds expanded compressed then some ratio else none)
          else none,
    )

unfoldable pub check_depth : ℕ → LimitTracker → Option LimitError
check_depth d t = if ltb t.limits.max_archive_depth d then some depth else none

unfoldable pub check_entry_count : LimitTracker → LimitTracker × Option LimitError
check_entry_count t =
    let t' = record t { entries_seen = t.entries_seen + 1 } in
    (t', if ltb t'.limits.max_archive_entries t'.entries_seen then some entry_count else none)
