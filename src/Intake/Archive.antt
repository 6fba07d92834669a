-- ===== src/Intake/Archive.antt =====
-- intake/adapters/archive.py: the loops over the members of a zip and of a tar archive. What the
-- libraries `zipfile` and `tarfile` give of a member is data; `str.lower`, the text of a number and
-- `tarfile.is_tarfile` are parameters.
mod Data
pub mod Tracked
pub mod Between
pub mod Steps
pub mod Members
unfoldable pub use Data.*
use brain_flow.Prelude.{
  str_eq, ℕ, zero, suc, ◌+◌, ◌-◌, ◌/◌, String, Bool, true, false, ◌&&◌, not, Option, none, some,
  List, [], ◌∷◌, ◌++◌, leb, ltb, any, if◌then◌else◌,
}
use brain_flow.Prelude.Text.{or_text, starts_with, Codes, codes, ends_with, take_chars, char_count}
use brain_flow.Intake.Limits.{
  IntakeLimits, LimitTracker, LimitError, add_decompressed, check_depth, check_entry_count,
}
use brain_flow.Intake.Quarantine.{
  QuarantineResult, BlockReason, quarantine_archive_entry, merge_quarantine,
}

module _ (to_lower : String → String) (binary_preview : ℕ → String) (depth : ℕ) where
  abbrev pub is_nested : String → Bool
  is_nested name = any (λ p. ends_with (codes (to_lower name)) p) archive_endings

  abbrev pub preview : Content → String
  preview c = elim c.text [ none ↦ binary_preview c.size | some t ↦ t ]

  unfoldable pub add_segment : String → String → State → State
  add_segment name text s = record s {
    bundle = record s.bundle {
      segments =
          s.bundle.segments ++ record { order = s.order; entry_path = name; text = text } ∷ [];
    };
    order = s.order + 1;
  }

  unfoldable pub at_segment_limit : State → Next
  at_segment_limit s =
      if leb s.tracker.limits.max_segments s.order
      then breaks (add_warning segment_limit s)
      else continues s

  -- From the preview on.
  unfoldable pub zip_text : String → Content → State → Next
  zip_text name c s =
      let (text, cut) = truncate_text (preview c) (min 8000 s.tracker.limits.max_segment_chars) in
      let s' = if cut then add_warning (truncated name) s else s in
      at_segment_limit (add_segment name text s')

  -- From the read on: the cap on what was read is what is left of the budget, and the member's
  -- declared size on top.
  unfoldable pub zip_read : Member → State → Next
  zip_read m s = elim m.content [
    | none ↦ continues (add_warning (unreadable m.filename) s)
    | some c ↦
        let remaining =
          s.tracker.limits.max_decompressed_bytes - (s.tracker.decompressed_bytes - m.file_size) in
        if ltb (remaining + m.file_size) c.size
        then returns (add_error read_exceeded s)
        else zip_text m.filename c s
  ]

  unfoldable pub zip_sized : Member → State → Next
  zip_sized m s =
      let (t, error) = add_decompressed (or_one m.compress_size) m.file_size s.tracker in
      let s' = record s { tracker = t } in
      elim error [
        | some e ↦ returns (add_error (resource_limit e) s')
        | none ↦
            if is_nested m.filename && ltb s'.tracker.limits.max_archive_depth (depth + 1)
            then returns (add_error nested_archive s')
            else zip_read m s'
      ]

  abbrev pub block_member : QuarantineResult → String → State → Next
  block_member q name s = continues (add_warning (quarantined q.block_reason name) s)

  -- The body of the loop of `_extract_zip`.
  unfoldable pub zip_member : Member → State → Next
  zip_member m s =
      if not m.is_file
      then continues s
      else (let (t, error) = check_entry_count s.tracker in
          let s' = record s { tracker = t } in
          elim error [
            | some e ↦ returns (add_error (resource_limit e) s')
            | none ↦
                let q = quarantine_archive_entry to_lower m.filename in
                let s'' = record s' { quarantine = merge_quarantine (s'.quarantine ∷ q ∷ []) } in
                if q.blocked then block_member q m.filename s'' else zip_sized m s''
          ])

  -- From the read of a tar's member on.
  unfoldable pub tar_read : Member → State → Next
  tar_read m s = elim m.content [
    | none ↦ continues (add_warning (unreadable m.filename) s)
    | some c ↦ continues (add_segment m.filename (truncate_text (preview c) 8000).0 s)
  ]

  -- max(1, size // 10)
  abbrev pub tar_compressed : ℕ → ℕ
  tar_compressed size = if ltb 1 (size / 10) then size / 10 else 1

  unfoldable pub tar_sized : Member → State → Next
  tar_sized m s =
      let (t, error) = add_decompressed (tar_compressed m.file_size) m.file_size s.tracker in
      let s' = record s { tracker = t } in
      elim error [ some e ↦ returns (add_error (resource_limit e) s') | none ↦ tar_read m s' ]

  -- The body of the loop of `_extract_tar`.
  unfoldable pub tar_member : Member → State → Next
  tar_member m s =
      if not m.is_file
      then continues s
      else (let (t, error) = check_entry_count s.tracker in
          let s' = record s { tracker = t } in
          elim error [
            | some e ↦ returns (add_error (resource_limit e) s')
            | none ↦
                let q = quarantine_archive_entry to_lower m.filename in
                let s'' = record s' { quarantine = merge_quarantine (s'.quarantine ∷ q ∷ []) } in
                if q.blocked then block_member q m.filename s'' else tar_sized m s''
          ])

  -- A loop over the members. A break ends it as its end does; `true`: it returned.
  unfoldable pub each : (Member → State → Next) → List Member → State → State × Bool
  each body [] s = (s, false)
  each body (m ∷ ms) s = elim (body m s) [
    | continues s' ↦ each body ms s'
    | breaks s' ↦ (s', false)
    | returns s' ↦ (s', true)
  ]

  abbrev pub with_confidence : ℕ → State → State
  with_confidence n s = record s { bundle = record s.bundle { confidence = n } }

  abbrev pub is_nil : {A : Type 0} → List A → Bool
  is_nil [] = true
  is_nil (_ ∷ _) = false

  abbrev confidence_of : State → ℕ
  confidence_of s = if is_nil s.bundle.segments then 3 else 8

  unfoldable pub extract_zip : List Member → State → State
  extract_zip members s =
      let (s', returned) = each zip_member members s in
      if returned
      then with_confidence 2 s'
      else (let s'' =
            if is_nil s'.bundle.segments && is_nil s'.bundle.errors
            then add_warning no_entries s'
            else s' in
          with_confidence (confidence_of s') s'')

  unfoldable pub extract_tar : List Member → State → State
  extract_tar members s =
      let (s', returned) = each tar_member members s in
      if returned then with_confidence 2 s' else with_confidence (confidence_of s') s'

  -- ArchiveAdapter.extract
  unfoldable pub extract : Archive → State → State
  extract a s = elim (check_depth depth s.tracker) [
    | some e ↦ with_confidence 0 (add_error (resource_limit e) s)
    | none ↦ elim a [
      | zip (some members) ↦ extract_zip members s
      | tar (some members) ↦ extract_tar members s
      | _ ↦ with_confidence 0 (add_error corrupt s)
    ]
  ]

abbrev archive_mimes : List String
archive_mimes =
    "application/zip" ∷ "application/x-zip-compressed" ∷ "application/gzip" ∷ "application/x-tar"
    ∷ "application/x-gtar" ∷ []

abbrev office_endings : List String
office_endings =
    ".docx" ∷ ".pptx" ∷ ".xlsx" ∷ ".docm" ∷ ".pptm" ∷ ".xlsm" ∷ ".odt" ∷ ".ods" ∷ ".odp" ∷ []

abbrev file_endings : List String
file_endings = ".zip" ∷ ".tar" ∷ ".tgz" ∷ ".tar.gz" ∷ []

abbrev ends_in : List String → String → Bool
ends_in endings name = any (λ e. ends_with (codes name) (codes e)) endings

-- Whether the adapter takes a file. `mimetype` is the text of the zip's member of that name, if the file is
-- a zip that can be read and has one.
unfoldable pub supports : (String → String) → String → Option String → Option String → Bool
supports to_lower mime filename mimetype =
    let lower = to_lower (or_text filename "") in
    if any (str_eq mime) archive_mimes
    then not (ends_in office_endings lower) && elim mimetype [
      | none ↦ true
      | some mt ↦ not (starts_with (codes mt) (codes "application/vnd.oasis.opendocument."))
    ]
    else ends_in file_endings lower
