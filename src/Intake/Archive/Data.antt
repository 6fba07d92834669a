-- ===== src/Intake/Archive/Data.antt =====
-- intake/adapters/archive.py: members, segments and the state of the loops.
use brain_flow.Prelude.{
  ℕ, zero, suc, String, Bool, true, false, Option, List, [], ◌∷◌, ◌++◌, leb, ltb, if◌then◌else◌,
}
use brain_flow.Prelude.Text.{Codes, codes, take_chars, char_count}
use brain_flow.Intake.Limits.{LimitTracker, LimitError}
use brain_flow.Intake.Quarantine.{QuarantineResult, BlockReason}

-- What a read of a member gives: its bytes, by their number and their text if they are UTF-8.
pub record Content : Type 0 where
  pub size : ℕ
  pub text : Option String

-- A member of an archive. `content` is `none` where the read raises.
pub record Member : Type 0 where
  pub filename : String
  pub is_file : Bool
  pub compress_size : ℕ
  pub file_size : ℕ
  pub content : Option Content

pub data Issue : Type 0 where
  resource_limit : LimitError → Issue
  nested_archive read_exceeded corrupt segment_limit no_entries : Issue
  quarantined : Option BlockReason → String → Issue
  unreadable truncated : String → Issue

pub record Segment : Type 0 where
  pub order : ℕ
  pub entry_path : String
  pub text : String

-- The confidences that the adapter gives, in tenths.
pub record Bundle : Type 0 where
  pub errors : List Issue
  pub warnings : List Issue
  pub segments : List Segment
  pub confidence : ℕ

-- The state of an extraction: the bundle, and the parts of the context that change.
pub record State : Type 0 where
  pub bundle : Bundle
  pub tracker : LimitTracker
  pub quarantine : QuarantineResult
  pub order : ℕ

abbrev pub add_error : Issue → State → State
add_error i s = record s { bundle = record s.bundle { errors = s.bundle.errors ++ i ∷ [] } }

abbrev pub add_warning : Issue → State → State
add_warning i s = record s { bundle = record s.bundle { warnings = s.bundle.warnings ++ i ∷ [] } }

-- What the body of a loop does next: it goes on, it leaves the loop, or it returns.
pub data Next : Type 0 where
  continues breaks returns : State → Next

-- info.compress_size or 1
abbrev pub or_one : ℕ → ℕ
or_one zero = 1
or_one (suc n) = suc n

abbrev pub archive_endings : List Codes
archive_endings = codes ".zip" ∷ codes ".tar" ∷ codes ".tgz" ∷ codes ".tar.gz" ∷ []

-- truncate_text
unfoldable pub truncate_text : String → ℕ → String × Bool
truncate_text text max_chars =
    if leb (char_count text) max_chars then (text, false) else (take_chars max_chars text, true)

abbrev pub min : ℕ → ℕ → ℕ
min a b = if ltb b a then b else a

-- What the bytes of an archive are: a zip, with its members if it can be opened, or a tar.
pub data Archive : Type 0 where
  zip tar : Option (List Member) → Archive
  unrecognized : Archive
