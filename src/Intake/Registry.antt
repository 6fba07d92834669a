-- ===== src/Intake/Registry.antt =====
-- intake/registry.py: the adapter that reads a file, and the adapter for files that no other reads. The
-- other adapters are parameters.
use brain_flow.Prelude.{
  ℕ, zero, suc, String, Bool, true, ◌&&◌, ◌||◌, Option, none, some, List, [], ◌∷◌, ◌++◌, any, leb,
  ltb, ◌==◌, length, map, if◌then◌else◌,
}
use brain_flow.Prelude.Text.{Codes, codes, or_text}
use brain_flow.Intake.Limits.{IntakeLimits, LimitTracker}
use brain_flow.Intake.Quarantine.{QuarantineResult}
use brain_flow.Intake.Identity.{take_codes}
use brain_flow.Intake.Evidence.{join_lines}
use brain_flow.Intake.Document.{Document, Source, needs_adapter, empty_bundle, apply_security}

-- adapters/context.py
pub record AdapterContext : Type 0 where
  pub filename : Option String
  pub path : Option String
  pub path_mode : String
  pub file_id : String
  pub content_hash : String
  pub mime_type : String
  pub size_bytes : ℕ
  pub limits : IntakeLimits
  pub tracker : LimitTracker
  pub quarantine : QuarantineResult
  pub depth : ℕ

pub record Adapter : Type 0 where
  pub id : String
  pub supports : String → Option String → Codes → Bool
  pub extract : Codes → AdapterContext → Document

abbrev is_printable : ℕ → Bool
is_printable b = (leb 32 b && ltb b 127) || (b == 9 || (b == 10 || b == 13))

-- The buffer, if it is long enough to count.
abbrev flush : Codes → List Codes
flush buf = if leb 4 (length buf) then buf ∷ [] else []

-- The body of the loop over the bytes: the buffer, and the strings so far.
abbrev scan_byte : ℕ → Codes × List Codes → Codes × List Codes
scan_byte b (buf, printable) =
    if is_printable b then (buf ++ b ∷ [], printable) else ([], printable ++ flush buf)

unfoldable pub printable_strings : Codes × List Codes → Codes → List Codes
printable_strings (buf, printable) [] = printable ++ flush buf
printable_strings (buf, printable) (b ∷ bytes) =
    printable_strings (scan_byte b (buf, printable)) bytes

abbrev take_lines : ℕ → List Codes → List Codes
take_lines zero lines = []
take_lines (suc n) [] = []
take_lines (suc n) (line ∷ lines) = line ∷ take_lines n lines

-- strings.strip(): something else than blanks is left of printable characters.
abbrev has_ink : Codes → Bool
has_ink strings = any (λ b. ltb 32 b) strings

abbrev source_of : AdapterContext → Source
source_of ctx = record {
  file_id = ctx.file_id;
  content_hash = ctx.content_hash;
  mime_type = or_text (some ctx.mime_type) "application/octet-stream";
  size_bytes = ctx.size_bytes;
  path = ctx.path;
  path_mode = ctx.path_mode;
  modified_at = none;
}

-- UnknownBinaryAdapter.extract
unfoldable pub extract_unknown : String → Codes → AdapterContext → Document
unfolding printable_strings apply_security
extract_unknown bundle_id bytes ctx =
    let strings =
      join_lines (take_lines 200 (printable_strings ([], []) (take_codes 64000 bytes))) in
    let bundle = empty_bundle bundle_id "unknown_binary" (source_of ctx) in
    let read =
      if has_ink strings
      then record bundle {
        segments =
            record {
              id = codes "strings-0";
              kind = codes "raw_meta";
              text = take_codes 8000 strings;
            }
            ∷ [];
        warnings = needs_adapter ∷ [];
        confidence = 20;
      }
      else record bundle { errors = needs_adapter ∷ [] } in
    apply_security (ctx.quarantine.actions ++ "binary_not_executed" ∷ [])
      ctx.quarantine.active_content_flags read

abbrev pub unknown_binary : String → Adapter
unknown_binary bundle_id = record {
  id = "unknown_binary";
  supports = λ mime filename bytes. true;
  extract = extract_unknown bundle_id;
}

-- The first adapter of the list that supports the file, or else the one for unknown files.
unfoldable pub resolve_adapter : Adapter → List Adapter → String → Option String → Codes → Adapter
resolve_adapter unknown [] mime filename bytes = unknown
resolve_adapter unknown (a ∷ adapters) mime filename bytes =
    let rest = resolve_adapter unknown adapters mime filename bytes in
    if a.supports mime filename bytes then a else rest

abbrev pub list_adapters : List Adapter → List String
list_adapters adapters = map (λ a. a.id) adapters
