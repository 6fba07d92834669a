-- ===== src/Intake/Pipeline/Tests.antt =====
-- intake: an analysis of a small file, and the theorems at inputs that meet their hypotheses. `str.lower`
-- is the identity here, and all files have one hash.
use brain_flow.Prelude.{
  String, ◌≡◌, refl, true, false, Option, none, some, List, [], ◌∷◌, ◌++◌, ◌⊎◌, inl, inr, ltb, ◌*◌,
  map, arith,
}
use brain_flow.Prelude.Text.{Codes, codes}
use brain_flow.Intake.Limits.{IntakeLimits}
use brain_flow.Kernel.Delimit.{delimit_untrusted}
use brain_flow.Intake.Identity.{FileTools}
use brain_flow.Intake.Document.{Document, TextSegment, empty_bundle}
use brain_flow.Intake.Evidence.{head_lines, join_lines, chunk_of, format_untrusted_evidence_block}
use brain_flow.Intake.Evidence.Prefix.{IsLongest, format_untrusted_evidence_block_lem}
use brain_flow.Intake.Pipeline.{
  PipelineTools, FileInput, Analysis, AnalysisError, analyze_bytes, analyze_path,
}
use brain_flow.Intake.Pipeline.Guarded.{
  IsGuarded, reading, analyze_path-IsGuarded, analyze_bytes-unnamed,
}

abbrev files : FileTools
files = record {
  sha256_hex = λ b. "hash";
  to_lower = λ s. s;
  lstrip = λ s. s;
  decode = λ b. none;
  odf_mimetype = λ b. none;
  guess_type = λ s. none;
}

abbrev tools : PipelineTools
tools = record {
  files = files;
  adapters = [];
  new_id = "f";
  bundle_id = "b";
  validate_document_bundle = λ d. true;
}

abbrev limits : IntakeLimits
limits = record {
  max_file_bytes = 1000;
  max_archive_depth = 3;
  max_archive_entries = 2;
  max_decompressed_bytes = 1000;
  ratio_exceeds = λ e c. ltb (100 * c) e;
  max_segments = 10;
  max_segment_chars = 100;
}

-- A program that is sent with its filename.
abbrev named : FileInput
named = record {
  filename = some "setup.exe";
  path = some "/in/setup.exe";
  path_mode = "link";
  file_id = none;
  limits = limits;
  include_evidence_block = true;
  modified_at = none;
  depth = 0;
}

-- The same program, with its path only.
abbrev unnamed : FileInput
unnamed = record named { filename = none; include_evidence_block = false }

abbrev program : Codes
program = codes "MZ prog"

abbrev empty : Analysis
empty = record {
  bundle = empty_bundle "" "" (record {
    file_id = "";
    content_hash = "";
    mime_type = "";
    size_bytes = 0;
    path = none;
    path_mode = "";
    modified_at = none;
  });
  validation = false;
  adapters = [];
  evidence_block = none;
}

abbrev answer_of : Analysis ⊎ AnalysisError → Analysis
answer_of (inl a) = a
answer_of (inr e) = empty

abbrev given_of : Option Analysis → Analysis
given_of (some a) = a
given_of none = empty

named-answered :
    analyze_path tools program program named
    ≡ inl (answer_of (analyze_path tools program program named))
unfolding analyze_path
named-answered = refl

analyze_path-IsGuarded_example :
    IsGuarded tools program named program (answer_of (analyze_path tools program program named))
analyze_path-IsGuarded_example =
    analyze_path-IsGuarded tools program named program
      (answer_of (analyze_path tools program program named)) named-answered

unnamed-given :
    analyze_bytes tools program unnamed ≡ some (given_of (analyze_bytes tools program unnamed))
unfolding analyze_bytes
unnamed-given = refl

analyze_bytes-unnamed_example :
    (given_of (analyze_bytes tools program unnamed)).bundle ≡ reading tools program unnamed
analyze_bytes-unnamed_example =
    analyze_bytes-unnamed tools program unnamed (given_of (analyze_bytes tools program unnamed))
      refl (omega arith) unnamed-given

abbrev said : String → TextSegment
said text = record { id = codes "s"; kind = codes "text"; text = codes text }

abbrev two_segments : Document
two_segments = record empty.bundle { segments = said "hello" ∷ said "a longer text" ∷ [] }

format_untrusted_evidence_block_lem_example :
    (kept : List TextSegment) × (tail : List Codes) × (format_untrusted_evidence_block 20
        two_segments
      ≡ some (
          delimit_untrusted
            (codes "document_bundle")
            (join_lines (head_lines two_segments ++ map chunk_of kept ++ tail))))
    × IsLongest 20 0 two_segments.segments kept tail
format_untrusted_evidence_block_lem_example =
    (format_untrusted_evidence_block_lem 20 two_segments).1 refl
