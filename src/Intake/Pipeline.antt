-- ===== src/Intake/Pipeline.antt =====
-- intake/pipeline.py: the analysis of a file, from its bytes to its bundle and its evidence. The adapters,
-- the schema of a bundle and the random ids are parameters.
pub mod Guarded
mod Tests
use brain_flow.Prelude.{
  ℕ, String, Bool, true, false, ◌&&◌, not, Option, none, some, List, [], ◌∷◌, ◌++◌, ◌⊎◌, inl, inr,
  length, str_eq, if◌then◌else◌,
}
use brain_flow.Prelude.Text.{Codes, or_text, is_empty}
use brain_flow.Intake.Limits.{IntakeLimits, LimitTracker, check_file_size}
use brain_flow.Intake.Quarantine.{QuarantineResult, quarantine_path_name, in_list, dedup_from}
use brain_flow.Intake.Identity.{FileTools, FileIdentity, identify, content_hash}
use brain_flow.Intake.Document.{
  Document, Source, empty_bundle, apply_security, resource_limit, quarantined,
}
use brain_flow.Intake.Evidence.{format_untrusted_evidence_block}
use brain_flow.Intake.Registry.{
  Adapter, AdapterContext, unknown_binary, resolve_adapter, list_adapters,
}

pub record PipelineTools : Type 0 where
  pub files : FileTools
  pub adapters : List Adapter
  pub new_id : String
  pub bundle_id : String
  pub validate_document_bundle : Document → Bool

pub record FileInput : Type 0 where
  pub filename : Option String
  pub path : Option String
  pub path_mode : String
  pub file_id : Option String
  pub limits : IntakeLimits
  pub include_evidence_block : Bool
  pub modified_at : Option String
  pub depth : ℕ

pub record Analysis : Type 0 where
  pub bundle : Document
  pub validation : Bool
  pub adapters : List String
  pub evidence_block : Option Codes

pub data AnalysisError : Type 0 where
  not_untrusted source_mutated hash_mismatch : AnalysisError

-- The endings that are refused at the top level.
abbrev refused_endings : List String
refused_endings = ".exe" ∷ ".dll" ∷ ".bat" ∷ ".cmd" ∷ ".msi" ∷ ".scr" ∷ ".com" ∷ []

abbrev pub is_refused_ending : Option String → Bool
is_refused_ending none = false
is_refused_ending (some e) = in_list refused_endings e

abbrev pub max_evidence_chars : ℕ
max_evidence_chars = 12000

abbrev pub is_some : {A : Type 0} → Option A → Bool
is_some none = false
is_some (some _) = true

-- The time of the last change, where the adapter has not written one.
abbrev with_time : Option String → Document → Document
with_time none d = d
with_time (some t) d = if is_empty t then d else elim d.source.modified_at [
  | none ↦ record d { source = record d.source { modified_at = some t } }
  | some _ ↦ d
]

module _ (tools : PipelineTools) where
  abbrev evidence_of : Document → Option Analysis
  evidence_of bundle = elim (format_untrusted_evidence_block max_evidence_chars bundle) [
    | none ↦ none
    | some block ↦ some (record {
      bundle = bundle;
      validation = tools.validate_document_bundle bundle;
      adapters = list_adapters tools.adapters;
      evidence_block = some block;
    })
  ]

  -- `none` is the ValueError of a bundle that is not marked as untrusted.
  unfoldable pub wrap : Bool → Document → Option Analysis
  unfolding format_untrusted_evidence_block
  wrap include_evidence_block bundle =
      if include_evidence_block
      then evidence_of bundle
      else some (record {
        bundle = bundle;
        validation = tools.validate_document_bundle bundle;
        adapters = list_adapters tools.adapters;
        evidence_block = none;
      })

  abbrev source_for : FileIdentity → FileInput → Source
  source_for identity x = record {
    file_id = or_text x.file_id tools.new_id;
    content_hash = identity.content_hash;
    mime_type = identity.sniffed_mime;
    size_bytes = identity.size_bytes;
    path = x.path;
    path_mode = x.path_mode;
    modified_at = x.modified_at;
  }

  -- The bundle of a file that is too large.
  abbrev pub oversized : FileIdentity → FileInput → Document
  oversized identity x =
      let bundle = empty_bundle tools.bundle_id "limits" (source_for identity x) in
      record bundle {
        errors = resource_limit ∷ [];
        security = record bundle.security { limits_applied = some x.limits.max_file_bytes };
      }

  -- The bundle of a file whose name is refused.
  unfoldable pub blocked_bundle : FileIdentity → QuarantineResult → FileInput → Document
  unfolding apply_security
  blocked_bundle identity q x =
      let bundle = empty_bundle tools.bundle_id "quarantine" (source_for identity x) in
      let d =
        apply_security q.actions q.active_content_flags
          (record bundle { errors = quarantined ∷ [] }) in
      record d { security = record d.security { macros_blocked = q.macros_blocked } }

  abbrev context_for : FileIdentity → LimitTracker → QuarantineResult → FileInput → AdapterContext
  context_for identity tracker q x = record {
    filename = x.filename;
    path = x.path;
    path_mode = x.path_mode;
    file_id = or_text x.file_id tools.new_id;
    content_hash = identity.content_hash;
    mime_type = identity.sniffed_mime;
    size_bytes = identity.size_bytes;
    limits = x.limits;
    tracker = tracker;
    quarantine = q;
    depth = x.depth;
  }

  -- The bundle of the adapter that reads the file.
  unfoldable pub extracted :
      Codes → FileIdentity → LimitTracker → QuarantineResult → FileInput → Document
  unfolding resolve_adapter
  extracted bytes identity tracker q x =
      let adapter =
        resolve_adapter (unknown_binary tools.bundle_id) tools.adapters identity.sniffed_mime
          x.filename bytes in
      with_time x.modified_at (adapter.extract bytes (context_for identity tracker q x))

  abbrev pub name_for : FileInput → String
  name_for x = or_text x.filename (or_text x.path "unknown")

  unfoldable pub analyze_bytes : Codes → FileInput → Option Analysis
  unfolding check_file_size identify quarantine_path_name blocked_bundle extracted wrap
  analyze_bytes bytes x =
      let tracker : LimitTracker = record {
        limits = x.limits;
        decompressed_bytes = 0;
        entries_seen = 0;
      } in
      let identity = identify tools.files bytes x.filename in
      let q = quarantine_path_name tools.files.to_lower (name_for x) in
      if is_some (check_file_size (length bytes) tracker)
      then wrap x.include_evidence_block (oversized identity x)
      else if q.blocked && is_refused_ending identity.extension_guess
      then wrap x.include_evidence_block (blocked_bundle identity q x)
      else wrap x.include_evidence_block (extracted bytes identity tracker q x)

  -- The checks after the analysis, on what is read from the file again.
  abbrev pub checked : (before after : Codes) → Analysis → Analysis ⊎ AnalysisError
  checked before after a =
      if not (str_eq (content_hash tools.files after) (content_hash tools.files before))
      then inr source_mutated
      else if not (str_eq a.bundle.source.content_hash (content_hash tools.files before))
      then inr hash_mismatch
      else inl a

  -- The file is read before the analysis, and after it.
  unfoldable pub analyze_path : (before after : Codes) → FileInput → Analysis ⊎ AnalysisError
  unfolding analyze_bytes
  analyze_path before after x = elim (analyze_bytes before x) [
    | none ↦ inr not_untrusted
    | some a ↦ checked before after a
  ]
