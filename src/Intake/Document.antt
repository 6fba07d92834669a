-- ===== src/Intake/Document.antt =====
-- intake/bundle.py: the bundle that an adapter makes of a file. What nothing decides on (the structure, the
-- images, the transcripts, the provenance) is left out. `uuid4` is a parameter.
use brain_flow.Prelude.{ℕ, String, Bool, false, Option, none, List, [], ◌++◌}
use brain_flow.Prelude.Text.{Codes}
use brain_flow.Intake.Quarantine.{dedup, dedup_from}

-- A segment as the evidence reads it; a text is the list of its code points.
pub record TextSegment : Type 0 where
  pub id : Codes
  pub kind : Codes
  pub text : Codes

pub data IssueCode : Type 0 where
  resource_limit quarantined needs_adapter other : IssueCode

-- The source, and who has made the bundle.
pub record Source : Type 0 where
  pub file_id : String
  pub content_hash : String
  pub mime_type : String
  pub size_bytes : ℕ
  pub path : Option String
  pub path_mode : String
  pub modified_at : Option String

pub record Security : Type 0 where
  pub quarantine_actions : List String
  pub active_content_flags : List String
  pub macros_blocked : Bool
  pub limits_applied : Option ℕ

pub record Document : Type 0 where
  pub bundle_id : String
  pub evidence_trust : String
  pub adapter_id : String
  pub source : Source
  pub segments : List TextSegment
  pub confidence : ℕ
  pub warnings : List IssueCode
  pub errors : List IssueCode
  pub security : Security

abbrev pub empty_bundle : String → String → Source → Document
empty_bundle bundle_id adapter_id source = record {
  bundle_id = bundle_id;
  evidence_trust = "untrusted";
  adapter_id = adapter_id;
  source = source;
  segments = [];
  confidence = 0;
  warnings = [];
  errors = [];
  security = record {
    quarantine_actions = [];
    active_content_flags = [];
    macros_blocked = false;
    limits_applied = none;
  };
}

-- apply_security, with the actions and the flags.
unfoldable pub apply_security : List String → List String → Document → Document
unfolding dedup_from
apply_security actions flags d = record d {
  security = record d.security {
    quarantine_actions = dedup (d.security.quarantine_actions ++ actions);
    active_content_flags = dedup (d.security.active_content_flags ++ flags);
  };
}
