-- ===== src/Intake/Evidence.antt =====
-- intake/evidence.py: the segments of a bundle as one block of evidence that nobody trusts.
pub mod Prefix
use brain_flow.Prelude.{
  ℕ, ◌+◌, String, Bool, true, false, not, Option, none, some, List, [], ◌∷◌, ◌++◌, ltb, str_eq,
  length, if◌then◌else◌,
}
use brain_flow.Prelude.Text.{Codes, codes, starts_with, is_infix}
use brain_flow.Kernel.Delimit.{untrusted_close, delimit_untrusted}
use brain_flow.Intake.Document.{Document, TextSegment}

abbrev pub truncated : Codes
truncated = codes "...[truncated]..."

-- f"[{id}|{kind}] {text}"
abbrev pub chunk_of : TextSegment → Codes
chunk_of s = codes "[" ++ s.id ++ codes "|" ++ s.kind ++ codes "] " ++ s.text

abbrev pub head_lines : Document → List Codes
head_lines d =
    (codes "bundle_id=" ++ codes d.bundle_id)
    ∷ (codes "adapter=" ++ codes d.adapter_id)
    ∷ (codes "content_hash=" ++ codes d.source.content_hash)
    ∷ codes "--- segments ---"
    ∷ []

-- The loop over the segments.
unfoldable pub segment_lines : (max_chars used : ℕ) → List TextSegment → List Codes
segment_lines max_chars used [] = []
segment_lines max_chars used (s ∷ segments) =
    let rest = segment_lines max_chars (used + length (chunk_of s)) segments in
    if ltb max_chars (used + length (chunk_of s)) then truncated ∷ [] else chunk_of s ∷ rest

-- "\n".join(lines)
abbrev pub join_lines : List Codes → Codes
join_lines [] = []
join_lines (line ∷ lines) = elim lines [ [] ↦ line | _ ∷ _ ↦ line ++ 0x0a ∷ join_lines lines ]

-- `none` is a ValueError.
unfoldable pub format_untrusted_evidence_block : ℕ → Document → Option Codes
unfolding segment_lines delimit_untrusted
format_untrusted_evidence_block max_chars d =
    if not (str_eq d.evidence_trust "untrusted")
    then none
    else some (
        delimit_untrusted (codes "document_bundle")
          (join_lines (head_lines d ++ segment_lines max_chars 0 d.segments)))

-- prompt[prompt.find(p):], if `p` occurs
abbrev from_infix : Codes → Codes → Option Codes
from_infix p [] = none
from_infix p (c ∷ s) =
    let rest = from_infix p s in if starts_with (c ∷ s) p then some (c ∷ s) else rest

unfoldable pub assert_evidence_delimited : Codes → Bool
assert_evidence_delimited prompt = elim (from_infix (codes "<UNTRUSTED_EVIDENCE") prompt) [
  | none ↦ true
  | some rest ↦ is_infix untrusted_close rest
]
