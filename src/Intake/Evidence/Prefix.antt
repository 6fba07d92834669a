-- ===== src/Intake/Evidence/Prefix.antt =====
-- intake/evidence.py: which segments the evidence holds.
use brain_flow.Prelude.{
  ℕ, suc, ◌+◌, ◌≤◌, ◌≡◌, refl, ap, true, false, none, some, List, [], ◌∷◌, ◌++◌, ◌⊎◌, inl, inr, ltb,
  str_eq, length, map, arith, if_ind,
}
use brain_flow.Prelude.Text.{Codes, codes}
use brain_flow.Kernel.Delimit.{delimit_untrusted}
use brain_flow.Intake.Document.{Document, TextSegment}
use brain_flow.Intake.Evidence.{
  truncated, chunk_of, head_lines, segment_lines, join_lines, format_untrusted_evidence_block,
}

-- The characters of segments, as lines of evidence.
abbrev chars_of : List TextSegment → ℕ
chars_of [] = 0
chars_of (s ∷ segments) = length (chunk_of s) + chars_of segments

-- `kept` is the longest beginning of `segments` with at most so many characters, and `tail` says
-- whether anything is left out.
pub record IsLongest (max_chars used : ℕ) (segments kept : List TextSegment) (tail : List Codes)
    : Type 0 where
  pub left : List TextSegment
  pub beginning : segments ≡ kept ++ left
  pub fits : used + chars_of kept ≤ max_chars
  pub ends :
      ((left ≡ []) × (tail ≡ []))
      ⊎ ((next : TextSegment) × (rest : List TextSegment) × (left ≡ next ∷ rest)
          × (suc max_chars ≤ used + chars_of (kept ++ next ∷ []))
          × (tail ≡ truncated ∷ []))

cons-IsLongest :
    (max_chars used : ℕ) (s : TextSegment) (segments kept : List TextSegment) (tail : List Codes)
    → IsLongest max_chars (used + length (chunk_of s)) segments kept tail
    → IsLongest max_chars used (s ∷ segments) (s ∷ kept) tail
cons-IsLongest max_chars used s segments kept tail h = record {
  left = h.left;
  beginning = ap (λ l. s ∷ l) h.beginning;
  fits = sum (length (chunk_of s)) (chars_of kept) h.fits;
  ends = elim h.ends [
    | inl e ↦ inl e
    | inr (next, rest, e, over, t) ↦
        inr (next, rest, e, sum' (length (chunk_of s)) (chars_of (kept ++ next ∷ [])) over, t)
  ];
}
  where
    sum : (a b : ℕ) → used + a + b ≤ max_chars → used + (a + b) ≤ max_chars
    sum a b k = omega (arith, k)

    sum' : (a b : ℕ) → suc max_chars ≤ used + a + b → suc max_chars ≤ used + (a + b)
    sum' a b k = omega (arith, k)

-- What the loop keeps of the segments, and what it says of the rest.
abbrev Kept : (max_chars used : ℕ) → List TextSegment → List Codes → Type 0
Kept max_chars used segments lines =
    (kept : List TextSegment) × (tail : List Codes) × (lines ≡ map chunk_of kept ++ tail)
    × IsLongest max_chars used segments kept tail

segment_lines-Kept :
    (max_chars used : ℕ) (segments : List TextSegment)
    → used ≤ max_chars
    → Kept max_chars used segments (segment_lines max_chars used segments)
unfolding segment_lines
segment_lines-Kept max_chars used [] h = (
  [],
  [],
  refl,
  record { left = []; beginning = refl; fits = omega (arith, h); ends = inl (refl, refl) },
)
segment_lines-Kept max_chars used (s ∷ segments) h =
    if_ind (Kept max_chars used (s ∷ segments)) (ltb max_chars (used + length (chunk_of s)))
      (λ over. (
        [],
        truncated ∷ [],
        refl,
        record {
          left = s ∷ segments;
          beginning = refl;
          fits = omega (arith, h);
          ends = inr (s, segments, refl, much (length (chunk_of s)) over, refl);
        },
      ))
      (λ fits.
        let (kept, tail, e, longest) =
          segment_lines-Kept max_chars (used + length (chunk_of s)) segments
            (little (length (chunk_of s)) fits) in
        (
          s ∷ kept,
          tail,
          ap (λ l. chunk_of s ∷ l) e,
          cons-IsLongest max_chars used s segments kept tail longest,
        ))
  where
    much : (a : ℕ) → ltb max_chars (used + a) ≡ true → suc max_chars ≤ used + (a + 0)
    much a k = ground (arith, k)

    little : (a : ℕ) → ltb max_chars (used + a) ≡ false → used + a ≤ max_chars
    little a k = ground (arith, k)

-- The evidence of a bundle that is not marked as untrusted is refused. That of any other one is
-- delimited, and holds the longest beginning of its segments whose lines have at most so many
-- characters, each segment whole; a last line says so if any segment is left out.
pub format_untrusted_evidence_block_lem :
    (max_chars : ℕ) (d : Document)
    → (str_eq d.evidence_trust "untrusted" ≡ false
        → format_untrusted_evidence_block max_chars d ≡ none)
      × (str_eq d.evidence_trust "untrusted" ≡ true
          → (kept : List TextSegment) × (tail : List Codes) × (format_untrusted_evidence_block
                max_chars d
              ≡ some (
                  delimit_untrusted
                    (codes "document_bundle")
                    (join_lines (head_lines d ++ map chunk_of kept ++ tail))))
            × IsLongest max_chars 0 d.segments kept tail)
unfolding format_untrusted_evidence_block
format_untrusted_evidence_block_lem max_chars d = (
  λ off. ground (arith, off),
  λ on.
      let (kept, tail, e, longest) = segment_lines-Kept max_chars 0 d.segments (omega arith) in
      (
        kept,
        tail,
        rw on (
            ap
              (λ l.
                some (delimit_untrusted (codes "document_bundle") (join_lines (head_lines d ++ l))))
              e),
        longest,
      ),
)
