-- ===== src/Intake/Pipeline/Guarded.antt =====
-- intake/pipeline.py: which files an adapter reads, and what an analysis of a path says of the file.
use brain_flow.Prelude.{
  String, ◌≡◌, ◌<◌, ◌≤◌, refl, sym, ap, subst, Bool, true, false, ◌&&◌, not, Option, none, some, [],
  ◌⊎◌, inl, inr, length, str_eq, eq_iff, arith, if_ind, option_ind,
}
use brain_flow.Prelude.Text.{Codes}
use brain_flow.Intake.Limits.{LimitTracker, check_file_size}
use brain_flow.Intake.Quarantine.{quarantine_path_name}
use brain_flow.Intake.Identity.{identify, extension_of, content_hash}
use brain_flow.Intake.Document.{Document, apply_security}
use brain_flow.Intake.Evidence.{format_untrusted_evidence_block}
use brain_flow.Intake.Pipeline.{
  PipelineTools, FileInput, Analysis, AnalysisError, not_untrusted, is_refused_ending, is_some,
  max_evidence_chars, wrap, oversized, blocked_bundle, extracted, name_for, analyze_bytes, checked,
  analyze_path,
}

module _ (tools : PipelineTools) (bytes : Codes) (x : FileInput) where
  abbrev pub tracker : LimitTracker
  tracker = record { limits = x.limits; decompressed_bytes = 0; entries_seen = 0 }

  -- The quarantine blocks the name, and its ending is one of those that are refused.
  abbrev is_refused : Bool
  is_refused =
      (quarantine_path_name tools.files.to_lower (name_for tools x)).blocked
      && is_refused_ending (extension_of tools.files x.filename)

  abbrev is_large : Bool
  is_large = is_some (check_file_size (length bytes) tracker)

  -- The bundle that the adapter for the file makes of it.
  abbrev pub reading : Document
  reading =
      extracted tools bytes (identify tools.files bytes x.filename) tracker
        (quarantine_path_name tools.files.to_lower (name_for tools x)) x

  -- What the bundle of a file says of it.
  record IsScreened (d : Document) : Type 0 where
    large : is_large ≡ true → d.segments ≡ []
    refused : is_refused ≡ true → d.segments ≡ []
    unnamed : x.filename ≡ none → is_large ≡ false → d ≡ reading

  abbrev HasEvidence : Analysis → Type 0
  HasEvidence a =
      x.include_evidence_block ≡ true
      → a.evidence_block ≡ format_untrusted_evidence_block max_evidence_chars a.bundle

  abbrev OnSome : (Analysis → Type 0) → Option Analysis → Type 0
  OnSome P none = Unit
  OnSome P (some a) = P a

  wrap-IsScreened :
      (d : Document)
      → IsScreened d
      → OnSome (λ a. IsScreened a.bundle × HasEvidence a) (wrap tools x.include_evidence_block d)
  unfolding wrap
  wrap-IsScreened d h =
      if_ind (OnSome (λ a. IsScreened a.bundle × HasEvidence a)) x.include_evidence_block
        (λ _.
          option_ind (OnSome (λ a. IsScreened a.bundle × HasEvidence a))
            (format_untrusted_evidence_block max_evidence_chars d) (λ _. tt)
            (λ block e. (h, λ _. sym e)))
        (λ off. (h, λ on. absurd (ground (arith, on, off))))

  unnamed-allowed : x.filename ≡ none → is_refused ≡ true → ⊥
  unfolding extension_of
  unnamed-allowed e on =
      not_refused _ (extension_of tools.files x.filename) (ap (extension_of tools.files) e) on
    where
      not_refused :
          (b : Bool) (o : Option String) → o ≡ none → (b && is_refused_ending o) ≡ true → ⊥
      not_refused b none e on = ground (arith, on)
      not_refused b (some s) e on = ground (arith, e)

  analyze_bytes-IsScreened :
      OnSome (λ a. IsScreened a.bundle × HasEvidence a) (analyze_bytes tools bytes x)
  unfolding analyze_bytes identify blocked_bundle apply_security
  analyze_bytes-IsScreened =
      if_ind (OnSome (λ a. IsScreened a.bundle × HasEvidence a)) is_large
        (λ on. wrap-IsScreened (oversized tools (identify tools.files bytes x.filename) x) (record {
          large = λ _. refl;
          refused = λ _. refl;
          unnamed = λ _ off. absurd (ground (arith, on, off));
        }))
        λ small.
          if_ind (OnSome (λ a. IsScreened a.bundle × HasEvidence a)) is_refused
            (λ on.
              wrap-IsScreened
                (blocked_bundle tools (identify tools.files bytes x.filename)
                  (quarantine_path_name tools.files.to_lower (name_for tools x)) x)
                (record {
                  large = λ _. refl;
                  refused = λ _. refl;
                  unnamed = λ e _. absurd (unnamed-allowed e on);
                }))
            (λ off. wrap-IsScreened reading (record {
              large = λ on. absurd (ground (arith, on, small));
              refused = λ on. absurd (ground (arith, on, off));
              unnamed = λ _ _. refl;
            }))

  -- What an answer about a path says, where the file holds `after` once it is analysed.
  pub record IsGuarded (after : Codes) (a : Analysis) : Type 0 where
    pub unchanged : content_hash tools.files after ≡ content_hash tools.files bytes
    pub hashed : a.bundle.source.content_hash ≡ content_hash tools.files bytes
    pub large : x.limits.max_file_bytes < length bytes → a.bundle.segments ≡ []
    pub refused : is_refused ≡ true → a.bundle.segments ≡ []
    pub evidence :
        x.include_evidence_block ≡ true
        → a.evidence_block ≡ format_untrusted_evidence_block max_evidence_chars a.bundle

  large-is : x.limits.max_file_bytes < length bytes → is_large ≡ true
  unfolding check_file_size
  large-is h = ground (arith, h)

  small-is : length bytes ≤ x.limits.max_file_bytes → is_large ≡ false
  unfolding check_file_size
  small-is h = ground (arith, h)

  abbrev OnLeft : (Analysis → Type 0) → Analysis ⊎ AnalysisError → Type 0
  OnLeft P (inl a) = P a
  OnLeft P (inr e) = Unit

  checked-IsGuarded :
      (after : Codes) (a : Analysis)
      → IsScreened a.bundle × HasEvidence a
      → OnLeft (IsGuarded after) (checked tools bytes after a)
  checked-IsGuarded after a (h, evidence) =
      if_ind (OnLeft (IsGuarded after))
        (not (str_eq (content_hash tools.files after) (content_hash tools.files bytes))) (λ _. tt)
        λ same.
          if_ind (OnLeft (IsGuarded after))
            (not (str_eq a.bundle.source.content_hash (content_hash tools.files bytes))) (λ _. tt)
            λ kept. record {
              unchanged = equal _ _ same;
              hashed = equal _ _ kept;
              large = λ l. h.large (large-is l);
              refused = h.refused;
              evidence = evidence;
            }
    where
      equal : (s t : String) → not (str_eq s t) ≡ false → s ≡ t
      equal s t e = (eq_iff s t).0 (ground (arith, e))

  analyze_path-OnLeft :
      (after : Codes) → OnLeft (IsGuarded after) (analyze_path tools bytes after x)
  unfolding analyze_path
  analyze_path-OnLeft after = go (analyze_bytes tools bytes x) analyze_bytes-IsScreened
    where
      go :
          (o : Option Analysis)
          → OnSome (λ a. IsScreened a.bundle × HasEvidence a) o
          → OnLeft (IsGuarded after) (elim o as (λ _. Analysis ⊎ AnalysisError) [
            | none ↦ inr not_untrusted
            | some a ↦ checked tools bytes after a
          ])
      go none h = tt
      go (some a) h = checked-IsGuarded after a h

  -- An analysis of a path answers only if the file's hash is the same afterwards, and is that of the
  -- bundle. A file that is too large, or whose ending is refused and whose name the quarantine blocks,
  -- gives no segment. The evidence, if it is asked for, is that of the bundle.
  pub analyze_path-IsGuarded :
      (after : Codes) (a : Analysis) → analyze_path tools bytes after x ≡ inl a → IsGuarded after a
  analyze_path-IsGuarded after a e = subst (OnLeft (IsGuarded after)) e (analyze_path-OnLeft after)

  -- Bytes without a filename are read by an adapter, whatever the path is that comes with them: the
  -- quarantine looks at the path, but the ending that is refused is that of the filename.
  pub analyze_bytes-unnamed :
      (a : Analysis)
      → x.filename ≡ none
      → length bytes ≤ x.limits.max_file_bytes
      → analyze_bytes tools bytes x ≡ some a
      → a.bundle ≡ reading
  analyze_bytes-unnamed a n l e =
      (subst (OnSome (λ b. IsScreened b.bundle × HasEvidence b)) e
          analyze_bytes-IsScreened).0.unnamed
        n (small-is l)
