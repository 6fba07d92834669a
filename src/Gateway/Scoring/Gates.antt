-- ===== src/Gateway/Scoring/Gates.antt =====
-- gateway/scoring.py: which models are eligible.
use brain_flow.Prelude.{
  ℕ, ◌≡◌, refl, ◌∙◌, ap, Bool, true, false, ◌&&◌, ◌||◌, not, Option, none, some, List, [], ◌∷◌,
  ◌++◌, arith, ltb, leb,
}
use brain_flow.Gateway.Float.{Float}
use brain_flow.Gateway.Candidate.{SelectionPolicy, CapabilityRequirements, Model, Reject}
use brain_flow.Gateway.Scoring.{
  is_privacy, holds, local_providers, truthy, truthy_or_missing, max_context, when, provider_of,
  gate_reasons, estimate_memory_mb, fit_of, is_none, score_candidate,
}

infix 1 ◌implies◌
abbrev ◌implies◌ : Bool → Bool → Bool
a implies b = not a || b

ltb-leb : (a b : ℕ) → not (ltb a b) ≡ leb b a
ltb-leb a b = ground arith

spare : (a b : Bool) → not (a && not b) ≡ (not a || b)
spare a b = ground arith

rearranged :
    (v v' t t' j j' e e' short long remote p l : Bool)
    → not short ≡ long
    → (not (v && not v')
        && not (t && not t')
        && not (j && not j')
        && not (e && not e')
        && not short
        && not remote
        && not (p && not l))
      ≡ (((not v || v') && (not t || t') && (not j || j') && (not e || e') && long)
          && (not remote && (not p || l)))
rearranged v v' t t' j j' e e' short long remote p l h =
    simp (spare, h)
      (assoc ((not v || v') && (not t || t') && (not j || j') && (not e || e') && long) (not remote)
        (not p || l))
  where
    assoc : (a b c : Bool) → (a && b && c) ≡ (a && (b && c))
    assoc a b c = ground arith

module _ {F : Type 0} (float : Float F) where
  -- A memory that leaves a tenth of the budget free; an unknown one is taken to do so.
  abbrev pub leaves_room : F → Option F → Bool
  leaves_room budget none = true
  leaves_room budget (some mem) =
      not (float.below budget mem)
      && not (float.below (float.times budget (float.hundredths 90)) mem)

  -- What the requirements ask for, the model has.
  abbrev pub is_capable : CapabilityRequirements → Model F → Bool
  is_capable req m =
      (req.vision || holds req.modalities "vision" implies holds m.modalities "vision")
      && (req.tools implies truthy m.capabilities.tools)
      && (req.json_schema implies truthy_or_missing m.capabilities.json_schema)
      && (req.embeddings implies truthy m.capabilities.embeddings)
      && leb req.min_context (max_context m.context_lengths)

  abbrev pub is_allowed : SelectionPolicy → Model F → Bool
  is_allowed policy m =
      not m.remote_code_required
      && (is_privacy policy implies holds local_providers (provider_of m))

  append-is_none :
      (xs ys : List (Reject F)) → is_none float (xs ++ ys) ≡ (is_none float xs && is_none float ys)
  append-is_none [] ys = refl
  append-is_none (x ∷ xs) ys = refl

  when-is_none : (b : Bool) (x : Reject F) → is_none float (when b x) ≡ not b
  when-is_none true x = refl
  when-is_none false x = refl

  gate_reasons-is_none :
      (policy : SelectionPolicy) (req : CapabilityRequirements) (m : Model F)
      → is_none float (gate_reasons policy req m) ≡ (is_capable req m && is_allowed policy m)
  unfolding gate_reasons
  gate_reasons-is_none policy req m =
      simp (append-is_none, when-is_none)
        (rearranged (req.vision || holds req.modalities "vision") (holds m.modalities "vision")
          req.tools _ req.json_schema _ req.embeddings _ _ _ m.remote_code_required
          (is_privacy policy) (holds local_providers (provider_of m))
          (ltb-leb (max_context m.context_lengths) req.min_context))

  fit_of-is_none :
      (budget : F) (mem : Option F)
      → is_none float (fit_of float budget mem).1 ≡ leaves_room budget mem
  unfolding fit_of
  fit_of-is_none budget none = refl
  fit_of-is_none budget (some mem) = ground arith

  -- A model is a candidate that is not rejected exactly if it has every capability that is asked for,
  -- needs no remote code, is local where the policy is maximum privacy, and leaves a tenth of the
  -- memory budget free, if its memory is known.
  pub score_candidate-rejected :
      (policy : SelectionPolicy) (req : CapabilityRequirements) (budget : F) (m : Model F)
      → (score_candidate float policy req budget m).rejected
        ≡ not (
            is_capable req m
            && is_allowed policy m
            && leaves_room budget (estimate_memory_mb float m req.min_context))
  unfolding score_candidate
  score_candidate-rejected policy req budget m = ap not (
      append-is_none (gate_reasons policy req m) _
      ∙ both _ (is_capable req m && is_allowed policy m) _
          (leaves_room budget (estimate_memory_mb float m req.min_context))
          (gate_reasons-is_none policy req m)
          (fit_of-is_none budget (estimate_memory_mb float m req.min_context)))
    where
      both : (a b c d : Bool) → a ≡ b → c ≡ d → (a && c) ≡ (b && d)
      both a b c d h k = ground arith
