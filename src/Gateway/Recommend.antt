-- ===== src/Gateway/Recommend.antt =====
-- gateway/recommend.py: the card that tells which models are recommended, and its call in
-- gateway/select.py. `round(x, 4)`, the text of a score and the summary of the hardware are parameters.
pub mod Shown
use Prim.Native.String
use brain_flow.Prelude.{
  ℕ, zero, suc, String, Bool, true, false, ◌&&◌, not, Option, none, some, List, [], ◌∷◌, ◌++◌,
  length, map, ltb, if◌then◌else◌,
}
use brain_flow.Prelude.Dict.{Dict}
use brain_flow.Prelude.Text.{take_chars, char_count}
use brain_flow.Gateway.Float.{Float}
use brain_flow.Gateway.Pins.{Pins, is_pinned, or_none}
use brain_flow.Gateway.Candidate.{SelectionPolicy, Caps, Model, Reject, Won, ScoredCandidate}
use brain_flow.Gateway.Scoring.{holds, score_candidates}
use brain_flow.Gateway.Select.{
  Health, Request, keep, is_eligible, is_pinned_policy, pins_of, pinned_winners, policy_of,
  policy_text, prefer_installed, ranked_winners, ranking_policy, require,
}

-- A model that wins a role.
pub record Winner (F : Type 0) : Type 0 where
  pub model_id : String
  pub display_name : String
  pub provider : String
  pub name : String
  pub digest : String
  pub score : F
  pub quality : F
  pub fit : F
  pub context_length : Option ℕ
  pub expected_memory_mb : Option F
  pub license : Option String
  pub download_size_mb : Option F
  pub quant : Option String
  pub why : List (Won F)
  pub modalities : List String
  pub capabilities : Caps

pub record Alternative (F : Type 0) : Type 0 where
  pub model_id : String
  pub display_name : String
  pub digest : String
  pub score : F
  pub provider : String
  pub name : String
  pub license : Option String

pub record Rejection (F : Type 0) : Type 0 where
  pub model_id : String
  pub display_name : String
  pub reasons : List (Reject F)

pub record RecommendationCard (F H : Type 0) : Type 0 where
  pub policy : String
  pub hardware_summary : H
  pub winners : Dict (Winner F)
  pub alternatives : List (Alternative F)
  pub rejected : List (Rejection F)
  pub portfolio : Bool
  pub explanation : String
  pub registry_digest : Option String
  pub pins : Pins

-- xs[:n]
abbrev pub take : {A : Type 0} → ℕ → List A → List A
take zero xs = []
take (suc n) [] = []
take (suc n) (x ∷ xs) = x ∷ take n xs

-- " ".join(parts)
abbrev pub join : List String → String
join [] = ""
join (part ∷ parts) = elim parts [
  | [] ↦ part
  | _ ∷ _ ↦ String.◌++◌ part (String.◌++◌ " " (join parts))
]

abbrev shown_digest : String → String
shown_digest digest =
    if ltb 24 (char_count digest) then String.◌++◌ (take_chars 24 digest) "…" else digest

module _ {F : Type 0} where
  abbrev pub rejection : ScoredCandidate F → Rejection F
  rejection c = record {
    model_id = c.model_id;
    display_name = c.display_name;
    reasons = c.reject_reasons;
  }

  abbrev pub winner_ids : Dict (ScoredCandidate F) → List String
  winner_ids [] = []
  winner_ids ((role, c) ∷ winners) = c.model_id ∷ winner_ids winners

  -- Not rejected, and no model that wins.
  abbrev pub is_alternative : Dict (ScoredCandidate F) → ScoredCandidate F → Bool
  is_alternative winners c = not c.rejected && not (holds (winner_ids winners) c.model_id)

  abbrev pub is_rejected : ScoredCandidate F → Bool
  is_rejected c = c.rejected

module _ {F H : Type 0} (round4 : F → F) (show3 : F → String) (hardware_summary : H) where
  abbrev winner : ScoredCandidate F → Winner F
  winner c = record {
    model_id = c.model_id;
    display_name = c.display_name;
    provider = c.provider;
    name = c.name;
    digest = c.digest;
    score = round4 c.score;
    quality = round4 c.quality;
    fit = round4 c.fit;
    context_length = c.context_length;
    expected_memory_mb = c.expected_memory_mb;
    license = c.license;
    download_size_mb = c.download_size_mb;
    quant = c.quant;
    why = c.reasons_won;
    modalities = c.modalities;
    capabilities = c.capabilities;
  }

  abbrev pub alternative : ScoredCandidate F → Alternative F
  alternative c = record {
    model_id = c.model_id;
    display_name = c.display_name;
    digest = c.digest;
    score = round4 c.score;
    provider = c.provider;
    name = c.name;
    license = c.license;
  }

  abbrev winner_dicts : Dict (ScoredCandidate F) → Dict (Winner F)
  winner_dicts [] = []
  winner_dicts ((role, c) ∷ winners) = (role, winner c) ∷ winner_dicts winners

  abbrev winner_parts : Dict (ScoredCandidate F) → List String
  winner_parts [] = []
  winner_parts ((role, c) ∷ winners) =
      String.◌++◌ role (
        String.◌++◌ ": " (
          String.◌++◌ c.display_name (
            String.◌++◌ " (digest " (
              String.◌++◌ (shown_digest c.digest)
                (String.◌++◌ ", score " (String.◌++◌ (show3 c.score) ")"))))))
      ∷ winner_parts winners

  abbrev explanation_parts : String → Dict (ScoredCandidate F) → List String
  explanation_parts policy winners =
      String.◌++◌ "Policy=" (String.◌++◌ policy ".") ∷ winner_parts winners
      ++ elim winners [ [] ↦ "No eligible model — fail-closed." ∷ [] | _ ∷ _ ↦ [] ]

  unfoldable pub build_recommendation :
      String
      → List (ScoredCandidate F)
      → Dict (ScoredCandidate F)
      → Option String
      → Bool
      → RecommendationCard F H
  unfolding pins_of
  build_recommendation policy scored winners registry_digest portfolio = record {
    policy = policy;
    hardware_summary = hardware_summary;
    winners = winner_dicts winners;
    alternatives = take 5 (map alternative (keep (is_alternative winners) scored));
    rejected = map rejection (keep is_rejected scored);
    portfolio = portfolio;
    explanation = join (explanation_parts policy winners);
    registry_digest = registry_digest;
    pins = pins_of winners;
  }

  -- The card of `select_models`: its `recommendation`.
  unfoldable pub recommendation :
      Float F → F → Health → List (Model F) → Option String → Request → RecommendationCard F H
  unfolding policy_of require prefer_installed score_candidates pinned_winners ranked_winners
      build_recommendation
  recommendation float budget health models registry_digest q =
      let pol = policy_of q.policy in
      let scored =
        score_candidates float (ranking_policy pol) (require q.requirements) budget
          (map (prefer_installed health) models) in
      let winners =
        if is_pinned_policy pol && is_pinned (or_none q.pinned)
        then pinned_winners float scored (or_none q.pinned)
        else ranked_winners q.single_model_only (keep is_eligible scored) in
      build_recommendation (policy_text pol) scored winners registry_digest
        (not q.single_model_only && ltb 1 (length winners))
