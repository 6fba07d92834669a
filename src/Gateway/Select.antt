-- ===== src/Gateway/Select.antt =====
-- gateway/select.py: `select_models`, with the pins of gateway/recommend.py. The hardware's memory budget, the health of
-- the providers and the registry's models are arguments here: other modules read them off the machine.
mod Inputs
pub mod Winners
pub mod Held
mod Tests
unfoldable pub use Inputs.*
use brain_flow.Prelude.{
  ℕ, zero, suc, String, Bool, true, false, ◌&&◌, ◌||◌, not, Option, none, some, List, [], ◌∷◌, ◌++◌,
  length, map, str_eq, if◌then◌else◌,
}
use brain_flow.Prelude.Dict.{Dict, get, put, has}
use brain_flow.Prelude.Text.{is_empty, or_text}
use brain_flow.Kernel.Workflow.{or_number}
use brain_flow.Gateway.Float.{Float, unit}
use brain_flow.Gateway.Pins.{Ref, Pins, Resolution, resolve_for_run, is_pinned, or_none}
use brain_flow.Gateway.Candidate.{
  SelectionPolicy, auto, balanced, maximum_quality, maximum_privacy, low_latency,
  CapabilityRequirements, Caps, Model, ScoredCandidate, pinned_by_user,
}
use brain_flow.Gateway.Scoring.{holds, truthy, score_candidates}

module _ {F : Type 0} where
  abbrev runtime_of : Model F → String
  runtime_of m = or_text m.runtime_name m.id

  -- The body of the loop over the models: an installed model is taken from the local provider.
  unfoldable pub prefer_installed : Health → Model F → Model F
  prefer_installed health m =
      if holds health.models (runtime_of m)
      then record m {
        preferred_provider = some "ollama";
        digests = elim (get health.digests (runtime_of m)) [
          | none ↦ m.digests
          | some d ↦ local_digests d m.digests
        ];
      }
      else m

  abbrev pub is_eligible : ScoredCandidate F → Bool
  is_eligible c = not c.rejected

  abbrev pub sees : ScoredCandidate F → Bool
  sees c = holds c.modalities "vision"

  abbrev pub embeds : ScoredCandidate F → Bool
  embeds c = truthy c.capabilities.embeddings

  abbrev pub is_other : ScoredCandidate F → ScoredCandidate F → Bool
  is_other planner c = not (str_eq c.model_id planner.model_id)

  -- winners[role] = c, if there is a candidate and it is another model than the planner
  abbrev pub add_other :
      String
      → ScoredCandidate F
      → Option (ScoredCandidate F)
      → Dict (ScoredCandidate F)
      → Dict (ScoredCandidate F)
  add_other role planner none winners = winners
  add_other role planner (some c) winners =
      if is_other planner c then put winners role c else winners

  -- The winners of a policy that ranks.
  unfoldable pub ranked_winners : Bool → List (ScoredCandidate F) → Dict (ScoredCandidate F)
  ranked_winners single_model_only [] = []
  ranked_winners single_model_only (planner ∷ others) =
      let eligible = planner ∷ others in
      let winners = ("planner", planner) ∷ [] in
      if single_model_only
      then winners
      else add_other "embeddings" planner (find embeds eligible)
          (add_other "multimodal" planner (find sees eligible) winners)

  -- card.pins
  unfoldable pub pins_of : Dict (ScoredCandidate F) → Pins
  pins_of [] = []
  pins_of ((role, c) ∷ winners) =
      (role, record { provider = c.provider; name = c.name; digest = some c.digest })
      ∷ pins_of winners

module _ {F : Type 0} (float : Float F) where
  -- The candidate that stands for a pinned model which is not among the scored ones.
  abbrev stand_in : Ref → ScoredCandidate F
  stand_in ref = record {
    model_id = ref.name;
    display_name = ref.name;
    provider = or_text (some ref.provider) "ollama";
    name = ref.name;
    digest = or_text ref.digest "unknown";
    score = unit float;
    quality = unit float;
    fit = unit float;
    context_fit = unit float;
    capability = unit float;
    rejected = false;
    reject_reasons = [];
    reasons_won = pinned_by_user ∷ [];
    expected_memory_mb = none;
    context_length = none;
    license = none;
    download_size_mb = none;
    quant = none;
    modalities = [];
    capabilities = record { tools = none; json_schema = none; embeddings = none };
  }

  abbrev pinned_candidate : List (ScoredCandidate F) → Ref → ScoredCandidate F
  pinned_candidate scored ref =
      elim (find (λ c. str_eq c.name ref.name || is_digest ref.digest c.digest) scored) [
        | none ↦ stand_in ref
        | some c ↦ c
      ]

  unfoldable pub pinned_winners : List (ScoredCandidate F) → Pins → Dict (ScoredCandidate F)
  pinned_winners scored [] = []
  pinned_winners scored ((role, ref) ∷ pinned) =
      (role, pinned_candidate scored ref) ∷ pinned_winners scored pinned

  abbrev pub planner_sees : Dict (ScoredCandidate F) → Bool
  planner_sees winners = elim (get winners "planner") [ none ↦ false | some c ↦ sees c ]

  abbrev error_of : Bool → Bool → ℕ → Option SelectionError
  error_of ok vision eligible =
      if ok
      then none
      else if vision
      then some vision_required
      else elim eligible [ zero ↦ some no_model_satisfied | suc _ ↦ some selection_failed ]

  -- What the selection makes of the candidates.
  unfoldable pub conclude_selection :
      Request → SelectionPolicy → Bool → ℕ → Dict (ScoredCandidate F) → Selection F
  unfolding pins_of resolve_for_run
  conclude_selection q pol vision eligible winners =
      let res =
        resolve_for_run (policy_text pol) q.pinned (pins_of winners) q.allow_auto_reselect
          q.run_active in
      let blind = vision && not (has res.pins "multimodal") && not (planner_sees winners) in
      let ok =
        (is_pinned res.pins && not blind)
        || (is_pinned_policy pol && is_pinned (or_none q.pinned)) in
      record {
        ok = ok;
        policy = pol;
        winners = winners;
        pin_resolution = res;
        eligible_count = eligible;
        error = error_of ok vision eligible;
      }

  unfoldable pub select_models : F → Health → List (Model F) → Request → Selection F
  unfolding policy_of require prefer_installed score_candidates pinned_winners ranked_winners
      conclude_selection
  select_models budget health models q =
      let pol = policy_of q.policy in
      let req = require q.requirements in
      let scored =
        score_candidates float (ranking_policy pol) req budget
          (map (prefer_installed health) models) in
      let eligible = keep is_eligible scored in
      let winners =
        if is_pinned_policy pol && is_pinned (or_none q.pinned)
        then pinned_winners scored (or_none q.pinned)
        else ranked_winners q.single_model_only eligible in
      conclude_selection q pol req.vision (length eligible) winners
