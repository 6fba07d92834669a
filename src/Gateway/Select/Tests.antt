-- ===== src/Gateway/Select/Tests.antt =====
-- gateway/scoring.py, gateway/select.py: runs on small inputs, and the theorems at inputs that meet
-- their hypotheses. Floats are natural numbers here, and a constant of n hundredths is n.
use mathlib.Core.List.{Perm}
use brain_flow.Prelude.{
  ℕ, ◌+◌, ◌-◌, ◌*◌, ◌/◌, String, ◌≡◌, refl, true, false, ◌&&◌, not, Option, none, some, List, [],
  ◌∷◌, All, arith, map, ltb, ◌==◌, length, ◌≤◌,
}
use brain_flow.Prelude.Dict.{Dict, get, put, has}
use brain_flow.Gateway.Float.{Float, IsOrdered}
use brain_flow.Gateway.Pins.{Ref, Pins, resolve_for_run}
use brain_flow.Gateway.Candidate.{auto, Model, ScoredCandidate, policy_weights}
use brain_flow.Gateway.Scoring.{score_candidate, score_candidates, estimate_memory_mb}
use brain_flow.Gateway.Scoring.Gates.{is_capable, is_allowed, leaves_room, score_candidate-rejected}
use brain_flow.Gateway.Scoring.Ranking.{Ranked, score_candidates-Ranked}
use brain_flow.Gateway.Select.{
  Request, Health, RawRequirements, select_models, conclude_selection, policy_of, require,
  prefer_installed, ranked_winners, pins_of, keep, is_eligible,
}
use brain_flow.Gateway.Select.Winners.{Wins, eligible_of, select_models-Wins}
use brain_flow.Gateway.Select.Held.{held_ok, select_models-Held}
use brain_flow.Gateway.Recommend.{RecommendationCard, build_recommendation}
use brain_flow.Gateway.Recommend.Shown.{Stands, Offered, Refused, build_recommendation-Stands}

abbrev counts : Float ℕ
counts = record {
  hundredths = λ n. n;
  of_nat = λ n. n;
  plus = λ a b. a + b;
  minus = λ a b. a - b;
  times = λ a b. a * b;
  over = λ a b. a / b;
  below = λ a b. ltb a b;
  is_nil = λ a. a == 0;
}

counts-IsOrdered : IsOrdered counts
counts-IsOrdered = record {
  irrefl = λ a. ground arith;
  not_below_trans = λ a b c h k. ground (arith, h, k);
  asym = λ a b h. ground (arith, h);
}

abbrev model : String → List String → ℕ → Model ℕ
model id modalities quality = record {
  id = id;
  display_name = none;
  runtime_name = none;
  preferred_provider = none;
  source = none;
  capabilities = record { tools = some true; json_schema = none; embeddings = none };
  modalities = modalities;
  context_lengths = 8192 ∷ [];
  quality_scores = [];
  quality = some quality;
  weights_mb = none;
  kv_mb_per_1k_ctx = none;
  runtime_overhead_mb = none;
  parameter_count = none;
  download_size_mb = none;
  eval_reliability = none;
  performance_floor = none;
  quant_penalty = none;
  license = some "mit";
  remote_code_required = false;
  digests = [];
  quantizations = [];
}

abbrev models : List (Model ℕ)
models = model "small" ("text" ∷ []) 1 ∷ model "eyes" ("text" ∷ "vision" ∷ []) 9 ∷ []

abbrev raw : RawRequirements
raw = record {
  modalities = [];
  tools = none;
  json_schema = none;
  embeddings = none;
  vision = some true;
  min_context = none;
}

abbrev health : Health
health = record { models = "small" ∷ []; digests = [] }

abbrev blind_pin : Ref
blind_pin = record { provider = "ollama"; name = "small"; digest = some "d" }

abbrev request : Option Pins → Request
request pinned = record {
  policy = "auto";
  requirements = raw;
  pinned = pinned;
  run_active = false;
  allow_auto_reselect = false;
  single_model_only = false;
}

score_candidate-rejected_example :
    (score_candidate counts auto (require raw) 10 (model "small" ("text" ∷ []) 1)).rejected
    ≡ not (
        is_capable counts (require raw) (model "small" ("text" ∷ []) 1)
        && is_allowed counts auto (model "small" ("text" ∷ []) 1)
        && leaves_room counts 10
            (estimate_memory_mb counts (model "small" ("text" ∷ []) 1) (require raw).min_context))
score_candidate-rejected_example =
    score_candidate-rejected counts auto (require raw) 10 (model "small" ("text" ∷ []) 1)

score_candidates-Ranked_example :
    Perm
      (score_candidates counts auto (require raw) 10 models)
      (map (score_candidate counts auto (require raw) 10) models)
    × Ranked counts (score_candidates counts auto (require raw) 10 models)
score_candidates-Ranked_example =
    score_candidates-Ranked counts counts-IsOrdered auto (require raw) 10 models

select_models-Wins_example :
    All
      (Wins counts (eligible_of counts 10 health models (request none)))
      (select_models counts 10 health models (request none)).winners
unfolding policy_of
select_models-Wins_example =
    select_models-Wins counts 10 health models (request none) counts-IsOrdered refl

abbrev held_request : Request
held_request = request (some (("planner", blind_pin) ∷ []))

select_models-Held_example :
    ((select_models counts 10 health models held_request).pin_resolution.pins
      ≡ ("planner", blind_pin) ∷ [])
    × ((select_models counts 10 health models held_request).ok
        ≡ held_ok counts
            (("planner", blind_pin) ∷ [])
            held_request
            (select_models counts 10 health models held_request).winners)
select_models-Held_example =
    select_models-Held counts 10 health models held_request "planner" blind_pin [] refl refl

-- The model that sees wins, and the blind one stays pinned: the selection is `ok`.
blind_pin_ok :
    (select_models counts 10 health models (request (some (("planner", blind_pin) ∷ [])))).ok ≡ true
unfolding select_models conclude_selection policy_of require prefer_installed score_candidates
    ranked_winners resolve_for_run pins_of get put has policy_weights
blind_pin_ok = refl

-- The card of a selection: the blind model stands among the rejected.
abbrev candidates : List (ScoredCandidate ℕ)
candidates = score_candidates counts auto (require raw) 10 models

abbrev winners : Dict (ScoredCandidate ℕ)
winners = ranked_winners false (keep is_eligible candidates)

abbrev card : RecommendationCard ℕ String
card = build_recommendation (λ n. n) (λ n. "1") "" "auto" candidates winners none false

build_recommendation-Stands_example :
    All (Stands (λ n. n) (λ n. "1") "" winners card) candidates
    × (length card.alternatives ≤ 5)
    × All (Offered {H = String} (λ n. n) (λ n. "1") "" candidates winners) card.alternatives
    × All (Refused {H = String} (λ n. n) (λ n. "1") "" candidates) card.rejected
build_recommendation-Stands_example =
    build_recommendation-Stands (λ n. n) (λ n. "1") "" "auto" candidates winners none false

card-parts : (length card.winners ≡ 1) × (length card.rejected ≡ 1)
unfolding build_recommendation require score_candidates ranked_winners policy_weights
card-parts = (refl, refl)
