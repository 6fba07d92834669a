-- ===== src/Gateway/Select/Inputs.antt =====
-- gateway/select.py: what a selection starts from, and its report.
use brain_flow.Prelude.{
  ℕ, String, Bool, true, false, ◌&&◌, not, Option, none, some, List, [], ◌∷◌, ◌++◌, str_eq,
  if◌then◌else◌,
}
use brain_flow.Prelude.Dict.{Dict}
use brain_flow.Prelude.Text.{is_empty}
use brain_flow.Kernel.Workflow.{or_number}
use brain_flow.Gateway.Pins.{Pins, Resolution}
use brain_flow.Gateway.Candidate.{
  SelectionPolicy, auto, balanced, maximum_quality, maximum_privacy, low_latency,
  CapabilityRequirements, ScoredCandidate,
}
use brain_flow.Gateway.Scoring.{holds}

-- The `requirements` of a request, each key of which may be missing.
pub record RawRequirements : Type 0 where
  pub modalities : List String
  pub tools : Option Bool
  pub json_schema : Option Bool
  pub embeddings : Option Bool
  pub vision : Option Bool
  pub min_context : Option ℕ

pub record Health : Type 0 where
  pub models : List String
  pub digests : Dict String

pub record Request : Type 0 where
  pub policy : String
  pub requirements : RawRequirements
  pub pinned : Option Pins
  pub run_active : Bool
  pub allow_auto_reselect : Bool
  pub single_model_only : Bool

pub data SelectionError : Type 0 where
  vision_required no_model_satisfied selection_failed : SelectionError

pub record Selection (F : Type 0) : Type 0 where
  pub ok : Bool
  pub policy : SelectionPolicy
  pub winners : Dict (ScoredCandidate F)
  pub pin_resolution : Resolution
  pub eligible_count : ℕ
  pub error : Option SelectionError

-- SelectionPolicy(policy), or AUTO where that raises
unfoldable pub policy_of : String → SelectionPolicy
policy_of text =
    if str_eq text "balanced"
    then balanced
    else if str_eq text "maximum_quality"
    then maximum_quality
    else if str_eq text "maximum_privacy"
    then maximum_privacy
    else if str_eq text "low_latency"
    then low_latency
    else if str_eq text "pinned"
    then SelectionPolicy.pinned
    else auto

-- pol.value
abbrev pub policy_text : SelectionPolicy → String
policy_text auto = "auto"
policy_text balanced = "balanced"
policy_text maximum_quality = "maximum_quality"
policy_text maximum_privacy = "maximum_privacy"
policy_text low_latency = "low_latency"
policy_text SelectionPolicy.pinned = "pinned"

abbrev given_or : Option Bool → Bool → Bool
given_or none d = d
given_or (some b) d = b

abbrev or_text_only : List String → List String
or_text_only [] = "text" ∷ []
or_text_only (m ∷ ms) = m ∷ ms

unfoldable pub require : RawRequirements → CapabilityRequirements
require raw =
    let vision = given_or raw.vision false in
    let modalities = or_text_only raw.modalities in
    record {
      modalities =
          if vision && not (holds modalities "vision")
          then modalities ++ "vision" ∷ []
          else modalities;
      tools = given_or raw.tools false;
      json_schema = given_or raw.json_schema true;
      embeddings = given_or raw.embeddings false;
      vision = vision;
      min_context = or_number raw.min_context 4096;
    }

-- next((x for x in xs if p(x)), None)
abbrev pub find : {A : Type 0} → (A → Bool) → List A → Option A
find p [] = none
find p (x ∷ xs) = if p x then some x else find p xs

abbrev pub keep : {A : Type 0} → (A → Bool) → List A → List A
keep p [] = []
keep p (x ∷ xs) = let rest = keep p xs in if p x then x ∷ rest else rest

abbrev pub is_pinned_policy : SelectionPolicy → Bool
is_pinned_policy SelectionPolicy.pinned = true
is_pinned_policy _ = false

abbrev pub ranking_policy : SelectionPolicy → SelectionPolicy
ranking_policy SelectionPolicy.pinned = auto
ranking_policy p = p

abbrev pub local_digests : String → List String → List String
local_digests d digests =
    if is_empty d then digests else if holds digests d then digests else d ∷ digests

-- ref.get("digest") == c.digest
abbrev pub is_digest : Option String → String → Bool
is_digest none d = false
is_digest (some e) d = str_eq d e
