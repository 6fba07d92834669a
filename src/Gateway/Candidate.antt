-- ===== src/Gateway/Candidate.antt =====
-- gateway/types.py: the policies, the models of the registry as the scores read them, and the candidates.
use brain_flow.Prelude.{ℕ, String, Bool, Option, List}

pub data SelectionPolicy : Type 0 where
  auto balanced maximum_quality maximum_privacy low_latency pinned : SelectionPolicy

pub record CapabilityRequirements : Type 0 where
  pub modalities : List String
  pub tools : Bool
  pub json_schema : Bool
  pub embeddings : Bool
  pub vision : Bool
  pub min_context : ℕ

-- The keys of `capabilities` that are read.
pub record Caps : Type 0 where
  pub tools : Option Bool
  pub json_schema : Option Bool
  pub embeddings : Option Bool

-- A model of the registry's manifest. A value of `quality_scores` that is missing is `none`.
pub record Model (F : Type 0) : Type 0 where
  pub id : String
  pub display_name : Option String
  pub runtime_name : Option String
  pub preferred_provider : Option String
  pub source : Option String
  pub capabilities : Caps
  pub modalities : List String
  pub context_lengths : List ℕ
  pub quality_scores : List (Option F)
  pub quality : Option F
  pub weights_mb : Option F
  pub kv_mb_per_1k_ctx : Option F
  pub runtime_overhead_mb : Option F
  pub parameter_count : Option F
  pub download_size_mb : Option F
  pub eval_reliability : Option F
  pub performance_floor : Option F
  pub quant_penalty : Option F
  pub license : Option String
  pub remote_code_required : Bool
  pub digests : List String
  pub quantizations : List String

pub data Reject (F : Type 0) : Type 0 where
  missing_vision tools_required json_schema_required embeddings_required : Reject F
  remote_code cloud_provider barely_allocates : Reject F
  short_context : ℕ → ℕ → Reject F
  over_budget : F → F → Reject F

pub data Won (F : Type 0) : Type 0 where
  privacy_bonus low_latency_weights pinned_by_user : Won F
  good_quality : F → Won F
  good_fit : F → Option F → Won F
  context : ℕ → Won F

pub record ScoredCandidate (F : Type 0) : Type 0 where
  pub model_id : String
  pub display_name : String
  pub provider : String
  pub name : String
  pub digest : String
  pub score : F
  pub quality : F
  pub fit : F
  pub context_fit : F
  pub capability : F
  pub rejected : Bool
  pub reject_reasons : List (Reject F)
  pub reasons_won : List (Won F)
  pub expected_memory_mb : Option F
  pub context_length : Option ℕ
  pub license : Option String
  pub download_size_mb : Option F
  pub quant : Option String
  pub modalities : List String
  pub capabilities : Caps

-- The weights of a policy, in hundredths.
pub record Weights : Type 0 where
  pub w_q : ℕ
  pub w_c : ℕ
  pub w_r : ℕ
  pub w_p : ℕ
  pub w_f : ℕ
  pub w_z : ℕ
  pub w_d : ℕ

-- POLICY_WEIGHTS
unfoldable pub policy_weights : SelectionPolicy → Weights
policy_weights auto = record { w_q = 40; w_c = 15; w_r = 15; w_p = 10; w_f = 15; w_z = 3; w_d = 2 }
policy_weights balanced = record {
  w_q = 30;
  w_c = 15;
  w_r = 15;
  w_p = 20;
  w_f = 15;
  w_z = 3;
  w_d = 2;
}
policy_weights maximum_quality = record {
  w_q = 55;
  w_c = 15;
  w_r = 15;
  w_p = 5;
  w_f = 8;
  w_z = 1;
  w_d = 1;
}
policy_weights maximum_privacy = record {
  w_q = 25;
  w_c = 10;
  w_r = 10;
  w_p = 10;
  w_f = 20;
  w_z = 5;
  w_d = 5;
}
policy_weights low_latency = record {
  w_q = 20;
  w_c = 10;
  w_r = 10;
  w_p = 40;
  w_f = 15;
  w_z = 3;
  w_d = 2;
}
policy_weights pinned = record { w_q = 100; w_c = 0; w_r = 0; w_p = 0; w_f = 0; w_z = 0; w_d = 0 }
