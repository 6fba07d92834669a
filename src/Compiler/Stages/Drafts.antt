-- ===== src/Compiler/Stages/Drafts.antt =====
-- kernel/stages.py: the data of the stages.
use brain_flow.Prelude.{ℕ, String, Bool, Option, List}
use brain_flow.Prelude.Int.{ℤ}
use brain_flow.Kernel.Workflow.{Edge}

pub data Stage : Type 0 where
  intake_stage goal_router_stage domain_planner_stage compiler_stage schema_stage critic_stage
        policy_stage :
      Stage

pub data QualityWarning : Type 0 where
  empty_source large_source_truncated : QualityWarning

pub data SensitiveFlag : Type 0 where
  possible_secret possible_pii : SensitiveFlag

pub record Intake : Type 0 where
  pub quality_warnings : List QualityWarning
  pub sensitive_data_flags : List SensitiveFlag
  pub is_missing : Bool

-- A node of a draft. The drafts here hold objects only: the schema has let them through.
pub record DraftNode : Type 0 where
  pub id : String
  pub type : Option String
  pub permission_class : Option String
  pub review_loop : Option (Option ℤ)

pub record Draft : Type 0 where
  pub workflow_id : String
  pub domain_pack_id : Option String
  pub nodes : List DraftNode
  pub edges : List Edge
  pub max_steps : Option ℤ
  pub max_parallel_jobs : Option ℤ

pub record Scores : Type 0 where
  pub completeness : ℕ
  pub ordering : ℕ
  pub feasibility : ℕ
  pub domain_fit : ℕ
  pub source_grounding : ℕ
  pub risk : ℕ

-- The operations of the critic's patch, without their random ids.
pub data PatchOp : Type 0 where
  add_verify_node : PatchOp
  add_edge_from : String → PatchOp

pub record Critique : Type 0 where
  pub scores : Scores
  pub passes : Bool
  pub patch : List PatchOp
