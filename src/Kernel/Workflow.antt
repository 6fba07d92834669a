-- ===== src/Kernel/Workflow.antt =====
-- The parts of a schema-valid workflow document (packages/schemas/workflow) that the kernel reads.
-- A missing field is `none`. The schema makes the budgets and the retry count non-negative.
use brain_flow.Prelude.{ℕ, zero, suc, String, Option, none, some, List}

pub record Node : Type 0 where
  pub id : String
  pub type : Option String
  pub title : Option String
  pub permission_class : Option String
  pub cache_key : Option String
  pub idempotency_key : Option String
  pub retry_max : Option ℕ

pub record Edge : Type 0 where
  pub source : String
  pub target : String

pub record Budgets : Type 0 where
  pub max_steps : Option ℕ
  pub max_tokens : Option ℕ
  pub max_generated_files : Option ℕ

-- `pins` is the pins block as `json.dumps(pins, sort_keys=True)` writes it.
pub record Workflow : Type 0 where
  pub nodes : List Node
  pub edges : List Edge
  pub budgets : Budgets
  pub pins : String
  pub criteria : List String

-- int(x or d)
abbrev pub or_number : Option ℕ → ℕ → ℕ
or_number none d = d
or_number (some zero) d = d
or_number (some (suc n)) d = suc n
