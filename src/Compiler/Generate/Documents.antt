-- ===== src/Compiler/Generate/Documents.antt =====
-- workflow_gen.py: what the model writes, and what is made of it.
use brain_flow.Prelude.{ℕ, String, Option, List}
use brain_flow.Prelude.Dict.{Dict}
use brain_flow.Kernel.Workflow.{Node, Budgets}
use brain_flow.Gateway.Pins.{Ref}

-- A node as the model writes it. `retry` is `none` where it is missing or empty, and holds the value of
-- its `max` else.
pub record RawNode : Type 0 where
  pub id : Option String
  pub type : Option String
  pub title : Option String
  pub permission_class : Option String
  pub idempotency_key : Option String
  pub cache_key : Option String
  pub retry : Option (Option ℕ)

pub record RawEdge : Type 0 where
  pub source : String
  pub target : String
  pub kind : Option String

-- A `goal` that is no object, or an object with its `statement`, if there is one.
pub data RawGoal : Type 0 where
  no_goal : RawGoal
  goal : Option String → RawGoal

-- The model's document; what is no object is `none`, and `nodes` that are no list are empty.
pub record RawDoc : Type 0 where
  pub nodes : List (Option RawNode)
  pub edges : List (Option RawEdge)
  pub title : Option String
  pub domain_pack_id : Option String
  pub goal : RawGoal

pub record Link : Type 0 where
  pub id : String
  pub source : String
  pub target : String
  pub kind : String

-- The texts of a workflow that nothing in the kernel decides on.
pub record Texts : Type 0 where
  pub title : String
  pub domain_pack_id : String
  pub statement : String

pub record Generated : Type 0 where
  pub workflow_id : String
  pub texts : Texts
  pub planner : Ref
  pub nodes : List Node
  pub edges : List Link
  pub budgets : Budgets
  pub criteria : List String

-- The two errors by which the compiler fails closed.
pub data Compiled : Type 0 where
  no_nodes no_usable_nodes : Compiled
  compiled : Generated → Compiled

-- The ids that have been given out: `id_map`, and how many uuids there have been.
pub record Ids : Type 0 where
  pub id_map : Dict String
  pub given : ℕ
