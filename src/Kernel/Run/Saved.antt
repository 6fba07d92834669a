-- ===== src/Kernel/Run/Saved.antt =====
-- kernel/executor.py: `RunState.to_dict` and `RunState.from_dict`, which save a run and load it.
use brain_flow.Prelude.{ℕ, zero, suc, String, ◌≡◌, refl, Bool, false, Option, none, some, List, []}
use brain_flow.Prelude.Dict.{Dict}
use brain_flow.Kernel.Workflow.{or_number}
use brain_flow.Kernel.Run.{Status, queued, NodeState, Event, Approval, Output, RunError, RunState}

-- The `budgets_used` of a saved run; the executor reads a missing count as 0.
pub record Used : Type 0 where
  pub steps : Option ℕ
  pub tokens : Option ℕ
  pub generated_files : Option ℕ

-- The keys of a saved run, each of which may be missing.
pub record RunDict : Type 0 where
  pub run_id : Option String
  pub workflow_id : Option String
  pub status : Option Status
  pub node_states : Option (Dict NodeState)
  pub events : Option (List Event)
  pub approvals : Option (List Approval)
  pub cache : Option (Dict Output)
  pub budgets_used : Option Used
  pub artifact_paths : Option (List String)
  pub error : Option RunError
  pub cancel_requested : Option Bool

unfoldable pub to_dict : RunState → RunDict
to_dict s = record {
  run_id = some s.run_id;
  workflow_id = some s.workflow_id;
  status = some s.status;
  node_states = some s.node_states;
  events = some s.events;
  approvals = some s.approvals;
  cache = none;
  budgets_used = some (record {
    steps = some s.steps;
    tokens = some s.tokens;
    generated_files = some s.generated_files;
  });
  artifact_paths = some s.artifact_paths;
  error = s.error;
  cancel_requested = some s.cancel_requested;
}

-- list(x or [])
abbrev or_empty : {A : Type 0} → Option (List A) → List A
or_empty none = []
or_empty (some xs) = xs

abbrev or_queued : Option Status → Status
or_queued none = queued
or_queued (some s) = s

abbrev or_false : Option Bool → Bool
or_false none = false
or_false (some b) = b

abbrev or_unused : Option Used → Used
or_unused none = record { steps = some 0; tokens = some 0; generated_files = some 0 }
or_unused (some u) = u

abbrev load : String → String → RunDict → RunState
load run_id workflow_id raw =
    let used = or_unused raw.budgets_used in
    record {
      run_id = run_id;
      workflow_id = workflow_id;
      status = or_queued raw.status;
      node_states = or_empty raw.node_states;
      events = or_empty raw.events;
      approvals = or_empty raw.approvals;
      cache = or_empty raw.cache;
      steps = or_number used.steps 0;
      tokens = or_number used.tokens 0;
      generated_files = or_number used.generated_files 0;
      artifact_paths = or_empty raw.artifact_paths;
      error = raw.error;
      cancel_requested = or_false raw.cancel_requested;
    }

-- `none` is a KeyError: a run without its id, or without that of its workflow.
unfoldable pub from_dict : RunDict → Option RunState
from_dict raw = elim raw.run_id [
  | none ↦ none
  | some run_id ↦ elim raw.workflow_id [
    | none ↦ none
    | some workflow_id ↦ some (load run_id workflow_id raw)
  ]
]

or_number-zero : (n : ℕ) → or_number (some n) 0 ≡ n
or_number-zero zero = refl
or_number-zero (suc n) = refl

-- A run that is saved and loaded is the run as it was, but for its cache, which is lost.
pub from_dict-to_dict : (s : RunState) → from_dict (to_dict s) ≡ some (record s { cache = [] })
unfolding from_dict to_dict
from_dict-to_dict s =
    rw (or_number-zero s.steps, or_number-zero s.tokens, or_number-zero s.generated_files)
