-- ===== src/Kernel/Run.antt =====
-- kernel/executor.py: `RunState` and cooperative cancellation. The times of day that the program
-- puts into events, approvals and cache entries are left out: nothing reads them.
pub mod Saved
use brain_flow.Prelude.{
  ℕ, String, Bool, true, false, Option, none, some, List, [], ◌∷◌, ◌++◌, str_eq, if◌then◌else◌,
}
use brain_flow.Prelude.Dict.{Dict}

pub data Status : Type 0 where
  queued running succeeded failed cancelled needs_review : Status

pub data NodeStatus : Type 0 where
  running succeeded needs_approval failed : NodeStatus

-- What a handler returns, as far as the executor reads it.
pub record Output : Type 0 where
  pub tokens_used : Option ℕ
  pub tokens : Option ℕ
  pub artifact_path : Option String

pub record NodeState : Type 0 where
  pub status : NodeStatus
  pub attempts : ℕ
  pub cache_hit : Option Bool
  pub cache_key : Option String
  pub output : Option Output
  pub error : Option String

pub data Budget : Type 0 where
  max_steps max_tokens max_generated_files : Budget

pub data Event : Type 0 where
  run_started : Bool → Event
  run_cancelled run_succeeded verify_failed : Event
  node_skipped_resume approval_required node_succeeded : String → Event
  budget_exceeded : Budget → Event
  cache_hit : String → String → Event
  node_retry : String → ℕ → String → Event
  node_failed : String → String → Event

pub record Approval : Type 0 where
  pub node_id : String
  pub permission_class : Option String
  pub approved : Bool

pub data RunError : Type 0 where
  cancelled_by_user criteria_unmet : RunError
  budget : Budget → RunError
  node : String → RunError

pub record RunState : Type 0 where
  pub run_id : String
  pub workflow_id : String
  pub status : Status
  pub node_states : Dict NodeState
  pub events : List Event
  pub approvals : List Approval
  pub cache : Dict Output
  pub steps : ℕ
  pub tokens : ℕ
  pub generated_files : ℕ
  pub artifact_paths : List String
  pub error : Option RunError
  pub cancel_requested : Bool

unfoldable pub emit : Event → RunState → RunState
emit e s = record s { events = s.events ++ e ∷ [] }

unfoldable pub request_cancel : RunState → RunState
request_cancel s = record s { cancel_requested = true }

abbrev pub is_final : Status → Bool
is_final succeeded = true
is_final failed = true
is_final cancelled = true
is_final _ = false

-- run_state.error or "cancelled by user"
abbrev or_cancelled : Option RunError → Option RunError
or_cancelled none = some cancelled_by_user
or_cancelled (some (node message)) =
    if str_eq message "" then some cancelled_by_user else some (node message)
or_cancelled (some e) = some e

-- DagExecutor.cancel
unfoldable pub cancel : RunState → RunState
unfolding emit request_cancel
cancel run_state =
    let s = request_cancel run_state in
    if is_final s.status
    then s
    else emit run_cancelled (record s { status = cancelled; error = or_cancelled s.error })

-- What others do to the run state while a handler or the approval callback runs: nothing, a call of
-- `run_state.request_cancel()`, or a call of `executor.cancel(run_state)`.
pub data Interference : Type 0 where
  undisturbed requests_cancel cancels : Interference

unfoldable pub disturb : Interference → RunState → RunState
unfolding cancel request_cancel
disturb undisturbed s = s
disturb requests_cancel s = request_cancel s
disturb cancels s = cancel s
