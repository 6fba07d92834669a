-- ===== src/Kernel/Executor.antt =====
-- kernel/executor.py: `DagExecutor.execute`, around the attempts at one node.
pub mod Total
pub mod Attempts
pub mod Rules
pub mod Loop
pub mod Settled
pub mod Spending
pub mod Granted
pub mod Artifacts
pub mod Open
pub mod Rounds
pub mod Done
pub mod Silent
pub mod Resumed
pub mod Length
pub mod Order
mod Tests
pub mod Room
pub mod Steady
pub mod Live
use brain_flow.Prelude.{
  ℕ, ◌+◌, String, Bool, true, false, ◌&&◌, ◌||◌, Option, none, some, List, [], ◌∷◌, ◌++◌, map, leb,
  if◌then◌else◌,
}
use brain_flow.Prelude.Dict.{Dict, get, put, has, values}
use brain_flow.Kernel.Policy.{Action, evaluate_node_action}
use brain_flow.Kernel.Workflow.{Node, Workflow, or_number}
use brain_flow.Kernel.Topo.{topo_layers}
use brain_flow.Kernel.Run.{
  Status, running, succeeded, cancelled, needs_review, NodeStatus, NodeState, Budget, max_steps,
  max_tokens, max_generated_files, run_started, run_succeeded, verify_failed, node_skipped_resume,
  approval_required, cache_hit, criteria_unmet, RunState, emit, cancel, disturb,
}
use brain_flow.Kernel.Attempt.{
  Env, Flow, goes_on, returns, key_error, cache_key_for_node, fail, attempts_of, bare, set_node,
  attempts,
}

abbrev pub at_limit : Option ℕ → ℕ → Bool
at_limit none used = false
at_limit (some limit) used = leb limit used

-- The three tests before a node starts: the budget that is used up.
unfoldable pub exhausted : Workflow → RunState → Option Budget
exhausted wf s =
    if leb (or_number wf.budgets.max_steps 80) s.steps
    then some max_steps
    else if at_limit wf.budgets.max_tokens s.tokens
    then some max_tokens
    else if at_limit wf.budgets.max_generated_files s.generated_files
    then some max_generated_files
    else none

unfoldable pub start_node : String → RunState → RunState
unfolding set_node
start_node nid s = set_node nid (bare NodeStatus.running (attempts_of (get s.node_states nid))) s

-- prev and prev.get("status") == "succeeded"
abbrev pub is_done : Option NodeState → Bool
is_done none = false
is_done (some n) = elim n.status [ NodeStatus.succeeded ↦ true | _ ↦ false ]

module _ {W : Type 0} (env : Env W) (wf : Workflow) (input_hash : String) where
  unfoldable pub hit_cache : String → String → RunState → RunState
  unfolding set_node emit
  hit_cache nid ck s = emit (cache_hit nid ck) (
      set_node nid
        (record (bare NodeStatus.succeeded (attempts_of (get s.node_states nid))) {
          cache_hit = some true;
          cache_key = some ck;
        })
        s)

  abbrev pub node_key : Node → String
  node_key node = cache_key_for_node env.sha256_hex env.dumps_node node wf.pins input_hash

  -- From the cache on: the part of the loop's body behind the policy.
  unfoldable pub run_allowed : Node → String → RunState → W → Flow W
  unfolding hit_cache attempts
  run_allowed node nid s w =
      let ck = node_key node in
      if has s.cache ck
      then goes_on (hit_cache nid ck s) w
      else attempts env wf input_hash node nid ck (or_number node.retry_max 0 + 1) 0 none s w

  -- The callback's answer, and the state after it.
  unfoldable pub ask : Node → RunState → W → Bool × RunState × W
  unfolding disturb
  ask node s w = elim env.approval_callback [
    | none ↦ (false, s, w)
    | some callback ↦
        (let (yes_or_no, other, w') = callback node w in (yes_or_no, disturb other s, w'))
  ]

  unfoldable pub record_approval : String → Action → Bool → RunState → RunState
  record_approval nid a approved s = record s {
    approvals =
        s.approvals
        ++ record { node_id = nid; permission_class = a.permission_class; approved = approved }
          ∷ [];
  }

  unfoldable pub await_approval : String → RunState → RunState
  unfolding set_node emit
  await_approval nid s =
      let n = bare NodeStatus.needs_approval (attempts_of (get s.node_states nid)) in
      emit (approval_required nid) (record (set_node nid n s) { status = needs_review })

  -- The part behind the budgets.
  unfoldable pub run_checked : Node → String → RunState → W → Flow W
  unfolding evaluate_node_action ask record_approval await_approval run_allowed
  run_checked node nid s w =
      let a = evaluate_node_action node.permission_class none in
      if a.approval_required
      then (let (approved, s', w') = ask node s w in
          let s'' = record_approval nid a approved s' in
          if approved then run_allowed node nid s'' w' else returns (await_approval nid s'') w')
      else run_allowed node nid s w

  unfoldable pub run_started_node : Node → String → RunState → W → Flow W
  unfolding start_node exhausted fail run_checked
  run_started_node node nid s w =
      let s' = start_node nid s in
      elim (exhausted wf s') [ some b ↦ returns (fail b s') w | none ↦ run_checked node nid s' w ]

  -- The body of the loops over the layers.
  unfoldable pub run_node : Bool → Dict Node → String → RunState → W → Flow W
  unfolding cancel emit run_started_node
  run_node resume nodes nid s w =
      if s.cancel_requested
      then returns (cancel s) w
      else if resume && is_done (get s.node_states nid)
      then goes_on (emit (node_skipped_resume nid) s) w
      else elim (get nodes nid) [ none ↦ key_error | some node ↦ run_started_node node nid s w ]

  abbrev pub and_then : Flow W → (RunState → W → Flow W) → Flow W
  and_then (goes_on s w) k = k s w
  and_then (returns s w) k = returns s w
  and_then key_error k = key_error

  unfoldable pub run_nodes : Bool → Dict Node → List String → RunState → W → Flow W
  unfolding run_node
  run_nodes resume nodes [] s w = goes_on s w
  run_nodes resume nodes (nid ∷ nids) s w =
      and_then (run_node resume nodes nid s w) (run_nodes resume nodes nids)

  -- The outcome verifier: it asks for an artifact where there are criteria.
  unfoldable pub finish : RunState → RunState
  unfolding emit
  finish s = elim wf.criteria [
    | [] ↦ emit run_succeeded (record s { status = succeeded })
    | _ ∷ _ ↦ elim s.artifact_paths [
      | [] ↦ emit verify_failed (record s { status = needs_review; error = some criteria_unmet })
      | _ ∷ _ ↦ emit run_succeeded (record s { status = succeeded })
    ]
  ]

  -- {str(n["id"]): n for n in nodes}
  unfoldable pub node_table : Dict Node → List Node → Dict Node
  node_table d [] = d
  node_table d (n ∷ ns) = node_table (put d n.id n) ns

  -- The ids in the order in which they are run.
  unfoldable pub schedule : List String
  unfolding node_table topo_layers
  schedule = topo_layers (map (λ n. n.id) (values (node_table [] wf.nodes))) wf.edges

  abbrev pub is_cancelled : Status → Bool
  is_cancelled cancelled = true
  is_cancelled _ = false

  abbrev pub conclude : Flow W → Option (RunState × W)
  conclude (goes_on s w) = some (finish s, w)
  conclude (returns s w) = some (s, w)
  conclude key_error = none

  -- `none` is a KeyError.
  unfoldable pub execute : Bool → RunState → W → Option (RunState × W)
  unfolding cancel emit run_nodes finish schedule
  execute resume s w =
      if s.cancel_requested || is_cancelled s.status
      then some (cancel s, w)
      else (let s' = emit (run_started resume) (record s { status = running }) in
          conclude (run_nodes resume (node_table [] wf.nodes) schedule s' w))
