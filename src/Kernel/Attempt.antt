-- ===== src/Kernel/Attempt.antt =====
-- kernel/executor.py: the attempts at one node, `_invoke` and `cache_key_for_node`. The handlers, the
-- approval callback and the libraries `hashlib` and `json` are parameters.
use Prim.Native.String
use brain_flow.Prelude.{
  ℕ, zero, suc, ◌+◌, String, Bool, false, ◌&&◌, not, Option, none, some, [], ◌∷◌, ◌++◌, ◌⊎◌, inl,
  inr, ltb, ◌==◌, if◌then◌else◌,
}
use brain_flow.Prelude.Dict.{get, put}
use brain_flow.Prelude.Text.{or_text, is_empty, take_chars}
use brain_flow.Kernel.Policy.{Action, evaluate_node_action, may_auto_apply, error_text}
use brain_flow.Kernel.Workflow.{Node, Workflow, or_number}
use brain_flow.Kernel.Run.{
  failed, NodeStatus, Output, NodeState, Budget, max_tokens, node_succeeded, budget_exceeded,
  node_retry, node_failed, RunError, RunState, emit, cancel, Interference, disturb,
}

-- The context that a handler is given.
pub record Context : Type 0 where
  pub input_hash : String
  pub run_id : String

-- `raised` is an exception, with its text.
pub data Reply : Type 0 where
  returned : Output → Reply
  raised : String → Reply

-- What the program does not implement, over a state `W` of the world.
pub record Env (W : Type 0) : Type 0 where
  pub handlers : String → Option (Node → Context → W → Reply × Interference × W)
  pub approval_callback : Option (Node → W → Bool × Interference × W)
  pub sha256_hex : String → String
  pub dumps_node : Node → String

-- The outcome of a part of `execute`: it goes on, it returns, or it raises a KeyError.
pub data Flow (W : Type 0) : Type 0 where
  goes_on returns : RunState → W → Flow W
  key_error : Flow W

-- "cache:" + sha256(f"{base}|{pins}|{input_hash}").hexdigest()[:24]
unfoldable pub cache_key_for_node :
    (String → String) → (Node → String) → Node → String → String → String
cache_key_for_node sha256_hex dumps_node node pins input_hash =
    let base = or_text node.cache_key (or_text node.idempotency_key (dumps_node node)) in
    let material =
      String.◌++◌ base (String.◌++◌ "|" (String.◌++◌ pins (String.◌++◌ "|" input_hash))) in
    String.◌++◌ "cache:" (take_chars 24 (sha256_hex material))

unfoldable pub fail : Budget → RunState → RunState
unfolding emit
fail b s = emit (budget_exceeded b) (record s { status = failed; error = some (RunError.budget b) })

abbrev pub over_limit : Option ℕ → ℕ → Bool
over_limit none used = false
over_limit (some limit) used = ltb limit used

-- int((run_state.node_states.get(nid) or {}).get("attempts") or 0)
abbrev pub attempts_of : Option NodeState → ℕ
attempts_of none = 0
attempts_of (some n) = n.attempts

abbrev pub bare : NodeStatus → ℕ → NodeState
bare status attempts = record {
  status = status;
  attempts = attempts;
  cache_hit = none;
  cache_key = none;
  output = none;
  error = none;
}

unfoldable pub set_node : String → NodeState → RunState → RunState
set_node nid n s = record s { node_states = put s.node_states nid n }

-- The node's class, as the test on an artifact reads it.
abbrev pub node_class : Node → String
node_class node = or_text node.permission_class "safe_overlay"

abbrev pub or_unsafe : Option String → String
or_unsafe none = "unsafe write path"
or_unsafe (some text) = if is_empty text then "unsafe write path" else text

abbrev pub action_error : Action → Option String
action_error a = elim a.error [ none ↦ none | some e ↦ some (error_text e) ]

-- The refusal of an artifact's path: the text of the RuntimeError that it raises.
unfoldable pub path_error : Node → String → Option String
path_error node path =
    if may_auto_apply (node_class node)
    then (let a = evaluate_node_action node.permission_class (some path) in
        if a.ok then none else some (or_unsafe (action_error a)))
    else none

-- How one attempt ends: with success, with a return of `execute`, or with an exception.
pub data Attempt : Type 0 where
  success over_budget : RunState → Attempt
  failure : String → RunState → Attempt

unfoldable pub add_artifact : String → RunState → RunState
add_artifact path s = record s {
  artifact_paths = s.artifact_paths ++ path ∷ [];
  generated_files = s.generated_files + 1;
}

unfoldable pub add_tokens : ℕ → RunState → RunState
add_tokens n s = record s { tokens = s.tokens + n }

unfoldable pub store : String → String → ℕ → Output → RunState → RunState
unfolding set_node emit
store nid ck attempt out s = emit (node_succeeded nid) (
    set_node nid
      (record {
        status = NodeStatus.succeeded;
        attempts = attempt;
        cache_hit = some false;
        cache_key = some ck;
        output = some out;
        error = none;
      })
      (record s { cache = put s.cache ck out }))

-- if result.get("artifact_path"): ...
unfoldable pub take_artifact : Node → Option String → RunState → RunState ⊎ String
unfolding path_error add_artifact
take_artifact node none s = inl s
take_artifact node (some path) s =
    if is_empty path
    then inl s
    else elim (path_error node path) [ some text ↦ inr text | none ↦ inl (add_artifact path s) ]

-- The end of the `try`: the state after the artifact, or the exception that it raised at `s`.
abbrev pub conclude_attempt : String → String → ℕ → Output → RunState → RunState ⊎ String → Attempt
conclude_attempt nid ck attempt out s (inl s') = success (store nid ck attempt out s')
conclude_attempt nid ck attempt out s (inr text) = failure text s

-- The body of the `try` once the handler has returned.
unfoldable pub accept : Workflow → Node → String → String → ℕ → Output → RunState → Attempt
unfolding take_artifact add_tokens store fail
accept wf node nid ck attempt out s =
    let n = or_number out.tokens_used (or_number out.tokens 0) in
    let s' = add_tokens n s in
    if not (n == 0) && over_limit wf.budgets.max_tokens s'.tokens
    then over_budget (fail max_tokens s')
    else conclude_attempt nid ck attempt out s' (take_artifact node out.artifact_path s')

unfoldable pub begin_attempt : String → ℕ → RunState → RunState
unfolding set_node
begin_attempt nid attempt s =
    let prev = get s.node_states nid in
    set_node nid
      (elim prev [
        | none ↦ bare NodeStatus.running attempt
        | some n ↦ record n { attempts = attempt }
      ])
      (record s { steps = s.steps + 1 })

module _ {W : Type 0} where
  -- After the `while` loop: `if last_err: ...`, where an empty text is false.
  unfoldable pub settle : String → ℕ → Option String → RunState → W → Flow W
  unfolding set_node emit
  settle nid attempt none s w = goes_on s w
  settle nid attempt (some text) s w =
      if is_empty text
      then goes_on s w
      else (let n = record (bare NodeStatus.failed attempt) { error = some text } in
          let s' = record (set_node nid n s) {
            status = failed;
            error = some (RunError.node text);
          } in
          returns (emit (node_failed nid text) s') w)

module _ {W : Type 0} (env : Env W) (wf : Workflow) (input_hash : String) where
  -- handlers.get(ntype) or handlers.get("*")
  abbrev handler_for : Node → Option (Node → Context → W → Reply × Interference × W)
  handler_for node = elim (env.handlers (or_text node.type "summarize")) [
    | some h ↦ some h
    | none ↦ env.handlers "*"
  ]

  abbrev noop : Reply
  noop = returned (record { tokens_used = none; tokens = none; artifact_path = none })

  unfoldable pub invoke : Node → RunState → W → Reply × Interference × W
  invoke node s w = elim (handler_for node) [
    | none ↦ (noop, Interference.undisturbed, w)
    | some h ↦ h node (record { input_hash = input_hash; run_id = s.run_id }) w
  ]

  -- One round of the `while` loop, after its test for a cancellation.
  unfoldable pub attempt_node : Node → String → String → ℕ → RunState → W → Attempt × W
  unfolding invoke begin_attempt accept disturb
  attempt_node node nid ck attempt s w =
      let s' = begin_attempt nid attempt s in
      let (reply, other, w') = invoke node s' w in
      let s'' = disturb other s' in
      elim reply [
        | returned out ↦ (accept wf node nid ck attempt out s'', w')
        | raised text ↦ (failure text s'', w')
      ]

  -- The `while` loop, by recursion on the attempts that are left.
  unfoldable pub attempts :
      Node → String → String → (left attempt : ℕ) → Option String → RunState → W → Flow W
  unfolding attempt_node settle cancel emit
  attempts node nid ck zero attempt last_err s w = settle nid attempt last_err s w
  attempts node nid ck (suc left) attempt last_err s w =
      if s.cancel_requested
      then returns (cancel s) w
      else (let (a, w') = attempt_node node nid ck (attempt + 1) s w in
          elim a [
            | success s' ↦ goes_on s' w'
            | over_budget s' ↦ returns s' w'
            | failure text s' ↦
                attempts node nid ck left (attempt + 1) (some text)
                  (emit (node_retry nid (attempt + 1) text) s') w'
          ])
