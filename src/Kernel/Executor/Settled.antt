-- ===== src/Kernel/Executor/Settled.antt =====
-- kernel/executor.py: how a run ends.
use brain_flow.Prelude.{ℕ, ◌+◌, String, ◌≡◌, refl, Bool, true, false, Option, none, some, arith}
use brain_flow.Kernel.Workflow.{Node, Workflow}
use brain_flow.Kernel.Run.{Status, queued, running, RunState, cancel}
use brain_flow.Kernel.Attempt.{Env, attempt_node, settle, fail}
use brain_flow.Kernel.Executor.{await_approval, finish, execute}
use brain_flow.Kernel.Executor.Attempts.{AttemptEnds}
use brain_flow.Kernel.Executor.Rules.{Ends, Round, attempts-Ends, run_node-Ends}
use brain_flow.Kernel.Executor.Loop.{Result, execute-Result}

-- A run at rest: it is over, or it waits for a person.
abbrev is_settled : Status → Bool
is_settled queued = false
is_settled running = false
is_settled _ = true

abbrev pub IsSettled : RunState → Type 0
IsSettled s = is_settled s.status ≡ true

cancel-IsSettled : (s : RunState) → IsSettled (cancel s)
unfolding cancel
cancel-IsSettled s = ground arith

abbrev Any : RunState → Type 0
Any s = Unit {0}

module _ {W : Type 0} (env : Env W) (wf : Workflow) (input_hash : String) where
  attempt_node-Ends :
      (node : Node) (nid ck : String) (attempt : ℕ) (s : RunState) (w : W)
      → AttemptEnds Any IsSettled
          (λ text s'. Unit {0})
          (attempt_node env wf input_hash node nid ck attempt s w).0
  unfolding attempt_node
  attempt_node-Ends node nid ck attempt s w = ground arith

  settle-Ends :
      (nid : String) (attempt : ℕ) (last : Option String) (s : RunState) (w : W)
      → Ends Any IsSettled (settle nid attempt last s w)
  unfolding settle
  settle-Ends nid attempt none s w = tt
  settle-Ends nid attempt (some text) s w = ground arith

  round : (nid : String) (node : Node) → Round env wf input_hash nid node Any Any Any Any IsSettled
  unfolding fail await_approval
  round nid node = record {
    starts = λ s _ _. tt;
    stops = λ b s _ _. refl;
    free = λ s _ _. tt;
    approves = λ s w _ _ _. tt;
    denies = λ s w _ _ _. refl;
    hits = λ s _. tt;
    tries = λ s w _.
        attempts-Ends env wf input_hash node nid _ (λ _ _ _ _. Unit {0}) Any IsSettled
          (λ _ _ _ s' _ _. cancel-IsSettled s')
          (λ left attempt last s' w' _. attempt_node-Ends node nid _ (attempt + 1) s' w')
          (λ attempt last s' w' _. settle-Ends nid attempt last s' w') _ _ none s w tt;
  }

  -- A run that `execute` gives back is at rest: it has succeeded, failed, been cancelled, or waits
  -- for a review, and is neither queued nor running.
  pub execute-IsSettled :
      (resume : Bool) (s : RunState) (w : W)
      → Result env wf input_hash IsSettled (execute env wf input_hash resume s w)
  unfolding finish
  execute-IsSettled resume s w =
      execute-Result env wf input_hash resume (λ _ _. Unit {0}) IsSettled s w
        (λ _. cancel-IsSettled s) (λ _. tt) (λ s' _. ground arith)
        λ nid nids s' w' here _.
          run_node-Ends env wf input_hash resume _ nid Any Any IsSettled (λ _. Any) (λ _. Any)
            (λ s'' _ _. cancel-IsSettled s'') (λ _ _ _. tt) (λ node _. round nid node) here s' w' tt
