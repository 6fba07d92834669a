-- ===== src/Kernel/Executor/Spending.antt =====
-- kernel/executor.py: what a run spends of its budgets.
use brain_flow.Prelude.{
  ℕ, suc, ◌+◌, ◌≤◌, String, ◌≡◌, Bool, false, Option, none, some, arith, ◌⊎◌, All,
}
use brain_flow.Kernel.Policy.{Action}
use brain_flow.Kernel.Workflow.{Node, Workflow, or_number}
use brain_flow.Kernel.Run.{
  Event, failed, Budget, max_tokens, budget, RunState, cancel, disturb, Interference, node_retry,
  emit, Output,
}
use brain_flow.Kernel.Attempt.{
  Env, begin_attempt, settle, fail, over_limit, add_artifact, store, add_tokens, attempts,
}
use brain_flow.Kernel.Executor.{
  start_node, exhausted, await_approval, finish, execute, hit_cache, record_approval, ask, at_limit,
}
use brain_flow.Kernel.Executor.Attempts.{Outcomes, attempt_node-Ends}
use brain_flow.Kernel.Executor.Rules.{Ends, Round, attempts-Ends, run_node-Ends}
use brain_flow.Kernel.Executor.Loop.{node_table-All, Result, execute-Result}

module _ (wf : Workflow) (retries : ℕ) where
  abbrev WithinTokens : RunState → Type 0
  WithinTokens s = over_limit wf.budgets.max_tokens s.tokens ≡ false

  -- The files are within their limit, if there is one.
  abbrev WithinFiles : RunState → Type 0
  WithinFiles s = over_limit wf.budgets.max_generated_files s.generated_files ≡ false

  -- Between two nodes. A node may take one step more for each retry.
  pub record IsWithin (s : RunState) : Type 0 where
    pub steps : s.steps ≤ or_number wf.budgets.max_steps 80 + retries
    pub tokens : WithinTokens s
    pub files : WithinFiles s

  -- Once a node has passed the tests on the budgets.
  record HasRoom (left : ℕ) (s : RunState) : Type 0 where
    steps : s.steps + left ≤ or_number wf.budgets.max_steps 80 + retries
    tokens : WithinTokens s
    files : at_limit wf.budgets.max_generated_files s.generated_files ≡ false

  -- Where `execute` returns: only the tokens may have passed their limit, and then the run failed.
  pub record IsAccounted (s : RunState) : Type 0 where
    pub steps : s.steps ≤ or_number wf.budgets.max_steps 80 + retries
    pub files : WithinFiles s
    pub tokens : WithinTokens s ⊎ ((s.status ≡ failed) × (s.error ≡ some (budget max_tokens)))

  cancel-IsAccounted : (s : RunState) → IsWithin s → IsAccounted (cancel s)
  unfolding cancel
  cancel-IsAccounted s p = ground arith

  disturb-HasRoom :
      (o : Interference) (left : ℕ) (s : RunState) → HasRoom left s → HasRoom left (disturb o s)
  unfolding disturb
  disturb-HasRoom o left s p = ground arith

  begin-HasRoom :
      (nid : String) (attempt left : ℕ) (s : RunState)
      → HasRoom (suc left) s
      → HasRoom left (begin_attempt nid attempt s)
  unfolding begin_attempt
  begin-HasRoom nid attempt left s p = ground arith

  emit-HasRoom : (left : ℕ) (e : Event) (s : RunState) → HasRoom left s → HasRoom left (emit e s)
  unfolding emit
  emit-HasRoom left e s p = ground arith

  settle-Ends :
      {W : Type 0} (nid : String) (attempt : ℕ) (last : Option String) (s : RunState) (w : W)
      → HasRoom 0 s
      → Ends IsWithin IsAccounted (settle nid attempt last s w)
  unfolding settle
  settle-Ends nid attempt none s w p = ground arith
  settle-Ends nid attempt (some text) s w p = ground arith

  module _ {W : Type 0} (env : Env W) (input_hash : String) where
    outcomes :
        (node : Node) (nid ck : String) (attempt left : ℕ) (R : Output → Type 0) (s : RunState)
        → HasRoom left s
        → Outcomes env wf input_hash node nid ck attempt IsWithin IsAccounted
            (λ text s'. HasRoom left (emit (node_retry nid attempt text) s'))
            R
            s
    unfolding fail add_tokens store add_artifact emit
    outcomes node nid ck attempt left R s p = record {
      over = λ n h. ground arith;
      plain = λ n out _ h. ground arith;
      artifact = λ n out path _ _ h given e. ground arith;
      refused = λ n path text h e. ground arith;
    }

    tries :
        (node : Node) (nid ck : String) (s : RunState) (w : W)
        → HasRoom (or_number node.retry_max 0 + 1) s
        → Ends IsWithin IsAccounted
            (attempts env wf input_hash node nid ck (or_number node.retry_max 0 + 1) 0 none s w)
    tries node nid ck s w p =
        attempts-Ends env wf input_hash node nid ck (λ left _ _. HasRoom left) IsWithin IsAccounted
          (λ left _ _ s' h _. cancel-IsAccounted s' (ground arith))
          (λ left attempt _ s' w' h.
            attempt_node-Ends env wf input_hash node nid ck (attempt + 1) IsWithin IsAccounted _ s'
              w'
              (λ o.
                outcomes node nid ck (attempt + 1) left _ _
                  (disturb-HasRoom o left _ (begin-HasRoom nid (attempt + 1) left s' h)))
              (λ o text _.
                emit-HasRoom left _ _
                  (disturb-HasRoom o left _ (begin-HasRoom nid (attempt + 1) left s' h))))
          (λ attempt last s' w' h. settle-Ends nid attempt last s' w' h) _ 0 none s w p

    start-IsWithin : (nid : String) (s : RunState) → IsWithin s → IsWithin (start_node nid s)
    unfolding start_node
    start-IsWithin nid s p = ground arith

    exhausted-HasRoom :
        (node : Node) (s : RunState)
        → or_number node.retry_max 0 ≤ retries
        → IsWithin s
        → exhausted wf s ≡ none
        → HasRoom (or_number node.retry_max 0 + 1) s
    unfolding exhausted
    exhausted-HasRoom node s few p go = ground arith

    exhausted-IsAccounted : (b : Budget) (s : RunState) → IsWithin s → IsAccounted (fail b s)
    unfolding fail
    exhausted-IsAccounted b s p = ground arith

    ask-HasRoom :
        (node : Node) (left : ℕ) (s : RunState) (w : W)
        → HasRoom left s
        → HasRoom left (ask env wf input_hash node s w).1
    unfolding ask
    ask-HasRoom node left s w p = ground arith

    approval-HasRoom :
        (nid : String) (a : Action) (approved : Bool) (left : ℕ) (s : RunState)
        → HasRoom left s
        → HasRoom left (record_approval env wf input_hash nid a approved s)
    unfolding record_approval
    approval-HasRoom nid a approved left s p = ground arith

    await-IsAccounted :
        (nid : String) (left : ℕ) (s : RunState)
        → HasRoom left s
        → IsAccounted (await_approval env wf input_hash nid s)
    unfolding await_approval
    await-IsAccounted nid left s p = ground arith

    hit-IsWithin :
        (nid ck : String) (left : ℕ) (s : RunState)
        → HasRoom left s
        → IsWithin (hit_cache env wf input_hash nid ck s)
    unfolding hit_cache
    hit-IsWithin nid ck left s p = ground arith

    round :
        (nid : String) (node : Node)
        → or_number node.retry_max 0 ≤ retries
        → Round env wf input_hash nid node IsWithin
            (HasRoom (or_number node.retry_max 0 + 1))
            (HasRoom (or_number node.retry_max 0 + 1))
            IsWithin
            IsAccounted
    round nid node few = record {
      starts = λ s p go. exhausted-HasRoom node _ few (start-IsWithin nid s p) go;
      stops = λ b s p _. exhausted-IsAccounted b _ (start-IsWithin nid s p);
      free = λ s m _. m;
      approves = λ s w m _ _. approval-HasRoom nid _ _ _ _ (ask-HasRoom node _ s w m);
      denies = λ s w m _ _.
          await-IsAccounted nid _ _ (approval-HasRoom nid _ _ _ _ (ask-HasRoom node _ s w m));
      hits = λ s m. hit-IsWithin nid _ _ s m;
      tries = λ s w m. tries node nid _ s w m;
    }

    emit-IsWithin : (e : Event) (s : RunState) → IsWithin s → IsWithin (emit e s)
    unfolding emit
    emit-IsWithin e s p = ground arith

    finish-IsAccounted : (s : RunState) → IsWithin s → IsAccounted (finish env wf input_hash s)
    unfolding finish
    finish-IsAccounted s p = ground arith

    -- A run that starts within its budgets, over nodes that allow at most `retries` retries each,
    -- ends with at most `max_steps + retries` steps (80 steps where the budget is missing or zero),
    -- with no more files than its budget, and with no more tokens than its budget unless it has
    -- failed with the error of the token budget.
    pub execute-IsAccounted :
        (resume : Bool) (s : RunState) (w : W)
        → All (λ n. or_number n.retry_max 0 ≤ retries) wf.nodes
        → IsWithin s
        → Result env wf input_hash IsAccounted (execute env wf input_hash resume s w)
    execute-IsAccounted resume s w few p =
        execute-Result env wf input_hash resume (λ _. IsWithin) IsAccounted s w
          (λ _. cancel-IsAccounted s p) (λ _. emit-IsWithin _ _ (ground arith)) finish-IsAccounted
          λ nid nids s' w' here p'.
            run_node-Ends env wf input_hash resume _ nid IsWithin IsWithin IsAccounted
              (λ node. HasRoom (or_number node.retry_max 0 + 1))
              (λ node. HasRoom (or_number node.retry_max 0 + 1))
              (λ s'' p'' _. cancel-IsAccounted s'' p'') (λ s'' p'' _. emit-IsWithin _ s'' p'')
              (λ node found. round nid node (node_table-All env wf input_hash _ few nid node found))
              here s' w' p'
