-- ===== src/Kernel/Executor/Live.antt =====
-- kernel/executor.py: a run whose handlers work, and whose budgets suffice, comes to its end.
use brain_flow.Prelude.{
  ℕ, zero, suc, ◌+◌, String, ◌≡◌, refl, subst, Bool, false, ◌||◌, Option, none, some, List, [], ◌∷◌,
  ◌⊎◌, inl, inr, arith, All, length,
}
use brain_flow.Kernel.Workflow.{Node, Workflow}
use brain_flow.Kernel.Run.{
  succeeded, needs_review, running, RunState, emit, run_succeeded, verify_failed, criteria_unmet,
}
use brain_flow.Kernel.Attempt.{
  Env, Flow, goes_on, returns, key_error, Attempt, success, over_budget, failure,
}
use brain_flow.Kernel.Executor.{finish, execute, is_cancelled, node_key}
use brain_flow.Kernel.Executor.Attempts.{AttemptEnds}
use brain_flow.Kernel.Executor.Rules.{Ends, Round, attempts-Ends, run_node-Ends}
use brain_flow.Kernel.Executor.Loop.{node_table-All, Result, execute-Result}
use brain_flow.Kernel.Executor.Length.{schedule-length}
use brain_flow.Kernel.Executor.Room.{
  HasBudget, fewer, emit-HasBudget, hit-HasBudget, unexhausted, start-HasBudget,
}
use brain_flow.Kernel.Executor.Steady.{IsReliable, attempt_node-Live}

-- How a run ends that reaches the outcome verifier.
abbrev pub IsVerified : Workflow → RunState → Type 0
IsVerified wf s =
    (s.status ≡ succeeded)
    ⊎ ((s.status ≡ needs_review) × (s.artifact_paths ≡ []) × (wf.criteria ≡ [] → ⊥))

plus_one : (m : ℕ) → suc m ≡ m + 1
plus_one m = omega arith

module _ {W : Type 0} (env : Env W) (wf : Workflow) (input_hash : String) (cost : ℕ) where
  -- The invariant of the `while` loop: it never comes to a second round.
  abbrev First : ℕ → ℕ → ℕ → Option String → RunState → Type 0
  First left zero attempt last s = ⊥
  First left (suc k) attempt last s = HasBudget wf cost (suc left) s

  first :
      (left m attempt : ℕ) (last : Option String) (s : RunState)
      → HasBudget wf cost (suc left) s
      → First left (m + 1) attempt last s
  first left m attempt last s h = subst (λ k. First left k attempt last s) (plus_one m) h

  only_success :
      (P : RunState → Type 0) (F : String → RunState → Type 0) (a : Attempt)
      → AttemptEnds P (λ _. ⊥) (λ _ _. ⊥) a
      → AttemptEnds P (λ _. ⊥) F a
  only_success P F (success s) h = h
  only_success P F (over_budget s) h = h
  only_success P F (failure text s) h = absurd h

  round :
      (left : ℕ) (nid : String) (node : Node)
      → IsReliable env wf input_hash cost node
      → Round env wf input_hash nid node
          (HasBudget wf cost (suc left))
          (HasBudget wf cost (suc left))
          (HasBudget wf cost (suc left))
          (HasBudget wf cost left)
          (λ _. ⊥)
  round left nid node r = record {
    starts = λ s h _. start-HasBudget wf cost (suc left) nid s h;
    stops = λ b s h e. absurd (
        ground (arith, unexhausted wf cost left _ (start-HasBudget wf cost (suc left) nid s h), e));
    free = λ s h _. h;
    approves = λ s w h on _. absurd (ground (arith, on, r.free));
    denies = λ s w h on _. absurd (ground (arith, on, r.free));
    hits = λ s h. hit-HasBudget wf cost env input_hash left nid _ s h;
    tries = λ s w h.
        attempts-Ends env wf input_hash node nid _ (First left) (HasBudget wf cost left) (λ _. ⊥)
          (λ k attempt last s' h' on. absurd (ground (arith, on, h'.active)))
          (λ k attempt last s' w' h'. only_success (HasBudget wf cost left) _ _ (
            attempt_node-Live env wf input_hash cost left node nid (node_key env wf input_hash node)
              (attempt + 1) s' w' r h'))
          (λ attempt last s' w' h'. absurd h') _ 0 none s w (first left _ 0 none s h);
  }

  finish-IsVerified : (s : RunState) → IsVerified wf (finish env wf input_hash s)
  unfolding finish emit
  finish-IsVerified s = go wf.criteria s.artifact_paths refl refl
    where
      go :
          (criteria paths : List String)
          → wf.criteria ≡ criteria
          → s.artifact_paths ≡ paths
          → IsVerified wf (elim criteria [
            | [] ↦ emit run_succeeded (record s { status = succeeded })
            | _ ∷ _ ↦ elim paths [
              | [] ↦
                  emit verify_failed
                    (record s { status = needs_review; error = some criteria_unmet })
              | _ ∷ _ ↦ emit run_succeeded (record s { status = succeeded })
            ]
          ])
      go [] paths e k = inl refl
      go (c ∷ cs) [] e k = inr (refl, k, λ none. absurd (ground (arith, e, none)))
      go (c ∷ cs) (p ∷ ps) e k = inl refl

  only_goes : (P Q : RunState → Type 0) (r : Flow W) → Ends P (λ _. ⊥) r → Ends P Q r
  only_goes P Q (goes_on s w) h = h
  only_goes P Q (returns s w) h = absurd h
  only_goes P Q key_error h = h

  -- A run that nobody has cancelled, whose nodes need no approval, whose handlers always return,
  -- undisturbed and with a path that the policy lets through if any, and whose budgets suffice for one
  -- step, one file and `cost` tokens for each node, where no handler reports more tokens than that,
  -- ends with the outcome verifier: it has succeeded, or it waits for a review because the workflow has
  -- criteria and no artifact was written.
  pub execute-IsVerified :
      (resume : Bool) (s : RunState) (w : W)
      → (s.cancel_requested || is_cancelled env wf input_hash s.status) ≡ false
      → All (IsReliable env wf input_hash cost) wf.nodes
      → HasBudget wf cost (length wf.nodes) s
      → Result env wf input_hash (IsVerified wf) (execute env wf input_hash resume s w)
  execute-IsVerified resume s w off reliable h =
      execute-Result env wf input_hash resume (λ nids. HasBudget wf cost (length nids))
        (IsVerified wf) s w (λ on. absurd (ground (arith, on, off)))
        (λ _. emit-HasBudget wf cost _ _ _ (
          fewer wf cost _ (length wf.nodes) (record s { status = running })
            (schedule-length env wf input_hash)
            (record { active = h.active; steps = h.steps; tokens = h.tokens; files = h.files })))
        (λ s' _. finish-IsVerified s')
        λ nid nids s' w' here h'. only_goes (HasBudget wf cost (length nids)) (IsVerified wf) _ (
          run_node-Ends env wf input_hash resume _ nid (HasBudget wf cost (suc (length nids)))
            (HasBudget wf cost (length nids)) (λ _. ⊥) (λ _. HasBudget wf cost (suc (length nids)))
            (λ _. HasBudget wf cost (suc (length nids)))
            (λ s'' h'' on. absurd (ground (arith, on, h''.active)))
            (λ s'' h'' _.
              emit-HasBudget wf cost _ _ s''
                (fewer wf cost (length nids) (suc (length nids)) s'' (omega arith) h''))
            (λ node found. round (length nids) nid node (
              node_table-All env wf input_hash (IsReliable env wf input_hash cost) reliable nid node
                found))
            here s' w' h')
