-- ===== src/Kernel/Executor/Steady.antt =====
-- kernel/executor.py: an attempt at a node whose handler works, while the budgets suffice.
use brain_flow.Prelude.{
  ℕ, suc, ◌+◌, ◌*◌, ◌≤◌, String, ◌≡◌, refl, sym, subst, false, ◌&&◌, Option, none, some, List, [],
  ◌∷◌, ◌++◌, ◌==◌, ◌⊎◌, arith, if_ind, option_ind, not,
}
use brain_flow.Prelude.Text.{is_empty}
use brain_flow.Kernel.Policy.{evaluate_node_action}
use brain_flow.Kernel.Workflow.{Node, Workflow, or_number}
use brain_flow.Kernel.Run.{Output, RunState, Interference, undisturbed, disturb, emit}
use brain_flow.Kernel.Attempt.{
  Env, Reply, returned, raised, Attempt, failure, invoke, begin_attempt, accept, attempt_node,
  conclude_attempt, take_artifact, path_error, add_tokens, add_artifact, store, over_limit,
  set_node,
}
use brain_flow.Kernel.Executor.{at_limit}
use brain_flow.Kernel.Executor.Attempts.{AttemptEnds}
use brain_flow.Kernel.Executor.Room.{HasBudget, below, within, no_more, suc_times}

-- The tokens that a handler reports.
abbrev cost_of : Output → ℕ
cost_of out = or_number out.tokens_used (or_number out.tokens 0)

module _ {W : Type 0} (env : Env W) (wf : Workflow) (input_hash : String) (cost : ℕ) where
  -- A node that needs no approval, and whose handler always returns, undisturbed, reports at most `cost`
  -- tokens and writes where the policy lets it.
  pub record IsReliable (node : Node) : Type 0 where
    pub free : (evaluate_node_action node.permission_class none).approval_required ≡ false
    pub returns :
        (s : RunState) (w : W)
        → (out : Output) × (w' : W) × (invoke env wf input_hash node s w
            ≡ (returned out, undisturbed, w'))
          × (cost_of out ≤ cost)
          × ((path : String) → out.artifact_path ≡ some path → path_error node path ≡ none)

  -- In the middle of a node's attempt.
  record IsTrying (left : ℕ) (s : RunState) : Type 0 where
    active : s.cancel_requested ≡ false
    steps : s.steps + left ≤ or_number wf.budgets.max_steps 80
    tokens : at_limit wf.budgets.max_tokens (s.tokens + cost + left * cost) ≡ false
    files : over_limit wf.budgets.max_generated_files (s.generated_files + suc left) ≡ false

  begin-IsTrying :
      (left : ℕ) (nid : String) (attempt : ℕ) (s : RunState)
      → HasBudget wf cost (suc left) s
      → IsTrying left (begin_attempt nid attempt s)
  unfolding begin_attempt set_node
  begin-IsTrying left nid attempt s h = record {
    active = h.active;
    steps = ground (arith, h.steps);
    tokens =
        below wf.budgets.max_tokens _ (s.tokens + suc left * cost)
          (ground (arith, suc_times left cost)) h.tokens;
    files = h.files;
  }

  -- The handler's answer is accepted.
  accept-Live :
      (left : ℕ) (node : Node) (nid ck : String) (attempt : ℕ) (out : Output) (s : RunState)
      → IsTrying left s
      → cost_of out ≤ cost
      → ((path : String) → out.artifact_path ≡ some path → path_error node path ≡ none)
      → AttemptEnds
          (HasBudget wf cost left)
          (λ _. ⊥)
          (λ _ _. ⊥)
          (accept wf node nid ck attempt out s)
  unfolding accept add_tokens take_artifact add_artifact store set_node emit
  accept-Live left node nid ck attempt out s t few free =
      if_ind (AttemptEnds (HasBudget wf cost left) (λ _. ⊥) (λ _ _. ⊥))
        (not (cost_of out == 0) && over_limit wf.budgets.max_tokens (s.tokens + cost_of out))
        (λ h. absurd (
          ground (
            arith,
            h,
            within wf.budgets.max_tokens (s.tokens + cost_of out) (s.tokens + cost + left * cost)
                (omega arith) t.tokens,
          )))
        (λ _. go out.artifact_path free)
    where
      s' : RunState
      s' = add_tokens (cost_of out) s

      Holds : RunState ⊎ String → Type 0
      Holds r =
          AttemptEnds (HasBudget wf cost left) (λ _. ⊥) (λ _ _. ⊥)
            (conclude_attempt nid ck attempt out s' r)

      stored :
          (files : ℕ) (paths : List String)
          → over_limit wf.budgets.max_generated_files (files + left) ≡ false
          → HasBudget wf cost left (
              store nid ck attempt out
                (record s' { generated_files = files; artifact_paths = paths }))
      stored files paths h = record {
        active = t.active;
        steps = t.steps;
        tokens =
            below wf.budgets.max_tokens _ (s.tokens + cost + left * cost) (omega arith) t.tokens;
        files = h;
      }

      plain : HasBudget wf cost left (store nid ck attempt out s')
      plain = stored s.generated_files s.artifact_paths (
          no_more wf.budgets.max_generated_files _ (s.generated_files + suc left) (omega arith)
            t.files)

      go :
          (o : Option String)
          → ((path : String) → o ≡ some path → path_error node path ≡ none)
          → Holds (take_artifact node o s')
      go none h = plain
      go (some path) h =
          if_ind Holds (is_empty path) (λ _. plain)
            λ _.
              option_ind Holds (path_error node path)
                (λ _. stored (s.generated_files + 1) (s.artifact_paths ++ path ∷ []) (
                  no_more wf.budgets.max_generated_files _ (s.generated_files + suc left)
                    (omega arith) t.files))
                (λ text e. absurd (ground (arith, h path refl, e)))

  pub attempt_node-Live :
      (left : ℕ) (node : Node) (nid ck : String) (attempt : ℕ) (s : RunState) (w : W)
      → IsReliable node
      → HasBudget wf cost (suc left) s
      → AttemptEnds
          (HasBudget wf cost left)
          (λ _. ⊥)
          (λ _ _. ⊥)
          (attempt_node env wf input_hash node nid ck attempt s w).0
  unfolding attempt_node disturb
  attempt_node-Live left node nid ck attempt s w r h =
      let begun = begin_attempt nid attempt s in
      let (out, w', answer, few, free) = r.returns begun w in go out few free _ answer
    where
      go :
          (out : Output)
          → cost_of out ≤ cost
          → ((path : String) → out.artifact_path ≡ some path → path_error node path ≡ none)
          → (x : Reply × Interference × W) → {w' : W} → x ≡ (returned out, undisturbed, w')
          → AttemptEnds
              (HasBudget wf cost left)
              (λ _. ⊥)
              (λ _ _. ⊥)
              (let y : Attempt × W = elim x.0 [
                | returned out ↦ (
                  accept wf node nid ck attempt out (disturb x.1 (begin_attempt nid attempt s)),
                  x.2,
                )
                | raised text ↦ (failure text (disturb x.1 (begin_attempt nid attempt s)), x.2)
              ] in
                y.0)
      go out few free x e =
          subst
            (λ (x : Reply × Interference × W).
              AttemptEnds (HasBudget wf cost left) (λ _. ⊥) (λ _ _. ⊥)
                (let y : Attempt × W = elim x.0 [
                  | returned out ↦ (
                    accept wf node nid ck attempt out (disturb x.1 (begin_attempt nid attempt s)),
                    x.2,
                  )
                  | raised text ↦ (failure text (disturb x.1 (begin_attempt nid attempt s)), x.2)
                ] in
                  y.0))
            (sym e)
            (accept-Live left node nid ck attempt out (begin_attempt nid attempt s)
              (begin-IsTrying left nid attempt s h) few free)
