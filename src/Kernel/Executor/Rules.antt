-- ===== src/Kernel/Executor/Rules.antt =====
-- Proof rules for the parts of a node's round in `execute`, and for the attempts at a node. `P`
-- holds where the run goes on, and `Q` where `execute` returns.
use brain_flow.Prelude.{
  ℕ, zero, suc, ◌+◌, String, ◌≡◌, Bool, true, false, Option, none, some, inl, inr, ◌&&◌, arith,
  Bool-cases, if_ind, option_ind, sym, ◌∙◌,
}
use brain_flow.Prelude.Dict.{Dict, get, has}
use brain_flow.Kernel.Policy.{evaluate_node_action}
use brain_flow.Kernel.Workflow.{Node, Workflow, or_number}
use brain_flow.Kernel.Run.{Budget, RunState, node_retry, node_skipped_resume, emit, cancel}
use brain_flow.Kernel.Attempt.{
  Env, Flow, goes_on, returns, key_error, Attempt, success, over_budget, failure, attempt_node,
  attempts, settle, fail,
}
use brain_flow.Kernel.Executor.Attempts.{AttemptEnds}
use brain_flow.Kernel.Executor.{
  start_node, exhausted, is_done, node_key, hit_cache, run_allowed, ask, record_approval,
  await_approval, run_checked, run_started_node, run_node,
}

abbrev pub Ends : {W : Type 0} → (RunState → Type 0) → (RunState → Type 0) → Flow W → Type 0
Ends P Q (goes_on s w) = P s
Ends P Q (returns s w) = Q s
Ends P Q key_error = ⊥

module _ {W : Type 0} (env : Env W) (wf : Workflow) (input_hash : String) where
  -- `T left attempt last_err` is the invariant of the `while` loop.
  pub attempts-Ends :
      (node : Node) (nid ck : String) (T : ℕ → ℕ → Option String → RunState → Type 0)
      (P Q : RunState → Type 0)
      → ((left attempt : ℕ) (last : Option String) (s : RunState)
          → T (suc left) attempt last s
          → s.cancel_requested ≡ true
          → Q (cancel s))
      → ((left attempt : ℕ) (last : Option String) (s : RunState) (w : W)
          → T (suc left) attempt last s
          → AttemptEnds P Q
              (λ text s'.
                T left (attempt + 1) (some text) (emit (node_retry nid (attempt + 1) text) s'))
              (attempt_node env wf input_hash node nid ck (attempt + 1) s w).0)
      → ((attempt : ℕ) (last : Option String) (s : RunState) (w : W)
          → T 0 attempt last s
          → Ends P Q (settle nid attempt last s w))
      → (left attempt : ℕ) (last : Option String) (s : RunState) (w : W) → T left attempt last s
      → Ends P Q (attempts env wf input_hash node nid ck left attempt last s w)
  unfolding attempts
  attempts-Ends node nid ck T P Q stop body last_round zero attempt last s w t =
      last_round attempt last s w t
  attempts-Ends node nid ck T P Q stop body last_round (suc left) attempt last s w t =
      elim (Bool-cases s.cancel_requested) [
        | inl on ↦ rw on (stop left attempt last s t on)
        | inr off ↦ rw off (
            go
              (λ text s' w' t'.
                attempts-Ends node nid ck T P Q stop body last_round left (attempt + 1) (some text)
                  s' w' t')
              (attempt_node env wf input_hash node nid ck (attempt + 1) s w)
              (body left attempt last s w t))
      ]
    where
      go :
          ((text : String) (s' : RunState) (w' : W)
            → T left (attempt + 1) (some text) s'
            → Ends P Q
                (attempts env wf input_hash node nid ck left (attempt + 1) (some text) s' w'))
          → (r : Attempt × W)
          → AttemptEnds P Q
              (λ text s'.
                T left (attempt + 1) (some text) (emit (node_retry nid (attempt + 1) text) s'))
              r.0
          → Ends P Q (elim r.0 [
            | success s' ↦ goes_on s' r.1
            | over_budget s' ↦ returns s' r.1
            | failure text s' ↦
                attempts env wf input_hash node nid ck left
                  (attempt + 1)
                  (some text)
                  (emit (node_retry nid (attempt + 1) text) s')
                  r.1
          ])
      go again (success s', w') h = h
      go again (over_budget s', w') h = h
      go again (failure text s', w') h =
          again text (emit (node_retry nid (attempt + 1) text) s') w' h

  -- The obligations of one node's round: `P` at its start, `M` once it has started, `N` behind the
  -- policy, and `R` where the run goes on to the next node.
  pub record Round (nid : String) (node : Node) (P M N R Q : RunState → Type 0) : Type 0 where
    pub starts :
        (s : RunState) → P s → exhausted wf (start_node nid s) ≡ none → M (start_node nid s)
    pub stops :
        (b : Budget) (s : RunState)
        → P s
        → exhausted wf (start_node nid s) ≡ some b
        → Q (fail b (start_node nid s))
    pub free :
        (s : RunState)
        → M s
        → (evaluate_node_action node.permission_class none).approval_required ≡ false
        → N s
    pub approves :
        (s : RunState) (w : W)
        → M s
        → (evaluate_node_action node.permission_class none).approval_required ≡ true
        → (ask env wf input_hash node s w).0 ≡ true
        → N (
            record_approval env wf input_hash nid
              (evaluate_node_action node.permission_class none)
              true
              (ask env wf input_hash node s w).1)
    pub denies :
        (s : RunState) (w : W)
        → M s
        → (evaluate_node_action node.permission_class none).approval_required ≡ true
        → (ask env wf input_hash node s w).0 ≡ false
        → Q (
            await_approval env wf input_hash nid (
              record_approval env wf input_hash nid
                (evaluate_node_action node.permission_class none)
                false
                (ask env wf input_hash node s w).1))
    pub hits :
        (s : RunState)
        → N s
        → R (hit_cache env wf input_hash nid (node_key env wf input_hash node) s)
    pub tries :
        (s : RunState) (w : W)
        → N s
        → Ends R Q (
            attempts env wf input_hash node nid
              (node_key env wf input_hash node)
              (or_number node.retry_max 0 + 1)
              0
              none
              s
              w)

  module _ {nid : String} {node : Node} {P M N R Q : RunState → Type 0}
      (r : Round nid node P M N R Q) where
    run_allowed-Ends :
        (s : RunState) (w : W) → N s → Ends R Q (run_allowed env wf input_hash node nid s w)
    unfolding run_allowed
    run_allowed-Ends s w n =
        if_ind (Ends R Q) (has s.cache (node_key env wf input_hash node)) (λ _. r.hits s n)
          (λ _. r.tries s w n)

    run_checked-Ends :
        (s : RunState) (w : W) → M s → Ends R Q (run_checked env wf input_hash node nid s w)
    unfolding run_checked
    run_checked-Ends s w m =
        if_ind (Ends R Q) (evaluate_node_action node.permission_class none).approval_required
          (λ on. elim (Bool-cases (ask env wf input_hash node s w).0) [
            | inl granted ↦ rw granted (run_allowed-Ends _ _ (r.approves s w m on granted))
            | inr denied ↦ rw denied (r.denies s w m on denied)
          ])
          (λ off. run_allowed-Ends s w (r.free s m off))

    pub run_started_node-Ends :
        (s : RunState) (w : W) → P s → Ends R Q (run_started_node env wf input_hash node nid s w)
    unfolding run_started_node
    run_started_node-Ends s w p =
        option_ind (Ends R Q) (exhausted wf (start_node nid s))
          (λ go. run_checked-Ends _ w (r.starts s p go)) (λ b stop. r.stops b s p stop)

  none-some : {n : Node} → some n ≡ none → ⊥
  none-some e = ground arith

  pub run_node-Ends :
      (resume : Bool) (nodes : Dict Node) (nid : String) (P R Q : RunState → Type 0)
      (M N : Node → RunState → Type 0)
      → ((s : RunState) → P s → s.cancel_requested ≡ true → Q (cancel s))
      → ((s : RunState)
          → P s
          → is_done (get s.node_states nid) ≡ true
          → R (emit (node_skipped_resume nid) s))
      → ((node : Node) → get nodes nid ≡ some node → Round nid node P (M node) (N node) R Q)
      → ((n : Node) × (get nodes nid ≡ some n))
      → (s : RunState) (w : W) → P s
      → Ends R Q (run_node env wf input_hash resume nodes nid s w)
  unfolding run_node
  run_node-Ends resume nodes nid P R Q M N stop skip round (n, here) s w p =
      if_ind (Ends R Q) s.cancel_requested (stop s p) λ _.
        if_ind (Ends R Q) (resume && is_done (get s.node_states nid))
          (λ h. skip s p (ground (arith, h)))
          λ _.
            option_ind (Ends R Q) (get nodes nid) (λ absent. none-some (sym here ∙ absent))
              (λ node found. run_started_node-Ends (round node found) s w p)
