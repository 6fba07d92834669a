-- ===== src/Kernel/Executor/Silent.antt =====
-- kernel/executor.py: an exception without a text. `last_err` is then an empty text, which the test
-- `if last_err` takes for no error.
use brain_flow.Prelude.{
  ℕ, ◌+◌, String, ◌≡◌, refl, ap, ◌∙◌, true, false, Bool, Option, none, some, if_ind, arith,
}
use brain_flow.Prelude.Dict.{get, get-put_self}
use brain_flow.Kernel.Workflow.{Node, Workflow}
use brain_flow.Kernel.Run.{
  RunState, Interference, Status, failed, is_final, cancel, disturb, emit, NodeStatus, NodeState,
}
use brain_flow.Kernel.Attempt.{
  Env, Reply, raised, attempts, attempt_node, begin_attempt, settle, invoke, Attempt, failure,
  returned, accept, bare,
}
use brain_flow.Kernel.Executor.Attempts.{AttemptEnds}
use brain_flow.Kernel.Executor.Rules.{Ends, attempts-Ends}

abbrev is_running : Option NodeState → Bool
is_running none = false
is_running (some n) = runs n.status
  where
    runs : NodeStatus → Bool
    runs NodeStatus.running = true
    runs _ = false

abbrev has_failed : Status → Bool
has_failed failed = true
has_failed _ = false

-- The node is still marked as running, so neither done nor failed, and the run has not failed.
abbrev pub IsUndone : String → RunState → Type 0
IsUndone nid s = (is_running (get s.node_states nid) ≡ true) × (has_failed s.status ≡ false)

-- The run is to be cancelled, with the node undone.
abbrev pub IsStopped : String → RunState → Type 0
IsStopped nid s = (s.cancel_requested ≡ true) × IsUndone nid s

abbrev IsQuiet : Option String → Type 0
IsQuiet none = Unit
IsQuiet (some text) = text ≡ ""

cancel-requested : (s : RunState) → (cancel s).cancel_requested ≡ true
unfolding cancel
cancel-requested s =
    if_ind (λ (t : RunState). t.cancel_requested ≡ true) (is_final s.status) (λ _. refl) (λ _. refl)

cancel-IsUndone : (nid : String) (s : RunState) → IsUndone nid s → IsUndone nid (cancel s)
unfolding cancel
cancel-IsUndone nid s h = if_ind (IsUndone nid) (is_final s.status) (λ _. h) (λ _. (h.0, refl))

disturb-IsUndone :
    (nid : String) (o : Interference) (s : RunState) → IsUndone nid s → IsUndone nid (disturb o s)
unfolding disturb
disturb-IsUndone nid Interference.undisturbed s h = h
disturb-IsUndone nid Interference.requests_cancel s h = h
disturb-IsUndone nid Interference.cancels s h = cancel-IsUndone nid s h

begin-IsUndone :
    (nid : String) (attempt : ℕ) (s : RunState)
    → IsUndone nid s
    → IsUndone nid (begin_attempt nid attempt s)
unfolding begin_attempt
begin-IsUndone nid attempt s h =
    (ap is_running (get-put_self s.node_states nid _) ∙ go (get s.node_states nid) h.0, h.1)
  where
    go :
        (o : Option NodeState)
        → is_running o ≡ true
        → is_running (
            some (elim o [
              | none ↦ bare NodeStatus.running attempt
              | some n ↦ record n { attempts = attempt }
            ]))
          ≡ true
    go none k = refl
    go (some n) k = k

settle-IsUndone :
    {W : Type 0} (nid : String) (attempt : ℕ) (last : Option String) (s : RunState) (w : W)
    → IsQuiet last
    → IsUndone nid s
    → Ends (IsUndone nid) (IsStopped nid) (settle nid attempt last s w)
unfolding settle
settle-IsUndone nid attempt none s w q h = h
settle-IsUndone nid attempt (some text) s w q h = rw q h

module _ {W : Type 0} (env : Env W) (wf : Workflow) (input_hash : String) where
  attempt-IsUndone :
      (node : Node) (nid ck : String) (attempt : ℕ) (s : RunState) (w : W)
      → (invoke env wf input_hash node (begin_attempt nid attempt s) w).0 ≡ raised ""
      → IsUndone nid s
      → AttemptEnds
          (IsUndone nid)
          (IsStopped nid)
          (λ text s'. (text ≡ "") × IsUndone nid s')
          (attempt_node env wf input_hash node nid ck attempt s w).0
  unfolding attempt_node
  attempt-IsUndone node nid ck attempt s w quiet h =
      go (invoke env wf input_hash node (begin_attempt nid attempt s) w) quiet
    where
      begun : RunState
      begun = begin_attempt nid attempt s

      go :
          (r : Reply × Interference × W)
          → r.0 ≡ raised ""
          → AttemptEnds
              (IsUndone nid)
              (IsStopped nid)
              (λ text s'. (text ≡ "") × IsUndone nid s')
              (let x : Attempt × W = elim r.0 [
                | returned out ↦ (accept wf node nid ck attempt out (disturb r.1 begun), r.2)
                | raised text ↦ (failure text (disturb r.1 begun), r.2)
              ] in
                x.0)
      go (returned out, o, w') e = absurd (ground arith)
      go (raised text, o, w') e =
          (ground arith, disturb-IsUndone nid o begun (begin-IsUndone nid attempt s h))

  -- A node whose handler always raises an exception without a text is passed over: whatever the number
  -- of its attempts, `execute` goes on to the next node with this one still marked as running and with
  -- a run that has not failed, or, only if it was asked to cancel the run, returns in such a state.
  pub attempts-IsUndone :
      (node : Node) (nid ck : String) (left : ℕ) (s : RunState) (w : W)
      → ((s' : RunState) (w' : W) → (invoke env wf input_hash node s' w').0 ≡ raised "")
      → IsUndone nid s
      → Ends (IsUndone nid) (IsStopped nid) (attempts env wf input_hash node nid ck left 0 none s w)
  unfolding emit
  attempts-IsUndone node nid ck left s w quiet h =
      attempts-Ends env wf input_hash node nid ck (λ _ _ last t. IsQuiet last × IsUndone nid t)
        (IsUndone nid) (IsStopped nid)
        (λ _ _ _ s' h' _. (cancel-requested s', cancel-IsUndone nid s' h'.1))
        (λ _ attempt _ s' w' h'. attempt-IsUndone node nid ck (attempt + 1) s' w' (quiet _ w') h'.1)
        (λ attempt last s' w' h'. settle-IsUndone nid attempt last s' w' h'.0 h'.1) left 0 none s w
        (tt, h)
