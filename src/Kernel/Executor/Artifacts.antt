-- ===== src/Kernel/Executor/Artifacts.antt =====
-- kernel/executor.py: where a run's artifacts lie, and who has approved the others.
use brain_flow.Prelude.{
  option_ind, ℕ, ◌+◌, String, ◌≡◌, Bool, true, false, Option, none, some, [], ◌∷◌, ◌⊎◌, inl, inr,
  if_ind, All-append, List, subst, sym, refl,
}
use brain_flow.Prelude.Dict.{get}
use brain_flow.Prelude.Text.{is_empty}
use brain_flow.Kernel.Policy.{Action}
use brain_flow.Kernel.Workflow.{Node, Workflow}
use brain_flow.Kernel.Run.{
  Approval, NodeState, NodeStatus, Output, RunState, Interference, is_final, cancel, disturb, emit,
  node_retry,
}
use brain_flow.Kernel.Attempt.{
  Env, bare, fail, begin_attempt, store, add_tokens, add_artifact, attempts, settle, path_error,
  invoke, returned,
}
use brain_flow.Kernel.Executor.{
  start_node, ask, record_approval, await_approval, hit_cache, execute, node_table,
}
use brain_flow.Kernel.Executor.Attempts.{Outcomes, IsUnset, attempt_node-Ends}
use brain_flow.Kernel.Executor.Rules.{Ends, Round, attempts-Ends, run_node-Ends}
use brain_flow.Kernel.Executor.Loop.{Result, execute-Result}
use brain_flow.Kernel.Executor.Granted.{
  IsSafePath, needs_approval, was_approved, path_error-IsSafePath, approve_node, IsReported,
  IsApproved, IsKnown, PathIs, EntryIs, OfEntry, put-All, get-All, IsContained, append-IsContained,
  put-IsContained, cancel-IsContained, finish-IsContained,
}

module _ {W : Type 0} (env : Env W) (wf : Workflow) (input_hash : String) (nid : String)
    (node : Node) where
  -- Behind the policy, at the node.
  abbrev IsAllowed : RunState → Type 0
  IsAllowed s =
      IsContained env wf input_hash s
      × ((needs_approval node ≡ false)
          ⊎ ((needs_approval node ≡ true) × (was_approved nid s.approvals ≡ true)))

module _ {W : Type 0} (env : Env W) (wf : Workflow) (input_hash : String) (nid : String)
    (node : Node) (here : get (node_table env wf input_hash [] wf.nodes) nid ≡ some node) where
  abbrev Contained : RunState → Type 0
  Contained = IsContained env wf input_hash

  abbrev Allowed : RunState → Type 0
  Allowed = IsAllowed env wf input_hash nid node

  disturb-IsAllowed : (o : Interference) (s : RunState) → Allowed s → Allowed (disturb o s)
  unfolding disturb cancel
  disturb-IsAllowed Interference.undisturbed s h = h
  disturb-IsAllowed Interference.requests_cancel s h = h
  disturb-IsAllowed Interference.cancels s h = if_ind Allowed (is_final s.status) (λ _. h) (λ _. h)

  disturb-Contained : (o : Interference) (s : RunState) → Contained s → Contained (disturb o s)
  unfolding disturb
  disturb-Contained Interference.undisturbed s h = h
  disturb-Contained Interference.requests_cancel s h = h
  disturb-Contained Interference.cancels s h = cancel-IsContained env wf input_hash s h

  begin-IsAllowed : (attempt : ℕ) (s : RunState) → Allowed s → Allowed (begin_attempt nid attempt s)
  unfolding begin_attempt
  begin-IsAllowed attempt s ((h, k), allowed) = (
    (
      h,
      put-All Entry s.node_states nid _
          (begun (get s.node_states nid) (get-All Entry s.node_states nid k)) k,
    ),
    allowed,
  )
    where
      Entry : String × NodeState → Type 0
      Entry = EntryIs env wf input_hash s.approvals

      begun :
          (o : Option NodeState)
          → OfEntry Entry nid o
          → Entry (
            nid,
            elim o [
              | none ↦ bare NodeStatus.running attempt
              | some n ↦ record n { attempts = attempt }
            ],
          )
      begun none h = tt
      begun (some n) h = h

  -- What is behind the policy at the node lies in the overlay, or the node is approved.
  passed :
      (path : String) (s : RunState)
      → Allowed s
      → is_empty path ≡ false
      → path_error node path ≡ none
      → IsSafePath path ⊎ IsApproved env wf input_hash s.approvals nid node
  passed path s (_, inl free) given e = inl (path_error-IsSafePath node path free given e)
  passed path s (_, inr (needs, got)) given e = inr (here, needs, got)

  store-Contained :
      (ck : String) (attempt : ℕ) (out : Output) (s : RunState)
      → PathIs env wf input_hash s.approvals nid out.artifact_path
      → Contained s
      → Contained (store nid ck attempt out s)
  unfolding store
  store-Contained ck attempt out s known (h, k) =
      (h, put-All (EntryIs env wf input_hash s.approvals) s.node_states nid _ known k)

  add-Contained :
      (path : String) (s : RunState)
      → IsReported env wf input_hash node path
      → IsSafePath path ⊎ IsApproved env wf input_hash s.approvals nid node
      → Contained s
      → Contained (add_artifact path s)
  unfolding add_artifact
  add-Contained path s reported known (h, k) = (
    All-append (IsKnown env wf input_hash s.approvals) s.artifact_paths (path ∷ []) h
        (granted known, tt),
    k,
  )
    where
      granted :
          IsSafePath path ⊎ IsApproved env wf input_hash s.approvals nid node
          → IsKnown env wf input_hash s.approvals path
      granted (inl safe) = inl safe
      granted (inr approved) = inr (nid, node, (approved, reported))

  unset-PathIs :
      (approvals : List Approval) (path : Option String)
      → IsUnset path
      → PathIs env wf input_hash approvals nid path
  unset-PathIs approvals none h = tt
  unset-PathIs approvals (some path) h = inl h

  known-PathIs :
      (approvals : List Approval) (path : String)
      → IsSafePath path ⊎ IsApproved env wf input_hash approvals nid node
      → PathIs env wf input_hash approvals nid (some path)
  known-PathIs approvals path (inl safe) = inr (inl safe)
  known-PathIs approvals path (inr approved) = inr (inr (node, approved))

  outcomes :
      (ck : String) (attempt : ℕ) (begun : RunState) (w : W) (s : RunState)
      → Allowed s
      → Outcomes env wf input_hash node nid ck attempt Contained Contained
          (λ text s'. Allowed (emit (node_retry nid attempt text) s'))
          (λ out. (invoke env wf input_hash node begun w).0 ≡ returned out)
          s
  unfolding fail add_tokens emit add_artifact
  outcomes ck attempt begun w s h = record {
    over = λ n _. h.0;
    plain = λ n out unset _.
        store-Contained ck attempt out (add_tokens n s) (unset-PathIs s.approvals _ unset) h.0;
    artifact = λ n out path back at _ given e.
        let known = passed path s h given e in
        store-Contained ck attempt out (add_artifact path (add_tokens n s))
          (subst (PathIs env wf input_hash s.approvals nid) (sym at)
            (known-PathIs s.approvals path known))
          (add-Contained path (add_tokens n s) (begun, w, out, back, at) known h.0);
    refused = λ n path text _ _. h;
  }

  settle-Ends :
      (attempt : ℕ) (last : Option String) (s : RunState) (w : W)
      → Allowed s
      → Ends Contained Contained (settle nid attempt last s w)
  unfolding settle
  settle-Ends attempt none s w h = h.0
  settle-Ends attempt (some text) s w h =
      if_ind (Ends Contained Contained) (is_empty text) (λ _. h.0)
        (λ _. put-IsContained env wf input_hash nid _ s refl h.0)

  tries :
      (ck : String) (left : ℕ) (s : RunState) (w : W)
      → Allowed s
      → Ends Contained Contained (attempts env wf input_hash node nid ck left 0 none s w)
  unfolding emit
  tries ck left s w h =
      attempts-Ends env wf input_hash node nid ck (λ _ _ _. Allowed) Contained Contained
        (λ _ _ _ s' h' _. cancel-IsContained env wf input_hash s' h'.0)
        (λ _ attempt _ s' w' h'.
          attempt_node-Ends env wf input_hash node nid ck (attempt + 1) Contained Contained _ s' w'
            (λ o.
              outcomes ck (attempt + 1) _ w' _ (disturb-IsAllowed o _ (begin-IsAllowed _ s' h')))
            (λ o text _. disturb-IsAllowed o _ (begin-IsAllowed (attempt + 1) s' h')))
        (λ attempt last s' w' h'. settle-Ends attempt last s' w' h') left 0 none s w h

  ask-Contained :
      (s : RunState) (w : W) → Contained s → Contained (ask env wf input_hash node s w).1
  unfolding ask
  ask-Contained s w h =
      option_ind (λ (r : Bool × RunState × W). Contained r.1) env.approval_callback (λ _. h)
        (λ callback _. disturb-Contained (callback node w).1 s h)

  approved-IsAllowed :
      (a : Action) (s : RunState)
      → Contained s
      → needs_approval node ≡ true
      → Allowed (record_approval env wf input_hash nid a true s)
  unfolding record_approval
  approved-IsAllowed a s h needs =
      (append-IsContained env wf input_hash _ s h, inr (needs, approve_node nid s.approvals _))

  denied-Contained :
      (a : Action) (s : RunState)
      → Contained s
      → Contained
          (await_approval env wf input_hash nid (record_approval env wf input_hash nid a false s))
  unfolding await_approval record_approval
  denied-Contained a s h =
      put-IsContained env wf input_hash nid _ (record_approval env wf input_hash nid a false s) refl
        (append-IsContained env wf input_hash _ s h)

  round : Round env wf input_hash nid node Contained Contained Allowed Contained Contained
  unfolding start_node fail hit_cache
  round = record {
    starts = λ s h _. put-IsContained env wf input_hash nid _ s refl h;
    stops = λ b s h _. put-IsContained env wf input_hash nid _ s refl h;
    free = λ s h off. (h, inl off);
    approves = λ s w h needs _. approved-IsAllowed _ _ (ask-Contained s w h) needs;
    denies = λ s w h _ _. denied-Contained _ _ (ask-Contained s w h);
    hits = λ s h. put-IsContained env wf input_hash nid _ s refl h.0;
    tries = λ s w h. tries _ _ s w h;
  }

module _ {W : Type 0} (env : Env W) (wf : Workflow) (input_hash : String) where
  -- At the end of a run, the path of an artifact that a node's output has, if it is not empty, lies in
  -- the overlay, or the class of that very node needs an approval, and one is recorded for it. Each path
  -- that the run reports lies in the overlay, or is one that the handler of such an approved node
  -- returns. This if it holds of the outputs and paths that the run starts with.
  pub execute-IsContained :
      (resume : Bool) (s : RunState) (w : W)
      → IsContained env wf input_hash s
      → Result env wf input_hash
          (IsContained env wf input_hash)
          (execute env wf input_hash resume s w)
  unfolding emit
  execute-IsContained resume s w h =
      execute-Result env wf input_hash resume (λ _. IsContained env wf input_hash)
        (IsContained env wf input_hash) s w (λ _. cancel-IsContained env wf input_hash s h) (λ _. h)
        (finish-IsContained env wf input_hash)
        λ nid nids s' w' here h'.
          run_node-Ends env wf input_hash resume _ nid (IsContained env wf input_hash)
            (IsContained env wf input_hash) (IsContained env wf input_hash)
            (λ _. IsContained env wf input_hash) (IsAllowed env wf input_hash nid)
            (λ s'' h'' _. cancel-IsContained env wf input_hash s'' h'') (λ _ h'' _. h'')
            (λ node found. round env wf input_hash nid node found) here s' w' h'
