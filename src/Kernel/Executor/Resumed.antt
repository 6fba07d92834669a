-- ===== src/Kernel/Executor/Resumed.antt =====
-- kernel/executor.py: `execute` over a run all of whose nodes are done.
use brain_flow.Prelude.{
  String, ◌≡◌, refl, ap, ◌∙◌, Bool, true, false, ◌||◌, Option, some, List, [], ◌∷◌, All, arith,
  if◌then◌else◌,
}
use brain_flow.Prelude.Dict.{Dict, get}
use brain_flow.Kernel.Workflow.{Node, Workflow}
use brain_flow.Kernel.Run.{
  Status, Event, RunError, RunState, emit, running, node_skipped_resume, run_started, run_succeeded,
  succeeded, verify_failed, needs_review, criteria_unmet,
}
use brain_flow.Kernel.Attempt.{Env, goes_on}
use brain_flow.Kernel.Executor.{
  execute, schedule, run_nodes, run_node, is_done, is_cancelled, finish, node_table, conclude,
}

module _ {W : Type 0} (env : Env W) (wf : Workflow) (input_hash : String) where
  -- Two run states that differ at most in the events, the status and the error.
  pub record IsSpent (s t : RunState) : Type 0 where
    pub node_states : t.node_states ≡ s.node_states
    pub steps : t.steps ≡ s.steps
    pub tokens : t.tokens ≡ s.tokens
    pub generated_files : t.generated_files ≡ s.generated_files
    pub artifact_paths : t.artifact_paths ≡ s.artifact_paths
    pub cache : t.cache ≡ s.cache
    pub cancel_requested : t.cancel_requested ≡ s.cancel_requested

  abbrev AllDone : List String → RunState → Type 0
  AllDone nids s = All (λ nid. is_done (get s.node_states nid) ≡ true) nids

  same : (s : RunState) → IsSpent s s
  same s = record {
    node_states = refl;
    steps = refl;
    tokens = refl;
    generated_files = refl;
    artifact_paths = refl;
    cache = refl;
    cancel_requested = refl;
  }

  skip :
      (nodes : Dict Node) (nid : String) (s : RunState) (w : W)
      → s.cancel_requested ≡ false
      → is_done (get s.node_states nid) ≡ true
      → run_node env wf input_hash true nodes nid s w ≡ goes_on (emit (node_skipped_resume nid) s) w
  unfolding run_node
  skip nodes nid s w h k = rw (h, k)

  -- The events, the status and the error may change.
  report :
      (events : List Event) (status : Status) (error : Option RunError) (s t : RunState)
      → IsSpent s t
      → IsSpent s (record t { events = events; status = status; error = error })
  report events status error s t h = record {
    node_states = h.node_states;
    steps = h.steps;
    tokens = h.tokens;
    generated_files = h.generated_files;
    artifact_paths = h.artifact_paths;
    cache = h.cache;
    cancel_requested = h.cancel_requested;
  }

  finish-IsSpent : (s t : RunState) → IsSpent s t → IsSpent s (finish env wf input_hash t)
  unfolding finish emit
  finish-IsSpent s t h = go wf.criteria t.artifact_paths
    where
      go :
          (criteria paths : List String)
          → IsSpent s (elim criteria [
            | [] ↦ emit run_succeeded (record t { status = succeeded })
            | _ ∷ _ ↦ elim paths [
              | [] ↦
                  emit verify_failed
                    (record t { status = needs_review; error = some criteria_unmet })
              | _ ∷ _ ↦ emit run_succeeded (record t { status = succeeded })
            ]
          ])
      go [] paths = report _ _ _ s t h
      go (c ∷ cs) [] = report _ _ _ s t h
      go (c ∷ cs) (p ∷ ps) = report _ _ _ s t h

  run_nodes-IsSpent :
      (nodes : Dict Node) (nids : List String) (s t : RunState) (w : W)
      → IsSpent s t
      → s.cancel_requested ≡ false
      → AllDone nids s
      → (u : RunState) × (run_nodes env wf input_hash true nodes nids t w ≡ goes_on u w)
        × IsSpent s u
  unfolding run_nodes emit
  run_nodes-IsSpent nodes [] s t w p h d = (t, refl, p)
  run_nodes-IsSpent nodes (nid ∷ nids) s t w p h (k, d) =
      let done : is_done (get t.node_states nid) ≡ true =
        ap (λ states. is_done (get states nid)) p.node_states ∙ k in
      rw (skip nodes nid t w (p.cancel_requested ∙ h) done) (
        run_nodes-IsSpent nodes nids s (emit (node_skipped_resume nid) t) w (report _ _ _ s t p) h
          d)

  otherwise : {A : Type 0} (b : Bool) (x y : A) → b ≡ false → (if b then x else y) ≡ y
  otherwise true x y h = absurd (ground arith)
  otherwise false x y h = refl

  -- A run that is neither cancelled nor asked to be, and whose schedule is done, is resumed for
  -- nothing: no handler is called, no step, token or file is spent, and it keeps its nodes, its
  -- artifacts and its cache.
  pub execute-IsSpent :
      (s : RunState) (w : W)
      → s.cancel_requested ≡ false
      → is_cancelled env wf input_hash s.status ≡ false
      → AllDone (schedule env wf input_hash) s
      → (t : RunState) × (execute env wf input_hash true s w ≡ some (t, w)) × IsSpent s t
  unfolding execute emit
  execute-IsSpent s w h k d =
      let start = emit (run_started true) (record s { status = running }) in
      let (u, ran, p) =
        run_nodes-IsSpent (node_table env wf input_hash [] wf.nodes) (schedule env wf input_hash) s
          start w (report _ _ _ s s (same s)) h d in
      (
        finish env wf input_hash u,
        otherwise (s.cancel_requested || is_cancelled env wf input_hash s.status) _ _
              (ground (arith, h, k))
            ∙ ap (conclude env wf input_hash) ran,
        finish-IsSpent s u p,
      )
