-- ===== src/Kernel/Executor/Done.antt =====
-- kernel/executor.py: a run succeeds only when every node that it was to run is done.
use brain_flow.Prelude.{
  String, ◌≡◌, refl, Bool, true, false, some, List, [], ◌∷◌, ◌⊎◌, inl, inr, arith, Bool-cases,
  str_eq, eq_iff,
}
use brain_flow.Prelude.Dict.{Dict, get}
use brain_flow.Kernel.Policy.{contains}
use brain_flow.Kernel.Workflow.{Node, Workflow}
use brain_flow.Kernel.Run.{
  succeeded, needs_review, run_succeeded, verify_failed, criteria_unmet, RunState, cancel, emit,
}
use brain_flow.Kernel.Attempt.{Env, Flow, goes_on, returns, key_error}
use brain_flow.Kernel.Executor.{run_node, finish, execute, schedule}
use brain_flow.Kernel.Executor.Rules.{Ends, run_node-Ends}
use brain_flow.Kernel.Executor.Loop.{Result, execute-Result}
use brain_flow.Kernel.Executor.Open.{is_success, IsDone, IsOpen, Sound, absurd_open, cancel-IsOpen}
use brain_flow.Kernel.Executor.Rounds.{HasTexts, round_same, round_other}

module _ {W : Type 0} (env : Env W) (wf : Workflow) (input_hash : String) where
  module _ (texts : HasTexts env wf input_hash) (v : String) where
    -- Before the nodes `nids`: `v` is among them, or it is done.
    abbrev Pending : List String → RunState → Type 0
    Pending nids s = IsOpen s × ((contains nids v ≡ true) ⊎ IsDone s v)

    narrow :
        (nid : String) (nids : List String) {D : Type 0}
        → str_eq v nid ≡ false
        → (contains (nid ∷ nids) v ≡ true) ⊎ D
        → (contains nids v ≡ true) ⊎ D
    narrow nid nids e (inl h) = inl (ground arith)
    narrow nid nids e (inr h) = inr h

    flip : (nid : String) → str_eq v nid ≡ false → str_eq nid v ≡ false
    flip nid e = ground (arith, eq_iff v nid, eq_iff nid v)

    Ends-imp :
        (P P' Q Q' : RunState → Type 0)
        → ((t : RunState) → P t → P' t)
        → ((t : RunState) → Q t → Q' t)
        → (r : Flow W) → Ends P Q r
        → Ends P' Q' r
    Ends-imp P P' Q Q' f g (goes_on t w) h = f t h
    Ends-imp P P' Q Q' f g (returns t w) h = g t h
    Ends-imp P P' Q Q' f g key_error h = h

    run_node-Pending :
        (resume : Bool) (nodes : Dict Node) (nid : String) (nids : List String) (s : RunState)
        (w : W)
        → ((n : Node) × (get nodes nid ≡ some n))
        → Pending (nid ∷ nids) s
        → Ends (Pending nids) IsOpen (run_node env wf input_hash resume nodes nid s w)
    unfolding emit
    run_node-Pending resume nodes nid nids s w here (h, k) = elim (Bool-cases (str_eq v nid)) [
      | inl same ↦
          Ends-imp (λ t. IsOpen t × IsDone t nid) (Pending nids) IsOpen IsOpen
            (λ t (o, d). (o, inr (rw ((eq_iff v nid).0 same) d))) (λ t o. o)
            (run_node env wf input_hash resume nodes nid s w)
            (run_node-Ends env wf input_hash resume nodes nid IsOpen (λ t. IsOpen t × IsDone t nid)
              IsOpen (λ _. IsOpen) (λ _. IsOpen) (λ s' h' _. cancel-IsOpen s' h')
              (λ s' h' done. (h', done))
              (λ node _. round_same env wf input_hash texts nid node nids) here s w h)
      | inr other ↦
          run_node-Ends env wf input_hash resume nodes nid (Pending nids) (Pending nids) IsOpen
            (λ _. Pending nids) (λ _. Pending nids) (λ s' h' _. cancel-IsOpen s' h'.0)
            (λ s' h' _. h')
            (λ node _.
              round_other env wf input_hash v nid node (flip nid other) (contains nids v ≡ true))
            here s w (h, narrow nid nids other k)
    ]

    open-Sound : (s : RunState) → IsOpen s → Sound v s
    open-Sound s h e = absurd_open h e

    finish-Sound : (s : RunState) → Pending [] s → Sound v (finish env wf input_hash s)
    unfolding finish emit
    finish-Sound s (h, inl e) = absurd (ground arith)
    finish-Sound s (h, inr d) = go wf.criteria s.artifact_paths
      where
        go :
            (criteria paths : List String)
            → Sound v (elim criteria [
              | [] ↦ emit run_succeeded (record s { status = succeeded })
              | _ ∷ _ ↦ elim paths [
                | [] ↦
                    emit verify_failed
                      (record s { status = needs_review; error = some criteria_unmet })
                | _ ∷ _ ↦ emit run_succeeded (record s { status = succeeded })
              ]
            ])
        go [] paths e = d
        go (c ∷ cs) [] e = d
        go (c ∷ cs) (p ∷ ps) e = d

    -- Where the exceptions of the handlers have a text, a run that had not succeeded before ends as
    -- succeeded only if every node of its schedule is done.
    pub execute-Sound :
        (resume : Bool) (s : RunState) (w : W)
        → is_success s.status ≡ false
        → contains (schedule env wf input_hash) v ≡ true
        → Result env wf input_hash (Sound v) (execute env wf input_hash resume s w)
    unfolding emit
    execute-Sound resume s w h listed =
        execute-Result env wf input_hash resume Pending (Sound v) s w
          (λ _. open-Sound (cancel s) (cancel-IsOpen s h)) (λ _. (refl, inl listed)) finish-Sound
          λ nid nids s' w' here h'.
            Ends-imp (Pending nids) (Pending nids) IsOpen (Sound v) (λ _ p. p) open-Sound
              (run_node env wf input_hash resume _ nid s' w')
              (run_node-Pending resume _ nid nids s' w' here h')
