-- ===== src/Kernel/Executor/Granted.antt =====
-- kernel/executor.py: whose artifacts lie where, and what approvals make of it.
use brain_flow.Prelude.{
  String, ◌≡◌, Bool, true, false, ◌&&◌, Option, none, some, List, [], ◌∷◌, ◌++◌, ◌⊎◌, inl, inr,
  arith, if_ind, any, any-append, All, All-imp, ◌∙◌, str_eq, eq_iff, refl, subst, sym, Bool-cases,
}
use brain_flow.Prelude.Dict.{Dict, get, put}
use brain_flow.Prelude.Text.{is_empty}
use brain_flow.Kernel.Policy.{evaluate_node_action, assert_path_safe_overlay}
use brain_flow.Kernel.Policy.Classes.{evaluate_node_action_lem}
use brain_flow.Kernel.Workflow.{Node, Workflow}
use brain_flow.Kernel.Run.{
  Approval, Output, NodeState, run_succeeded, verify_failed, criteria_unmet, succeeded,
  needs_review, RunState, is_final, cancel, emit,
}
use brain_flow.Kernel.Attempt.{Env, path_error, invoke, returned}
use brain_flow.Kernel.Executor.{finish, node_table}

abbrev pub IsSafePath : String → Type 0
IsSafePath path = assert_path_safe_overlay path ≡ none

-- The node's action needs an approval.
abbrev pub needs_approval : Node → Bool
needs_approval node = (evaluate_node_action node.permission_class none).approval_required

abbrev pub was_approved : String → List Approval → Bool
was_approved nid approvals = any (λ a. str_eq a.node_id nid && a.approved) approvals

-- The test on an artifact's path cannot be passed without a safe path, at a node that needs no
-- approval.
pub path_error-IsSafePath :
    (node : Node) (path : String)
    → needs_approval node ≡ false
    → is_empty path ≡ false
    → path_error node path ≡ none
    → IsSafePath path
unfolding path_error
path_error-IsSafePath node path free given e = ground (
  arith,
  evaluate_node_action_lem node.permission_class none,
  evaluate_node_action_lem node.permission_class (some path),
)

append_approved :
    (nid : String) (approvals : List Approval) (a : Approval)
    → was_approved nid approvals ≡ true
    → was_approved nid (approvals ++ a ∷ []) ≡ true
append_approved nid approvals a h =
    any-append (λ b. str_eq b.node_id nid && b.approved) approvals (a ∷ []) ∙ ground (arith, h)

pub approve_node :
    (nid : String) (approvals : List Approval) (class : Option String)
    → was_approved nid
        (approvals ++ record { node_id = nid; permission_class = class; approved = true } ∷ [])
      ≡ true
approve_node nid approvals class =
    any-append (λ b. str_eq b.node_id nid && b.approved) approvals _
    ∙ ground (arith, (eq_iff nid nid).1 refl)

-- What holds of the entries of a dictionary, after a write and of a read.
module _ {V : Type 0} (P : String × V → Type 0) where
  pub put-All : (d : Dict V) (k : String) (v : V) → P (k, v) → All P d → All P (put d k v)
  unfolding put
  put-All [] k v p h = (p, tt)
  put-All ((j, w) ∷ d) k v p (q, h) = elim (Bool-cases (str_eq j k)) [
    | inl same ↦ rw same (subst (λ i. P (i, v)) (sym ((eq_iff j k).0 same)) p, h)
    | inr other ↦ rw other (q, put-All d k v p h)
  ]

  abbrev pub OfEntry : String → Option V → Type 0
  OfEntry k none = Unit
  OfEntry k (some v) = P (k, v)

  pub get-All : (d : Dict V) (k : String) → All P d → OfEntry k (get d k)
  unfolding get
  get-All [] k h = tt
  get-All ((j, w) ∷ d) k (q, h) =
      if_ind (OfEntry k) (str_eq j k) (λ same. subst (λ i. P (i, w)) ((eq_iff j k).0 same) q)
        (λ _. get-All d k h)

module _ {W : Type 0} (env : Env W) (wf : Workflow) (input_hash : String) where
  -- The node is one of the workflow, its class needs an approval, and one is recorded for it.
  abbrev pub IsApproved : List Approval → String → Node → Type 0
  IsApproved approvals nid node =
      (get (node_table env wf input_hash [] wf.nodes) nid ≡ some node)
      × (needs_approval node ≡ true)
      × (was_approved nid approvals ≡ true)

  -- The node's handler returns the path of an artifact.
  abbrev pub IsReported : Node → String → Type 0
  IsReported node path =
      (s : RunState) × (w : W) × (out : Output) × ((invoke env wf input_hash node s w).0
        ≡ returned out)
      × (out.artifact_path ≡ some path)

  -- A path in the overlay, or one that an approved node's handler returns.
  abbrev pub IsKnown : List Approval → String → Type 0
  IsKnown approvals path =
      IsSafePath path
      ⊎ ((nid : String) × (node : Node) × (IsApproved approvals nid node × IsReported node path))

  -- The path in a node's own output lies in the overlay, or the node is approved.
  abbrev pub PathIs : List Approval → String → Option String → Type 0
  PathIs approvals nid none = Unit
  PathIs approvals nid (some path) =
      (is_empty path ≡ true) ⊎ (IsSafePath path ⊎ ((node : Node) × IsApproved approvals nid node))

  abbrev OutputIs : List Approval → String → Option Output → Type 0
  OutputIs approvals nid none = Unit
  OutputIs approvals nid (some out) = PathIs approvals nid out.artifact_path

  abbrev pub EntryIs : List Approval → String × NodeState → Type 0
  EntryIs approvals (nid, n) = OutputIs approvals nid n.output

  -- Each artifact of the run is known, and so is the one in each node's output.
  abbrev pub IsContained : RunState → Type 0
  IsContained s =
      All (IsKnown s.approvals) s.artifact_paths × All (EntryIs s.approvals) s.node_states

  append-PathIs :
      (approvals : List Approval) (a : Approval) (nid : String) (path : Option String)
      → PathIs approvals nid path
      → PathIs (approvals ++ a ∷ []) nid path
  append-PathIs approvals a nid none h = tt
  append-PathIs approvals a nid (some path) (inl unset) = inl unset
  append-PathIs approvals a nid (some path) (inr (inl safe)) = inr (inl safe)
  append-PathIs approvals a nid (some path) (inr (inr (node, (here, needs, got)))) =
      inr (inr (node, (here, needs, append_approved nid approvals a got)))

  append-OutputIs :
      (approvals : List Approval) (a : Approval) (nid : String) (output : Option Output)
      → OutputIs approvals nid output
      → OutputIs (approvals ++ a ∷ []) nid output
  append-OutputIs approvals a nid none h = tt
  append-OutputIs approvals a nid (some out) h = append-PathIs approvals a nid out.artifact_path h

  pub append-IsContained :
      (a : Approval) (s : RunState)
      → IsContained s
      → IsContained (record s { approvals = s.approvals ++ a ∷ [] })
  append-IsContained a s (h, k) = (
    All-imp
        (λ path known. elim known [
          | inl safe ↦ inl safe
          | inr (nid, node, ((here, needs, got), reported)) ↦
              inr (nid, node, ((here, needs, append_approved nid s.approvals a got), reported))
        ])
        s.artifact_paths h,
    All-imp (λ e. append-OutputIs s.approvals a e.0 e.1.output) s.node_states k,
  )

  -- A node's state without an output may be written at any time.
  pub put-IsContained :
      (nid : String) (n : NodeState) (s : RunState)
      → n.output ≡ none
      → IsContained s
      → IsContained (record s { node_states = put s.node_states nid n })
  put-IsContained nid n s e (h, k) = (
    h,
    put-All (EntryIs s.approvals) s.node_states nid n (subst (OutputIs s.approvals nid) (sym e) tt)
        k,
  )

  pub cancel-IsContained : (s : RunState) → IsContained s → IsContained (cancel s)
  unfolding cancel
  cancel-IsContained s h = if_ind IsContained (is_final s.status) (λ _. h) (λ _. h)

  pub finish-IsContained : (s : RunState) → IsContained s → IsContained (finish env wf input_hash s)
  unfolding finish emit
  finish-IsContained s h = go wf.criteria s.artifact_paths
    where
      go :
          (criteria paths : List String)
          → IsContained (elim criteria [
            | [] ↦ emit run_succeeded (record s { status = succeeded })
            | _ ∷ _ ↦ elim paths [
              | [] ↦
                  emit verify_failed
                    (record s { status = needs_review; error = some criteria_unmet })
              | _ ∷ _ ↦ emit run_succeeded (record s { status = succeeded })
            ]
          ])
      go [] paths = h
      go (c ∷ cs) [] = h
      go (c ∷ cs) (p ∷ ps) = h
