-- ===== src/Kernel/Gate/Checks.antt =====
-- kernel/policy_gate.py: the nodes and the budgets of a document that `validate_workflow_policy` accepts.
use brain_flow.Prelude.{
  String, ◌≡◌, refl, sym, ap, ◌∙◌, Bool, true, false, not, Option, none, some, List, [], ◌∷◌, ◌++◌,
  All, arith, if◌then◌else◌,
}
use brain_flow.Prelude.Int.{ℤ, pos, ◌≤ℤ◌}
use brain_flow.Kernel.Policy.{is_known, may_auto_apply}
use brain_flow.Kernel.Gate.{
  NodeDoc, Doc, Report, GateError, ApprovalNeeded, class_of, loop_errors, is_unbounded, check_node,
  check_nodes, node_ids, cap_errors, over_cap, validate_workflow_policy,
}
use brain_flow.Kernel.Gate.Search.{append-empty}
use brain_flow.Kernel.Gate.Accepted.{Inside, search-Walked, validate-Passed, append-empty_right}

-- A review loop runs at least once and at most 10 times.
abbrev IsBounded : Option (Option ℤ) → Type 0
IsBounded none = Unit
IsBounded (some none) = ⊥
IsBounded (some (some n)) = (pos 1 ≤ℤ n) × (n ≤ℤ pos 10)

-- A node of a known class whose review loop is bounded.
abbrev pub IsChecked : Option NodeDoc → Type 0
IsChecked none = ⊥
IsChecked (some n) = (is_known (class_of n) ≡ true) × IsBounded n.review_loop

-- The nodes that do not apply by themselves.
abbrev pub elevated : List (Option NodeDoc) → List ApprovalNeeded
elevated [] = []
elevated (none ∷ ns) = elevated ns
elevated (some n ∷ ns) =
    if not (may_auto_apply (class_of n))
    then record { node_id = n.id; permission_class = class_of n } ∷ elevated ns
    else elevated ns

abbrev pub IsWithin : ℤ → Option ℤ → Type 0
IsWithin cap none = Unit
IsWithin cap (some n) = n ≤ℤ cap

bound-IsBounded :
    (o : Option (Option ℤ)) (id : String)
    → elim o [
      | none ↦ []
      | some bound ↦ if is_unbounded bound then GateError.loop_bounds id ∷ [] else []
    ]
      ≡ []
    → IsBounded o
bound-IsBounded none id h = tt
bound-IsBounded (some none) id h = absurd (ground arith)
bound-IsBounded (some (some k)) id h = (ground (arith, h), ground (arith, h))

-- What a node appends where it has no error.
clean_node :
    (known auto : Bool) (e : GateError) (errors : List GateError) (a : ApprovalNeeded)
    (r : List GateError × List ApprovalNeeded)
    → (if not known then (e ∷ errors, []) else if not auto then (errors, a ∷ []) else (errors, []))
      ≡ r
    → r.0 ≡ []
    → (known ≡ true) × (errors ≡ []) × (r.1 ≡ (if not auto then a ∷ [] else []))
clean_node false auto e errors a r f h = absurd (ground (arith, f, h))
clean_node true true e errors a r f h = (refl, ap (λ x. x.0) f ∙ h, sym (ap (λ x. x.1) f))
clean_node true false e errors a r f h = (refl, ap (λ x. x.0) f ∙ h, sym (ap (λ x. x.1) f))

abbrev approval : NodeDoc → ApprovalNeeded
approval n = record { node_id = n.id; permission_class = class_of n }

clean_check_node :
    (n : NodeDoc)
    → (check_node (some n)).0 ≡ []
    → (is_known (class_of n) ≡ true)
      × (loop_errors n ≡ [])
      × ((check_node (some n)).1
          ≡ (if not (may_auto_apply (class_of n)) then approval n ∷ [] else []))
unfolding check_node
clean_check_node n h =
    clean_node (is_known (class_of n)) (may_auto_apply (class_of n))
      (GateError.unknown_class n.id (class_of n)) (loop_errors n) (approval n) _ refl h

add_approval :
    (manual : Bool) (a : ApprovalNeeded) (rest : List ApprovalNeeded)
    → (if manual then a ∷ [] else []) ++ rest ≡ (if manual then a ∷ rest else rest)
add_approval true a rest = refl
add_approval false a rest = refl

check_node-IsChecked :
    (n : Option NodeDoc) (ns : List (Option NodeDoc)) (rest : List ApprovalNeeded)
    → (check_node n).0 ≡ []
    → rest ≡ elevated ns
    → IsChecked n × ((check_node n).1 ++ rest ≡ elevated (n ∷ ns))
unfolding check_node
check_node-IsChecked none ns rest h e = absurd (ground (arith, h))
check_node-IsChecked (some n) ns rest h e =
    let (known, bounded, approvals) = clean_check_node n h in
    (
      (known, bound-IsBounded n.review_loop n.id bounded),
      ap (λ x. x ++ rest) approvals
          ∙ add_approval (not (may_auto_apply (class_of n))) (approval n) rest
          ∙ ap (λ x. if not (may_auto_apply (class_of n)) then approval n ∷ x else x) e,
    )

check_nodes-IsChecked :
    (ns : List (Option NodeDoc))
    → (check_nodes ns).0 ≡ []
    → All IsChecked ns × ((check_nodes ns).1 ≡ elevated ns)
unfolding check_nodes
check_nodes-IsChecked [] h = (tt, refl)
check_nodes-IsChecked (n ∷ ns) h =
    let (checked, later) = check_nodes-IsChecked ns (append-empty_right _ _ h) in
    let (here, needed) = check_node-IsChecked n ns _ (append-empty _ _ h) later in
    ((here, checked), needed)

caps :
    (doc : Doc)
    → cap_errors doc ≡ []
    → IsWithin (pos 500) doc.max_steps × IsWithin (pos 32) doc.max_parallel_jobs
caps doc h = (
  cap (pos 500) doc.max_steps _ (append-empty _ _ h),
  cap (pos 32) doc.max_parallel_jobs _ (append-empty_right _ _ h),
)
  where
    cap :
        (limit : ℤ) (o : Option ℤ) (e : GateError)
        → (if over_cap o limit then e ∷ [] else []) ≡ []
        → IsWithin limit o
    cap limit none e h = tt
    cap limit (some n) e h = ground (arith, h)

-- In a document that the gate accepts each node is an object of a known class, a review loop runs
-- from 1 to 10 times, at most 500 steps and 32 parallel jobs are asked for; and the approvals that
-- the gate names are those of the nodes that do not apply by themselves, in their order.
pub validate-IsChecked :
    (order : List String → List String) (doc : Doc) (r : Report)
    → Inside (node_ids doc.nodes) (order (node_ids doc.nodes))
    → validate_workflow_policy order doc ≡ some r
    → r.ok ≡ true
    → All IsChecked doc.nodes
      × (r.approvals_needed ≡ elevated doc.nodes)
      × IsWithin (pos 500) doc.max_steps
      × IsWithin (pos 32) doc.max_parallel_jobs
validate-IsChecked order doc r inside v ok =
    let passed = validate-Passed order doc r (search-Walked order doc inside) v ok in
    let (checked, needed) = check_nodes-IsChecked doc.nodes passed.checked in
    let (steps, jobs) = caps doc passed.capped in (checked, passed.approvals ∙ needed, steps, jobs)
