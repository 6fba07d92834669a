-- ===== src/Kernel/Gate/Tests.antt =====
-- kernel/policy_gate.py: `validate_workflow_policy` on small documents, and the theorems at inputs that
-- meet their hypotheses.
use brain_flow.Prelude.{
  ℕ, ◌<◌, String, ◌≡◌, refl, Bool, true, false, Option, none, some, List, [], ◌∷◌, All,
}
use brain_flow.Prelude.Dict.{get, put, has}
use brain_flow.Kernel.Policy.{may_auto_apply, normalize_permission_class}
use brain_flow.Kernel.Gate.{
  NodeDoc, Doc, Report, node_ids, loop_nodes, no_targets, link, dfs, check_nodes, search,
  validate_workflow_policy,
}
use brain_flow.Kernel.Gate.Accepted.{Inside}
use brain_flow.Kernel.Gate.Acyclic.{Between, validate-IsAcyclic}
use brain_flow.Kernel.Gate.Checks.{IsChecked, IsWithin, elevated, validate-IsChecked}
use brain_flow.Kernel.Workflow.{Edge}
use brain_flow.Prelude.Int.{pos}

abbrev arrow : String → String → Edge
arrow a b = record { source = a; target = b }

abbrev doc_node : String → String → Option NodeDoc
doc_node id class = some (record { id = id; permission_class = some class; review_loop = none })

abbrev doc : Doc
doc = record {
  nodes = doc_node "a" "read" ∷ doc_node "b" "publish" ∷ [];
  edges = some (arrow "a:out" "b:in") ∷ none ∷ [];
  max_steps = some (pos 80);
  max_parallel_jobs = none;
}

abbrev in_order : List String → List String
in_order ids = ids

abbrev accepted : Report
accepted = record {
  ok = true;
  errors = [];
  approvals_needed = record { node_id = "b"; permission_class = "publish" } ∷ [];
}

validate-doc : validate_workflow_policy in_order doc ≡ some accepted
unfolding validate_workflow_policy search dfs get put has link no_targets node_ids loop_nodes
    check_nodes normalize_permission_class may_auto_apply
validate-doc = refl

-- An edge back to "a" closes a cycle.
abbrev ok_of : Option Report → Bool
ok_of none = true
ok_of (some r) = r.ok

cycle_refused :
    ok_of (
      validate_workflow_policy in_order
        (record doc { edges = some (arrow "a" "b") ∷ some (arrow "b" "a") ∷ [] }))
    ≡ false
unfolding validate_workflow_policy search dfs get put has link no_targets node_ids loop_nodes
    check_nodes normalize_permission_class may_auto_apply
cycle_refused = refl

doc_ids : Inside (node_ids doc.nodes) (in_order (node_ids doc.nodes))
unfolding node_ids
doc_ids = (refl, (refl, tt))

validate-IsAcyclic_example :
    (number : String → ℕ) × All
      (Between (node_ids doc.nodes) (λ u v. number v < number u))
      doc.edges
unfolding loop_nodes
validate-IsAcyclic_example =
    validate-IsAcyclic in_order doc accepted doc_ids (λ v h. h) refl validate-doc refl

validate-IsChecked_example :
    All IsChecked doc.nodes
    × (accepted.approvals_needed ≡ elevated doc.nodes)
    × IsWithin (pos 500) doc.max_steps
    × IsWithin (pos 32) doc.max_parallel_jobs
validate-IsChecked_example = validate-IsChecked in_order doc accepted doc_ids validate-doc refl
