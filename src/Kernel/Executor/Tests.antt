-- ===== src/Kernel/Executor/Tests.antt =====
-- The order of kernel/executor.py on small workflows.
use brain_flow.Prelude.{
  ℕ, String, ◌≡◌, refl, true, none, some, List, [], ◌∷◌, All, if◌then◌else◌, arith,
}
use brain_flow.Prelude.Dict.{get, put, has}
use brain_flow.Prelude.Int.{◌+ℤ◌}
use brain_flow.Kernel.Policy.{contains, may_auto_apply, normalize_permission_class}
use brain_flow.Kernel.Workflow.{Node, Edge, Workflow}
use brain_flow.Kernel.Attempt.{Env}
use brain_flow.Kernel.Executor.{schedule}
use brain_flow.Kernel.Topo.{graph, roots, release, drain, add_edge}
use brain_flow.Kernel.Topo.Order.{count, precedes}
use brain_flow.Kernel.Topo.Forward.{Joins}
use brain_flow.Kernel.Gate.{
  Report, node_ids, loop_nodes, no_targets, link, dfs, check_nodes, search,
  validate_workflow_policy,
}
use brain_flow.Kernel.Gate.Accepted.{Inside}
use brain_flow.Kernel.Executor.Order.{ids_of, gate_doc, schedule-count, schedule-forward}

abbrev node : String → Node
node name = record {
  id = name;
  type = none;
  title = none;
  permission_class = some "safe_overlay";
  cache_key = none;
  idempotency_key = none;
  retry_max = none;
}

abbrev arrow : String → String → Edge
arrow a b = record { source = a; target = b }

abbrev workflow : List Edge → Workflow
workflow edges = record {
  nodes = node "c" ∷ node "b" ∷ node "a" ∷ node "b" ∷ [];
  edges = edges;
  budgets = record { max_steps = none; max_tokens = none; max_generated_files = none };
  pins = "{}";
  criteria = [];
}

abbrev chain : Workflow
chain = workflow (arrow "a:out" "b:in" ∷ arrow "b" "c" ∷ arrow "x" "a" ∷ [])

abbrev loop : Workflow
loop = workflow (arrow "a" "b" ∷ arrow "b" "a" ∷ [])

abbrev env : Env ℕ
env = record {
  handlers = λ _. none;
  approval_callback = none;
  sha256_hex = λ s. s;
  dumps_node = λ n. n.id;
}

chain_order : schedule env chain "h" ≡ "a" ∷ "b" ∷ "c" ∷ []
unfolding schedule graph add_edge get put has roots release drain ◌+ℤ◌
chain_order = refl

-- On a cycle the nodes stand in the order of their declaration.
loop_order : schedule env loop "h" ≡ "c" ∷ "b" ∷ "a" ∷ []
unfolding schedule graph add_edge get put has roots release drain ◌+ℤ◌
loop_order = refl

schedule-count_example :
    count "b" (schedule env loop "h") ≡ (if contains (ids_of loop.nodes) "b" then 1 else 0)
schedule-count_example = schedule-count env loop "h" "b"

abbrev in_order : List String → List String
in_order ids = ids

abbrev report : Report
report = record { ok = true; errors = []; approvals_needed = [] }

chain-Inside :
    Inside (node_ids (gate_doc chain none none).nodes) (node_ids (gate_doc chain none none).nodes)
unfolding node_ids
chain-Inside = (refl, (refl, (refl, tt)))

chain_covered :
    (v : String)
    → contains (ids_of chain.nodes) v ≡ true
    → contains (in_order (node_ids (gate_doc chain none none).nodes)) v ≡ true
unfolding node_ids
chain_covered v h = ground (arith, h)

chain_accepted : validate_workflow_policy in_order (gate_doc chain none none) ≡ some report
unfolding validate_workflow_policy search dfs get put has link no_targets node_ids loop_nodes
    check_nodes normalize_permission_class may_auto_apply
chain_accepted = refl

schedule-forward_example :
    All
      (Joins (contains (ids_of chain.nodes)) (λ u v. precedes u v (schedule env chain "h") ≡ true))
      chain.edges
schedule-forward_example =
    schedule-forward env chain "h" in_order none none report chain-Inside chain_covered
      chain_accepted refl
