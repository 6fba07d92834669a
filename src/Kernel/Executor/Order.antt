-- ===== src/Kernel/Executor/Order.antt =====
-- kernel/executor.py: the order in which `execute` runs the nodes, and what the check of the
-- workflow in kernel/policy_gate.py gives for it.
use brain_flow.Prelude.{
  ◌<◌, String, ◌≡◌, refl, sym, ◌∙◌, true, ◌||◌, some, List, [], ◌∷◌, All, map, none, arith, eq_iff,
  if◌then◌else◌, Option, All-imp,
}
use brain_flow.Prelude.Dict.{Dict, put, has, keys, values}
use brain_flow.Prelude.Int.{ℤ}
use brain_flow.Kernel.Policy.{contains}
use brain_flow.Kernel.Workflow.{Node, Workflow, Edge}
use brain_flow.Kernel.Attempt.{Env}
use brain_flow.Kernel.Executor.{schedule, node_table}
use brain_flow.Kernel.Topo.{from_id, to_id}
use brain_flow.Kernel.Topo.Order.{count, precedes}
use brain_flow.Kernel.Topo.Counts.{has-put_or, count-put, has-count}
use brain_flow.Kernel.Topo.Forward.{
  Joins, topo_layers-count, topo_layers-forward, contains-count, count-contains,
}
use brain_flow.Kernel.Gate.{Doc, NodeDoc, Report, node_ids, loop_nodes, validate_workflow_policy}
use brain_flow.Kernel.Gate.Accepted.{Inside}
use brain_flow.Kernel.Gate.Acyclic.{Between, validate-IsAcyclic}

abbrev pub ids_of : List Node → List String
ids_of ns = map (λ n. n.id) ns

-- Each node stands under its id.
abbrev IsKeyed : Dict Node → Type 0
IsKeyed d = ids_of (values d) ≡ keys d

put-IsKeyed : (d : Dict Node) (n : Node) → IsKeyed d → IsKeyed (put d n.id n)
unfolding put
put-IsKeyed [] n h = refl
put-IsKeyed ((j, m) ∷ d) n h = ground (arith, put-IsKeyed d n, eq_iff j n.id)

-- What the table of the nodes has, in a run of the workflow.
record Tabled (d : Dict Node) : Type 0 where
  keyed : IsKeyed d
  once : (v : String) → count v (keys d) ≡ (if has d v then 1 else 0)

put-Tabled : (d : Dict Node) (n : Node) → Tabled d → Tabled (put d n.id n)
put-Tabled d n t = record {
  keyed = put-IsKeyed d n t.keyed;
  once = λ v. ground (
    arith,
    t.once v,
    count-put d n.id v n,
    has-put_or d n.id v n,
    has-count d n.id,
    eq_iff n.id v,
  );
}

module _ {W : Type 0} (env : Env W) (wf : Workflow) (input_hash : String) where
  node_table-Tabled :
      (d : Dict Node) (ns : List Node) → Tabled d → Tabled (node_table env wf input_hash d ns)
  unfolding node_table
  node_table-Tabled d [] t = t
  node_table-Tabled d (n ∷ ns) t = node_table-Tabled (put d n.id n) ns (put-Tabled d n t)

  node_table-has :
      (d : Dict Node) (ns : List Node) (v : String)
      → has (node_table env wf input_hash d ns) v ≡ (has d v || contains (ids_of ns) v)
  unfolding node_table
  node_table-has d [] v = ground arith
  node_table-has d (n ∷ ns) v = ground (
    arith,
    node_table-has (put d n.id n) ns v,
    has-put_or d n.id v n,
    eq_iff n.id v,
    eq_iff v n.id,
  )

  abbrev scheduled : List String
  scheduled = ids_of (values (node_table env wf input_hash [] wf.nodes))

  scheduled-count :
      (v : String) → count v scheduled ≡ (if contains (ids_of wf.nodes) v then 1 else 0)
  unfolding count has
  scheduled-count v =
      let t = node_table-Tabled [] wf.nodes (record { keyed = refl; once = λ x. refl }) in
      rw (t.keyed) (ground (arith, t.once v, node_table-has [] wf.nodes v))

  scheduled-contains : (v : String) → contains scheduled v ≡ contains (ids_of wf.nodes) v
  scheduled-contains v =
      ground (arith, scheduled-count v, contains-count scheduled v, count-contains scheduled v)

  -- Each id of a node is scheduled once, also if several nodes have it or the edges form a cycle, and
  -- nothing else is scheduled.
  pub schedule-count :
      (v : String)
      → count v (schedule env wf input_hash) ≡ (if contains (ids_of wf.nodes) v then 1 else 0)
  unfolding schedule
  schedule-count v = topo_layers-count scheduled wf.edges v ∙ scheduled-count v

-- What policy_gate.py reads of a workflow that has no review loops.
abbrev pub gate_node : Node → NodeDoc
gate_node n = record { id = n.id; permission_class = n.permission_class; review_loop = none }

abbrev pub gate_doc : Workflow → Option ℤ → Option ℤ → Doc
gate_doc wf steps jobs = record {
  nodes = map (λ n. some (gate_node n)) wf.nodes;
  edges = map some wf.edges;
  max_steps = steps;
  max_parallel_jobs = jobs;
}

contains-node_ids :
    (ns : List Node) (v : String)
    → contains (node_ids (map (λ n. some (gate_node n)) ns)) v ≡ contains (ids_of ns) v
unfolding node_ids
contains-node_ids [] v = refl
contains-node_ids (n ∷ ns) v =
    let rest = contains-node_ids ns in ground (arith, rest v, rest n.id, eq_iff v n.id)

no_loops : (ns : List Node) → loop_nodes (map (λ n. some (gate_node n)) ns) ≡ []
unfolding loop_nodes
no_loops [] = refl
no_loops (n ∷ ns) = no_loops ns

-- A numbering of the document's edges is one of the workflow's.
Between-Joins :
    (ids seen : List String) (P : String → String → Type 0)
    → ((v : String) → contains seen v ≡ true → contains ids v ≡ true)
    → (es : List Edge) → All (Between ids P) (map some es)
    → All (Joins (contains seen) P) es
Between-Joins ids seen P same [] h = tt
Between-Joins ids seen P same (e ∷ es) (p, h) =
    (λ i j. p (same (from_id e) i) (same (to_id e) j), Between-Joins ids seen P same es h)

-- A workflow without review loops that the gate accepts, where the gate walks all of the ids and
-- nothing else, is scheduled along its edges: the source of each edge between two nodes is in the
-- schedule, and its target does not stand before it.
pub schedule-forward :
    {W : Type 0} (env : Env W) (wf : Workflow) (input_hash : String)
    (order : List String → List String) (steps jobs : Option ℤ) (r : Report)
    → let doc = gate_doc wf steps jobs in
      Inside (node_ids doc.nodes) (order (node_ids doc.nodes))
      → ((v : String)
          → contains (ids_of wf.nodes) v ≡ true
          → contains (order (node_ids (gate_doc wf steps jobs).nodes)) v ≡ true)
      → validate_workflow_policy order (gate_doc wf steps jobs) ≡ some r
      → r.ok ≡ true
      → All
          (Joins
            (contains (ids_of wf.nodes))
            (λ u v. precedes u v (schedule env wf input_hash) ≡ true))
          wf.edges
unfolding schedule
schedule-forward env wf input_hash order steps jobs r inside covers accepted ok =
    let doc = gate_doc wf steps jobs in
    let (number, falls) =
      validate-IsAcyclic order doc r inside
        (λ v h. covers v (sym (contains-node_ids wf.nodes v) ∙ h)) (no_loops wf.nodes) accepted
        ok in
    let ids = scheduled env wf input_hash in
    let once = scheduled-count env wf input_hash in
    let same = scheduled-contains env wf input_hash in
    All-imp (λ e p i j. p (same (from_id e) ∙ i) (same (to_id e) ∙ j)) wf.edges
      (topo_layers-forward ids wf.edges number (λ v. ground (arith, once v))
        (Between-Joins (node_ids doc.nodes) ids (λ u v. number v < number u)
          (λ v i. contains-node_ids wf.nodes v ∙ sym (same v) ∙ i) wf.edges falls))
