-- ===== src/Kernel/Executor/Length.antt =====
-- kernel/executor.py: the schedule has no more nodes than the workflow.
use brain_flow.Prelude.{
  suc, ◌+◌, ◌≤◌, String, ◌≡◌, refl, ap, Option, none, some, List, [], ◌∷◌, arith, length, map,
}
use brain_flow.Kernel.Workflow.{Node, Workflow, Edge}
use brain_flow.Kernel.Attempt.{Env}
use brain_flow.Kernel.Executor.{schedule, node_table}
use brain_flow.Kernel.Topo.{topo_layers, or_declared}
use brain_flow.Prelude.Dict.{Dict, put, values}

-- The table has at most as many nodes as the workflow.
values-put : (d : Dict Node) (n : Node) → length (values (put d n.id n)) ≤ suc (length (values d))
unfolding put
values-put [] n = omega arith
values-put ((j, m) ∷ d) n = ground (arith, values-put d n)

length-map : {A B : Type 0} (f : A → B) (xs : List A) → length (map f xs) ≡ length xs
length-map f [] = refl
length-map f (x ∷ xs) = ap suc (length-map f xs)

topo_layers-length :
    (ids : List String) (edges : List Edge) → length (topo_layers ids edges) ≡ length ids
unfolding topo_layers
topo_layers-length ids edges = go _
  where
    go : (o : Option (List String)) → length (or_declared ids o) ≡ length ids
    go none = refl
    go (some order) = ground arith

module _ {W : Type 0} (env : Env W) (wf : Workflow) (input_hash : String) where
  node_table-length :
      (d : Dict Node) (ns : List Node)
      → length (values (node_table env wf input_hash d ns)) ≤ length (values d) + length ns
  unfolding node_table
  node_table-length d [] = omega arith
  node_table-length d (n ∷ ns) = ground (arith, values-put d n, node_table-length (put d n.id n) ns)

  pub schedule-length : length (schedule env wf input_hash) ≤ length wf.nodes
  unfolding schedule
  schedule-length =
      let table = node_table env wf input_hash [] wf.nodes in
      ground (
        arith,
        topo_layers-length (map (λ n. n.id) (values table)) wf.edges,
        length-map (λ (n : Node). n.id) (values table),
        node_table-length [] wf.nodes,
      )
