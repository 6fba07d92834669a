-- ===== src/Kernel/Executor/Loop.antt =====
-- Proof rules for `execute` and its loop over the nodes (kernel/executor.py).
use brain_flow.Prelude.{
  String, ◌≡◌, Bool, true, false, Option, none, some, List, [], ◌∷◌, inl, inr, ◌||◌, arith,
  Bool-cases, if_ind, All, str_eq, subst, ap, if◌then◌else◌,
}
use brain_flow.Prelude.Dict.{Dict, get, put, get-put}
use brain_flow.Kernel.Workflow.{Node, Workflow}
use brain_flow.Kernel.Run.{RunState, run_started, running, emit, cancel}
use brain_flow.Kernel.Attempt.{Env, Flow, goes_on, returns, key_error}
use brain_flow.Kernel.Executor.Total.{Has, get-Has, schedule-Has}
use brain_flow.Kernel.Executor.{
  run_node, and_then, run_nodes, node_table, schedule, finish, is_cancelled, conclude, execute,
}
use brain_flow.Kernel.Executor.Rules.{Ends}

module _ {W : Type 0} (env : Env W) (wf : Workflow) (input_hash : String) where
  -- What holds of all nodes of the workflow holds of those in the table.
  node_table-All_from :
      (P : Node → Type 0) (d : Dict Node) (ns : List Node)
      → All P ns
      → ((nid : String) (node : Node) → get d nid ≡ some node → P node)
      → (nid : String) (node : Node) → get (node_table env wf input_hash d ns) nid ≡ some node
      → P node
  unfolding node_table
  node_table-All_from P d [] h k = k
  node_table-All_from P d (n ∷ ns) (p, h) k =
      node_table-All_from P (put d n.id n) ns h λ nid node e. elim (Bool-cases (str_eq n.id nid)) [
        | inl same ↦
            subst P (cc (get-put d n.id nid n, ap (λ b. if b then some n else get d nid) same)) p
        | inr other ↦
            k nid node (cc (get-put d n.id nid n, ap (λ b. if b then some n else get d nid) other))
      ]

  pub node_table-All :
      (P : Node → Type 0)
      → All P wf.nodes
      → (nid : String) (node : Node)
      → get (node_table env wf input_hash [] wf.nodes) nid ≡ some node
      → P node
  unfolding get
  node_table-All P h = node_table-All_from P [] wf.nodes h (λ nid node e. cc)

  -- The loop over the nodes: `P nids` holds before the nodes `nids`.
  pub run_nodes-Ends :
      (resume : Bool) (nodes : Dict Node) (P : List String → RunState → Type 0)
      (Q : RunState → Type 0)
      → ((nid : String) (nids : List String) (s : RunState) (w : W)
          → ((n : Node) × (get nodes nid ≡ some n))
          → P (nid ∷ nids) s
          → Ends (P nids) Q (run_node env wf input_hash resume nodes nid s w))
      → (nids : List String) → All (Has nodes) nids
      → (s : RunState) (w : W) → P nids s
      → Ends (P []) Q (run_nodes env wf input_hash resume nodes nids s w)
  unfolding run_nodes
  run_nodes-Ends resume nodes P Q step [] _ s w p = p
  run_nodes-Ends resume nodes P Q step (nid ∷ nids) (here, all) s w p =
      go (run_node env wf input_hash resume nodes nid s w)
        (step nid nids s w (get-Has nodes nid here) p)
        (run_nodes-Ends resume nodes P Q step nids all)
    where
      go :
          (r : Flow W)
          → Ends (P nids) Q r
          → ((s : RunState) (w : W)
              → P nids s
              → Ends (P []) Q (run_nodes env wf input_hash resume nodes nids s w))
          → Ends
              (P [])
              Q
              (and_then env wf input_hash r (run_nodes env wf input_hash resume nodes nids))
      go (goes_on s' w') h rest = rest s' w' h
      go (returns s' w') h rest = h
      go key_error h rest = h

  -- What holds of the run state that `execute` gives back.
  abbrev pub Result : (RunState → Type 0) → Option (RunState × W) → Type 0
  Result Q none = ⊥
  Result Q (some (s, w)) = Q s

  pub execute-Result :
      (resume : Bool) (P : List String → RunState → Type 0) (Q : RunState → Type 0) (s : RunState)
      (w : W)
      → ((s.cancel_requested || is_cancelled env wf input_hash s.status) ≡ true → Q (cancel s))
      → (s.cancel_requested ≡ false
          → P
              (schedule env wf input_hash)
              (emit (run_started resume) (record s { status = running })))
      → ((s : RunState) → P [] s → Q (finish env wf input_hash s))
      → ((nid : String) (nids : List String) (s : RunState) (w : W)
          → ((n : Node) × (get (node_table env wf input_hash [] wf.nodes) nid ≡ some n))
          → P (nid ∷ nids) s
          → Ends (P nids) Q (
              run_node env wf input_hash resume (node_table env wf input_hash [] wf.nodes) nid s w))
      → Result Q (execute env wf input_hash resume s w)
  unfolding execute
  execute-Result resume P Q s w stopped start end step =
      if_ind (Result Q) (s.cancel_requested || is_cancelled env wf input_hash s.status) stopped
        λ off.
          go
            (run_nodes env wf input_hash resume (node_table env wf input_hash [] wf.nodes)
              (schedule env wf input_hash) _ w)
            (run_nodes-Ends resume _ P Q step (schedule env wf input_hash)
              (schedule-Has env wf input_hash) _ w (start (ground (arith, off))))
    where
      go : (r : Flow W) → Ends (P []) Q r → Result Q (conclude env wf input_hash r)
      go (goes_on s' w') h = end s' h
      go (returns s' w') h = h
      go key_error h = h
