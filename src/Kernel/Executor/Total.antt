-- ===== src/Kernel/Executor/Total.antt =====
-- kernel/executor.py: `execute` looks up only nodes that are there, so it raises no KeyError.
use brain_flow.Prelude.{
  String, ◌≡◌, refl, Bool, true, false, some, List, [], ◌∷◌, map, All, All-imp, arith, eq_iff,
  eq_refl, str_eq, subst, sym, if◌then◌else◌,
}
use brain_flow.Prelude.Dict.{Dict, get, put, has, keys, values}
use brain_flow.Kernel.Workflow.{Node, Workflow}
use brain_flow.Kernel.Topo.Members.{topo_layers-All}
use brain_flow.Kernel.Attempt.{Env}
use brain_flow.Kernel.Executor.{node_table, schedule}

abbrev pub Has : Dict Node → String → Type 0
Has d k = has d k ≡ true

keys-Has : (d : Dict Node) → All (Has d) (keys d)
unfolding has
keys-Has [] = tt
keys-Has ((j, n) ∷ d) =
    (ground (arith, eq_refl j), All-imp (λ k h. ground arith) (keys d) (keys-Has d))

pub get-Has : (d : Dict Node) (k : String) → Has d k → (n : Node) × (get d k ≡ some n)
unfolding has get
get-Has [] k h = absurd (ground arith)
get-Has ((j, n) ∷ d) k h = go (str_eq j k) h (get-Has d k)
  where
    go :
        (b : Bool)
        → (if b then true else has d k) ≡ true
        → (Has d k → (m : Node) × (get d k ≡ some m))
        → (m : Node) × ((if b then some n else get d k) ≡ some m)
    go true h' ih = (n, refl)
    go false h' ih = ih h'

-- Each node of the table stands under its id.
abbrev ids : Dict Node → List String
ids d = map (λ n. n.id) (values d)

ids-put : (d : Dict Node) (n : Node) → ids d ≡ keys d → ids (put d n.id n) ≡ keys (put d n.id n)
unfolding put
ids-put [] n h = refl
ids-put ((j, m) ∷ d) n h = ground (arith, eq_iff j n.id, ids-put d n)

module _ {W : Type 0} (env : Env W) (wf : Workflow) (input_hash : String) where
  node_table-ids :
      (d : Dict Node) (ns : List Node)
      → ids d ≡ keys d
      → ids (node_table env wf input_hash d ns) ≡ keys (node_table env wf input_hash d ns)
  unfolding node_table
  node_table-ids d [] h = h
  node_table-ids d (n ∷ ns) h = node_table-ids (put d n.id n) ns (ids-put d n h)

  pub schedule-Has :
      All (Has (node_table env wf input_hash [] wf.nodes)) (schedule env wf input_hash)
  unfolding schedule
  schedule-Has =
      let table = node_table env wf input_hash [] wf.nodes in
      topo_layers-All (Has table) (ids table) wf.edges
        (subst (All (Has table)) (sym (node_table-ids [] wf.nodes refl)) (keys-Has table))
