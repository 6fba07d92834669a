-- ===== src/Kernel/Gate.antt =====
-- kernel/policy_gate.py: `validate_workflow_policy`. The order in which Python walks a set of ids is
-- a parameter; the other sets are lists.
pub mod Search
pub mod Cycles
pub mod Accepted
pub mod Acyclic
pub mod Checks
mod Tests
use brain_flow.Prelude.{
  ℕ, zero, suc, String, Bool, true, false, ◌&&◌, ◌||◌, not, Option, none, some, List, [], ◌∷◌, ◌++◌,
  length, str_eq, if◌then◌else◌,
}
use brain_flow.Prelude.Dict.{Dict, put, has}
use brain_flow.Prelude.Int.{ℤ, pos, ltb_ℤ}
use brain_flow.Prelude.Text.{or_text}
use brain_flow.Kernel.Policy.{contains, is_known, may_auto_apply, normalize_permission_class}
use brain_flow.Kernel.Workflow.{Edge}
use brain_flow.Kernel.Topo.{from_id, to_id, targets}

-- A node of the document; `id` is the text of its id. A bound that is no integer is `none`.
pub record NodeDoc : Type 0 where
  pub id : String
  pub permission_class : Option String
  pub review_loop : Option (Option ℤ)

-- What is no object is `none`: a node, or an edge. `nodes` that are no list are empty here. A budget is
-- missing or an integer: one that `int` raises on is left out.
pub record Doc : Type 0 where
  pub nodes : List (Option NodeDoc)
  pub edges : List (Option Edge)
  pub max_steps : Option ℤ
  pub max_parallel_jobs : Option ℤ

pub data GateError : Type 0 where
  nodes_required non_object_node steps_cap jobs_cap : GateError
  unknown_class : String → String → GateError
  loop_bounds : String → GateError
  unbounded_cycle : List String → GateError

pub record ApprovalNeeded : Type 0 where
  pub node_id : String
  pub permission_class : String

pub record Report : Type 0 where
  pub ok : Bool
  pub errors : List GateError
  pub approvals_needed : List ApprovalNeeded

-- not isinstance(mi, int) or mi < 1 or mi > 10
abbrev pub is_unbounded : Option ℤ → Bool
is_unbounded none = true
is_unbounded (some n) = ltb_ℤ n (pos 1) || ltb_ℤ (pos 10) n

abbrev pub class_of : NodeDoc → String
class_of n = normalize_permission_class (or_text n.permission_class "")

abbrev pub loop_errors : NodeDoc → List GateError
loop_errors n = elim n.review_loop [
  | none ↦ []
  | some bound ↦ if is_unbounded bound then loop_bounds n.id ∷ [] else []
]

-- The body of the loop over the nodes: the errors and the approvals that it appends.
unfoldable pub check_node : Option NodeDoc → List GateError × List ApprovalNeeded
check_node none = (non_object_node ∷ [], [])
check_node (some n) =
    if not (is_known (class_of n))
    then (unknown_class n.id (class_of n) ∷ loop_errors n, [])
    else if not (may_auto_apply (class_of n))
    then (loop_errors n, record { node_id = n.id; permission_class = class_of n } ∷ [])
    else (loop_errors n, [])

unfoldable pub check_nodes : List (Option NodeDoc) → List GateError × List ApprovalNeeded
unfolding check_node
check_nodes [] = ([], [])
check_nodes (n ∷ ns) =
    let (errors, approvals) = check_node n in
    let (errors', approvals') = check_nodes ns in (errors ++ errors', approvals ++ approvals')

-- {str(n.get("id")) for n in nodes if isinstance(n, dict)}
unfoldable pub node_ids : List (Option NodeDoc) → List String
node_ids [] = []
node_ids (none ∷ ns) = node_ids ns
node_ids (some n ∷ ns) = let ids = node_ids ns in if contains ids n.id then ids else n.id ∷ ids

unfoldable pub loop_nodes : List (Option NodeDoc) → List String
loop_nodes [] = []
loop_nodes (none ∷ ns) = loop_nodes ns
loop_nodes (some n ∷ ns) = elim n.review_loop [
  | none ↦ loop_nodes ns
  | some _ ↦ n.id ∷ loop_nodes ns
]

-- {nid: [] for nid in node_ids}
unfoldable pub no_targets : List String → Dict (List String)
no_targets [] = []
no_targets (i ∷ ids) = (i, []) ∷ no_targets ids

unfoldable pub link : List String → Dict (List String) → List (Option Edge) → Dict (List String)
link ids adj [] = adj
link ids adj (none ∷ es) = link ids adj es
link ids adj (some e ∷ es) =
    link ids
      (if has adj (from_id e) && contains ids (to_id e)
        then put adj (from_id e) (targets adj (from_id e) ++ to_id e ∷ [])
        else adj)
      es

-- What the depth-first search changes.
pub record Walk : Type 0 where
  pub visiting : List String
  pub visited : List String
  pub errors : List GateError

-- stack[stack.index(u):]
abbrev pub from_first : String → List String → List String
from_first u [] = []
from_first u (s ∷ stack) = if str_eq s u then s ∷ stack else from_first u stack

-- all(c in loop_nodes for c in cycle)
abbrev pub all_in : List String → List String → Bool
all_in loops [] = true
all_in loops (c ∷ cycle) = contains loops c && all_in loops cycle

abbrev pub discard : String → List String → List String
discard u [] = []
discard u (v ∷ vs) = let rest = discard u vs in if str_eq v u then rest else v ∷ rest

pub data Mark : Type 0 where
  on_path finished fresh : Mark

abbrev pub mark : String → Walk → Mark
mark u w =
    if contains w.visiting u then on_path else if contains w.visited u then finished else fresh

abbrev pub enter : String → Walk → Walk
enter u w = record w { visiting = u ∷ w.visiting }

abbrev pub leave : String → Walk → Walk
leave u w = record w { visiting = discard u w.visiting; visited = u ∷ w.visited }

abbrev pub close_cycle : List String → List String → String → Walk → Walk
close_cycle loops stack u w =
    let cycle = from_first u stack in
    if all_in loops cycle then w else record w { errors = w.errors ++ unbounded_cycle cycle ∷ [] }

unfoldable pub walk_all : (String → Walk → Option Walk) → List String → Walk → Option Walk
walk_all step [] w = some w
walk_all step (v ∷ vs) w = elim (step v w) [ none ↦ none | some w' ↦ walk_all step vs w' ]

-- `dfs`. `none`: the fuel ran out.
unfoldable pub dfs :
    Dict (List String) → List String → ℕ → List String → String → Walk → Option Walk
unfolding walk_all
dfs adj loops zero stack u w = elim (mark u w) [
  | on_path ↦ some (close_cycle loops stack u w)
  | finished ↦ some w
  | fresh ↦ none
]
dfs adj loops (suc fuel) stack u w = elim (mark u w) [
  | on_path ↦ some (close_cycle loops stack u w)
  | finished ↦ some w
  | fresh ↦ elim (walk_all (dfs adj loops fuel (stack ++ u ∷ [])) (targets adj u) (enter u w)) [
    | none ↦ none
    | some w' ↦ some (leave u w')
  ]
]

-- int(x or 0) > cap
abbrev pub over_cap : Option ℤ → ℤ → Bool
over_cap none cap = false
over_cap (some n) cap = ltb_ℤ cap n

abbrev pub cap_errors : Doc → List GateError
cap_errors doc =
    (if over_cap doc.max_steps (pos 500) then steps_cap ∷ [] else [])
    ++ (if over_cap doc.max_parallel_jobs (pos 32) then jobs_cap ∷ [] else [])

abbrev pub is_empty_list : List GateError → Bool
is_empty_list [] = true
is_empty_list (_ ∷ _) = false

abbrev pub report : Doc → List ApprovalNeeded → Walk → Report
report doc approvals w =
    let errors = w.errors ++ cap_errors doc in
    record { ok = is_empty_list errors; errors = errors; approvals_needed = approvals }

abbrev pub adjacency : Doc → Dict (List String)
adjacency doc = let ids = node_ids doc.nodes in link ids (no_targets ids) doc.edges

abbrev pub no_nodes : Report
no_nodes = record { ok = false; errors = nodes_required ∷ []; approvals_needed = [] }

-- The loop of `dfs` over the ids; a search cannot be deeper than there are ids.
unfoldable pub search : (List String → List String) → Doc → Option Walk
unfolding check_nodes node_ids loop_nodes no_targets link dfs
search order doc =
    let ids = node_ids doc.nodes in
    walk_all (dfs (adjacency doc) (loop_nodes doc.nodes) (length ids) []) (order ids)
      (record { visiting = []; visited = []; errors = (check_nodes doc.nodes).0 })

unfoldable pub validate_workflow_policy : (List String → List String) → Doc → Option Report
unfolding check_nodes search
validate_workflow_policy order doc = elim doc.nodes [
  | [] ↦ some no_nodes
  | _ ∷ _ ↦ elim (search order doc) [
    | none ↦ none
    | some w ↦ some (report doc (check_nodes doc.nodes).1 w)
  ]
]
