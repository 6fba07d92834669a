-- ===== src/Kernel/Topo.antt =====
-- kernel/executor.py: `_topo_layers`, Kahn's algorithm. Each layer holds one node, so the layers are
-- a list of node ids.
pub mod Total
pub mod Members
pub mod Order
pub mod Kahn
pub mod Counts
pub mod Built
pub mod Forward
use brain_flow.Prelude.{
  ℕ, zero, suc, ◌+◌, String, ◌&&◌, Option, none, some, List, [], ◌∷◌, ◌++◌, length, ◌==◌,
  if◌then◌else◌,
}
use brain_flow.Prelude.Dict.{Dict, get, put, has}
use brain_flow.Prelude.Int.{ℤ, pos, ◌+ℤ◌, pred_ℤ, is_zero}
use brain_flow.Prelude.Text.{before}
use brain_flow.Kernel.Workflow.{Edge}

-- str(e.get("from") or "").split(":")[0]
abbrev pub from_id : Edge → String
from_id e = before b':' e.source

abbrev pub to_id : Edge → String
to_id e = before b':' e.target

-- `indeg` and `adj`; a read of `adj` at a missing key gives the empty list.
pub record Graph : Type 0 where
  pub indeg : Dict ℤ
  pub adj : Dict (List String)

abbrev pub degree : Dict ℤ → String → ℤ
degree d v = elim (get d v) [ none ↦ pos 0 | some n ↦ n ]

abbrev pub targets : Dict (List String) → String → List String
targets d u = elim (get d u) [ none ↦ [] | some vs ↦ vs ]

-- {i: 0 for i in ids}
unfoldable pub zero_degrees : Dict ℤ → List String → Dict ℤ
zero_degrees d [] = d
zero_degrees d (i ∷ ids) = zero_degrees (put d i (pos 0)) ids

-- The body of the loop over the edges.
unfoldable pub add_edge : Graph → Edge → Graph
add_edge g e =
    let u = from_id e in
    let v = to_id e in
    if has g.indeg u && has g.indeg v
    then record {
      indeg = put g.indeg v (degree g.indeg v +ℤ pos 1);
      adj = put g.adj u (targets g.adj u ++ v ∷ []);
    }
    else g

unfoldable pub add_edges : Graph → List Edge → Graph
add_edges g [] = g
add_edges g (e ∷ edges) = add_edges (add_edge g e) edges

-- [i for i, d in indeg.items() if d == 0]
unfoldable pub roots : Dict ℤ → List String
roots [] = []
roots ((i, d) ∷ items) = if is_zero d then i ∷ roots items else roots items

-- The loop over `adj[u]`: the degrees and the queue after it.
unfoldable pub release : Dict ℤ → List String → List String → Dict ℤ × List String
release indeg q [] = (indeg, q)
release indeg q (v ∷ vs) =
    let d = pred_ℤ (degree indeg v) in
    release (put indeg v d) (if is_zero d then q ++ v ∷ [] else q) vs

-- The `while` loop. `none`: the fuel ran out.
unfoldable pub drain :
    ℕ → Dict (List String) → Dict ℤ → List String → List String → Option (List String)
drain fuel adj indeg [] order = some order
drain zero adj indeg (u ∷ q) order = none
drain (suc fuel) adj indeg (u ∷ q) order =
    let (indeg', q') = release indeg q (targets adj u) in drain fuel adj indeg' q' (order ++ u ∷ [])

unfoldable pub graph : List String → List Edge → Graph
unfolding add_edges zero_degrees
graph ids edges = add_edges (record { indeg = zero_degrees [] ids; adj = [] }) edges

-- Each round takes a node out of the queue, and a node enters it when its degree falls to 0.
abbrev pub topo_fuel : List String → List Edge → ℕ
topo_fuel ids edges = length ids + length edges

-- A cycle leaves some node out, and then the nodes stand in the order of their declaration.
abbrev pub or_declared : List String → Option (List String) → List String
or_declared ids none = ids
or_declared ids (some order) = if length order == length ids then order else ids

unfoldable pub topo_layers : List String → List Edge → List String
unfolding graph roots drain
topo_layers ids edges =
    let g = graph ids edges in
    or_declared ids (drain (topo_fuel ids edges) g.adj g.indeg (roots g.indeg) [])
