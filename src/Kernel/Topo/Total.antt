-- ===== src/Kernel/Topo/Total.antt =====
-- kernel/executor.py: the `while` loop of `_topo_layers` ends within its fuel.
use brain_flow.Prelude.{
  ℕ, zero, suc, ◌+◌, ◌≤◌, String, ◌≡◌, refl, Bool, true, false, ◌&&◌, some, List, [], ◌∷◌, ◌++◌,
  inl, inr, length, length-append, Bool-cases, if◌then◌else◌, arith, str_eq,
}
use brain_flow.Prelude.Dict.{Dict, get, put, has}
use brain_flow.Prelude.Int.{ℤ, pos, negsuc, pos_part, pred_ℤ, is_zero, ◌+ℤ◌}
use brain_flow.Kernel.Workflow.{Edge}
use brain_flow.Kernel.Topo.{
  Graph, from_id, to_id, degree, targets, zero_degrees, add_edge, add_edges, roots, release, drain,
  graph, topo_fuel,
}

-- The number of edges into nodes that are still to be counted down.
unfoldable pub weight : Dict ℤ → ℕ
weight [] = 0
weight ((v, n) ∷ d) = pos_part n + weight d

weight-nil : weight [] ≡ 0
unfolding weight
weight-nil = refl

weight-put :
    (d : Dict ℤ) (v : String) (n : ℤ)
    → weight (put d v n) + pos_part (degree d v) ≡ weight d + pos_part n
unfolding weight put get
weight-put [] v n = omega arith
weight-put ((j, m) ∷ d) v n = go (str_eq j v) refl (weight-put d v n)
  where
    go :
        (b : Bool)
        → str_eq j v ≡ b
        → weight (put d v n) + pos_part (degree d v) ≡ weight d + pos_part n
        → weight (put ((j, m) ∷ d) v n) + pos_part (degree ((j, m) ∷ d) v)
          ≡ pos_part m + weight d + pos_part n
    go true e ih = rw (e, put, degree, get, weight) (omega arith)
    go false e ih = rw (e, put, degree, get, weight) (omega (arith, ih))

length-put : (d : Dict ℤ) (v : String) (n : ℤ) → has d v ≡ true → length (put d v n) ≡ length d
unfolding put has
length-put [] v n h = absurd (ground arith)
length-put ((j, m) ∷ d) v n h = ground (arith, length-put d v n)

length-put-le : (d : Dict ℤ) (v : String) (n : ℤ) → length (put d v n) ≤ suc (length d)
unfolding put
length-put-le [] v n = omega arith
length-put-le ((j, m) ∷ d) v n = ground (arith, length-put-le d v n)

-- A count-down that reaches 0 takes one from the weight, and puts one node into the queue.
lowered-weight :
    (m : ℤ) (q : List String) (v : String) (w w' : ℕ)
    → w' + pos_part m ≡ w + pos_part (pred_ℤ m)
    → length (if is_zero (pred_ℤ m) then q ++ v ∷ [] else q) + w' ≤ length q + w
lowered-weight (pos zero) q v w w' h = omega arith
lowered-weight (pos (suc zero)) q v w w' h = omega (arith, length-append q (v ∷ []))
lowered-weight (pos (suc (suc n))) q v w w' h = omega arith
lowered-weight (negsuc n) q v w w' h = omega arith

release-weight :
    (indeg : Dict ℤ) (q vs : List String)
    → length (release indeg q vs).1 + weight (release indeg q vs).0 ≤ length q + weight indeg
unfolding release
release-weight indeg q [] = omega arith
release-weight indeg q (v ∷ vs) =
    let m = degree indeg v in
    omega (
      arith,
      release-weight (put indeg v (pred_ℤ m)) (if is_zero (pred_ℤ m) then q ++ v ∷ [] else q) vs,
      lowered-weight m q v (weight indeg) (weight (put indeg v (pred_ℤ m)))
          (weight-put indeg v (pred_ℤ m)),
    )

drain-total :
    (fuel : ℕ) (adj : Dict (List String)) (indeg : Dict ℤ) (q order : List String)
    → length q + weight indeg ≤ fuel
    → (result : List String) × (drain fuel adj indeg q order ≡ some result)
unfolding drain
drain-total fuel adj indeg [] order h = (order, refl)
drain-total zero adj indeg (u ∷ q) order h = absurd (omega arith)
drain-total (suc fuel) adj indeg (u ∷ q) order h =
    drain-total fuel adj _ _ (order ++ u ∷ [])
      (omega (arith, release-weight indeg q (targets adj u)))

zero_degrees-weight :
    (d : Dict ℤ) (ids : List String)
    → weight d ≡ 0
    → (weight (zero_degrees d ids) ≡ 0) × (length (zero_degrees d ids) ≤ length d + length ids)
unfolding zero_degrees
zero_degrees-weight d [] h = omega arith
zero_degrees-weight d (i ∷ ids) h =
    let zero_now : weight (put d i (pos 0)) ≡ 0 = omega (arith, weight-put d i (pos 0)) in
    omega (arith, zero_degrees-weight (put d i (pos 0)) ids zero_now, length-put-le d i (pos 0))

suc-part : (m : ℤ) → pos_part (m +ℤ pos 1) ≤ pos_part m + 1
unfolding ◌+ℤ◌
suc-part m = ground arith

add_edge-weight :
    (g : Graph) (e : Edge)
    → (weight (add_edge g e).indeg ≤ weight g.indeg + 1)
      × (length (add_edge g e).indeg ≡ length g.indeg)
unfolding add_edge
add_edge-weight g e = elim (Bool-cases (has g.indeg (from_id e) && has g.indeg (to_id e))) [
  | inl h ↦
      let m = degree g.indeg (to_id e) in
      rw h (
        omega (arith, weight-put g.indeg (to_id e) (m +ℤ pos 1), suc-part m),
        length-put g.indeg (to_id e) (m +ℤ pos 1) (ground (arith, h)),
      )
  | inr h ↦ rw h (omega arith, refl)
]

add_edges-weight :
    (g : Graph) (es : List Edge)
    → (weight (add_edges g es).indeg ≤ weight g.indeg + length es)
      × (length (add_edges g es).indeg ≡ length g.indeg)
unfolding add_edges
add_edges-weight g [] = omega arith
add_edges-weight g (e ∷ es) = omega (arith, add_edge-weight g e, add_edges-weight (add_edge g e) es)

length-roots-le : (d : Dict ℤ) → length (roots d) ≤ length d
unfolding roots
length-roots-le [] = omega arith
length-roots-le ((v, n) ∷ d) = ground (arith, length-roots-le d)

-- Kahn's loop ends, whatever the nodes and edges and also on a cycle: as many rounds as there are
-- nodes and edges empty its queue.
pub graph-drain :
    (ids : List String) (edges : List Edge)
    → (order : List String) × (drain
          (topo_fuel ids edges)
          (graph ids edges).adj
          (graph ids edges).indeg
          (roots (graph ids edges).indeg)
          []
        ≡ some order)
unfolding graph
graph-drain ids edges =
    let start = zero_degrees-weight [] ids weight-nil in
    let all = add_edges-weight (record { indeg = zero_degrees [] ids; adj = [] }) edges in
    drain-total (length ids + length edges) _ _ _ []
      (omega (arith, start, all, length-roots-le (graph ids edges).indeg))
