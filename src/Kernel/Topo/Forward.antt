-- ===== src/Kernel/Topo/Forward.antt =====
-- kernel/executor.py: the order that `_topo_layers` gives.
use brain_flow.Prelude.{
  ℕ, zero, suc, ◌+◌, ◌≤◌, ◌<◌, String, ◌≡◌, refl, ap, Bool, true, false, ◌&&◌, some, List, [], ◌∷◌,
  length, All, All-imp, All-imp_both, arith, eq_iff, if◌then◌else◌, if_ind, ◌==◌,
}
use brain_flow.Kernel.Policy.{contains}
use brain_flow.Kernel.Workflow.{Edge}
use brain_flow.Kernel.Topo.{
  from_id, to_id, drain, roots, graph, topo_fuel, topo_layers, or_declared,
}
use brain_flow.Kernel.Topo.Order.{
  count, count-le, count-append, links, incoming, incoming-zero, precedes,
}
use brain_flow.Kernel.Topo.Kahn.{Forward, drain-Kept}
use brain_flow.Kernel.Topo.Built.{graph-Built, Built-Kept}
use brain_flow.Kernel.Topo.Total.{graph-drain}

pub contains-count : (ids : List String) (v : String) → contains ids v ≡ true → 1 ≤ count v ids
unfolding count
contains-count [] v h = absurd (ground arith)
contains-count (i ∷ ids) v h = ground (arith, contains-count ids v, eq_iff i v, eq_iff v i)

pub count-contains : (ids : List String) (v : String) → 1 ≤ count v ids → contains ids v ≡ true
unfolding count
count-contains [] v h = absurd (omega arith)
count-contains (i ∷ ids) v h = ground (arith, count-contains ids v, eq_iff i v, eq_iff v i)

nowhere : (v : String) → count v [] ≡ 0
unfolding count
nowhere v = refl

-- What holds of the ends of an edge between two declared nodes.
abbrev pub Joins : (String → Bool) → (String → String → Type 0) → Edge → Type 0
Joins known P e = known (from_id e) ≡ true → known (to_id e) ≡ true → P (from_id e) (to_id e)

module _ (known : String → Bool) (P : String → String → Type 0) where
  Joins-links :
      (es : List Edge)
      → All (Joins known P) es
      → All
          (λ e. (known (from_id e) ≡ true) × (known (to_id e) ≡ true) × P (from_id e) (to_id e))
          (links known es)
  unfolding links
  Joins-links [] h = tt
  Joins-links (e ∷ es) (p, h) =
      if_ind
        (All (λ e. (known (from_id e) ≡ true) × (known (to_id e) ≡ true) × P (from_id e) (to_id e)))
        (known (from_id e) && known (to_id e))
        (λ k.
          let from : known (from_id e) ≡ true = ground (arith, k) in
          let to : known (to_id e) ≡ true = ground (arith, k) in
          ((from, to, p from to), Joins-links es h))
        (λ _. Joins-links es h)

  links-Joins :
      (es : List Edge)
      → All (λ e. P (from_id e) (to_id e)) (links known es)
      → All (Joins known P) es
  unfolding links
  links-Joins [] h = tt
  links-Joins (e ∷ es) h = go (known (from_id e) && known (to_id e)) refl h (links-Joins es)
    where
      go :
          (c : Bool)
          → (known (from_id e) && known (to_id e)) ≡ c
          → All (λ d. P (from_id d) (to_id d)) (if c then e ∷ links known es else links known es)
          → (All (λ d. P (from_id d) (to_id d)) (links known es) → All (Joins known P) es)
          → All (Joins known P) (e ∷ es)
      go true k (p, h') rest = (λ _ _. p, rest h')
      go false k h' rest = (λ i j. absurd (ground (arith, k, i, j)), rest h')

-- A number that no source of an edge exceeds.
bound : (number : String → ℕ) (es : List Edge) → (m : ℕ) × All (λ e. number (from_id e) ≤ m) es
bound number [] = (0, tt)
bound number (e ∷ es) =
    let (m, h) = bound number es in
    (number (from_id e) + m, (omega arith, All-imp (λ d p. omega arith) es h))

module _ (ids : List String) (edges : List Edge) where
  -- The state at the end of the loop.
  record Ended (order : List String) : Type 0 where
    runs :
        drain
          (topo_fuel ids edges)
          (graph ids edges).adj
          (graph ids edges).indeg
          (roots (graph ids edges).indeg)
          []
        ≡ some order
    forward : Forward (contains ids) (links (contains ids) edges) order
    placed :
        (v : String)
        → count v order
          ≡ (if contains ids v && incoming (links (contains ids) edges) order v == 0 then 1 else 0)

  ended : (order : List String) × Ended order
  ended =
      let (order, runs) = graph-drain ids edges in
      let (lists, start) = Built-Kept (contains ids) _ _ (graph-Built ids edges) in
      let (d, kept) =
        drain-Kept (contains ids) (links (contains ids) edges) _ (topo_fuel ids edges) _ _ [] lists
          start order runs in
      (
        order,
        record {
          runs = runs;
          forward = kept.forward;
          placed = λ v. ground (arith, kept.in_step v, count-append v order [], nowhere v);
        },
      )

  module _ (order : List String) (e : Ended order) where
    placed-le : (v : String) → count v order ≤ count v ids
    placed-le v = ground (arith, e.placed v, contains-count ids v)

    -- With edges that lead to smaller numbers, each declared node is in the order.
    complete :
        (number : String → ℕ) (m : ℕ)
        → All
            (λ d.
              (contains ids (from_id d) ≡ true)
              × (contains ids (to_id d) ≡ true)
              × (number (to_id d) < number (from_id d)))
            (links (contains ids) edges)
        → All (λ d. number (from_id d) ≤ m) (links (contains ids) edges)
        → (k : ℕ) (v : String) → m ≤ number v + k
        → contains ids v ≡ true
        → count v order ≡ 1
    complete number m down top zero v h c = ground (
      arith,
      e.placed v,
      incoming-zero (links (contains ids) edges) order v (
          All-imp_both (λ d (_, _, falls) below t. absurd (omega (arith, ap number t)))
            (links (contains ids) edges) down top),
    )
    complete number m down top (suc k) v h c =
        let before = complete number m down top k in
        ground (
          arith,
          e.placed v,
          incoming-zero (links (contains ids) edges) order v (
              All-imp
                (λ d (from, _, falls) t.
                  omega (arith, before (from_id d) (omega (arith, ap number t)) from))
                (links (contains ids) edges) down),
        )

    -- Then the order has all of the nodes, and each edge leads forward in it.
    all_placed :
        ((v : String) → count v ids ≤ 1)
        → ((v : String) → contains ids v ≡ true → count v order ≡ 1)
        → length order ≡ length ids
    all_placed distinct placed = omega (
      arith,
      (count-le order ids placed-le).0,
      (count-le ids order (λ v. ground (arith, distinct v, placed v, count-contains ids v))).0,
    )

  runs-topo :
      (order : List String) → Ended order → topo_layers ids edges ≡ or_declared ids (some order)
  unfolding topo_layers
  runs-topo order e = rw (e.runs) refl

kept_order :
    (order ids : List String) → length order ≡ length ids → or_declared ids (some order) ≡ order
kept_order order ids h = ground arith

-- Each declared node is scheduled as often as it is declared, whatever the edges are, and nothing
-- else is: also where the edges form a cycle.
pub topo_layers-count :
    (ids : List String) (edges : List Edge) (v : String)
    → count v (topo_layers ids edges) ≡ count v ids
topo_layers-count ids edges v =
    let (order, e) = ended ids edges in
    rw (runs-topo ids edges order e) (
      if_ind (λ o. count v o ≡ count v ids) (length order == length ids)
        (λ l. (count-le order ids (placed-le ids edges order e)).1 (ground (arith, l)) v)
        (λ _. refl))

-- Where the nodes are distinct and the edges between them form no cycle, that is, lead to ever
-- smaller numbers, each of these edges leads forward in the schedule: its source is scheduled, and
-- before its target.
pub topo_layers-forward :
    (ids : List String) (edges : List Edge) (number : String → ℕ)
    → ((v : String) → count v ids ≤ 1)
    → All (Joins (contains ids) (λ u v. number v < number u)) edges
    → All (Joins (contains ids) (λ u v. precedes u v (topo_layers ids edges) ≡ true)) edges
topo_layers-forward ids edges number distinct down =
    let (order, e) = ended ids edges in
    let falls = Joins-links (contains ids) (λ u v. number v < number u) edges down in
    let (m, top) = bound number (links (contains ids) edges) in
    let placed = λ (v : String). complete ids edges order e number m falls top m v (omega arith) in
    rw
      (
        runs-topo ids edges order e,
        kept_order order ids (all_placed ids edges order e distinct placed),
      )
      (links-Joins (contains ids) (λ u v. precedes u v order ≡ true) edges
        (All-imp_both (λ d forward (_, to, _). forward (omega (arith, placed (to_id d) to)))
          (links (contains ids) edges) e.forward falls))
