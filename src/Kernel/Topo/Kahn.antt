-- ===== src/Kernel/Topo/Kahn.antt =====
-- kernel/executor.py: the loops of `_topo_layers` keep the degrees and the queue in step.
use brain_flow.Prelude.{
  ℕ, zero, suc, ◌+◌, ◌≤◌, String, ◌≡◌, refl, subst, Bool, true, ◌&&◌, Option, none, some, List, [],
  ◌∷◌, ◌++◌, All, All-imp_both, arith, str_eq, eq_iff, eq_refl, if◌then◌else◌, if_ind,
}
use brain_flow.Prelude.Dict.{Dict, put, get-put}
use brain_flow.Prelude.Int.{ℤ, pos, pred_ℤ, is_zero}
use brain_flow.Kernel.Workflow.{Edge}
use brain_flow.Kernel.Topo.{from_id, to_id, degree, targets, release, drain}
use brain_flow.Kernel.Topo.Order.{
  count, count-append, incoming, incoming-append, zero-incoming, between, precedes, precedes-append,
  precedes_last,
}

pub degree-put :
    (d : Dict ℤ) (v x : String) (n : ℤ)
    → degree (put d v n) x ≡ (if str_eq v x then n else degree d x)
degree-put d v x n =
    rw (degree, get-put d v x n)
      (if_ind
        (λ (o : Option ℤ).
          elim o [ none ↦ pos 0 | some m ↦ m ] ≡ (if str_eq v x then n else degree d x))
        (str_eq v x) (λ e. rw e refl) (λ e. rw e refl))

module _ (known : String → Bool) where
  -- A declared node whose degree is 0 has been queued once, and no other node has been.
  abbrev due : String → ℤ → ℕ
  due v n = if known v && is_zero n then 1 else 0

  -- The degrees and the queued nodes, where `left v` edges into `v` are not counted down.
  abbrev InStep : (String → ℕ) → Dict ℤ → List String → Type 0
  InStep left d queued =
      (v : String) → (degree d v ≡ pos (left v)) × (count v queued ≡ due v (degree d v))

  lower-InStep :
      (left : String → ℕ) (d : Dict ℤ) (order q : List String) (v : String) (vs : List String)
      → known v ≡ true
      → InStep (λ x. left x + count x (v ∷ vs)) d (order ++ q)
      → InStep
          (λ x. left x + count x vs)
          (put d v (pred_ℤ (degree d v)))
          (order ++ (if is_zero (pred_ℤ (degree d v)) then q ++ v ∷ [] else q))
  unfolding count
  lower-InStep left d order q v vs k h x =
      let size : degree d v ≡ pos (suc (left v + count v vs)) = ground (arith, h v, eq_refl v) in
      rw (size, degree-put d v x (pos (left v + count v vs)))
        (ground (
          arith,
          h x,
          h v,
          eq_iff v x,
          eq_refl v,
          count-append x order q,
          count-append x order (q ++ v ∷ []),
          count-append x q (v ∷ []),
          count-append v order q,
        ))

  release-InStep :
      (left : String → ℕ) (order : List String) (d : Dict ℤ) (q vs : List String)
      → All (λ v. known v ≡ true) vs
      → InStep (λ x. left x + count x vs) d (order ++ q)
      → InStep left (release d q vs).0 (order ++ (release d q vs).1)
  unfolding release count
  release-InStep left order d q [] k h = λ x. ground (arith, h x)
  release-InStep left order d q (v ∷ vs) (kv, k) h =
      release-InStep left order (put d v (pred_ℤ (degree d v)))
        (if is_zero (pred_ℤ (degree d v)) then q ++ v ∷ [] else q) vs k
        (lower-InStep left d order q v vs kv h)

  module _ (es : List Edge) where
    -- Each edge into a node of the order comes from a node before it.
    abbrev pub Forward : List String → Type 0
    Forward order =
        All (λ e. 1 ≤ count (to_id e) order → precedes (from_id e) (to_id e) order ≡ true) es

    -- The state of the `while` loop.
    pub record Kept (d : Dict ℤ) (q order : List String) : Type 0 where
      pub in_step : InStep (incoming es order) d (order ++ q)
      pub forward : Forward order

    -- The first node of the queue is not in the order yet, and all sources of edges into it are.
    first-due :
        (d : Dict ℤ) (u : String) (q order : List String)
        → Kept d (u ∷ q) order
        → (count u order ≡ 0) × (incoming es order u ≡ 0)
    unfolding count
    first-due d u q order h = ground (arith, h.in_step u, count-append u order (u ∷ q), eq_refl u)

    join-edge :
        (u : String) (order : List String) (e : Edge)
        → count u order ≡ 0
        → (1 ≤ count (to_id e) order → precedes (from_id e) (to_id e) order ≡ true)
        → (to_id e ≡ u → 1 ≤ count (from_id e) order)
        → 1 ≤ count (to_id e) (order ++ u ∷ [])
        → precedes (from_id e) (to_id e) (order ++ u ∷ []) ≡ true
    unfolding count
    join-edge u order e fresh old new here = ground (
      arith,
      count-append (to_id e) order (u ∷ []),
      eq_iff u (to_id e),
      precedes-append (from_id e) (to_id e) order (u ∷ []),
      precedes_last (from_id e) (to_id e) order (u ∷ []),
    )

    module _ (adj : Dict (List String)) where
      -- The adjacency lists hold the edges.
      pub record Lists : Type 0 where
        pub counted : (u v : String) → count v (targets adj u) ≡ between es u v
        pub declared : (u : String) → All (λ v. known v ≡ true) (targets adj u)

      join-Kept :
          (d : Dict ℤ) (u : String) (q order : List String)
          → Lists
          → Kept d (u ∷ q) order
          → Kept (release d q (targets adj u)).0 (release d q (targets adj u)).1 (order ++ u ∷ [])
      unfolding count
      join-Kept d u q order l h =
          let (fresh, sources) = first-due d u q order h in
          record {
            in_step =
                release-InStep (incoming es (order ++ u ∷ [])) (order ++ u ∷ []) d q (targets adj u)
                  (l.declared u)
                  (λ x. ground (
                    arith,
                    h.in_step x,
                    incoming-append es order u x fresh,
                    l.counted u x,
                    count-append x order (u ∷ q),
                    count-append x (order ++ u ∷ []) q,
                    count-append x order (u ∷ []),
                  ));
            forward =
                All-imp_both (λ e. join-edge u order e fresh) es h.forward
                  (zero-incoming es order u sources);
          }

      -- At the end of the loop the queue is empty.
      pub drain-Kept :
          (fuel : ℕ) (d : Dict ℤ) (q order : List String)
          → Lists
          → Kept d q order
          → (result : List String) → drain fuel adj d q order ≡ some result
          → (d' : Dict ℤ) × Kept d' [] result
      unfolding drain
      drain-Kept fuel d [] order l h result e = (d, subst (Kept d []) (ground arith) h)
      drain-Kept zero d (u ∷ q) order l h result e = absurd (ground arith)
      drain-Kept (suc fuel) d (u ∷ q) order l h result e =
          drain-Kept fuel _ _ (order ++ u ∷ []) l (join-Kept d u q order l h) result e
