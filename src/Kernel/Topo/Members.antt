-- ===== src/Kernel/Topo/Members.antt =====
-- kernel/executor.py: which nodes `_topo_layers` gives, whatever `K` holds of the declared ids.
use brain_flow.Prelude.{
  ℕ, zero, suc, String, ◌≡◌, refl, Bool, true, false, ◌&&◌, Option, none, some, List, [], ◌∷◌, ◌++◌,
  All, All-append, if_ind, arith, eq_iff, str_eq, subst, sym, if◌then◌else◌, ◌==◌, length,
}
use brain_flow.Prelude.Dict.{Dict, get, put, has, keys, get-put}
use brain_flow.Prelude.Int.{ℤ, pos, pred_ℤ, is_zero}
use brain_flow.Kernel.Workflow.{Edge}
use brain_flow.Kernel.Topo.{
  Graph, from_id, to_id, degree, targets, zero_degrees, add_edge, add_edges, roots, release, drain,
  graph, topo_fuel, topo_layers, or_declared,
}

module _ (K : String → Type 0) where
  keys-put :
      {V : Type 0} (d : Dict V) (k : String) (v : V)
      → All K (keys d)
      → K k
      → All K (keys (put d k v))
  unfolding put
  keys-put [] k v h p = (p, tt)
  keys-put {V} ((j, w) ∷ d) k v (q, h) p =
      if_ind (λ (d' : Dict V). All K (keys d')) (str_eq j k) (λ _. (q, h))
        (λ _. (q, keys-put d k v h p))

  has-All : {V : Type 0} (d : Dict V) (k : String) → All K (keys d) → has d k ≡ true → K k
  unfolding has
  has-All [] k h e = absurd (ground arith)
  has-All ((j, v) ∷ d) k (p, h) e = go (str_eq j k) refl e (has-All d k h)
    where
      go :
          (b : Bool)
          → str_eq j k ≡ b
          → (if b then true else has d k) ≡ true
          → (has d k ≡ true → K k)
          → K k
      go true f e' ih = subst K ((eq_iff j k).0 f) p
      go false f e' ih = ih e'

  zero_degrees-All :
      (d : Dict ℤ) (ids : List String)
      → All K (keys d)
      → All K ids
      → All K (keys (zero_degrees d ids))
  unfolding zero_degrees
  zero_degrees-All d [] h k = h
  zero_degrees-All d (i ∷ ids) h (p, k) =
      zero_degrees-All (put d i (pos 0)) ids (keys-put d i (pos 0) h p) k

  -- All nodes of the graph are declared, and so are the targets of its edges.
  record IsClosed (g : Graph) : Type 0 where
    nodes : All K (keys g.indeg)
    edges : (u : String) → All K (targets g.adj u)

  targets-put :
      (adj : Dict (List String)) (u : String) (vs : List String)
      → ((x : String) → All K (targets adj x))
      → All K vs
      → (x : String) → All K (targets (put adj u vs) x)
  targets-put adj u vs h p x =
      subst (λ o. All K (elim o [ none ↦ [] | some ws ↦ ws ])) (sym (get-put adj u x vs))
        (if_ind (λ (o : Option (List String)). All K (elim o [ none ↦ [] | some ws ↦ ws ]))
          (str_eq u x) (λ _. p) (λ _. h x))

  add_edge-IsClosed : (g : Graph) (e : Edge) → IsClosed g → IsClosed (add_edge g e)
  unfolding add_edge
  add_edge-IsClosed g e c =
      if_ind IsClosed (has g.indeg (from_id e) && has g.indeg (to_id e))
        (λ h.
          let known = has-All g.indeg (to_id e) c.nodes (ground (arith, h)) in
          record {
            nodes = keys-put g.indeg (to_id e) _ c.nodes known;
            edges =
                targets-put g.adj (from_id e) (targets g.adj (from_id e) ++ to_id e ∷ []) c.edges
                  (All-append K (targets g.adj (from_id e)) _ (c.edges (from_id e)) (known, tt));
          })
        (λ _. c)

  add_edges-IsClosed : (g : Graph) (es : List Edge) → IsClosed g → IsClosed (add_edges g es)
  unfolding add_edges
  add_edges-IsClosed g [] c = c
  add_edges-IsClosed g (e ∷ es) c = add_edges-IsClosed (add_edge g e) es (add_edge-IsClosed g e c)

  roots-All : (d : Dict ℤ) → All K (keys d) → All K (roots d)
  unfolding roots
  roots-All [] h = tt
  roots-All ((v, n) ∷ d) (p, h) =
      if_ind (All K) (is_zero n) (λ _. (p, roots-All d h)) (λ _. roots-All d h)

  release-All :
      (indeg : Dict ℤ) (q vs : List String) → All K q → All K vs → All K (release indeg q vs).1
  unfolding release
  release-All indeg q [] h k = h
  release-All indeg q (v ∷ vs) h (p, k) =
      let d = pred_ℤ (degree indeg v) in
      release-All (put indeg v d) (if is_zero d then q ++ v ∷ [] else q) vs
        (if_ind (All K) (is_zero d) (λ _. All-append K q (v ∷ []) h (p, tt)) (λ _. h)) k

  drain-All :
      (fuel : ℕ) (adj : Dict (List String)) (indeg : Dict ℤ) (q order : List String)
      → ((u : String) → All K (targets adj u))
      → All K q
      → All K order
      → (result : List String) → drain fuel adj indeg q order ≡ some result
      → All K result
  unfolding drain
  drain-All fuel adj indeg [] order e h k result f = subst (All K) (ground arith) k
  drain-All zero adj indeg (u ∷ q) order e h k result f = absurd (ground arith)
  drain-All (suc fuel) adj indeg (u ∷ q) order e (p, h) k result f =
      drain-All fuel adj (release indeg q (targets adj u)).0 (release indeg q (targets adj u)).1
        (order ++ u ∷ []) e (release-All indeg q (targets adj u) h (e u))
        (All-append K order (u ∷ []) k (p, tt)) result f

  or_declared-All :
      (ids : List String) (o : Option (List String))
      → All K ids
      → ((order : List String) → o ≡ some order → All K order)
      → All K (or_declared ids o)
  or_declared-All ids none h k = h
  or_declared-All ids (some order) h k =
      if_ind (All K) (length order == length ids) (λ _. k order refl) (λ _. h)

  -- What holds of all declared ids holds of every id of the layers, so no other node is run.
  pub topo_layers-All :
      (ids : List String) (edges : List Edge) → All K ids → All K (topo_layers ids edges)
  unfolding topo_layers get
  topo_layers-All ids edges h =
      let closed : IsClosed (graph ids edges) =
        add_edges-IsClosed (record { indeg = zero_degrees [] ids; adj = [] }) edges
          (record { nodes = zero_degrees-All [] ids tt h; edges = λ u. tt }) in
      or_declared-All ids _ h
        (drain-All (topo_fuel ids edges) _ _ _ [] closed.edges (roots-All _ closed.nodes) tt)
