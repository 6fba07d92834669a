-- ===== src/Kernel/Topo/Built.antt =====
-- kernel/executor.py: the graph that `_topo_layers` builds has the declared nodes, and the edges
-- between them.
use brain_flow.Prelude.{
  ℕ, ◌+◌, ◌≤◌, String, ◌≡◌, refl, sym, ◌∙◌, subst, Bool, true, false, ◌&&◌, ◌||◌, List, [], ◌∷◌,
  ◌++◌, All, All-append, arith, str_eq, eq_iff, if◌then◌else◌, if_ind,
}
use brain_flow.Prelude.Dict.{Dict, get, put, has, keys}
use brain_flow.Prelude.Int.{ℤ, pos, ◌+ℤ◌}
use brain_flow.Kernel.Policy.{contains}
use brain_flow.Kernel.Workflow.{Edge}
use brain_flow.Kernel.Topo.{
  Graph, from_id, to_id, degree, targets, zero_degrees, add_edge, add_edges, roots, graph,
}
use brain_flow.Kernel.Topo.Order.{count, count-append, links, incoming, between}
use brain_flow.Kernel.Topo.Kahn.{degree-put, Lists, Kept}
use brain_flow.Kernel.Topo.Counts.{
  has-put_or, count-put, has-count, targets-put_eq, count-roots, nothing_placed,
}

module _ (known : String → Bool) where
  -- A graph with `f v` edges into `v`, and `h u v` edges from `u` to `v`.
  pub record Built (f : String → ℕ) (h : String → String → ℕ) (g : Graph) : Type 0 where
    pub nodes : (v : String) → has g.indeg v ≡ known v
    pub distinct : (v : String) → count v (keys g.indeg) ≤ 1
    pub degrees : (v : String) → degree g.indeg v ≡ pos (f v)
    pub counted : (u v : String) → count v (targets g.adj u) ≡ h u v
    pub declared : (u : String) → All (λ v. known v ≡ true) (targets g.adj u)

  link-Built :
      (f : String → ℕ) (h : String → String → ℕ) (g : Graph) (u v : String)
      → known v ≡ true
      → Built f h g
      → Built
          (λ x. f x + (if str_eq v x then 1 else 0))
          (λ w x. h w x + (if str_eq u w && str_eq v x then 1 else 0))
          (record {
            indeg = put g.indeg v (degree g.indeg v +ℤ pos 1);
            adj = put g.adj u (targets g.adj u ++ v ∷ []);
          })
  unfolding count ◌+ℤ◌
  link-Built f h g u v k b = record {
    nodes = λ x.
        ground (arith, has-put_or g.indeg v x (degree g.indeg v +ℤ pos 1), b.nodes x, eq_iff v x);
    distinct = λ x. ground (
      arith,
      count-put g.indeg v x (degree g.indeg v +ℤ pos 1),
      has-count g.indeg v,
      b.distinct x,
      eq_iff v x,
    );
    degrees = λ x. ground (
      arith,
      degree-put g.indeg v x (degree g.indeg v +ℤ pos 1),
      b.degrees x,
      b.degrees v,
      eq_iff v x,
    );
    counted = λ w x. ground (
      arith,
      targets-put_eq g.adj u w (targets g.adj u ++ v ∷ []),
      b.counted u x,
      b.counted w x,
      count-append x (targets g.adj u) (v ∷ []),
      eq_iff u w,
    );
    declared = λ w.
        subst (All (λ x. known x ≡ true))
          (sym (targets-put_eq g.adj u w (targets g.adj u ++ v ∷ [])))
          (if_ind (All (λ x. known x ≡ true)) (str_eq u w)
            (λ _.
              All-append (λ x. known x ≡ true) (targets g.adj u) (v ∷ []) (b.declared u) (k, tt))
            (λ _. b.declared w));
  }

  Built-same :
      {f f' : String → ℕ} {h h' : String → String → ℕ} {g : Graph}
      → ((v : String) → f v ≡ f' v)
      → ((u v : String) → h u v ≡ h' u v)
      → Built f h g
      → Built f' h' g
  Built-same p q b = record {
    nodes = b.nodes;
    distinct = b.distinct;
    degrees = λ v. rw (← p v) (b.degrees v);
    counted = λ u v. b.counted u v ∙ q u v;
    declared = b.declared;
  }

  -- A graph with some edges more than `f` and `h` count.
  abbrev More : (String → ℕ) → (String → String → ℕ) → List Edge → Graph → Type 0
  More f h es g = Built (λ v. f v + incoming es [] v) (λ u v. h u v + between es u v) g

  next_link :
      (f : String → ℕ) (h : String → String → ℕ) (g : Graph) (e : Edge) (es : List Edge)
      → More
          (λ x. f x + (if str_eq (to_id e) x then 1 else 0))
          (λ w x. h w x + (if str_eq (from_id e) w && str_eq (to_id e) x then 1 else 0))
          es
          g
      → More f h (e ∷ es) g
  unfolding incoming between count
  next_link f h g e es b = Built-same (λ v. ground arith) (λ u v. omega arith) b

  add_edge-known :
      (g : Graph) (e : Edge)
      → ((v : String) → has g.indeg v ≡ known v)
      → add_edge g e ≡ (
          if known (from_id e) && known (to_id e)
          then record {
            indeg = put g.indeg (to_id e) (degree g.indeg (to_id e) +ℤ pos 1);
            adj = put g.adj (from_id e) (targets g.adj (from_id e) ++ to_id e ∷ []);
          }
          else g)
  unfolding add_edge
  add_edge-known g e n = rw (n (from_id e), n (to_id e)) refl

  add_edges-Built :
      (es : List Edge) (f : String → ℕ) (h : String → String → ℕ) (g : Graph)
      → Built f h g
      → More f h (links known es) (add_edges g es)
  unfolding add_edges links incoming between
  add_edges-Built [] f h g b = Built-same (λ v. omega arith) (λ u v. omega arith) b
  add_edges-Built (e ∷ es) f h g b =
      subst (λ g'. More f h (links known (e ∷ es)) (add_edges g' es))
        (sym (add_edge-known g e b.nodes))
        (go (known (from_id e) && known (to_id e)) refl
          (λ k. add_edges-Built es _ _ _ (link-Built f h g (from_id e) (to_id e) k b))
          (add_edges-Built es f h g b))
    where
      linked : Graph
      linked = record {
        indeg = put g.indeg (to_id e) (degree g.indeg (to_id e) +ℤ pos 1);
        adj = put g.adj (from_id e) (targets g.adj (from_id e) ++ to_id e ∷ []);
      }

      go :
          (c : Bool)
          → (known (from_id e) && known (to_id e)) ≡ c
          → (known (to_id e) ≡ true
              → More
                  (λ x. f x + (if str_eq (to_id e) x then 1 else 0))
                  (λ w x. h w x + (if str_eq (from_id e) w && str_eq (to_id e) x then 1 else 0))
                  (links known es)
                  (add_edges linked es))
          → More f h (links known es) (add_edges g es)
          → More f h
              (if c then e ∷ links known es else links known es)
              (add_edges (if c then linked else g) es)
      go true both more rest =
          next_link f h (add_edges linked es) e (links known es) (more (ground (arith, both)))
      go false off more rest = rest

  -- The state before the loop: no node is in the order, and the roots are queued.
  pub Built-Kept :
      (es : List Edge) (g : Graph)
      → Built (incoming es []) (between es) g
      → Lists known es g.adj × Kept known es g.indeg (roots g.indeg) []
  unfolding count
  Built-Kept es g b = (
    record { counted = b.counted; declared = b.declared },
    record {
      in_step = λ v. (b.degrees v, rw (← b.nodes v) (count-roots g.indeg b.distinct v));
      forward = nothing_placed es;
    },
  )

has-zero_degrees :
    (d : Dict ℤ) (ids : List String) (v : String)
    → has (zero_degrees d ids) v ≡ (has d v || contains ids v)
unfolding zero_degrees
has-zero_degrees d [] v = ground arith
has-zero_degrees d (i ∷ ids) v = ground (
  arith,
  has-zero_degrees (put d i (pos 0)) ids v,
  has-put_or d i v (pos 0),
  eq_iff i v,
  eq_iff v i,
)

zero_degrees-Zero :
    (d : Dict ℤ) (ids : List String)
    → ((v : String) → (degree d v ≡ pos 0) × (count v (keys d) ≤ 1))
    → (v : String)
    → (degree (zero_degrees d ids) v ≡ pos 0) × (count v (keys (zero_degrees d ids)) ≤ 1)
unfolding zero_degrees
zero_degrees-Zero d [] h v = h v
zero_degrees-Zero d (i ∷ ids) h v =
    zero_degrees-Zero (put d i (pos 0)) ids
      (λ x.
        ground (
          arith,
          h x,
          degree-put d i x (pos 0),
          count-put d i x (pos 0),
          has-count d i,
          eq_iff i x,
        ))
      v

-- The graph of `_topo_layers`.
pub graph-Built :
    (ids : List String) (edges : List Edge)
    → Built
        (contains ids)
        (incoming (links (contains ids) edges) [])
        (between (links (contains ids) edges))
        (graph ids edges)
unfolding graph get has count
graph-Built ids edges =
    Built-same (contains ids) (λ v. omega arith) (λ u v. omega arith)
      (add_edges-Built (contains ids) edges (λ v. 0) (λ u v. 0)
        (record { indeg = zero_degrees [] ids; adj = [] })
        (record {
          nodes = λ v. has-zero_degrees [] ids v;
          distinct = λ v. (zero_degrees-Zero [] ids (λ x. (refl, omega arith)) v).1;
          degrees = λ v. (zero_degrees-Zero [] ids (λ x. (refl, omega arith)) v).0;
          counted = λ u v. refl;
          declared = λ u. tt;
        }))
