-- ===== src/Kernel/Gate/Acyclic.antt =====
-- kernel/policy_gate.py: a document that `validate_workflow_policy` accepts has no cycle.
use brain_flow.Prelude.{
  ℕ, suc, ◌≤◌, ◌<◌, String, ◌≡◌, sym, ◌∙◌, subst, Bool, true, ◌&&◌, ◌||◌, Option, none, some, List,
  [], ◌∷◌, ◌++◌, inl, inr, length, All, All-imp, any-append, arith, str_eq, eq_iff, eq_refl,
  if◌then◌else◌, if_ind, Bool-cases,
}
use brain_flow.Prelude.Dict.{Dict, put, has, get-put, get-put_self, has-put}
use brain_flow.Kernel.Policy.{contains}
use brain_flow.Kernel.Workflow.{Edge}
use brain_flow.Kernel.Topo.{targets, from_id, to_id}
use brain_flow.Kernel.Gate.{
  Doc, Report, node_ids, loop_nodes, no_targets, link, adjacency, validate_workflow_policy,
}
use brain_flow.Kernel.Gate.Search.{Sorted}
use brain_flow.Kernel.Gate.Accepted.{Inside, some_targets, search-Walked, validate-Passed}

-- The place of an id in a list, counted from the end; 0 if it is not there.
abbrev rank : List String → String → ℕ
rank [] u = 0
rank (x ∷ xs) u = if contains xs u then rank xs u else if str_eq u x then suc (length xs) else 0

rank-le : (xs : List String) (u : String) → rank xs u ≤ length xs
rank-le [] u = omega arith
rank-le (x ∷ xs) u = ground (arith, rank-le xs u)

All-contains :
    (P : String → Type 0) (xs : List String) (v : String) → All P xs → contains xs v ≡ true → P v
All-contains P [] v h k = absurd (ground arith)
All-contains P (x ∷ xs) v (p, h) k = elim (Bool-cases (str_eq v x)) [
  | inl e ↦ subst P (sym ((eq_iff v x).0 e)) p
  | inr n ↦ All-contains P xs v h (ground (arith, n, k))
]

Sorted-rank :
    (adj : Dict (List String)) (xs : List String) (u v : String)
    → Sorted adj xs
    → contains xs u ≡ true
    → contains (targets adj u) v ≡ true
    → (contains xs v ≡ true) × (rank xs v < rank xs u)
Sorted-rank adj [] u v s h k = absurd (ground arith)
Sorted-rank adj (x ∷ xs) u v (first, s) h k = elim (Bool-cases (contains xs u)) [
  | inl later ↦
      (let (there, less) = Sorted-rank adj xs u v s later k in
        (ground (arith, there), ground (arith, there, later, less)))
  | inr here ↦
      (let at : str_eq u x ≡ true = ground (arith, here, h) in
        let there : contains xs v ≡ true =
          All-contains (λ y. contains xs y ≡ true) (targets adj x) v first
            (subst (λ y. contains (targets adj y) v ≡ true) ((eq_iff u x).0 at) k) in
        (ground (arith, there), ground (arith, there, here, at, rank-le xs v)))
]

has-no_targets :
    (ids : List String) (u : String) → contains ids u ≡ true → has (no_targets ids) u ≡ true
unfolding no_targets has
has-no_targets [] u h = absurd (ground arith)
has-no_targets (i ∷ ids) u h = ground (arith, h, eq_iff i u, eq_iff u i, has-no_targets ids u)

or_left : (a b : Bool) → a ≡ true → (a || b) ≡ true
or_left a b h = ground (arith, h)

module _ (ids : List String) where
  put-kept :
      (adj : Dict (List String)) (k u v w : String)
      → contains (targets adj u) v ≡ true
      → contains (targets (put adj k (targets adj k ++ w ∷ [])) u) v ≡ true
  put-kept adj k u v w h =
      let vs = targets adj k ++ w ∷ [] in
      subst (λ o. contains (some_targets o) v ≡ true) (sym (get-put adj k u vs))
        (if_ind (λ (o : Option (List String)). contains (some_targets o) v ≡ true) (str_eq k u)
          (λ e.
            any-append (str_eq v) (targets adj k) (w ∷ [])
            ∙ or_left _ _
                (subst (λ x. contains (targets adj x) v ≡ true) (sym ((eq_iff k u).0 e)) h))
          (λ _. h))

  put-new :
      (adj : Dict (List String)) (u v : String)
      → contains (targets (put adj u (targets adj u ++ v ∷ [])) u) v ≡ true
  put-new adj u v =
      subst (λ o. contains (some_targets o) v ≡ true)
        (sym (get-put_self adj u (targets adj u ++ v ∷ [])))
        (any-append (str_eq v) (targets adj u) (v ∷ []) ∙ ground (arith, eq_refl v))

  link-kept :
      (es : List (Option Edge)) (adj : Dict (List String)) (u v : String)
      → contains (targets adj u) v ≡ true
      → contains (targets (link ids adj es) u) v ≡ true
  unfolding link
  link-kept [] adj u v h = h
  link-kept (none ∷ es) adj u v h = link-kept es adj u v h
  link-kept (some e ∷ es) adj u v h = link-kept es _ u v (
      if_ind (λ (a : Dict (List String)). contains (targets a u) v ≡ true)
        (has adj (from_id e) && contains ids (to_id e))
        (λ _. put-kept adj (from_id e) u v (to_id e) h) (λ _. h))

  -- An edge between two nodes of the document.
  abbrev pub Between : (String → String → Type 0) → Option Edge → Type 0
  Between P none = Unit
  Between P (some e) =
      contains ids (from_id e) ≡ true → contains ids (to_id e) ≡ true → P (from_id e) (to_id e)

  link-Between :
      (es : List (Option Edge)) (adj : Dict (List String))
      → ((u : String) → contains ids u ≡ true → has adj u ≡ true)
      → All (Between (λ u v. contains (targets (link ids adj es) u) v ≡ true)) es
  unfolding link
  link-Between [] adj h = tt
  link-Between (none ∷ es) adj h = (tt, link-Between es adj h)
  link-Between (some e ∷ es) adj h = (
    λ i k. link-kept es _ (from_id e) (to_id e) (
        if_ind (λ (a : Dict (List String)). contains (targets a (from_id e)) (to_id e) ≡ true)
          (has adj (from_id e) && contains ids (to_id e)) (λ _. put-new adj (from_id e) (to_id e))
          (λ off. absurd (ground (arith, off, h (from_id e) i, k)))),
    link-Between es _ (λ u i.
        if_ind (λ (a : Dict (List String)). has a u ≡ true)
          (has adj (from_id e) && contains ids (to_id e)) (λ _. has-put adj (from_id e) u _ (h u i))
          (λ _. h u i)),
  )

Between-imp :
    (ids : List String) (P Q : String → String → Type 0)
    → ((u v : String) → contains ids u ≡ true → P u v → Q u v)
    → (e : Option Edge) → Between ids P e
    → Between ids Q e
Between-imp ids P Q f none h = tt
Between-imp ids P Q f (some e) h = λ i k. f (from_id e) (to_id e) i (h i k)

-- A document without review loops that the gate accepts has no cycle, if the gate walks all of the
-- ids and nothing else: the ids can be numbered so that each edge between two nodes leads to a
-- smaller number.
pub validate-IsAcyclic :
    (order : List String → List String) (doc : Doc) (r : Report)
    → Inside (node_ids doc.nodes) (order (node_ids doc.nodes))
    → ((v : String)
        → contains (node_ids doc.nodes) v ≡ true
        → contains (order (node_ids doc.nodes)) v ≡ true)
    → loop_nodes doc.nodes ≡ []
    → validate_workflow_policy order doc ≡ some r
    → r.ok ≡ true
    → (number : String → ℕ) × All
        (Between (node_ids doc.nodes) (λ u v. number v < number u))
        doc.edges
validate-IsAcyclic order doc r inside covers plain v ok =
    let ids = node_ids doc.nodes in
    let walked = search-Walked order doc inside in
    let passed = validate-Passed order doc r walked v ok in
    let (sorted, all) = passed.sorted plain in
    (
      rank passed.walk.visited,
      All-imp
          (Between-imp ids _ _ (λ u w i k.
            (Sorted-rank (adjacency doc) passed.walk.visited u w sorted
              (All-contains _ (order ids) u all (covers u i)) k).1))
          doc.edges (link-Between ids doc.edges (no_targets ids) (has-no_targets ids)),
    )
