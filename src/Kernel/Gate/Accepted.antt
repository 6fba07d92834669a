-- ===== src/Kernel/Gate/Accepted.antt =====
-- kernel/policy_gate.py: what `validate_workflow_policy` says of a document that it accepts.
use brain_flow.Prelude.{
  ◌≤◌, String, ◌≡◌, refl, sym, ap, ◌∙◌, subst, true, ◌&&◌, Option, none, some, List, [], ◌∷◌, ◌++◌,
  length, All, All-append, arith, str_eq, if_ind,
}
use brain_flow.Prelude.Dict.{Dict, get, put, has, get-put}
use brain_flow.Kernel.Policy.{contains}
use brain_flow.Kernel.Workflow.{Edge}
use brain_flow.Kernel.Topo.{targets, from_id, to_id}
use brain_flow.Kernel.Gate.{
  NodeDoc, Doc, GateError, Report, Walk, check_nodes, node_ids, loop_nodes, no_targets, link,
  walk_all, dfs, adjacency, report, validate_workflow_policy, cap_errors, is_empty_list, no_nodes,
  search,
}
use brain_flow.Kernel.Gate.Search.{Sorted, Searched, free, free-nil, append-empty}
use brain_flow.Kernel.Gate.Cycles.{Reaches, walk_all-Reaches, dfs-Reaches}

abbrev pub some_targets : (o : Option (List String)) → List String
some_targets none = []
some_targets (some vs) = vs

no_targets-nil : (ids : List String) (u : String) → targets (no_targets ids) u ≡ []
unfolding no_targets get
no_targets-nil [] u = refl
no_targets-nil (i ∷ ids) u =
    if_ind (λ (o : Option (List String)). elim o [ none ↦ [] | some vs ↦ vs ] ≡ []) (str_eq i u)
      (λ _. refl) (λ _. no_targets-nil ids u)

module _ (ids : List String) where
  abbrev pub Inside : List String → Type 0
  Inside vs = All (λ v. contains ids v ≡ true) vs

  put-Inside :
      (adj : Dict (List String)) (e : Edge) (u : String)
      → ((u : String) → Inside (targets adj u))
      → contains ids (to_id e) ≡ true
      → Inside (targets (put adj (from_id e) (targets adj (from_id e) ++ to_id e ∷ [])) u)
  put-Inside adj e u h k =
      let vs = targets adj (from_id e) ++ to_id e ∷ [] in
      subst (λ o. Inside (some_targets o)) (sym (get-put adj (from_id e) u vs))
        (if_ind (λ (o : Option (List String)). Inside (some_targets o)) (str_eq (from_id e) u)
          (λ _. All-append _ (targets adj (from_id e)) _ (h (from_id e)) (k, tt)) (λ _. h u))

  link-Inside :
      (es : List (Option Edge)) (adj : Dict (List String))
      → ((u : String) → Inside (targets adj u))
      → (u : String) → Inside (targets (link ids adj es) u)
  unfolding link
  link-Inside [] adj h = h
  link-Inside (none ∷ es) adj h = link-Inside es adj h
  link-Inside (some e ∷ es) adj h = link-Inside es _ (
      if_ind (λ (a : Dict (List String)). (u : String) → Inside (targets a u))
        (has adj (from_id e) && contains ids (to_id e))
        (λ both u. put-Inside adj e u h (ground (arith, both))) (λ _. h))

adjacency-Inside :
    (doc : Doc) (u : String) → Inside (node_ids doc.nodes) (targets (adjacency doc) u)
adjacency-Inside doc =
    let ids = node_ids doc.nodes in
    link-Inside ids doc.edges (no_targets ids)
      (λ u. subst (Inside ids) (sym (no_targets-nil ids u)) tt)

-- The search from the ids `roots`.
search-Reaches :
    (doc : Doc) (loops roots : List String) (w : Walk)
    → w.visiting ≡ []
    → Inside (node_ids doc.nodes) roots
    → Reaches
        (adjacency doc)
        loops
        (node_ids doc.nodes)
        roots
        w
        (walk_all (dfs (adjacency doc) loops (length (node_ids doc.nodes)) []) roots w)
search-Reaches doc loops roots w p h =
    let ids = node_ids doc.nodes in
    walk_all-Reaches (adjacency doc) loops ids (dfs (adjacency doc) loops (length ids) []) []
      (λ u x i q.
        dfs-Reaches (adjacency doc) loops ids (adjacency-Inside doc) (length ids) [] u x i
          (λ y m. subst (λ vs. contains vs y ≡ true) q m)
          (subst (λ vs. free vs ids ≤ length ids) (sym q) (omega (arith, free-nil ids))))
      roots w h p

abbrev Walked : (List String → List String) → Doc → Type 0
Walked order doc =
    Reaches (adjacency doc) (loop_nodes doc.nodes) (node_ids doc.nodes) (order (node_ids doc.nodes))
      (record { visiting = []; visited = []; errors = (check_nodes doc.nodes).0 })
      (search order doc)

pub search-Walked :
    (order : List String → List String) (doc : Doc)
    → Inside (node_ids doc.nodes) (order (node_ids doc.nodes))
    → Walked order doc
unfolding search
search-Walked order doc h =
    search-Reaches doc (loop_nodes doc.nodes) (order (node_ids doc.nodes)) _ refl h

-- What the gate's answer rests on, if it accepts: a search that ends without an error.
pub record Passed (order : List String → List String) (doc : Doc) (r : Report) : Type 0 where
  pub walk : Walk
  pub sorted :
      loop_nodes doc.nodes ≡ []
      → Sorted (adjacency doc) walk.visited
        × All (λ v. contains walk.visited v ≡ true) (order (node_ids doc.nodes))
  pub clear : walk.errors ≡ []
  pub checked : (check_nodes doc.nodes).0 ≡ []
  pub capped : cap_errors doc ≡ []
  pub approvals : r.approvals_needed ≡ (check_nodes doc.nodes).1

empty_list : (xs : List GateError) → is_empty_list xs ≡ true → xs ≡ []
empty_list [] h = refl
empty_list (x ∷ xs) h = absurd (ground arith)

pub append-empty_right : {A : Type 0} (xs ys : List A) → xs ++ ys ≡ [] → ys ≡ []
append-empty_right [] ys h = h
append-empty_right (x ∷ xs) ys h = absurd (ground arith)

report-Passed :
    (order : List String → List String) (doc : Doc) (w : Walk) (r : Report)
    → Searched
        (adjacency doc)
        (loop_nodes doc.nodes)
        (order (node_ids doc.nodes))
        (record { visiting = []; visited = []; errors = (check_nodes doc.nodes).0 })
        w
    → report doc (check_nodes doc.nodes).1 w ≡ r
    → r.ok ≡ true
    → Passed order doc r
report-Passed order doc w r e f k =
    let none_left = empty_list (w.errors ++ cap_errors doc) (ap (λ x. x.ok) f ∙ k) in
    record {
      walk = w;
      sorted = λ plain. e.sorted plain (append-empty w.errors (cap_errors doc) none_left) tt;
      clear = append-empty w.errors (cap_errors doc) none_left;
      checked = e.clear (append-empty w.errors (cap_errors doc) none_left);
      capped = append-empty_right w.errors (cap_errors doc) none_left;
      approvals = sym (ap (λ x. x.approvals_needed) f);
    }

pub validate-Passed :
    (order : List String → List String) (doc : Doc) (r : Report)
    → Walked order doc
    → validate_workflow_policy order doc ≡ some r
    → r.ok ≡ true
    → Passed order doc r
unfolding validate_workflow_policy
validate-Passed order doc r h v k = go doc.nodes h v
  where
    answer : Option Walk → Option Report
    answer none = none
    answer (some x) = some (report doc (check_nodes doc.nodes).1 x)

    some_report : {a b : Report} → some a ≡ some b → a ≡ b
    some_report e = ground arith

    go :
        (ns : List (Option NodeDoc))
        → Walked order doc
        → elim ns [
          | [] ↦ some no_nodes
          | _ ∷ _ ↦ elim (search order doc) [
            | none ↦ none
            | some w ↦ some (report doc (check_nodes doc.nodes).1 w)
          ]
        ]
          ≡ some r
        → Passed order doc r
    go [] _ f = absurd (ground (arith, f, k))
    go (n ∷ ns) (w, e, searched) f =
        report-Passed order doc w r searched (some_report (sym (ap answer e) ∙ f)) k
