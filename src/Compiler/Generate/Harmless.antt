-- ===== src/Compiler/Generate/Harmless.antt =====
-- workflow_gen.py: the permission classes of a compiled workflow's nodes.
use brain_flow.Prelude.{
  ℕ, String, ◌≡◌, refl, sym, subst, true, false, ◌||◌, Option, none, some, List, [], ◌∷◌, All,
  arith, str_eq, eq_iff, if_ind, Bool-cases, inl, inr, ◌⊎◌,
}
use brain_flow.Prelude.Text.{or_text}
use brain_flow.Kernel.Policy.{normalize_permission_class, may_auto_apply, evaluate_node_action}
use brain_flow.Kernel.Workflow.{Node}
use brain_flow.Kernel.Gate.{NodeDoc, check_node}
use brain_flow.Compiler.Packs.{Pack}
use brain_flow.Compiler.Generate.{RawNode, Ids, safe_class, fresh, make_node, make_nodes}

-- The node as the policy gate reads it.
abbrev as_doc : Node → NodeDoc
as_doc n = record { id = n.id; permission_class = n.permission_class; review_loop = none }

-- The policy gate has nothing against a node, asks for no approval of it, and the executor runs it
-- without one.
abbrev pub IsHarmless : Node → Type 0
IsHarmless n =
    (check_node (some (as_doc n)) ≡ ([], []))
    × ((evaluate_node_action n.permission_class none).approval_required ≡ false)

safe_class-cases :
    (a b : Option String) → (safe_class a b ≡ "read") ⊎ (safe_class a b ≡ "safe_overlay")
unfolding safe_class
safe_class-cases a b =
    if_ind (λ (c : String). (c ≡ "read") ⊎ (c ≡ "safe_overlay"))
      (str_eq (or_text a (or_text b "safe_overlay")) "read"
        || str_eq (or_text a (or_text b "safe_overlay")) "safe_overlay")
      (λ h. either (or_text a (or_text b "safe_overlay")) h) (λ _. inr refl)
  where
    either :
        (c : String)
        → (str_eq c "read" || str_eq c "safe_overlay") ≡ true
        → (c ≡ "read") ⊎ (c ≡ "safe_overlay")
    either c h = elim (Bool-cases (str_eq c "read")) [
      | inl e ↦ inl ((eq_iff c "read").0 e)
      | inr e ↦ inr ((eq_iff c "safe_overlay").0 (ground (arith, e, h)))
    ]

-- A node of a class is harmless, whatever the rest of it is.
abbrev IsHarmlessClass : String → Type 0
IsHarmlessClass c =
    (id : String)
    → (check_node (some (record { id = id; permission_class = some c; review_loop = none }))
        ≡ ([], []))
      × ((evaluate_node_action (some c) none).approval_required ≡ false)

read-IsHarmlessClass : IsHarmlessClass "read"
unfolding check_node evaluate_node_action normalize_permission_class may_auto_apply
read-IsHarmlessClass id = (refl, refl)

overlay-IsHarmlessClass : IsHarmlessClass "safe_overlay"
unfolding check_node evaluate_node_action normalize_permission_class may_auto_apply
overlay-IsHarmlessClass id = (refl, refl)

safe_class-IsHarmlessClass : (a b : Option String) → IsHarmlessClass (safe_class a b)
safe_class-IsHarmlessClass a b = elim (safe_class-cases a b) [
  | inl e ↦ subst IsHarmlessClass (sym e) read-IsHarmlessClass
  | inr e ↦ subst IsHarmlessClass (sym e) overlay-IsHarmlessClass
]

module _ (uuid4 : ℕ → String) (show : ℕ → String) (pick : List String → String) where
  make_node-IsHarmless :
      (pack : Pack) (n : RawNode) (id : String) → IsHarmless (make_node uuid4 show pick pack n id)
  unfolding make_node
  make_node-IsHarmless pack n id =
      safe_class-IsHarmlessClass n.permission_class pack.default_permission_class id

  pub make_nodes-IsHarmless :
      (pack : Pack) (ns : List (Option RawNode)) (s : Ids)
      → All IsHarmless (make_nodes uuid4 show pick pack ns s).0
  unfolding make_nodes
  make_nodes-IsHarmless pack [] s = tt
  make_nodes-IsHarmless pack (none ∷ ns) s = make_nodes-IsHarmless pack ns s
  make_nodes-IsHarmless pack (some n ∷ ns) s =
      let f = fresh uuid4 show pick n.id s in
      (make_node-IsHarmless pack n f.0, make_nodes-IsHarmless pack ns f.1)
