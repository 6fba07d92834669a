-- ===== src/Kernel/Policy/Classes.antt =====
-- kernel/policy_gate.py: which actions of a node need an approval.
use brain_flow.Prelude.{
  String, ◌≡◌, refl, Bool, true, false, ◌&&◌, not, Option, none, some, inl, inr, arith, str_eq,
  Bool-cases, if_ind, ◌∙◌,
}
use brain_flow.Prelude.Text.{or_text, is_empty}
use brain_flow.Kernel.Policy.{
  Action, normalize_permission_class, may_auto_apply, assert_path_safe_overlay,
  evaluate_node_action, contains, auto_apply, is_known, checked_write, check_write,
}

pub normalize_idem :
    (c : String)
    → normalize_permission_class (normalize_permission_class c) ≡ normalize_permission_class c
unfolding normalize_permission_class
normalize_idem c = elim (Bool-cases (str_eq c "network")) [
  | inl e ↦ rw e
  | inr e ↦ elim (Bool-cases (str_eq c "approval_required")) [
    | inl f ↦ rw (e, f)
    | inr f ↦ rw (e, f) (rw (e, f))
  ]
]

pub may_auto_apply-normalize :
    (c : String) → may_auto_apply (normalize_permission_class c) ≡ may_auto_apply c
unfolding may_auto_apply
may_auto_apply-normalize c = rw normalize_idem

unknown-manual :
    (c : String)
    → (not (is_known (normalize_permission_class c))
        && not (contains auto_apply (normalize_permission_class c)))
      ≡ true
    → may_auto_apply c ≡ false
unfolding may_auto_apply
unknown-manual c h = ground arith

manual :
    (c : String)
    → not (may_auto_apply (normalize_permission_class c)) ≡ true
    → may_auto_apply c ≡ false
manual c h = ground (arith, may_auto_apply-normalize c)

automatic :
    (c : String)
    → not (may_auto_apply (normalize_permission_class c)) ≡ false
    → may_auto_apply c ≡ true
automatic c h = ground (arith, may_auto_apply-normalize c)

-- A write path that the overlay does not take.
abbrev pub is_unsafe : Option String → Bool
is_unsafe none = false
is_unsafe (some path) =
    not (is_empty path) && elim (assert_path_safe_overlay path) [ none ↦ false | some _ ↦ true ]

checked_write_lem :
    (cls : String) (w : Option String)
    → ((checked_write cls (check_write w)).ok ≡ not (is_unsafe w))
      × ((checked_write cls (check_write w)).approval_required ≡ is_unsafe w)
checked_write_lem cls none = (refl, refl)
checked_write_lem cls (some path) = (ground arith, ground arith)

module _ (class : String) (u : Bool) where
  abbrev Fits : Action → Type 0
  Fits a = (a.ok ≡ (may_auto_apply class && not u)) × (a.approval_required ≡ not a.ok)

-- A node's action is allowed without an approval exactly if its class is one of the two that apply
-- by themselves and its write path, if there is one, is safe; any other class, also an unknown one,
-- asks for an approval, and what is allowed is what needs no approval.
pub evaluate_node_action_lem :
    (permission_class write_path : Option String)
    → ((evaluate_node_action permission_class write_path).ok
        ≡ (may_auto_apply (or_text permission_class "safe_overlay") && not (is_unsafe write_path)))
      × ((evaluate_node_action permission_class write_path).approval_required
          ≡ not (evaluate_node_action permission_class write_path).ok)
unfolding evaluate_node_action
evaluate_node_action_lem c w =
    let class = or_text c "safe_overlay" in
    let cls = normalize_permission_class class in
    if_ind (Fits class (is_unsafe w)) (not (is_known cls) && not (contains auto_apply cls))
      (λ unknown. (rw (unknown-manual class unknown), refl))
      λ _.
        if_ind (Fits class (is_unsafe w)) (not (may_auto_apply cls))
          (λ h. (rw (manual class h), refl))
          λ h.
            let (e, f) = checked_write_lem cls w in
            (rw (automatic class h) e, f ∙ ground (arith, e))
