-- ===== src/Kernel/Executor/Open.antt =====
-- kernel/executor.py: what a cancellation, another's call and a refused path leave of a run that is under
-- way.
use brain_flow.Prelude.{
  String, ◌≡◌, refl, Bool, true, false, Option, none, some, arith, if_ind, subst, if◌then◌else◌,
}
use brain_flow.Prelude.Text.{is_empty}
use brain_flow.Prelude.Dict.{get}
use brain_flow.Kernel.Policy.{may_auto_apply, evaluate_node_action}
use brain_flow.Kernel.Workflow.{Node}
use brain_flow.Kernel.Run.{Status, succeeded, RunState, Interference, is_final, cancel, disturb}
use brain_flow.Kernel.Attempt.{path_error, or_unsafe, action_error, node_class}
use brain_flow.Kernel.Executor.{is_done}

abbrev pub is_success : Status → Bool
is_success succeeded = true
is_success _ = false

abbrev pub IsDone : RunState → String → Type 0
IsDone s v = is_done (get s.node_states v) ≡ true

-- The run is under way: it has not succeeded yet.
abbrev pub IsOpen : RunState → Type 0
IsOpen s = is_success s.status ≡ false

-- What is shown where `execute` returns.
abbrev pub Sound : String → RunState → Type 0
Sound v s = is_success s.status ≡ true → IsDone s v

pub absurd_open : {A : Type 0} {b : Bool} → b ≡ false → b ≡ true → A
absurd_open e f = absurd (ground arith)

pub cancel-IsOpen : (s : RunState) → IsOpen s → IsOpen (cancel s)
unfolding cancel
cancel-IsOpen s h = if_ind IsOpen (is_final s.status) (λ _. h) (λ _. refl)

pub cancel-states : (s : RunState) → (cancel s).node_states ≡ s.node_states
unfolding cancel
cancel-states s =
    if_ind (λ (t : RunState). t.node_states ≡ s.node_states) (is_final s.status) (λ _. refl)
      (λ _. refl)

pub disturb-IsOpen : (o : Interference) (s : RunState) → IsOpen s → IsOpen (disturb o s)
unfolding disturb
disturb-IsOpen Interference.undisturbed s h = h
disturb-IsOpen Interference.requests_cancel s h = h
disturb-IsOpen Interference.cancels s h = if_ind IsOpen (is_final s.status) (λ _. h) (λ _. refl)

pub disturb-states : (o : Interference) (s : RunState) → (disturb o s).node_states ≡ s.node_states
unfolding disturb
disturb-states Interference.undisturbed s = refl
disturb-states Interference.requests_cancel s = refl
disturb-states Interference.cancels s =
    if_ind (λ (t : RunState). t.node_states ≡ s.node_states) (is_final s.status) (λ _. refl)
      (λ _. refl)

or_unsafe-text : (o : Option String) → is_empty (or_unsafe o) ≡ false
or_unsafe-text none = refl
or_unsafe-text (some t) = go (is_empty t) refl
  where
    go : (b : Bool) → is_empty t ≡ b → is_empty (if b then "unsafe write path" else t) ≡ false
    go true e = refl
    go false e = e

some_eq : {a b : String} → some a ≡ some b → a ≡ b
some_eq e = ground arith

not_some : {b : String} → none ≡ some b → ⊥
not_some e = ground arith

-- The text of a refused path is never empty.
pub path_error-text :
    (node : Node) (path text : String) → path_error node path ≡ some text → is_empty text ≡ false
unfolding path_error
path_error-text node path text =
    if_ind NotEmpty (may_auto_apply (node_class node))
      (λ _.
        let a = evaluate_node_action node.permission_class (some path) in
        if_ind NotEmpty a.ok (λ _ e. absurd (not_some e))
          (λ _ e. subst (λ t. is_empty t ≡ false) (some_eq e) (or_unsafe-text (action_error a))))
      (λ _ e. absurd (not_some e))
  where
    NotEmpty : Option String → Type 0
    NotEmpty o = o ≡ some text → is_empty text ≡ false
