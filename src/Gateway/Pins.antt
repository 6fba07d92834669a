-- ===== src/Gateway/Pins.antt =====
-- gateway/pins.py: the models that are pinned for a run.
pub mod Stable
use brain_flow.Prelude.{
  ℕ, String, ◌≡◌, refl, ◌≢◌, Bool, true, false, ◌&&◌, ◌||◌, not, Option, none, some, List, [], ◌∷◌,
  ◌⊎◌, inl, inr, arith, str_eq, if◌then◌else◌,
}
use brain_flow.Prelude.Text.{is_empty, or_text}
use brain_flow.Prelude.Dict.{Dict, get, put, has}

-- A reference to a model; an empty text counts as missing.
pub record Ref : Type 0 where
  pub provider : String
  pub name : String
  pub digest : Option String

abbrev pub Pins : Type 0
Pins = Dict Ref

-- The two cases of `PinViolation`, with the role.
pub data PinViolation : Type 0 where
  digest_swap name_swap : String → PinViolation

-- pin.get("digest") and nxt.get("digest") and pin["digest"] != nxt["digest"]
abbrev pub swaps : String → String → Bool
swaps pinned requested =
    not (is_empty pinned) && not (is_empty requested) && not (str_eq pinned requested)

abbrev pub digest_text : Ref → String
digest_text r = elim r.digest [ none ↦ "" | some d ↦ d ]

-- The body of the loop, at the request for the role.
unfoldable pub check_role : String → Ref → Option Ref → Option PinViolation
check_role role pin none = none
check_role role pin (some nxt) =
    if swaps (digest_text pin) (digest_text nxt)
    then some (digest_swap role)
    else if swaps pin.name nxt.name
    then some (name_swap role)
    else none

abbrev pub first : {A : Type 0} → Option A → Option A → Option A
first none b = b
first (some a) b = some a

unfoldable pub check_roles : Pins → Pins → Option PinViolation
unfolding check_role
check_roles [] requested = none
check_roles ((role, pin) ∷ pinned) requested =
    first (check_role role pin (get requested role)) (check_roles pinned requested)

-- The exception that `assert_pins_stable` raises, if it does.
unfoldable pub assert_pins_stable : Pins → Option Pins → Bool → Option PinViolation
unfolding check_roles
assert_pins_stable pinned requested run_active =
    if not run_active then none else elim requested [ none ↦ none | some r ↦ check_roles pinned r ]

abbrev pub pinned_ref : Ref → Ref
pinned_ref ref = record ref { digest = some (or_text ref.digest "unknown") }

-- The pins that a workflow's `pins.models` has after `apply_pins_to_workflow`.
unfoldable pub apply_pins : Pins → Pins → Bool → Pins
apply_pins models [] overwrite = models
apply_pins models ((role, ref) ∷ pins) overwrite =
    apply_pins
      (if has models role && not overwrite then models else put models role (pinned_ref ref)) pins
      overwrite

pub data Reason : Type 0 where
  run_active_frozen pinned_policy existing_pins_hold auto_selected : Reason

pub record Resolution : Type 0 where
  pub pins : Pins
  pub changed : Bool
  pub reason : Reason

abbrev pub is_pinned : Pins → Bool
is_pinned [] = false
is_pinned (_ ∷ _) = true

-- pinned or {}
abbrev pub or_none : Option Pins → Pins
or_none none = []
or_none (some p) = p

unfoldable pub resolve_for_run : String → Option Pins → Pins → Bool → Bool → Resolution
resolve_for_run policy pinned? recommended allow_auto_reselect run_active =
    let pinned = or_none pinned? in
    if run_active && is_pinned pinned
    then record { pins = pinned; changed = false; reason = run_active_frozen }
    else if str_eq policy "pinned" && is_pinned pinned
    then record { pins = pinned; changed = false; reason = pinned_policy }
    else if is_pinned pinned && not allow_auto_reselect
    then record { pins = pinned; changed = false; reason = existing_pins_hold }
    else record { pins = recommended; changed = true; reason = auto_selected }
