-- ===== src/Gateway/Pins/Stable.antt =====
-- gateway/pins.py: no model is swapped under a run.
use brain_flow.Prelude.{
  String, ◌≡◌, refl, ap, ◌∙◌, Bool, true, false, Option, none, some, [], ◌∷◌, inl, inr, arith,
  str_eq, eq_iff, eq_refl, if◌then◌else◌, Bool-cases, subst,
}
use brain_flow.Prelude.Dict.{get, put, has, get-put, has-put, other_key}
use brain_flow.Gateway.Pins.{
  Ref, Pins, swaps, digest_text, check_role, check_roles, assert_pins_stable, apply_pins,
  pinned_ref, resolve_for_run,
}

swaps_self : (a : String) → swaps a a ≡ false
swaps_self a = ground (arith, eq_refl a)

check_role_self : (role : String) (pin : Ref) → check_role role pin (some pin) ≡ none
unfolding check_role
check_role_self role pin = rw (swaps_self (digest_text pin), swaps_self pin.name)

-- The keys of a dictionary differ from one another.
abbrev pub IsDict : Pins → Type 0
IsDict [] = Unit
IsDict ((role, pin) ∷ pins) = (has pins role ≡ false) × IsDict pins

-- Requests that agree with the pins on every pinned role are stable.
check_roles-none :
    (pinned requested : Pins)
    → IsDict pinned
    → ((role : String) → has pinned role ≡ true → get requested role ≡ get pinned role)
    → check_roles pinned requested ≡ none
unfolding check_roles get has
check_roles-none [] requested d h = refl
check_roles-none ((role, pin) ∷ pinned) requested (absent, d) h =
    let own : get requested role ≡ some pin = h role (ground (arith, eq_refl role)) ∙ own_pin in
    rw (own, check_role_self role pin)
      (check_roles-none pinned requested d
        (λ r m. h r (later r m) ∙ ground (arith, eq_iff role r, m, absent)))
  where
    own_pin : (if str_eq role role then some pin else get pinned role) ≡ some pin
    own_pin = ground (arith, eq_refl role)

    later :
        (r : String) → has pinned r ≡ true → (if str_eq role r then true else has pinned r) ≡ true
    later r m = ground (arith, m)

-- No violation: the digests and the names that both sides state agree.
abbrev Agrees : Ref → Option Ref → Type 0
Agrees pin none = Unit
Agrees pin (some nxt) =
    (swaps (digest_text pin) (digest_text nxt) ≡ false) × (swaps pin.name nxt.name ≡ false)

some_ref : {a b : Ref} → some a ≡ some b → a ≡ b
some_ref e = ground arith

check_role-Agrees :
    (role : String) (pin : Ref) (o : Option Ref) → check_role role pin o ≡ none → Agrees pin o
unfolding check_role
check_role-Agrees role pin none h = tt
check_role-Agrees role pin (some nxt) h = ground arith

check_roles-Agrees :
    (pinned requested : Pins) (role : String) (pin : Ref)
    → check_roles pinned requested ≡ none
    → get pinned role ≡ some pin
    → Agrees pin (get requested role)
unfolding check_roles get
check_roles-Agrees [] requested role pin h e = absurd (ground arith)
check_roles-Agrees ((r, p) ∷ pinned) requested role pin h e =
    go (str_eq r role) refl e (check_role-Agrees r p (get requested r) (ground (arith, h)))
      (check_roles-Agrees pinned requested role pin (ground (arith, h)))
  where
    go :
        (b : Bool)
        → str_eq r role ≡ b
        → (if b then some p else get pinned role) ≡ some pin
        → Agrees p (get requested r)
        → (get pinned role ≡ some pin → Agrees pin (get requested role))
        → Agrees pin (get requested role)
    go true f g agrees rest =
        subst (λ x. Agrees x (get requested role)) (some_ref g)
          (subst (λ x. Agrees p (get requested x)) ((eq_iff r role).0 f) agrees)
    go false f g agrees rest = rest g

-- In an active run a request that is let through swaps no pinned model: for each pinned role that it
-- names, the digests that both sides state are the same, and so are the names.
assert_pins_stable-Agrees :
    (pinned requested : Pins) (role : String) (pin : Ref)
    → assert_pins_stable pinned (some requested) true ≡ none
    → get pinned role ≡ some pin
    → Agrees pin (get requested role)
unfolding assert_pins_stable
assert_pins_stable-Agrees pinned requested role pin h e =
    check_roles-Agrees pinned requested role pin h e

-- The pins that a run is given never break the rule on stable pins: whatever the policy and the
-- recommendation, they pass `assert_pins_stable` against those that the run had, if no role is
-- pinned twice in these.
resolve_for_run-stable :
    (policy : String) (pinned recommended : Pins) (allow_auto_reselect run_active : Bool)
    → IsDict pinned
    → assert_pins_stable pinned
        (some
          (resolve_for_run policy (some pinned) recommended allow_auto_reselect run_active).pins)
        run_active
      ≡ none
unfolding assert_pins_stable resolve_for_run
resolve_for_run-stable policy pinned recommended allow false d = refl
resolve_for_run-stable policy [] recommended allow true d = refl
resolve_for_run-stable policy (p ∷ pinned) recommended allow true d =
    check_roles-none (p ∷ pinned) (p ∷ pinned) d (λ role _. refl)

-- Without `overwrite`, `apply_pins_to_workflow` leaves every pin that the workflow has as it is.
apply_pins-keeps :
    (pins models : Pins) (role : String)
    → has models role ≡ true
    → get (apply_pins models pins false) role ≡ get models role
unfolding apply_pins
apply_pins-keeps [] models role h = refl
apply_pins-keeps ((r, ref) ∷ pins) models role h = elim (Bool-cases (has models r)) [
  | inl old ↦ rw old (apply_pins-keeps pins models role h)
  | inr new ↦ rw new (
      apply_pins-keeps pins (put models r (pinned_ref ref)) role
        (has-put models r role (pinned_ref ref) h)
      ∙ get-put models r role (pinned_ref ref)
      ∙ ap (λ b. if b then some (pinned_ref ref) else get models role)
          (other_key models r role new h))
]

-- Pins do not break themselves.
pub assert_pins_stable_self :
    (pins : Pins) → IsDict pins → assert_pins_stable pins (some pins) true ≡ none
unfolding assert_pins_stable
assert_pins_stable_self pins d = check_roles-none pins pins d (λ role h. refl)
