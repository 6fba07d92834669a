-- ===== src/Gateway/Select/Held.antt =====
-- gateway/select.py: the pins that a run keeps, and what a selection says of them.
use brain_flow.Prelude.{
  ℕ, String, ◌≡◌, refl, ap, if_ind, Bool, true, ◌&&◌, ◌||◌, not, Option, some, ◌∙◌, List, ◌∷◌,
  arith, str_eq,
}
use brain_flow.Prelude.Dict.{Dict, has}
use brain_flow.Gateway.Float.{Float}
use brain_flow.Gateway.Pins.{Ref, Pins, Resolution, resolve_for_run, is_pinned}
use brain_flow.Gateway.Candidate.{ScoredCandidate, Model}
use brain_flow.Gateway.Select.{
  Request, Health, conclude_selection, select_models, policy_of, planner_sees, policy_text, pins_of,
  is_pinned_policy, or_none, require,
}

module _ {F : Type 0} (float : Float F) where
  resolve-Held :
      (policy : String) (pinned? : Option Pins) (recommended : Pins) (allow active : Bool)
      (p : String × Ref) (pins : Pins)
      → pinned? ≡ some (p ∷ pins)
      → (active || not allow) ≡ true
      → (resolve_for_run policy pinned? recommended allow active).pins ≡ p ∷ pins
  unfolding resolve_for_run
  resolve-Held policy pinned? recommended allow active p pins h k = rw h (
      if_ind (λ (r : Resolution). r.pins ≡ p ∷ pins) (active && true) (λ _. refl)
        λ idle.
          if_ind (λ (r : Resolution). r.pins ≡ p ∷ pins) (str_eq policy "pinned" && true)
            (λ _. refl)
            λ _.
              if_ind (λ (r : Resolution). r.pins ≡ p ∷ pins) (true && not allow) (λ _. refl)
                (λ free. absurd (ground (arith, idle, free, k))))

  -- What a selection answers with held pins: of those only their roles count.
  abbrev pub held_ok : Pins → Request → Dict (ScoredCandidate F) → Bool
  held_ok pins q winners =
      not (
        (require q.requirements).vision
        && not (has pins "multimodal")
        && not (planner_sees float winners))
      || is_pinned_policy (policy_of q.policy)

  or_and_true : (a b : Bool) → (true && a || b && true) ≡ (a || b)
  or_and_true a b = ground arith

  conclude_selection-Held :
      (q : Request) (n : ℕ) (winners : Dict (ScoredCandidate F)) (p : String × Ref) (pins : Pins)
      → q.pinned ≡ some (p ∷ pins)
      → (q.run_active || not q.allow_auto_reselect) ≡ true
      → let made =
          conclude_selection float q
            (policy_of q.policy)
            (require q.requirements).vision
            n
            winners in
        (made.pin_resolution.pins ≡ p ∷ pins) × (made.ok ≡ held_ok (p ∷ pins) q winners)
  unfolding conclude_selection
  conclude_selection-Held q n winners p pins h k =
      let held =
        resolve-Held (policy_text (policy_of q.policy)) q.pinned (pins_of winners)
          q.allow_auto_reselect q.run_active p pins h k in
      (
        held,
        ap
              (λ r.
                is_pinned r
                  && not (
                      (require q.requirements).vision
                      && not (has r "multimodal")
                      && not (planner_sees float winners))
                || is_pinned_policy (policy_of q.policy) && is_pinned (or_none q.pinned))
              held
            ∙ rw h (or_and_true _ _),
      )

  -- Pins that a request brings are held while the run is active, and, unless it allows another
  -- choice, at any time: the selection then gives them back unchanged, whatever the registry, the
  -- hardware and the policy are. Its `ok` is then false just where the request asks for images, no
  -- role `multimodal` is pinned, the planner among the selection's winners does not see, and the policy
  -- is not `pinned`. So it never looks at what the pinned models can do.
  pub select_models-Held :
      (budget : F) (health : Health) (models : List (Model F)) (q : Request) (role : String)
      (pin : Ref) (pins : Pins)
      → q.pinned ≡ some ((role, pin) ∷ pins)
      → (q.run_active || not q.allow_auto_reselect) ≡ true
      → let made = select_models float budget health models q in
        (made.pin_resolution.pins ≡ (role, pin) ∷ pins)
        × (made.ok ≡ held_ok ((role, pin) ∷ pins) q made.winners)
  unfolding select_models
  select_models-Held budget health models q role pin pins h k =
      conclude_selection-Held q 0 _ (role, pin) pins h k
