-- ===== src/Rpc/Pinned.antt =====
-- rpc.py: whose models the pins of an answered workflow name.
use brain_flow.Prelude.{
  String, ◌≡◌, refl, ap, ◌∙◌, subst, Bool, true, false, none, some, List, [], ◌∷◌, arith, eq_iff,
}
use brain_flow.Prelude.Dict.{get, put, has, get-put}
use brain_flow.Gateway.Float.{Float}
use brain_flow.Gateway.Pins.{Ref, Pins, apply_pins, pinned_ref}
use brain_flow.Gateway.Pins.Stable.{IsDict}
use brain_flow.Gateway.Candidate.{Model}
use brain_flow.Gateway.Select.Held.{select_models-Held}
use brain_flow.Gateway.Select.{Health, Request, Selection, select_models}
use brain_flow.Rpc.Generate.{
  Params, replied, Written, GenerateServices, is_active, selection_request, generate,
}
use brain_flow.Rpc.Sound.{pinned_models, Selected, generate-Selected}

missing : (pins : Pins) (role : String) → has pins role ≡ false → get pins role ≡ none
unfolding has get
missing [] role h = refl
missing ((r, ref) ∷ pins) role h = ground (arith, missing pins role)

-- What the pins of a workflow say after others have replaced them.
get-apply_pins :
    (models pins : Pins) (role : String)
    → IsDict pins
    → get (apply_pins models pins true) role
      ≡ elim (get pins role) [ none ↦ get models role | some ref ↦ some (pinned_ref ref) ]
unfolding apply_pins get has
get-apply_pins models [] role d = refl
get-apply_pins models ((r, ref) ∷ pins) role (absent, d) = ground (
  arith,
  get-apply_pins (put models r (pinned_ref ref)) pins role d,
  get-put models r role (pinned_ref ref),
  missing pins r absent,
  eq_iff r role,
)

-- The service is `select_models`, whatever the registry, the hardware and the health are.
abbrev pub Selects : {F W : Type 0} → Float F → GenerateServices F W → Type 0
Selects {F} {W} float services =
    (q : Request) (refresh : Bool) (w : W) (s : Selection F)
    → (services.select_models q refresh w).0 ≡ some s
    → (budget : F) × (health : Health) × (models : List (Model F)) × (s
        ≡ select_models float budget health models q)

module _ {F W : Type 0} (float : Float F) (services : GenerateServices F W) where
  -- While a run is active, a workflow that `workflow.generate` answers with names for each role that the
  -- request pins the pinned model, with the digest "unknown" if the pin has none, whatever the policy,
  -- the registry, the hardware and the model's answer are. The selection is that of `select_models`, and
  -- the request pins no role twice.
  pub generate-IsPinned :
      (p : Params) (pins : Pins) (w w' : W) (a : Written F)
      → Selects float services
      → is_active p.run_active ≡ true
      → p.pinned ≡ some pins
      → IsDict pins
      → generate services p w ≡ (replied a, w')
      → (role : String) (ref : Ref) → get pins role ≡ some ref
      → get a.workflow.models role ≡ some (pinned_ref ref)
  unfolding get
  generate-IsPinned p [] w w' a selects active given d e role ref found = absurd (ground arith)
  generate-IsPinned p ((r, first) ∷ pins) w w' a selects active given d e role ref found =
      let (sound, (v, chosen)) =
        subst (λ r. Selected services p w r.0) e (generate-Selected services p w) in
      let (budget, health, models, same) = selects _ _ v a.selection chosen in
      let held : a.selection.pin_resolution.pins ≡ (r, first) ∷ pins =
        ap (λ s. s.pin_resolution.pins) same
        ∙ (select_models-Held float budget health models (selection_request p false) r first pins
            given (ground (arith, active))).0 in
      let own : Pins = ("planner", a.workflow.workflow.planner) ∷ [] in
      let models : a.workflow.models ≡ apply_pins own ((r, first) ∷ pins) true =
        sound.models ∙ ap (λ ps. pinned_models ps a.workflow.workflow.planner) held in
      rw (models, get-apply_pins own ((r, first) ∷ pins) role d, found) refl
