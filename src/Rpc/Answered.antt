-- ===== src/Rpc/Answered.antt =====
-- rpc.py: whom `workflow.generate` asks.
use brain_flow.Prelude.{String, ◌≡◌, refl, ap, ◌∙◌, false, none, some, arith}
use brain_flow.Prelude.Text.{is_empty, or_text}
use brain_flow.Gateway.Pins.{Pins}
use brain_flow.Gateway.Pins.Stable.{IsDict, assert_pins_stable_self}
use brain_flow.Gateway.Select.{Selection}
use brain_flow.Gateway.Providers.Adapters.{AggregateHealth}
use brain_flow.Compiler.Packs.{Pack}
use brain_flow.Rpc.Generate.{
  Params, GenerateServices, default_pack, model_for, breaks_pins, finish, compile, write_with,
}

model_for-named :
    (p : Params) (pins : Pins) (model : String) (health : AggregateHealth)
    → p.model ≡ some model
    → is_empty model ≡ false
    → model_for p pins health ≡ model
unfolding model_for
model_for-named p pins model health named filled = rw (named, filled) refl

module _ {F W : Type 0} (services : GenerateServices F W) where
  -- Pins that the selection gives back unchanged are not broken.
  breaks_pins_self :
      (p : Params) (pins : Pins)
      → p.pinned ≡ some pins
      → IsDict pins
      → breaks_pins services p pins ≡ false
  unfolding breaks_pins
  breaks_pins_self p pins h d = rw (h, assert_pins_stable_self pins d) (ground arith)

  -- Where a request names a model, that model is asked, also if a run is active whose planner is pinned
  -- to another one: with the pins that the selection has given back, the request is never refused for it.
  pub write_with-named :
      (p : Params) (pins : Pins) (model : String) (health : AggregateHealth)
      (selection : Selection F) (w : W)
      → p.pinned ≡ some pins
      → IsDict pins
      → selection.pin_resolution.pins ≡ pins
      → p.model ≡ some model
      → is_empty model ≡ false
      → let pack = elim p.pack as (λ _. Pack) [ none ↦ default_pack | some k ↦ k ] in
        (write_with services p health selection w).0
        ≡ finish services selection (
            compile services p model selection.pin_resolution.pins health pack
              (services.ask_model (or_text p.prompt "") (or_text p.source_text "") model pack w).0)
  unfolding write_with
  write_with-named p pins model health selection w given d held named filled =
      rw
        (
          model_for-named p selection.pin_resolution.pins model health named filled,
          ap (breaks_pins services p) held ∙ breaks_pins_self p pins given d,
        )
        refl
