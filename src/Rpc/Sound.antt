-- ===== src/Rpc/Sound.antt =====
-- rpc.py: what `workflow.generate` answers with.
use brain_flow.Prelude.{
  String, ◌≡◌, refl, sym, ap, ◌∙◌, subst, Bool, true, false, ◌&&◌, not, Option, none, some, [], ◌∷◌,
  All, arith, if◌then◌else◌, if_ind, option_ind,
}
use brain_flow.Prelude.Dict.{get}
use brain_flow.Prelude.Text.{or_text}
use brain_flow.Kernel.Gate.{Report, validate_workflow_policy}
use brain_flow.Gateway.Pins.{Ref, Pins, is_pinned, apply_pins}
use brain_flow.Gateway.Select.{Selection}
use brain_flow.Gateway.Providers.Adapters.{AggregateHealth}
use brain_flow.Compiler.Generate.{Generated, Compiled, compiled, no_nodes, no_usable_nodes, RawDoc}
use brain_flow.Compiler.Generate.Harmless.{IsHarmless}
use brain_flow.Compiler.Generate.Safety.{IsJoined, generate_workflow_ir-IsSafe}
use brain_flow.Compiler.Packs.{Pack}
use brain_flow.Rpc.Generate.{
  with_planner, digest_of, Params, Reply, replied, refused, PinnedWorkflow, Written,
  GenerateServices, selection_request, validate_workflow_ir, with_pins, breaks_pins, finish,
  compile, write_with, generate, gate_doc,
}

-- The pins of a workflow with a planner, under those of a selection.
abbrev pub pinned_models : Pins → Ref → Pins
pinned_models pins planner =
    if is_pinned pins
    then apply_pins (("planner", planner) ∷ []) pins true
    else ("planner", planner) ∷ []

module _ {F W : Type 0} (services : GenerateServices F W) where
  open services use {schema_accepts, set_order, uuid4, show, pick}

  -- An answered workflow: the schema and the policy gate have nothing against it, none of its nodes
  -- needs an approval, its edges join its nodes, and its pins are its planner and, over it, those of the
  -- selection.
  pub record IsSound (a : Written F) : Type 0 where
    pub schema : schema_accepts a.workflow ≡ true
    pub policy :
        (r : Report) × (validate_workflow_policy set_order (gate_doc a.workflow.workflow) ≡ some r)
        × (r.ok ≡ true)
    pub harmless : All IsHarmless a.workflow.workflow.nodes
    pub joined : All (IsJoined uuid4 show pick a.workflow.workflow.nodes) a.workflow.workflow.edges
    pub models :
        a.workflow.models
        ≡ pinned_models a.selection.pin_resolution.pins a.workflow.workflow.planner

  abbrev Sound : Selection F → Reply (Written F) → Type 0
  Sound selection (refused code) = Unit
  Sound selection (replied a) = IsSound a × (a.selection ≡ selection)

  with_pins-workflow :
      (pins : Pins) (w : PinnedWorkflow) → (with_pins services pins w).workflow ≡ w.workflow
  unfolding with_pins
  with_pins-workflow pins w =
      if_ind (λ (v : PinnedWorkflow). v.workflow ≡ w.workflow) (is_pinned pins) (λ _. refl)
        (λ _. refl)

  with_pins-models :
      (pins : Pins) (w : PinnedWorkflow)
      → (with_pins services pins w).models
        ≡ (if is_pinned pins then apply_pins w.models pins true else w.models)
  unfolding with_pins
  with_pins-models pins w =
      if_ind
        (λ (v : PinnedWorkflow).
          v.models ≡ (if is_pinned pins then apply_pins w.models pins true else w.models))
        (is_pinned pins) (λ e. rw e refl) (λ e. rw e refl)

  abbrev accepts : Option Report → Bool
  accepts none = false
  accepts (some r) = r.ok

  accepted : (o : Option Report) → accepts o ≡ true → (r : Report) × (o ≡ some r) × (r.ok ≡ true)
  accepted none h = absurd (ground arith)
  accepted (some r) h = (r, refl, h)

  -- What the compiler gives.
  record IsCompiled (w : PinnedWorkflow) : Type 0 where
    harmless : All IsHarmless w.workflow.nodes
    joined : All (IsJoined uuid4 show pick w.workflow.nodes) w.workflow.edges
    models : w.models ≡ ("planner", w.workflow.planner) ∷ []

  finish-Sound :
      (selection : Selection F) (o : Option PinnedWorkflow)
      → ((w : PinnedWorkflow) → o ≡ some w → IsCompiled w)
      → Sound selection (finish services selection o)
  unfolding validate_workflow_ir
  finish-Sound selection none h = tt
  finish-Sound selection (some w) h =
      let pinned = with_pins services selection.pin_resolution.pins w in
      if_ind (Sound selection)
        (schema_accepts pinned
          && accepts (validate_workflow_policy set_order (gate_doc pinned.workflow)))
        (λ v.
          let c = h w refl in
          let kept = with_pins-workflow selection.pin_resolution.pins w in
          (
            record {
              schema = ground (arith, v);
              policy =
                  accepted (validate_workflow_policy set_order (gate_doc pinned.workflow))
                    (ground (arith, v));
              harmless = subst (λ g. All IsHarmless g.nodes) (sym kept) c.harmless;
              joined =
                  subst (λ g. All (IsJoined uuid4 show pick g.nodes) g.edges) (sym kept) c.joined;
              models =
                  with_pins-models selection.pin_resolution.pins w
                  ∙ ap
                      (λ m.
                        if is_pinned selection.pin_resolution.pins
                        then apply_pins m selection.pin_resolution.pins true
                        else m)
                      c.models
                  ∙ ap (λ g. pinned_models selection.pin_resolution.pins g.planner) (sym kept);
            },
            refl,
          ))
        (λ _. tt)

  with_planner-IsCompiled :
      (c : Compiled) (w : PinnedWorkflow)
      → ((g : Generated)
          → c ≡ compiled g
          → All IsHarmless g.nodes × All (IsJoined uuid4 show pick g.nodes) g.edges)
      → with_planner c ≡ some w
      → IsCompiled w
  with_planner-IsCompiled (compiled g) w h e =
      let (harmless, joined) = h g refl in
      subst (λ o. elim o [ none ↦ Unit {0} | some v ↦ IsCompiled v ]) e
        (record { harmless = harmless; joined = joined; models = refl })
  with_planner-IsCompiled no_nodes w h e = absurd (ground (arith, e))
  with_planner-IsCompiled no_usable_nodes w h e = absurd (ground (arith, e))

  compile-IsCompiled :
      (p : Params) (model : String) (pins : Pins) (health : AggregateHealth) (pack : Pack)
      (doc : Option RawDoc) (w : PinnedWorkflow)
      → compile services p model pins health pack doc ≡ some w
      → IsCompiled w
  unfolding compile
  compile-IsCompiled p model pins health pack none w e = absurd (ground (arith, e))
  compile-IsCompiled p model pins health pack (some doc) w e =
      with_planner-IsCompiled _ w
        (generate_workflow_ir-IsSafe uuid4 show pick pack (or_text p.prompt "") model
          (digest_of (get pins "planner")) health.digests doc)
        e

  write_with-Sound :
      (p : Params) (health : AggregateHealth) (selection : Selection F) (w : W)
      → Sound selection (write_with services p health selection w).0
  unfolding write_with
  write_with-Sound p health selection w =
      if_ind (λ (r : Reply (Written F) × W). Sound selection r.0)
        (breaks_pins services p selection.pin_resolution.pins) (λ _. tt)
        (λ _. finish-Sound selection _ (compile-IsCompiled p _ _ health _ _))

  -- What is answered, with the selection that was made.
  abbrev pub Selected : Params → W → Reply (Written F) → Type 0
  Selected p w (refused code) = Unit
  Selected p w (replied a) =
      IsSound a
      × ((v : W) × ((services.select_models (selection_request p false) false v).0
            ≡ some a.selection))

  Sound-Selected :
      (p : Params) (w v : W) (s : Selection F) (r : Reply (Written F))
      → (services.select_models (selection_request p false) false v).0 ≡ some s
      → Sound s r
      → Selected p w r
  Sound-Selected p w v s (refused code) e h = tt
  Sound-Selected p w v s (replied a) e (sound, same) = (sound, (v, e ∙ ap some (sym same)))

  pub generate-Selected : (p : Params) (w : W) → Selected p w (generate services p w).0
  unfolding generate
  generate-Selected p w =
      let (health, w1) = services.aggregate_health w in
      if_ind (λ (r : Reply (Written F) × W). Selected p w r.0) (not health.ok) (λ _. tt)
        (λ _.
          option_ind (λ (r : Reply (Written F) × W). Selected p w r.0)
            (services.select_models (selection_request p false) false w1).0 (λ _. tt)
            (λ s e. Sound-Selected p w w1 s _ e (write_with-Sound p health s _)))

  -- A workflow that `workflow.generate` answers with has been accepted by the schema and by the policy
  -- gate; none of its nodes needs an approval, each of its edges leads from one of its nodes to one of
  -- them, and its pins are its planner and, over it, the pins of the selection.
  pub generate-IsSound :
      (p : Params) (w w' : W) (a : Written F) → generate services p w ≡ (replied a, w') → IsSound a
  generate-IsSound p w w' a e = (subst (λ r. Selected p w r.0) e (generate-Selected p w)).0
