-- ===== src/Rpc/Generate.antt =====
-- services/ai-worker/brainflow_worker/rpc.py: `workflow.generate`, from the health report to the checked
-- workflow; and validate.py. The model's answer, the choice of the candidates and the JSON schema are
-- services.
use brain_flow.Prelude.{
  ℕ, String, Bool, true, false, ◌&&◌, not, Option, none, some, List, [], ◌∷◌, map, if◌then◌else◌,
}
use brain_flow.Prelude.Dict.{get}
use brain_flow.Prelude.Int.{ℤ, negsuc, pos}
use brain_flow.Prelude.Text.{or_text}
use brain_flow.Kernel.Workflow.{Node, Edge}
use brain_flow.Kernel.Gate.{NodeDoc, Doc, Report, validate_workflow_policy}
use brain_flow.Gateway.Pins.{Ref, Pins, is_pinned, or_none, assert_pins_stable, apply_pins}
use brain_flow.Gateway.Select.{RawRequirements, Request, Selection}
use brain_flow.Gateway.Secrets.{truthy, first}
use brain_flow.Gateway.Providers.Adapters.{AggregateHealth}
use brain_flow.Compiler.Packs.{Pack}
use brain_flow.Compiler.Generate.{RawDoc, Link, Generated, Compiled, compiled, generate_workflow_ir}

-- The parameters of all methods. What is missing is `none`, and so is a `pack` or a `pinned` that is no
-- object, or is empty. A `manifest` is `none` only where it is missing or no object: an empty object is
-- a text, as any other.
pub record Params : Type 0 where
  pub policy : Option String
  pub requirements : RawRequirements
  pub pinned : Option Pins
  pub requested : Option Pins
  pub run_active : Option Bool
  pub allow_auto_reselect : Bool
  pub single_model_only : Bool
  pub refresh_registry : Bool
  pub refresh : Bool
  pub provider : Option String
  pub model : Option String
  pub manifest : Option String
  pub note : Option String
  pub ref : Option String
  pub value : Option String
  pub path : Option String
  pub content_base64 : Option String
  pub prompt : Option String
  pub source_text : Option String
  pub pack : Option Pack

abbrev pub Code : Type 0
Code = ℤ

-- A result, or an error with its code.
pub data Reply (A : Type 0) : Type 0 where
  replied : A → Reply A
  refused : Code → Reply A

abbrev pub internal_error : Code
internal_error = negsuc 31999

abbrev llm_unavailable : Code
llm_unavailable = pos 1001

abbrev schema_failed : Code
schema_failed = pos 1002

-- The workflow with the models of its `pins`.
pub record PinnedWorkflow : Type 0 where
  pub workflow : Generated
  pub models : Pins

pub record Written (F : Type 0) : Type 0 where
  pub workflow : PinnedWorkflow
  pub selection : Selection F

-- What `workflow.generate` asks of other parts; `none` is an exception. `ask_model` is the model's answer
-- to the prompt, as a document, which Compiler/Ask reads; `uuid4`, `show` and `pick` are those of the
-- compiler, and `set_order` that of the policy gate.
pub record GenerateServices (F W : Type 0) : Type 0 where
  pub aggregate_health : W → AggregateHealth × W
  pub select_models : Request → Bool → W → Option (Selection F) × W
  pub ask_model : String → String → String → Pack → W → Option RawDoc × W
  pub schema_accepts : PinnedWorkflow → Bool
  pub uuid4 : ℕ → String
  pub show : ℕ → String
  pub pick : List String → String
  pub set_order : List String → List String

abbrev pub is_active : Option Bool → Bool
is_active none = false
is_active (some b) = b

abbrev pub selection_request : Params → Bool → Request
selection_request p single_model_only = record {
  policy = or_text p.policy "auto";
  requirements = p.requirements;
  pinned = p.pinned;
  run_active = is_active p.run_active;
  allow_auto_reselect = p.allow_auto_reselect;
  single_model_only = single_model_only;
}

-- The pack where none is given.
abbrev pub default_pack : Pack
default_pack = record {
  id = "study_prep";
  version = some "1.0.0";
  allowed_node_types = "extract" ∷ "summarize" ∷ "write_artifact" ∷ "verify" ∷ [];
  default_permission_class = some "safe_overlay";
}

-- The text of a value that may be None.
abbrev or_null : Option String → String
or_null none = "None"
or_null (some s) = s

abbrev name_of : Option Ref → Option String
name_of none = none
name_of (some r) = truthy (some r.name)

abbrev pub digest_of : Option Ref → Option String
digest_of none = none
digest_of (some r) = r.digest

-- params.get("model") or planner.get("name") or health.get("preferred_model")
unfoldable pub model_for : Params → Pins → AggregateHealth → String
model_for p pins health =
    or_null (first (truthy p.model) (first (name_of (get pins "planner")) health.preferred_model))

-- What the compiler leaves, with its pins; an error of it is an exception.
abbrev pub with_planner : Compiled → Option PinnedWorkflow
with_planner (compiled g) = some (record { workflow = g; models = ("planner", g.planner) ∷ [] })
with_planner _ = none

abbrev gate_node : Node → Option NodeDoc
gate_node n = some (record { id = n.id; permission_class = n.permission_class; review_loop = none })

abbrev gate_edge : Link → Option Edge
gate_edge l = some (record { source = l.source; target = l.target })

abbrev pub gate_doc : Generated → Doc
gate_doc g = record {
  nodes = map gate_node g.nodes;
  edges = map gate_edge g.edges;
  max_steps = elim g.budgets.max_steps [ none ↦ none | some n ↦ some (pos n) ];
  max_parallel_jobs = some (pos 1);
}

abbrev is_accepted : Option Report → Bool
is_accepted none = false
is_accepted (some r) = r.ok

module _ {F W : Type 0} (services : GenerateServices F W) where
  -- `validate_workflow_ir`: the schema, and then the policy gate.
  unfoldable pub validate_workflow_ir : PinnedWorkflow → Bool
  unfolding validate_workflow_policy
  validate_workflow_ir w =
      services.schema_accepts w
      && is_accepted (validate_workflow_policy services.set_order (gate_doc w.workflow))

  -- The pins of the selection, where there are some, replace those of the workflow.
  unfoldable pub with_pins : Pins → PinnedWorkflow → PinnedWorkflow
  unfolding apply_pins
  with_pins pins w =
      if is_pinned pins then record w { models = apply_pins w.models pins true } else w

  -- The pins that the request brings are broken: `assert_pins_stable` raises.
  unfoldable pub breaks_pins : Params → Pins → Bool
  unfolding assert_pins_stable
  breaks_pins p pins =
      is_active p.run_active
      && is_pinned (or_none p.pinned)
      && elim (assert_pins_stable (or_none p.pinned) (some pins) true) [
        | none ↦ false
        | some _ ↦ true
      ]

  abbrev pub finish : Selection F → Option PinnedWorkflow → Reply (Written F)
  finish selection none = refused internal_error
  finish selection (some w) =
      let pinned = with_pins selection.pin_resolution.pins w in
      if validate_workflow_ir pinned
      then replied (record { workflow = pinned; selection = selection })
      else refused schema_failed

  -- `generate_workflow_ir`, at the model's answer.
  unfoldable pub compile :
      Params → String → Pins → AggregateHealth → Pack → Option RawDoc → Option PinnedWorkflow
  unfolding generate_workflow_ir
  compile p model pins health pack none = none
  compile p model pins health pack (some doc) = with_planner (
      generate_workflow_ir services.uuid4 services.show services.pick pack (or_text p.prompt "")
        model (digest_of (get pins "planner")) health.digests doc)

  -- From the selection on.
  unfoldable pub write_with : Params → AggregateHealth → Selection F → W → Reply (Written F) × W
  write_with p health selection w =
      let pins = selection.pin_resolution.pins in
      let model = model_for p pins health in
      let pack : Pack = elim p.pack [ none ↦ default_pack | some pack ↦ pack ] in
      let (doc, w') =
        services.ask_model (or_text p.prompt "") (or_text p.source_text "") model pack w in
      if breaks_pins p pins
      then (refused internal_error, w)
      else (finish selection (compile p model pins health pack doc), w')

  unfoldable pub generate : Params → W → Reply (Written F) × W
  unfolding write_with
  generate p w =
      let (health, w1) = services.aggregate_health w in
      if not health.ok
      then (refused llm_unavailable, w1)
      else (let (selection, w2) = services.select_models (selection_request p false) false w1 in
          elim selection [
            | none ↦ (refused internal_error, w2)
            | some s ↦ write_with p health s w2
          ])
