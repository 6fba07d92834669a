-- ===== src/Rpc.antt =====
-- services/ai-worker/brainflow_worker/rpc.py: the requests that the worker answers. What the worker asks of
-- its other parts, and of what is outside, is a record of services; the secrets are part of the state. The id
-- of a request, which its answer repeats, and the texts of the errors are left out.
pub mod Generate
pub mod Sound
pub mod Pinned
pub mod Stored
pub mod Answered
mod Tests
use brain_flow.Prelude.{
  ℕ, String, Bool, true, false, ◌&&◌, ◌||◌, not, Option, none, some, List, [], ◌∷◌, str_eq,
  if◌then◌else◌,
}
use brain_flow.Prelude.Int.{ℤ, negsuc, pos}
use brain_flow.Prelude.Text.{or_text, is_empty}
use brain_flow.Gateway.Pins.{Pins, or_none, assert_pins_stable}
use brain_flow.Gateway.Select.{RawRequirements, Request, Selection}
use brain_flow.Gateway.Secrets.{
  Keyring, Secrets, Backend, Answer, ok, err, set_secret, delete_secret, secret_status, truthy,
}
use brain_flow.Gateway.Providers.Adapters.{AggregateHealth}
use brain_flow.Compiler.Packs.{Pack}
use brain_flow.Rpc.Generate.{
  GenerateServices, Params, Code, Reply, replied, refused, Written, generate, selection_request,
  internal_error,
}
use Prim.Native.String

-- A request; a `method` that is no text is none that is known.
pub record RpcRequest : Type 0 where
  pub jsonrpc : Option String
  pub method : String
  pub params : Params

-- The results. `J` is a JSON value of a part that is not modelled here.
pub data RpcResult (F J : Type 0) : Type 0 where
  pong stable : RpcResult F J
  health : AggregateHealth → RpcResult F J
  value : J → RpcResult F J
  selected recommended : Selection F → RpcResult F J
  secret_set : Backend → RpcResult F J
  secret_deleted : RpcResult F J
  secret_state : Bool → Backend → RpcResult F J
  written : Written F → RpcResult F J

-- The other parts of the worker, where `none` is an exception.
pub record Services (F J W : Type 0) : Type 0 where
  pub writing : GenerateServices F W
  pub profile_hardware : W → Option J × W
  pub has_adapter : String → W → Bool
  pub run_probes : String → String → Params → W → Option J × W
  pub load_registry : Bool → W → Option J × W
  pub install_manifest : String → String → W → Option J × W
  pub rollback_registry : W → Option J × W
  pub list_adapters : W → Option J × W
  pub analyze_path : String → Params → W → Option J × W
  pub analyze_content : String → Params → W → Option J × W
  pub schema_root : J

-- The state: what is outside, and the worker's secrets.
pub record World (K W : Type 0) : Type 0 where
  pub outside : W
  pub secrets : Secrets K

abbrev pub method_not_found : Code
method_not_found = negsuc 32600

abbrev invalid_params : Code
invalid_params = negsuc 32601

abbrev pub invalid_request : Code
invalid_request = negsuc 32599

abbrev unknown_provider : Code
unknown_provider = pos 1003

abbrev pin_violation : Code
pin_violation = pos 1004

module _ {F J K W : Type 0} (environ : String → Option String) (upper : String → String)
    (keyring : Keyring K) (services : Services F J W) where
  abbrev pub Response : Type 0
  Response = Reply (RpcResult F J) × World K W

  -- The answer of a service; an exception becomes an error.
  abbrev served : {A : Type 0} → World K W → (A → RpcResult F J) → Option A × W → Response
  served w f (r, o) =
      (elim r [ none ↦ refused internal_error | some a ↦ replied (f a) ], record w { outside = o })

  abbrev refuse : Code → World K W → Response
  refuse code w = (refused code, w)

  unfoldable pub select : Bool → Params → World K W → Response
  select is_recommend p w = served w (if is_recommend then recommended else selected) (
      services.writing.select_models (selection_request p p.single_model_only) p.refresh_registry
        w.outside)

  unfoldable pub probe : Params → World K W → Response
  probe p w =
      let provider = or_text p.provider "ollama" in
      let model = or_text p.model "" in
      if not (services.has_adapter provider w.outside)
      then refuse unknown_provider w
      else if is_empty model
      then refuse invalid_params w
      else served w value (services.run_probes provider model p w.outside)

  unfoldable pub install : Params → World K W → Response
  install p w = elim p.manifest [
    | none ↦ refuse invalid_params w
    | some m ↦ served w value (services.install_manifest m (or_text p.note "rpc") w.outside)
  ]

  -- secrets.set
  unfoldable pub put_secret : Params → World K W → Response
  unfolding set_secret
  put_secret p w =
      elim (set_secret environ upper keyring (or_text p.ref "") (or_text p.value "") true
        w.secrets) [
          | err _ ↦ refuse internal_error w
          | ok (b, s) ↦ (replied (secret_set b), record w { secrets = s })
        ]

  -- secrets.delete
  unfoldable pub drop_secret : Params → World K W → Response
  unfolding delete_secret
  drop_secret p w = elim (delete_secret environ upper keyring (or_text p.ref "") w.secrets) [
    | err _ ↦ refuse internal_error w
    | ok s ↦ (replied secret_deleted, record w { secrets = s })
  ]

  -- secrets.status
  unfoldable pub read_status : Params → World K W → Response
  unfolding secret_status
  read_status p w = elim (secret_status environ upper keyring (or_text p.ref "") w.secrets) [
    | err _ ↦ refuse internal_error w
    | ok (present, b) ↦ (replied (secret_state present b), w)
  ]

  abbrev or_true : Option Bool → Bool
  or_true none = true
  or_true (some b) = b

  -- pins.assert_stable
  unfoldable pub assert_stable : Params → World K W → Response
  unfolding assert_pins_stable
  assert_stable p w =
      elim (assert_pins_stable (or_none p.pinned) p.requested (or_true p.run_active)) [
        | none ↦ (replied stable, w)
        | some _ ↦ refuse pin_violation w
      ]

  -- intake.analyze
  unfoldable pub analyze : Params → World K W → Response
  analyze p w = elim (truthy p.path) [
    | some path ↦ served w value (services.analyze_path path p w.outside)
    | none ↦ elim p.content_base64 [
      | some content ↦ served w value (services.analyze_content content p w.outside)
      | none ↦ refuse invalid_params w
    ]
  ]

  -- workflow.generate
  unfoldable pub write : Params → World K W → Response
  unfolding generate
  write p w =
      let (r, o) = generate services.writing p w.outside in
      (
        elim r [ refused code ↦ refused code | replied a ↦ replied (written a) ],
        record w { outside = o },
      )

  abbrev answer_health : World K W → Response
  answer_health w =
      let (h, o) = services.writing.aggregate_health w.outside in
      (replied (health h), record w { outside = o })

  unfoldable pub dispatch : String → Params → World K W → Response
  unfolding select probe install put_secret drop_secret read_status assert_stable analyze write
  dispatch method p w =
      if str_eq method "ping"
      then (replied pong, w)
      else if str_eq method "llm.health"
      then answer_health w
      else if str_eq method "llm.hardware"
      then served w value (services.profile_hardware w.outside)
      else if str_eq method "llm.select"
      then select false p w
      else if str_eq method "llm.recommend"
      then select true p w
      else if str_eq method "llm.probe"
      then probe p w
      else if str_eq method "registry.load"
      then served w value (services.load_registry p.refresh w.outside)
      else if str_eq method "registry.install"
      then install p w
      else if str_eq method "registry.rollback"
      then served w value (services.rollback_registry w.outside)
      else if str_eq method "secrets.set"
      then put_secret p w
      else if str_eq method "secrets.delete"
      then drop_secret p w
      else if str_eq method "secrets.status"
      then read_status p w
      else if str_eq method "pins.assert_stable"
      then assert_stable p w
      else if str_eq method "intake.adapters"
      then served w value (services.list_adapters w.outside)
      else if str_eq method "intake.analyze"
      then analyze p w
      else if str_eq method "workflow.generate"
      then write p w
      else if str_eq method "schema.root"
      then (replied (value services.schema_root), w)
      else refuse method_not_found w

  abbrev is_current : Option String → Bool
  is_current none = false
  is_current (some v) = str_eq v "2.0"

  unfoldable pub handle_request : RpcRequest → World K W → Response
  unfolding dispatch
  handle_request req w =
      if not (is_current req.jsonrpc)
      then refuse invalid_request w
      else dispatch req.method req.params w
