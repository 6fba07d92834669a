-- ===== src/Rpc/Tests.antt =====
-- rpc.py on small requests, and its theorems at inputs that meet their hypotheses.
use brain_flow.Prelude.{
  ℕ, zero, suc, ◌+◌, ◌-◌, ◌*◌, ◌/◌, String, ◌≡◌, refl, sym, ap, true, false, Option, none, some, [],
  ◌∷◌, ltb, ◌==◌, str_eq, if◌then◌else◌,
}
use brain_flow.Prelude.Dict.{get, put, has}
use brain_flow.Kernel.Gate
use brain_flow.Kernel.Policy.{normalize_permission_class, may_auto_apply}
use brain_flow.Gateway.Float.{Float}
use brain_flow.Gateway.Pins.{Ref, Pins, pinned_ref, assert_pins_stable, apply_pins, resolve_for_run}
use brain_flow.Gateway.Select.{
  Health, Selection, select_models, policy_of, require, ranked_winners, pins_of, conclude_selection,
}
use brain_flow.Gateway.Scoring.{score_candidates}
use brain_flow.Gateway.Secrets.{Keyring}
use brain_flow.Gateway.Providers.Adapters.{AggregateHealth}
use brain_flow.Compiler.Generate.{
  RawDoc, no_goal, texts_of, generate_workflow_ir, make_nodes, make_links, chain, fresh, make_node,
  node_type, safe_class,
}
use brain_flow.Rpc.Generate.{
  Params, Reply, replied, refused, Written, GenerateServices, selection_request,
  validate_workflow_ir, with_pins, breaks_pins, finish, compile, write_with, generate, default_pack,
  model_for,
}
use brain_flow.Rpc.{
  RpcRequest, RpcResult, pong, Services, World, handle_request, invalid_request, method_not_found,
}
use brain_flow.Rpc.Sound.{IsSound, generate-IsSound}
use brain_flow.Rpc.Pinned.{Selects, generate-IsPinned}
use brain_flow.Rpc.Answered.{write_with-named}
use brain_flow.Rpc.Stored.{request}

abbrev counts : Float ℕ
counts = record {
  hundredths = λ n. n;
  of_nat = λ n. n;
  plus = λ a b. a + b;
  minus = λ a b. a - b;
  times = λ a b. a * b;
  over = λ a b. a / b;
  below = λ a b. ltb a b;
  is_nil = λ a. a == 0;
}

abbrev pin : Ref
pin = record { provider = "ollama"; name = "qwen"; digest = some "sha256:1" }

abbrev pins : Pins
pins = ("planner", pin) ∷ []

abbrev params : Params
params = record {
  policy = none;
  requirements = record {
    modalities = [];
    tools = none;
    json_schema = none;
    embeddings = none;
    vision = none;
    min_context = none;
  };
  pinned = some pins;
  requested = none;
  run_active = some true;
  allow_auto_reselect = false;
  single_model_only = false;
  refresh_registry = false;
  refresh = false;
  provider = none;
  model = some "other";
  manifest = none;
  note = none;
  ref = some "openai";
  value = some "sk";
  path = none;
  content_base64 = none;
  prompt = some "plan";
  source_text = none;
  pack = none;
}

abbrev report : AggregateHealth
report = record {
  ok = true;
  provider = "ollama";
  preferred_model = some "qwen";
  models = [];
  model_count = 0;
  base_url = none;
  digests = [];
  providers = [];
}

abbrev uuid : ℕ → String
uuid zero = "u0"
uuid (suc n) = "u1"

-- The model's answer: one node.
abbrev doc : RawDoc
doc = record {
  nodes =
      some (record {
        id = some "a";
        type = some "extract";
        title = none;
        permission_class = some "read";
        idempotency_key = none;
        cache_key = none;
        retry = none;
      })
      ∷ [];
  edges = [];
  title = none;
  domain_pack_id = none;
  goal = no_goal;
}

abbrev no_health : Health
no_health = record { models = []; digests = [] }

abbrev writing : GenerateServices ℕ ℕ
writing = record {
  aggregate_health = λ w. (report, w);
  select_models = λ q refresh w. (some (select_models counts 10 no_health [] q), w);
  ask_model = λ prompt source model pack w. (some doc, w + 1);
  schema_accepts = λ w. true;
  uuid4 = uuid;
  show = λ n. "0";
  pick = λ names. "extract";
  set_order = λ ids. ids;
}

abbrev selection : Selection ℕ
selection = select_models counts 10 no_health [] (selection_request params false)

-- The workflow that the other model has written is pinned to the pinned one.
abbrev answered : Written ℕ
answered = record {
  workflow = record {
    workflow = record {
      workflow_id = "u1";
      texts = record { title = "plan"; domain_pack_id = "study_prep@1.0.0"; statement = "plan" };
      planner = record { provider = "ollama"; name = "other"; digest = some "sha256:1" };
      nodes =
          record {
            id = "u0";
            type = some "extract";
            title = some "extract";
            permission_class = some "read";
            cache_key = some "extract:u0";
            idempotency_key = some "extract:u0";
            retry_max = some 1;
          }
          ∷ [];
      edges = [];
      budgets = record {
        max_steps = some 12;
        max_tokens = some 16000;
        max_generated_files = some 8;
      };
      criteria = "artifact_written" ∷ [];
    };
    models = pins;
  };
  selection = selection;
}

generate-run : generate writing params 0 ≡ (replied answered, 1)
unfolding generate write_with compile validate_workflow_ir with_pins breaks_pins model_for
    generate_workflow_ir make_nodes make_links chain texts_of get put has fresh make_node node_type
    safe_class assert_pins_stable apply_pins select_models conclude_selection policy_of require
    score_candidates ranked_winners resolve_for_run pins_of Gate.validate_workflow_policy
    Gate.search Gate.dfs Gate.link Gate.no_targets Gate.node_ids Gate.loop_nodes Gate.check_nodes
    normalize_permission_class may_auto_apply
generate-run = refl

generate-IsSound_example : IsSound writing answered
generate-IsSound_example = generate-IsSound writing params 0 1 answered generate-run

writing-Selects : Selects counts writing
writing-Selects q refresh w s e =
    (10, no_health, [], sym (ap (λ o. elim o [ none ↦ s | some t ↦ t ]) e))

generate-IsPinned_example : get answered.workflow.models "planner" ≡ some (pinned_ref pin)
unfolding has get
generate-IsPinned_example =
    generate-IsPinned counts writing params pins 0 1 answered writing-Selects refl refl (refl, tt)
      generate-run "planner" pin refl

write_with-named_example :
    (write_with writing params report selection 0).0
    ≡ finish writing selection (
        compile writing params "other" selection.pin_resolution.pins report default_pack (some doc))
unfolding has select_models conclude_selection resolve_for_run
write_with-named_example =
    write_with-named writing params pins "other" report selection 0 refl (refl, tt) refl refl refl

-- The other parts, where each answers with 0.
abbrev services : Services ℕ ℕ ℕ
services = record {
  writing = writing;
  profile_hardware = λ w. (some 0, w);
  has_adapter = λ provider w. true;
  run_probes = λ provider model p w. (some 0, w);
  load_registry = λ refresh w. (some 0, w);
  install_manifest = λ m note w. (some 0, w);
  rollback_registry = λ w. (some 0, w);
  list_adapters = λ w. (some 0, w);
  analyze_path = λ path p w. (some 0, w);
  analyze_content = λ content p w. (some 0, w);
  schema_root = 0;
}

-- A keyring that is not there.
abbrev keyring : Keyring ℕ
keyring = record {
  get_password = λ ref k. none;
  set_password = λ ref value k. none;
  delete_password = λ ref k. none;
}

abbrev environ : String → Option String
environ key = none

abbrev world : World ℕ ℕ
world = record { outside = 0; secrets = record { memory = []; keyring = 0 } }

abbrev call : Option String → String → RpcRequest
call jsonrpc method = record { jsonrpc = jsonrpc; method = method; params = params }

answer_of : RpcRequest → Reply (RpcResult ℕ ℕ)
answer_of req = (handle_request environ (λ s. s) keyring services req world).0

old_version : answer_of (call none "ping") ≡ refused invalid_request
unfolding answer_of handle_request
old_version = refl

unknown_method : answer_of (call (some "2.0") "shell") ≡ refused method_not_found
unfolding answer_of handle_request
unknown_method = refl

ping_answered : answer_of (call (some "2.0") "ping") ≡ replied pong
unfolding answer_of handle_request
ping_answered = refl

-- A key that is stored in a keyring that is a function, and never fails.
abbrev password : String → Option (String → Option String) → Option (Option String)
password other k = elim k [ none ↦ none | some f ↦ some (f other) ]

abbrev os : Keyring (String → Option String)
os = record {
  get_password = λ ref k. some (k ref);
  set_password = λ ref value k. some (λ j. if str_eq ref j then some value else k j);
  delete_password = λ ref k. some (λ j. if str_eq ref j then none else k j);
}

abbrev locked : World (String → Option String) ℕ
locked = record { outside = 0; secrets = record { memory = []; keyring = λ j. none } }

abbrev answers :
    String
    → World (String → Option String) ℕ
    → Reply (RpcResult ℕ ℕ) × World (String → Option String) ℕ
answers method w = handle_request environ (λ s. s) os services (request method params) w
