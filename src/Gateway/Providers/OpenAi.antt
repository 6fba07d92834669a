-- ===== src/Gateway/Providers/OpenAi.antt =====
-- gateway/providers/openai_compat.py, openrouter.py: the endpoints that speak OpenAI's protocol.
use brain_flow.Prelude.{
  ℕ, String, Bool, true, false, ◌&&◌, not, Option, none, some, List, [], ◌∷◌, length, if◌then◌else◌,
}
use brain_flow.Prelude.Int.{ℤ, pos}
use brain_flow.Gateway.Budget.{Money, RequestBudget}
use brain_flow.Gateway.Secrets.{ok, err, truthy}
use brain_flow.Gateway.Providers.{
  Chat, Body, nothing, open_ai_chat, open_ai_embed, ModelEntry, Reply, Outside, Result, done,
  failed, rstrip_slash, is_loopback, is_https, send_as, Outcome, budgeted, unbudgeted, refuse,
  tls_required, invalid_ref,
}

pub data Kind : Type 0 where
  local cloud openai_compat : Kind

-- The fields of an adapter of the class, or of a class below it.
pub record OpenAiCompatAdapter : Type 0 where
  pub id : String
  pub kind : Kind
  pub base_url : String
  pub api_key_ref : String
  pub require_tls : Bool
  pub has_transport : Bool

-- The answer of `health`. The text of an error is not there.
pub record ProviderHealth : Type 0 where
  pub ok : Bool
  pub provider : String
  pub base_url : Option String
  pub models : List String
  pub digests : List (String × String)
  pub preferred_model : Option String
  pub model_count : Option ℕ

abbrev pub unhealthy : String → Option String → ProviderHealth
unhealthy provider base_url = record {
  ok = false;
  provider = provider;
  base_url = base_url;
  models = [];
  digests = [];
  preferred_model = none;
  model_count = none;
}

abbrev pub healthy : String → String → String → List String → ProviderHealth
healthy provider base_url preferred names = record {
  ok = true;
  provider = provider;
  base_url = some base_url;
  models = names;
  digests = [];
  preferred_model = some preferred;
  model_count = some (length names);
}

-- payload.get("data") or payload.get("models") or []
abbrev or_list : {A : Type 0} → List A → List A → List A
or_list [] ys = ys
or_list (x ∷ xs) ys = x ∷ xs

-- m.get("id") or m.get("name")
abbrev or_name : Option String → Option String → Option String
or_name id name = elim (truthy id) [ some i ↦ some i | none ↦ truthy name ]

unfoldable pub model_names : List (Option ModelEntry) → List String
model_names [] = []
model_names (none ∷ ms) = model_names ms
model_names (some m ∷ ms) = elim (or_name m.id m.name) [
  | none ↦ model_names ms
  | some n ↦ n ∷ model_names ms
]

-- A model as `list_models` lists it.
pub record Listed : Type 0 where
  pub provider : String
  pub name : String
  pub digest : Option String
  pub is_local : Bool

module _ {W : Type 0} (outside : Outside W) where
  unfoldable pub openai_compat_adapter :
      String → String → String → Bool → Bool → OpenAiCompatAdapter
  openai_compat_adapter base_url api_key_ref provider_id require_tls has_transport =
      let base = rstrip_slash base_url in
      record {
        id = provider_id;
        kind = openai_compat;
        base_url = base;
        api_key_ref = api_key_ref;
        require_tls = require_tls && not (is_loopback outside base);
        has_transport = has_transport;
      }

  unfoldable pub openai_adapter : Bool → OpenAiCompatAdapter
  unfolding openai_compat_adapter
  openai_adapter has_transport =
      record (openai_compat_adapter "https://api.openai.com/v1" "openai" "openai" true
        has_transport) { kind = cloud }

  unfoldable pub openrouter_adapter : Bool → OpenAiCompatAdapter
  unfolding openai_compat_adapter
  openrouter_adapter has_transport =
      record (openai_compat_adapter "https://openrouter.ai/api/v1" "openrouter" "openrouter" true
        has_transport) { kind = cloud }

  -- `require_tls` is None where it is not given.
  unfoldable pub custom_adapter :
      String → String → String → Option Bool → Bool → OpenAiCompatAdapter
  unfolding openai_compat_adapter
  custom_adapter base_url api_key_ref provider_id require_tls has_transport =
      openai_compat_adapter base_url api_key_ref provider_id
        (elim require_tls [ none ↦ true | some b ↦ b ]) has_transport

  -- The test of `_ensure_tls`.
  abbrev pub lacks_tls : OpenAiCompatAdapter → Bool
  lacks_tls a = a.require_tls && not (is_https outside a.base_url)

  -- A request by the client of `_client`, which reads the key.
  unfoldable pub request : OpenAiCompatAdapter → String → Body → W → Result Reply × W
  request a path body w = elim (outside.get_secret a.api_key_ref w) [
    | err _ ↦ (failed invalid_ref, w)
    | ok key ↦
        send_as outside
          (record { base_url = a.base_url; path = path; key = truthy key; body = body }) w
  ]

  unfoldable pub health : OpenAiCompatAdapter → W → ProviderHealth × W
  unfolding request model_names
  health a w =
      let probed : Result Reply × W =
        if lacks_tls a then (failed tls_required, w) else request a "/models" nothing w in
      (
        elim probed.0 [
          | failed _ ↦ unhealthy a.id (some a.base_url)
          | done r ↦ elim (model_names (or_list r.listed r.models)) [
            | [] ↦ unhealthy a.id (some a.base_url)
            | n ∷ names ↦ healthy a.id a.base_url n (n ∷ names)
          ]
        ],
        probed.1,
      )

  -- `health` of the classes for OpenAI and OpenRouter, whose references are valid.
  unfoldable pub cloud_health : OpenAiCompatAdapter → W → ProviderHealth × W
  unfolding health
  cloud_health a w = elim (outside.get_secret a.api_key_ref w) [
    | err _ ↦ (unhealthy a.id none, w)
    | ok key ↦ elim (truthy key) [
      | some _ ↦ health a w
      | none ↦ if a.has_transport then health a w else (unhealthy a.id none, w)
    ]
  ]

  abbrev list_names : OpenAiCompatAdapter → List String → List Listed
  list_names a [] = []
  list_names a (n ∷ names) =
      record { provider = a.id; name = n; digest = none; is_local = is_loopback outside a.base_url }
      ∷ list_names a names

  unfoldable pub list_models : OpenAiCompatAdapter → W → List Listed × W
  unfolding health
  list_models a w = let (h, w') = health a w in (list_names a h.models, w')

  unfoldable pub post_chat : OpenAiCompatAdapter → Chat → Option ℤ → W → Result Reply × W
  unfolding request
  post_chat a q n w =
      request a "/chat/completions"
        (open_ai_chat q.model q.messages q.stream n q.response_format q.tools) w

  unfoldable pub embeddings :
      OpenAiCompatAdapter → String → List String → W → Result (List String) × W
  unfolding request
  embeddings a model inputs w =
      let asked : Result Reply × W =
        if lacks_tls a
        then (failed tls_required, w)
        else request a "/embeddings" (open_ai_embed model inputs) w in
      (elim asked.0 [ failed e ↦ failed e | done r ↦ done r.embeddings ], asked.1)

  module _ {M : Type 0} (money : Money M) where
    unfoldable pub chat : OpenAiCompatAdapter → Chat → Option (RequestBudget M) → W → Outcome M W
    unfolding budgeted post_chat
    chat a q budget w = if lacks_tls a then refuse budget tls_required w else elim budget [
      | none ↦ unbudgeted (post_chat a q q.max_tokens w)
      | some b ↦ budgeted money (pos 1024) q.max_tokens b (λ n w'. post_chat a q (some n) w') w
    ]
