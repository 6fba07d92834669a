-- ===== src/Gateway/Providers/Adapters.antt =====
-- gateway/providers/__init__.py, openrouter.py, stubs.py: the adapters that the environment gives, and
-- the report on all of them.
use brain_flow.Prelude.{
  ℕ, String, Bool, true, false, ◌||◌, not, Option, none, some, List, [], ◌∷◌, ◌++◌, str_eq,
  if◌then◌else◌,
}
use brain_flow.Prelude.Dict.{Dict}
use brain_flow.Prelude.Text.{codes, is_infix, or_text}
use brain_flow.Gateway.Budget.{Money, RequestBudget}
use brain_flow.Gateway.Secrets.{truthy, first}
use brain_flow.Gateway.Providers.{Chat, Outside, Outcome}
use brain_flow.Gateway.Providers.OpenAi.{
  OpenAiCompatAdapter, ProviderHealth, openai_compat_adapter, openai_adapter, openrouter_adapter,
  custom_adapter,
}
use brain_flow.Gateway.Providers.OpenAi
use brain_flow.Gateway.Providers.Ollama.{OllamaAdapter, ollama_adapter}
use brain_flow.Gateway.Providers.Ollama
use brain_flow.Gateway.Providers.Anthropic.{AnthropicAdapter, anthropic_adapter}
use brain_flow.Gateway.Providers.Anthropic
use brain_flow.Gateway.Providers.Gemini.{GeminiAdapter, gemini_adapter}
use brain_flow.Gateway.Providers.Gemini
use Prim.Native.String

-- `cloud` are the classes whose `health` asks for a key first.
pub data Adapter : Type 0 where
  ollama : OllamaAdapter → Adapter
  compat : OpenAiCompatAdapter → Adapter
  cloud : OpenAiCompatAdapter → Adapter
  anthropic : AnthropicAdapter → Adapter
  gemini : GeminiAdapter → Adapter

abbrev pub adapter_id : Adapter → String
adapter_id (ollama a) = "ollama"
adapter_id (compat a) = a.id
adapter_id (cloud a) = a.id
adapter_id (anthropic a) = "anthropic"
adapter_id (gemini a) = "gemini"

abbrev when : {A : Type 0} → Bool → A → List A
when true a = a ∷ []
when false a = []

abbrev is_set : Option String → Bool
is_set v = elim (truthy v) [ none ↦ false | some _ ↦ true ]

-- os.environ.get(key, default)
abbrev or_given : Option String → String → String
or_given none d = d
or_given (some s) d = s

abbrev report_of : List ProviderHealth → Option ProviderHealth
report_of [] = none
report_of (h ∷ hs) = if str_eq h.provider "ollama" then some h else report_of hs

abbrev first_healthy : List ProviderHealth → Option ProviderHealth
first_healthy [] = none
first_healthy (h ∷ hs) = if h.ok then some h else first_healthy hs

-- The error is there exactly where `ok` is false.
pub record AggregateHealth : Type 0 where
  pub ok : Bool
  pub provider : String
  pub preferred_model : Option String
  pub models : List String
  pub model_count : ℕ
  pub base_url : Option String
  pub digests : Dict String
  pub providers : List ProviderHealth

abbrev or_unhealthy : Option ProviderHealth → ProviderHealth
or_unhealthy none = OpenAi.unhealthy "ollama" none
or_unhealthy (some h) = h

-- `aggregate_health`, from what the adapters have reported.
unfoldable pub aggregate : List ProviderHealth → AggregateHealth
aggregate hs =
    let local = or_unhealthy (report_of hs) in
    let preferred = first_healthy hs in
    record {
      ok = elim preferred [ none ↦ false | some _ ↦ true ];
      provider = elim preferred [ none ↦ "none" | some h ↦ or_text (some h.provider) "none" ];
      preferred_model =
          first (elim preferred [ none ↦ none | some h ↦ truthy h.preferred_model ])
            local.preferred_model;
      models = local.models;
      model_count = elim local.model_count [ none ↦ 0 | some n ↦ n ];
      base_url = local.base_url;
      digests = local.digests;
      providers = hs;
    }

module _ {W : Type 0} (environ : String → Option String) (outside : Outside W) where
  unfoldable pub custom_from_env : Option OpenAiCompatAdapter
  unfolding custom_adapter
  custom_from_env =
      elim (first (truthy (environ "BRAINFLOW_CUSTOM_BASE"))
        (truthy (environ "BRAINFLOW_OPENAI_COMPAT_BASE"))) [
          | none ↦ none
          | some base ↦ some (
              custom_adapter outside base
                (or_given (environ "BRAINFLOW_CUSTOM_SECRET_REF") "custom")
                (or_given (environ "BRAINFLOW_CUSTOM_PROVIDER_ID") "custom") none false)
        ]

  -- The placeholder where no custom endpoint is configured.
  unfoldable pub placeholder : OpenAiCompatAdapter
  unfolding custom_adapter
  placeholder =
      custom_adapter outside
        (or_given (environ "BRAINFLOW_CUSTOM_BASE_HINT") "https://127.0.0.1:0/v1") "custom" "custom"
        (some false) false

  abbrev compat_endpoint : List Adapter
  compat_endpoint = elim (truthy (environ "BRAINFLOW_OPENAI_COMPAT_BASE")) [
    | none ↦ []
    | some base ↦ when (not (is_set (environ "BRAINFLOW_CUSTOM_BASE"))) (
        compat (
          openai_compat_adapter outside base
            (or_given (environ "BRAINFLOW_OPENAI_COMPAT_SECRET_REF") "openai_compat")
            "openai_compat" true false))
  ]

  unfoldable pub default_adapters : List Adapter
  unfolding ollama_adapter openai_compat_adapter openai_adapter openrouter_adapter custom_from_env
      placeholder
  default_adapters =
      ollama (ollama_adapter environ none) ∷ []
      ++ compat_endpoint
      ++ when (elim (environ "BRAINFLOW_ENABLE_OPENAI") [ none ↦ false | some v ↦ str_eq v "1" ])
          (cloud (openai_adapter outside false))
      ++ anthropic (anthropic_adapter false)
        ∷ gemini (gemini_adapter false)
        ∷ cloud (openrouter_adapter outside false)
        ∷ compat (elim custom_from_env [ none ↦ placeholder | some a ↦ a ])
        ∷ []

  abbrev find_adapter : String → List Adapter → Option Adapter
  find_adapter provider [] = none
  find_adapter provider (a ∷ rest) =
      if str_eq (adapter_id a) provider then some a else find_adapter provider rest

  unfoldable pub get_adapter : String → Option Adapter
  unfolding default_adapters
  get_adapter provider = find_adapter provider default_adapters

  unfoldable pub health_of : Adapter → W → ProviderHealth × W
  health_of (ollama a) w = Ollama.health outside a w
  health_of (compat a) w = OpenAi.health outside a w
  health_of (cloud a) w = OpenAi.cloud_health outside a w
  health_of (anthropic a) w = Anthropic.health outside a w
  health_of (gemini a) w = Gemini.health outside a w

  -- The loop over the adapters.
  unfoldable pub probe_all : List Adapter → W → List ProviderHealth × W
  unfolding health_of
  probe_all [] w = ([], w)
  probe_all (a ∷ rest) w =
      let (h, w') = health_of a w in let (hs, w'') = probe_all rest w' in (h ∷ hs, w'')

  unfoldable pub aggregate_health : W → AggregateHealth × W
  unfolding probe_all aggregate default_adapters
  aggregate_health w = let (hs, w') = probe_all default_adapters w in (aggregate hs, w')

  unfoldable pub custom_stub : String → String → OpenAiCompatAdapter
  unfolding custom_adapter
  custom_stub provider_id base_url_hint =
      let base = or_text (some base_url_hint) "https://127.0.0.1:0/v1" in
      custom_adapter outside base (String.◌++◌ "custom:" provider_id) provider_id
        (some (
          if is_infix (codes "127.0.0.1") (codes base) || is_infix (codes "localhost") (codes base)
          then false
          else true))
        false

  -- The chat of whichever adapter it is.
  unfoldable pub chat_with :
      {M : Type 0} → Money M → Adapter → Chat → Option (RequestBudget M) → W → Outcome M W
  chat_with money (ollama a) q b w = Ollama.chat outside money a q b w
  chat_with money (compat a) q b w = OpenAi.chat outside money a q b w
  chat_with money (cloud a) q b w = OpenAi.chat outside money a q b w
  chat_with money (anthropic a) q b w = Anthropic.chat outside money a q b w
  chat_with money (gemini a) q b w = Gemini.chat outside money a q b w
