-- ===== src/Gateway/Providers/Tests.antt =====
-- The adapters of gateway/providers and the secrets of gateway/secrets.py on small inputs.
use brain_flow.Prelude.{
  ℕ, String, ◌≡◌, refl, sym, ap, true, false, Option, none, some, List, [], ◌∷◌, All, if_ind, ◌∙◌,
  str_eq, if◌then◌else◌,
}
use brain_flow.Prelude.Dict.{has}
use brain_flow.Prelude.Int.{ℤ, pos, ◌+ℤ◌, ◌-ℤ◌}
use brain_flow.Gateway.Budget.{
  Money, RequestBudget, clamp_max_tokens, check_before_request, record_usage, remaining_tokens,
}
use brain_flow.Gateway.Budget.Usage.{extract_usage_tokens}
use brain_flow.Gateway.Secrets.{
  Keyring, Secrets, os_keyring, ok, is_ref, set_secret, delete_secret, lookup_secret, pop,
}
use brain_flow.Gateway.Secrets.Kept.{IsFaithful, after_set, set_secret-get}
use brain_flow.Gateway.Providers.{
  Chat, Body, open_ai_chat, ollama_chat, anthropic_chat, gemini_chat, HttpRequest, Reply, Outside,
  failed, tls_required, is_loopback, plan, settle, budgeted,
}
use brain_flow.Gateway.Providers.OpenAi.{
  openai_compat_adapter, health, cloud_health, embeddings, chat,
}
use brain_flow.Gateway.Providers.Ollama
use brain_flow.Gateway.Providers.Adapters.{
  Adapter, ollama, anthropic, chat_with, adapter_id, default_adapters,
}
use brain_flow.Gateway.Providers.Anthropic
use brain_flow.Gateway.Providers.Anthropic.{anthropic_adapter}
use brain_flow.Gateway.Providers.Spending.{chat_all}
use brain_flow.Gateway.Providers.Encrypted.{IsGuarded, openai_compat_adapter-Allows}

-- The limit on the tokens that a request states.
abbrev limit_of : Body → Option ℤ
limit_of (open_ai_chat _ _ _ n _ _) = n
limit_of (ollama_chat _ _ _ o _) = o.num_predict
limit_of (anthropic_chat _ n _ _ _) = some n
limit_of (gemini_chat _ n _ _) = some n
limit_of _ = none

-- A provider that reports as many tokens as it may use, and a log of the requests.
abbrev reply : Option ℤ → Reply
reply n = record {
  usage = record {
    usage = some (record {
      total_tokens = n;
      input_tokens = none;
      output_tokens = none;
      prompt_tokens = none;
      completion_tokens = none;
    });
    usage_metadata = none;
    eval_count = none;
    prompt_eval_count = none;
  };
  listed = [];
  models = [];
  embeddings = [];
  embedding = "[]";
}

abbrev outside : Outside (List HttpRequest)
outside = record {
  send = λ q w. (some (reply (limit_of q.body)), q ∷ w);
  get_secret = λ ref w. ok (some "key");
  hostname = λ url. some "example.org";
  lower = λ s. s;
  strip = λ s. s;
  quote = λ s. s;
}

abbrev money : Money ℕ
money = record {
  zero_usd = 0;
  add = λ a b. a;
  exceeds = λ a b. false;
  reaches = λ a b. false;
  is_zero_usd = λ a. true;
}

abbrev budget : RequestBudget ℕ
budget = record {
  max_tokens = some (pos 2000);
  max_spend_usd = none;
  max_requests = some (pos 3);
  tokens_used = pos 0;
  spend_usd = 0;
  requests_used = 0;
  label = "run";
  history = [];
}

abbrev question : Chat
question = record {
  model = "m";
  messages = [];
  max_tokens = none;
  stream = false;
  response_format = none;
  format = none;
  tools = none;
  options = none;
}

abbrev environ : String → Option String
environ key = none

abbrev chats : List (Adapter × Chat)
chats =
    (anthropic (anthropic_adapter false), question)
    ∷ (ollama (record { base_url = "http://127.0.0.1:11434" }), question)
    ∷ (anthropic (anthropic_adapter false), question)
    ∷ (anthropic (anthropic_adapter false), question)
    ∷ []

-- The first reply takes 900 of 500 tokens; the other chats are refused.
abbrev small : RequestBudget ℕ
small = record budget { max_tokens = some (pos 500) }

abbrev greedy : Outside (List HttpRequest)
greedy = record outside { send = λ q w. (some (reply (some (pos 900))), q ∷ w) }

-- The third request gets what is left, and the fourth is refused.
tokens_of : Option (RequestBudget ℕ) → ℤ
tokens_of b = elim b [ none ↦ pos 0 | some c ↦ c.tokens_used ]

chats_spend : tokens_of (chat_all money environ outside chats (some budget) []).0 ≡ pos 2000
unfolding tokens_of chat_all chat_with Anthropic.chat Ollama.chat budgeted plan settle
    clamp_max_tokens check_before_request record_usage remaining_tokens extract_usage_tokens ◌+ℤ◌
    ◌-ℤ◌
chats_spend = refl

one_reply_over : tokens_of (chat_all money environ greedy chats (some small) []).0 ≡ pos 900
unfolding tokens_of chat_all chat_with Anthropic.chat Ollama.chat budgeted plan settle
    clamp_max_tokens check_before_request record_usage remaining_tokens extract_usage_tokens ◌+ℤ◌
    ◌-ℤ◌
one_reply_over = refl

abbrev OnlyGuarded : List HttpRequest → Type 0
OnlyGuarded log = All (λ q. IsGuarded outside q.base_url) log

openai_compat_adapter-Allows_example :
    let a = openai_compat_adapter outside "http://example.org/v1/" "ref" "custom" true false in
    OnlyGuarded (health outside a []).1
    × OnlyGuarded (cloud_health outside a []).1
    × ((model : String) (inputs : List String)
        → OnlyGuarded (embeddings outside a model inputs []).1)
    × ((q : Chat) (b : Option (RequestBudget ℕ)) → OnlyGuarded (chat outside money a q b []).world)
openai_compat_adapter-Allows_example =
    openai_compat_adapter-Allows outside money OnlyGuarded (λ q w g i. (g, i))
      "http://example.org/v1/" "ref" "custom" false [] tt

-- A keyring that is a function, and never fails.
abbrev K : Type 0
K = String → Option String

abbrev keyring : Keyring K
keyring = record {
  get_password = λ ref k. some (k ref);
  set_password = λ ref value k. some (λ j. if str_eq ref j then some value else k j);
  delete_password = λ ref k. some (λ j. if str_eq ref j then none else k j);
}

abbrev password : String → Option K → Option (Option String)
password other k = elim k [ none ↦ none | some f ↦ some (f other) ]

keyring-IsFaithful : IsFaithful keyring
keyring-IsFaithful = record {
  reads_back = λ ref value k k' e other.
      sym (ap (password other) e)
      ∙ if_ind
          (λ (p : Option String).
            some p ≡ (if str_eq ref other then some (some value) else some (k other)))
          (str_eq ref other) (λ t. rw t refl) (λ t. rw t refl);
  removes = λ ref k k' e other.
      sym (ap (password other) e)
      ∙ if_ind
          (λ (p : Option String). some p ≡ (if str_eq ref other then some none else some (k other)))
          (str_eq ref other) (λ t. rw t refl) (λ t. rw t refl);
}

abbrev secrets : Secrets K
secrets = record { memory = ("openai", "old") ∷ []; keyring = λ j. none }

abbrev stored : Secrets K
stored = record { memory = []; keyring = λ j. if str_eq "openai" j then some "sk" else none }

set_secret_run :
    set_secret environ (λ s. s) keyring "openai" "sk" true secrets ≡ ok (os_keyring, stored)
unfolding set_secret is_ref pop
set_secret_run = refl

set_secret-get_example : lookup_secret environ (λ s. s) keyring "openai" stored ≡ (
    if str_eq "openai" "openai"
    then after_set environ (λ s. s) keyring os_keyring "openai" "sk"
    else lookup_secret environ (λ s. s) keyring "openai" secrets)
unfolding has
set_secret-get_example =
    set_secret-get environ (λ s. s) keyring "openai" "sk" true secrets stored os_keyring
      keyring-IsFaithful (refl, tt) set_secret_run "openai"

abbrev emptied : Secrets K
emptied = record { memory = []; keyring = λ j. if str_eq "openai" j then none else none }

delete_secret_run : delete_secret environ (λ s. s) keyring "openai" secrets ≡ ok emptied
unfolding delete_secret is_ref
delete_secret_run = refl

-- A newline at the end of a reference is let through, and one inside is not.
newline_ref : is_ref "openai\n" ≡ true
unfolding is_ref
newline_ref = refl

inner_newline : is_ref "open\nai" ≡ false
unfolding is_ref
inner_newline = refl

-- Without TLS nothing is sent to another machine.
plain_text_refused :
    chat outside money
      (openai_compat_adapter outside "http://example.org/v1/" "ref" "custom" true false)
      question
      none
      []
    ≡ record { budget = none; world = []; result = failed tls_required }
unfolding chat openai_compat_adapter is_loopback
plain_text_refused = refl

preferred : Ollama.prefer_model "phi3" ("llama3.2:1b" ∷ []) ≡ "llama3.2:1b"
unfolding Ollama.prefer_model
preferred = refl

shortest_preferred : Ollama.prefer_model "gemma2" ("phi3" ∷ "phi4" ∷ []) ≡ "phi3"
unfolding Ollama.prefer_model
shortest_preferred = refl

-- With no variable set, the placeholder stands in for a custom endpoint.
adapter_ids : List Adapter → List String
adapter_ids [] = []
adapter_ids (a ∷ rest) = adapter_id a ∷ adapter_ids rest

adapters_without_environment :
    adapter_ids (default_adapters environ outside)
    ≡ "ollama" ∷ "anthropic" ∷ "gemini" ∷ "openrouter" ∷ "custom" ∷ []
unfolding adapter_ids default_adapters
adapters_without_environment = refl
