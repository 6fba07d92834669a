-- ===== src/Gateway/Providers.antt =====
-- gateway/providers/base.py, http_util.py: what the adapters of the LLM providers share. HTTP, `urlparse`,
-- `quote`, `str.lower`, `str.strip` and the store of the secrets are parameters, and of a response's JSON
-- only what the adapters read is there.
pub mod OpenAi
pub mod Ollama
pub mod Anthropic
pub mod Gemini
pub mod Adapters
pub mod Planned
pub mod Spending
pub mod Encrypted
mod Tests
use brain_flow.Prelude.{
  ℕ, String, Bool, true, false, ◌&&◌, ◌||◌, not, Option, none, some, List, [], ◌∷◌, ◌++◌, str_eq,
  ◌==◌, if◌then◌else◌,
}
use brain_flow.Prelude.Dict.{Dict}
use brain_flow.Prelude.Int.{ℤ, pos, is_zero}
use brain_flow.Prelude.Text.{codes, starts_with, or_text, is_empty}
use brain_flow.Gateway.Budget.{
  Money, RequestBudget, BudgetExceeded, Checked, ok, raise, clamp_max_tokens, check_before_request,
  record_usage,
}
use brain_flow.Gateway.Budget.Usage.{Raw, extract_usage_tokens}
use brain_flow.Gateway.Secrets.{Answer}
use Prim.Native.Char.{code}
use Prim.Native.String

-- A message of a chat; its content is a text.
pub record Message : Type 0 where
  pub role : Option String
  pub content : Option String

-- Ollama's options: `num_predict`, and the others as a text.
pub record Options : Type 0 where
  pub others : String
  pub num_predict : Option ℤ

-- The arguments of `chat`, but for the budget: that is the one of the call, or else the adapter's own. `options` is `none` also where it is empty; of the other objects there is the
-- JSON text.
pub record Chat : Type 0 where
  pub model : String
  pub messages : List Message
  pub max_tokens : Option ℤ
  pub stream : Bool
  pub response_format : Option String
  pub format : Option String
  pub tools : Option String
  pub options : Option Options

-- The bodies of the requests.
pub data Body : Type 0 where
  nothing : Body
  open_ai_chat : String → List Message → Bool → Option ℤ → Option String → Option String → Body
  open_ai_embed : String → List String → Body
  ollama_chat : String → Bool → List Message → Options → Option String → Body
  ollama_embed : String → String → Body
  anthropic_chat : String → ℤ → List Message → Option String → Option String → Body
  gemini_chat : List Message → ℤ → Bool → Option String → Body
  gemini_embed : String → Body

-- A request, with the key that it carries.
pub record HttpRequest : Type 0 where
  pub base_url : String
  pub path : String
  pub key : Option String
  pub body : Body

-- An entry of a list of models.
pub record ModelEntry : Type 0 where
  pub id : Option String
  pub name : Option String
  pub digest : Option String
  pub parent_model : Option String
  pub methods : List String

-- What the adapters read of a response. An entry that is no object is `none`.
pub record Reply : Type 0 where
  pub usage : Raw
  pub listed : List (Option ModelEntry)
  pub models : List (Option ModelEntry)
  pub embeddings : List String
  pub embedding : String

-- What is outside: `send` gives no reply where an exception is raised, by the client or by an error
-- status.
pub record Outside (W : Type 0) : Type 0 where
  pub send : HttpRequest → W → Option Reply × W
  pub get_secret : String → W → Answer (Option String)
  pub hostname : String → Option String
  pub lower : String → String
  pub strip : String → String
  pub quote : String → String

pub data ChatError : Type 0 where
  tls_required key_missing invalid_ref http_error not_implemented : ChatError
  over_budget : BudgetExceeded → ChatError

pub data Result (A : Type 0) : Type 0 where
  done : A → Result A
  failed : ChatError → Result A

-- s.rstrip("/")
abbrev pub rstrip_slash : String → String
rstrip_slash String.[] = String.[]
rstrip_slash (String.◌∷◌ c s) =
    let rest = rstrip_slash s in
    if is_empty rest && code c == b'/' then String.[] else String.◌∷◌ c rest

module _ {W : Type 0} (outside : Outside W) where
  unfoldable pub is_loopback : String → Bool
  is_loopback url =
      let host = outside.lower (or_text (outside.hostname url) "") in
      str_eq host "127.0.0.1" || str_eq host "localhost" || str_eq host "::1"

  abbrev pub is_https : String → Bool
  is_https url = starts_with (codes (outside.lower url)) (codes "https://")

  abbrev pub send_as : HttpRequest → W → Result Reply × W
  send_as q w =
      let (r, w') = outside.send q w in (elim r [ none ↦ failed http_error | some a ↦ done a ], w')

-- What a chat leaves: the budget, which is an object that the caller keeps, and what is outside.
pub record Outcome (M W : Type 0) : Type 0 where
  pub budget : Option (RequestBudget M)
  pub world : W
  pub result : Result Reply

-- extract_usage_tokens(data) or max_tokens
abbrev pub used_tokens : Raw → ℤ → ℤ
used_tokens raw n = let t = extract_usage_tokens raw in if is_zero t then n else t

module _ {M : Type 0} (money : Money M) where
  -- The limit on the tokens of a request, from `clamp_max_tokens` and `check_before_request`.
  unfoldable pub plan : ℤ → Option ℤ → RequestBudget M → Checked ℤ
  plan default planned b = elim (clamp_max_tokens money planned default b) [
    | raise e ↦ raise e
    | ok n ↦ elim (check_before_request money (some n) b) [ some e ↦ raise e | none ↦ ok n ]
  ]

module _ {M W : Type 0} (money : Money M) where
  -- After the request: without a reply the budget is as it was.
  unfoldable pub settle : ℤ → RequestBudget M → Result Reply × W → Outcome M W
  settle n b (failed e, w) = record { budget = some b; world = w; result = failed e }
  settle n b (done r, w) =
      let (b', error) = record_usage money (used_tokens r.usage n) money.zero_usd b in
      record {
        budget = some b';
        world = w;
        result = elim error [ none ↦ done r | some e ↦ failed (over_budget e) ];
      }

  -- A chat within a budget.
  unfoldable pub budgeted :
      ℤ → Option ℤ → RequestBudget M → (ℤ → W → Result Reply × W) → W → Outcome M W
  budgeted default planned b post w = elim (plan money default planned b) [
    | raise e ↦ record { budget = some b; world = w; result = failed (over_budget e) }
    | ok n ↦ settle n b (post n w)
  ]

module _ {M W : Type 0} where
  abbrev pub unbudgeted : Result Reply × W → Outcome M W
  unbudgeted (r, w) = record { budget = none; world = w; result = r }

  abbrev pub refuse : Option (RequestBudget M) → ChatError → W → Outcome M W
  refuse b e w = record { budget = b; world = w; result = failed e }
