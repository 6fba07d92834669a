-- ===== src/Gateway/Providers/Gemini.antt =====
-- gateway/providers/gemini.py: Gemini's protocol.
use brain_flow.Prelude.{
  ℕ, zero, suc, String, Bool, true, false, ◌&&◌, not, Option, none, some, List, [], ◌∷◌, str_eq,
  any, if◌then◌else◌,
}
use brain_flow.Prelude.Int.{ℤ, pos}
use brain_flow.Prelude.Text.{codes, starts_with, is_infix, is_empty, or_text}
use brain_flow.Gateway.Budget.{Money, RequestBudget}
use brain_flow.Gateway.Secrets.{ok, err, truthy}
use brain_flow.Gateway.Providers.{
  Message, Chat, HttpRequest, Body, nothing, gemini_chat, gemini_embed, ModelEntry, Reply, Outside,
  Result, done, failed, send_as, Outcome, budgeted, unbudgeted, refuse, invalid_ref, key_missing,
}
use brain_flow.Gateway.Providers.OpenAi.{ProviderHealth, unhealthy, healthy, Listed}
use brain_flow.Gateway.Providers.Anthropic.{
  role_of, is_system, system_parts, ping, join_lines, wants_json,
}
use Prim.Native.String

pub record GeminiAdapter : Type 0 where
  pub base_url : String
  pub api_key_ref : String
  pub has_transport : Bool

abbrev pub gemini_adapter : Bool → GeminiAdapter
gemini_adapter has_transport = record {
  base_url = "https://generativelanguage.googleapis.com/v1beta";
  api_key_ref = "gemini";
  has_transport = has_transport;
}

-- s[n:]
abbrev drop_chars : ℕ → String → String
drop_chars zero s = s
drop_chars (suc n) String.[] = String.[]
drop_chars (suc n) (String.◌∷◌ c s) = drop_chars n s

-- "models/gemini-1.5-flash" without the beginning
abbrev bare_name : String → String
bare_name name = if starts_with (codes name) (codes "models/") then drop_chars 7 name else name

abbrev can_generate : List String → Bool
can_generate [] = true
can_generate (m ∷ ms) = any (str_eq "generateContent") (m ∷ ms)

unfoldable pub generative : List (Option ModelEntry) → List String
generative [] = []
generative (none ∷ ms) = generative ms
generative (some m ∷ ms) =
    let name = bare_name (or_text m.name "") in
    let rest = generative ms in
    if not (is_empty name) && can_generate m.methods then name ∷ rest else rest

abbrev gemini_role : String → String
gemini_role role = if str_eq role "assistant" then "model" else "user"

unfoldable pub other_contents : List Message → List Message
other_contents [] = []
other_contents (m ∷ ms) =
    let rest = other_contents ms in
    if is_system m
    then rest
    else record { role = some (gemini_role (role_of m)); content = some (or_text m.content "") }
      ∷ rest

unfoldable pub contents : List Message → List Message
unfolding other_contents
contents ms = elim (other_contents ms) [ [] ↦ ping ∷ [] | n ∷ ns ↦ n ∷ ns ]

module _ {W : Type 0} (outside : Outside W) where
  abbrev first_flash : String → List String → String
  first_flash n [] = n
  first_flash n (m ∷ names) =
      if is_infix (codes "flash") (codes (outside.lower m)) then m else first_flash n names

  abbrev request_to : GeminiAdapter → String → Option String → Body → HttpRequest
  request_to a path key body = record { base_url = a.base_url; path = path; key = key; body = body }

  unfoldable pub probe : GeminiAdapter → Option String → W → ProviderHealth × W
  unfolding generative
  probe a key w =
      let (r, w') = send_as outside (request_to a "/models" key nothing) w in
      (
        elim r [
          | failed _ ↦ unhealthy "gemini" (some a.base_url)
          | done reply ↦ elim (generative reply.models) [
            | [] ↦ unhealthy "gemini" none
            | n ∷ names ↦ healthy "gemini" a.base_url (first_flash n (n ∷ names)) (n ∷ names)
          ]
        ],
        w',
      )

  -- The adapter's reference is valid.
  unfoldable pub health : GeminiAdapter → W → ProviderHealth × W
  unfolding probe
  health a w = elim (outside.get_secret a.api_key_ref w) [
    | err _ ↦ (unhealthy "gemini" none, w)
    | ok key ↦ elim (truthy key) [
      | some k ↦ probe a (some k) w
      | none ↦ if a.has_transport then probe a none w else (unhealthy "gemini" none, w)
    ]
  ]

  abbrev list_names : List String → List Listed
  list_names [] = []
  list_names (n ∷ names) =
      record { provider = "gemini"; name = n; digest = none; is_local = false } ∷ list_names names

  unfoldable pub list_models : GeminiAdapter → W → List Listed × W
  unfolding health
  list_models a w = let (h, w') = health a w in (list_names h.models, w')

  -- The path of a request of a model.
  unfoldable pub model_path : String → String → String
  model_path model action =
      let full =
        if starts_with (codes model) (codes "models/")
        then model
        else String.◌++◌ "models/" model in
      String.◌++◌ "/" (String.◌++◌ (outside.quote full) action)

  unfoldable pub post_chat : GeminiAdapter → Option String → Chat → ℤ → W → Result Reply × W
  unfolding contents model_path
  post_chat a key q n w =
      send_as outside
        (request_to a (model_path q.model ":generateContent") key (
          gemini_chat (contents q.messages) n (wants_json q)
            (join_lines (system_parts q.messages))))
        w

  unfoldable pub embed_all :
      GeminiAdapter → Option String → String → List String → W → Result (List String) × W
  unfolding model_path
  embed_all a key model [] w = (done [], w)
  embed_all a key model (text ∷ inputs) w =
      let (r, w') =
        send_as outside (request_to a (model_path model ":embedContent") key (gemini_embed text))
          w in
      let rest = embed_all a key model inputs w' in
      elim r [
        | failed e ↦ (failed e, w')
        | done reply ↦
            (elim rest.0 [ failed e ↦ failed e | done vs ↦ done (reply.embedding ∷ vs) ], rest.1)
      ]

  -- The key, or the error that there is none.
  abbrev pub key_of : GeminiAdapter → W → Result (Option String)
  key_of a w = elim (outside.get_secret a.api_key_ref w) [
    | err _ ↦ failed invalid_ref
    | ok key ↦ elim (truthy key) [
      | some k ↦ done (some k)
      | none ↦ if a.has_transport then done none else failed key_missing
    ]
  ]

  unfoldable pub embeddings : GeminiAdapter → String → List String → W → Result (List String) × W
  unfolding embed_all
  embeddings a model inputs w = elim (key_of a w) [
    | failed e ↦ (failed e, w)
    | done key ↦ embed_all a key model inputs w
  ]

  module _ {M : Type 0} (money : Money M) where
    unfoldable pub chat : GeminiAdapter → Chat → Option (RequestBudget M) → W → Outcome M W
    unfolding budgeted post_chat
    chat a q budget w = elim (key_of a w) [
      | failed e ↦ refuse budget e w
      | done key ↦ elim budget [
        | none ↦
            unbudgeted (post_chat a key q (elim q.max_tokens [ none ↦ pos 1024 | some n ↦ n ]) w)
        | some b ↦ budgeted money (pos 1024) q.max_tokens b (λ n w'. post_chat a key q n w') w
      ]
    ]
