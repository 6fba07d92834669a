-- ===== src/Gateway/Providers/Anthropic.antt =====
-- gateway/providers/anthropic.py: Anthropic's protocol.
use brain_flow.Prelude.{
  String, Bool, true, false, ◌||◌, Option, none, some, List, [], ◌∷◌, str_eq, if◌then◌else◌,
}
use brain_flow.Prelude.Int.{ℤ, pos}
use brain_flow.Prelude.Text.{or_text}
use brain_flow.Gateway.Budget.{Money, RequestBudget}
use brain_flow.Gateway.Secrets.{ok, err, truthy}
use brain_flow.Gateway.Providers.{
  Message, Chat, Body, nothing, anthropic_chat, ModelEntry, Reply, Outside, Result, done, failed,
  send_as, Outcome, budgeted, unbudgeted, invalid_ref,
}
use brain_flow.Gateway.Providers.OpenAi.{ProviderHealth, unhealthy, healthy, Listed}
use Prim.Native.String

pub record AnthropicAdapter : Type 0 where
  pub base_url : String
  pub api_key_ref : String
  pub has_transport : Bool

abbrev pub anthropic_adapter : Bool → AnthropicAdapter
anthropic_adapter has_transport = record {
  base_url = "https://api.anthropic.com";
  api_key_ref = "anthropic";
  has_transport = has_transport;
}

unfoldable pub ids_of : List (Option ModelEntry) → List String
ids_of [] = []
ids_of (none ∷ ms) = ids_of ms
ids_of (some m ∷ ms) = elim (truthy m.id) [ none ↦ ids_of ms | some n ↦ n ∷ ids_of ms ]

abbrev pub role_of : Message → String
role_of m = or_text m.role "user"

abbrev pub is_system : Message → Bool
is_system m = str_eq (role_of m) "system"

-- The texts of the system messages.
unfoldable pub system_parts : List Message → List String
system_parts [] = []
system_parts (m ∷ ms) =
    let rest = system_parts ms in if is_system m then or_text m.content "" ∷ rest else rest

-- A role that is neither is "user".
abbrev api_role : String → String
api_role role = if str_eq role "user" || str_eq role "assistant" then role else "user"

unfoldable pub other_messages : List Message → List Message
other_messages [] = []
other_messages (m ∷ ms) =
    let rest = other_messages ms in
    if is_system m then rest else record m { role = some (api_role (role_of m)) } ∷ rest

abbrev pub ping : Message
ping = record { role = some "user"; content = some "ping" }

unfoldable pub api_messages : List Message → List Message
unfolding other_messages
api_messages ms = elim (other_messages ms) [ [] ↦ ping ∷ [] | n ∷ ns ↦ n ∷ ns ]

-- "\n".join(parts), if there are any
abbrev pub join_lines : List String → Option String
join_lines [] = none
join_lines (p ∷ ps) = elim (join_lines ps) [
  | none ↦ some p
  | some s ↦ some (String.◌++◌ p (String.◌++◌ "\n" s))
]

abbrev pub wants_json : Chat → Bool
wants_json q = elim q.response_format [
  | some _ ↦ true
  | none ↦ elim q.format [ none ↦ false | some f ↦ str_eq f "json" ]
]

module _ {W : Type 0} (outside : Outside W) where
  unfoldable pub request : AnthropicAdapter → String → Body → W → Result Reply × W
  request a path body w = elim (outside.get_secret a.api_key_ref w) [
    | err _ ↦ (failed invalid_ref, w)
    | ok key ↦
        send_as outside
          (record { base_url = a.base_url; path = path; key = truthy key; body = body }) w
  ]

  unfoldable pub probe : AnthropicAdapter → W → ProviderHealth × W
  unfolding request ids_of
  probe a w =
      let (r, w') = request a "/v1/models" nothing w in
      (
        elim r [
          | failed _ ↦ unhealthy "anthropic" (some a.base_url)
          | done reply ↦ elim (ids_of reply.listed) [
            | [] ↦ unhealthy "anthropic" none
            | n ∷ names ↦ healthy "anthropic" a.base_url n (n ∷ names)
          ]
        ],
        w',
      )

  -- The adapter's reference is valid.
  unfoldable pub health : AnthropicAdapter → W → ProviderHealth × W
  unfolding probe
  health a w = elim (outside.get_secret a.api_key_ref w) [
    | err _ ↦ (unhealthy "anthropic" none, w)
    | ok key ↦ elim (truthy key) [
      | some _ ↦ probe a w
      | none ↦ if a.has_transport then probe a w else (unhealthy "anthropic" none, w)
    ]
  ]

  abbrev list_names : List String → List Listed
  list_names [] = []
  list_names (n ∷ names) =
      record { provider = "anthropic"; name = n; digest = none; is_local = false }
      ∷ list_names names

  unfoldable pub list_models : AnthropicAdapter → W → List Listed × W
  unfolding health
  list_models a w = let (h, w') = health a w in (list_names h.models, w')

  -- body["system"], where there is one
  unfoldable pub system_text : Chat → Option String
  unfolding system_parts
  system_text q =
      let system = join_lines (system_parts q.messages) in
      if wants_json q
      then some (outside.strip (String.◌++◌ (or_text system "") "\nRespond with valid JSON only."))
      else system

  unfoldable pub post_chat : AnthropicAdapter → Chat → ℤ → W → Result Reply × W
  unfolding request api_messages system_text
  post_chat a q n w =
      request a "/v1/messages"
        (anthropic_chat q.model n (api_messages q.messages) (system_text q) q.tools) w

  module _ {M : Type 0} (money : Money M) where
    unfoldable pub chat : AnthropicAdapter → Chat → Option (RequestBudget M) → W → Outcome M W
    unfolding budgeted post_chat
    chat a q budget w = elim budget [
      | none ↦ unbudgeted (post_chat a q (elim q.max_tokens [ none ↦ pos 1024 | some n ↦ n ]) w)
      | some b ↦ budgeted money (pos 1024) q.max_tokens b (λ n w'. post_chat a q n w') w
    ]
