-- ===== src/Gateway/Providers/Ollama.antt =====
-- gateway/providers/ollama.py: the models of the local machine.
use brain_flow.Prelude.{
  String, true, ◌||◌, Option, none, some, List, [], ◌∷◌, str_eq, ltb, if◌then◌else◌,
}
use brain_flow.Prelude.Dict.{Dict, get, put}
use brain_flow.Prelude.Int.{ℤ, pos}
use brain_flow.Prelude.Text.{codes, starts_with, char_count}
use brain_flow.Gateway.Budget.{Money, RequestBudget}
use brain_flow.Gateway.Secrets.{truthy}
use brain_flow.Gateway.Providers.{
  Chat, Options, HttpRequest, Body, nothing, ollama_chat, ollama_embed, ModelEntry, Reply, Outside,
  Result, done, failed, rstrip_slash, send_as, Outcome, budgeted, unbudgeted,
}
use brain_flow.Gateway.Providers.OpenAi.{ProviderHealth, unhealthy, healthy, Listed}

pub record OllamaAdapter : Type 0 where
  pub base_url : String

-- os.environ.get("BRAINFLOW_OLLAMA_BASE", DEFAULT_OLLAMA_BASE).rstrip("/")
unfoldable pub ollama_base_url : (String → Option String) → String
ollama_base_url environ =
    rstrip_slash
      (elim (environ "BRAINFLOW_OLLAMA_BASE") [ none ↦ "http://127.0.0.1:11434" | some u ↦ u ])

unfoldable pub ollama_adapter : (String → Option String) → Option String → OllamaAdapter
unfolding ollama_base_url
ollama_adapter environ base_url = record {
  base_url = rstrip_slash (elim (truthy base_url) [ none ↦ ollama_base_url environ | some u ↦ u ]);
}

-- The entries with a name. An entry that is no object raises an exception: `none`.
unfoldable pub named : List (Option ModelEntry) → Option (List (String × ModelEntry))
named [] = some []
named (none ∷ ms) = none
named (some m ∷ ms) = elim (named ms) [
  | none ↦ none
  | some rest ↦ elim (truthy m.name) [ none ↦ some rest | some n ↦ some ((n, m) ∷ rest) ]
]

abbrev names_of : List (String × ModelEntry) → List String
names_of [] = []
names_of ((n, m) ∷ ms) = n ∷ names_of ms

-- m.get("digest") or m.get("details", {}).get("parent_model")
abbrev digest_of : ModelEntry → Option String
digest_of m = elim (truthy m.digest) [ some d ↦ some d | none ↦ m.parent_model ]

-- The dictionary by name: a later entry of a name replaces an earlier one.
unfoldable pub digests_from :
    Dict (Option String) → List (String × ModelEntry) → Dict (Option String)
digests_from d [] = d
digests_from d ((n, m) ∷ ms) = digests_from (put d n (digest_of m)) ms

-- {k: v for k, v in digests.items() if v}
unfoldable pub with_digest : Dict (Option String) → Dict String
with_digest [] = []
with_digest ((k, v) ∷ d) = elim (truthy v) [
  | none ↦ with_digest d
  | some t ↦ (k, t) ∷ with_digest d
]

abbrev first_with : String → List String → Option String
first_with candidate [] = none
first_with candidate (n ∷ names) =
    if str_eq n candidate || starts_with (codes n) (codes candidate)
    then some n
    else first_with candidate names

abbrev first_of : List String → List String → Option String
first_of [] names = none
first_of (c ∷ candidates) names = elim (first_with c names) [
  | some n ↦ some n
  | none ↦ first_of candidates names
]

-- sorted(names, key=len)[0]: the first of the shortest names.
abbrev shortest : String → List String → String
shortest best [] = best
shortest best (n ∷ names) =
    shortest (if ltb (char_count n) (char_count best) then n else best) names

abbrev preferred_names : List String
preferred_names = "llama3.2:3b" ∷ "llama3.2" ∷ "llama3.1" ∷ "qwen2.5" ∷ "mistral" ∷ []

-- `_prefer_model`, of the names `n ∷ names`.
unfoldable pub prefer_model : String → List String → String
prefer_model n names = elim (first_of preferred_names (n ∷ names)) [
  | some m ↦ m
  | none ↦ shortest n names
]

-- kwargs.get("options") or {"temperature": 0.2}
abbrev pub options_of : Chat → Options
options_of q = elim q.options [
  | some o ↦ o
  | none ↦ record { others = "temperature: 0.2"; num_predict = none }
]

abbrev pub with_limit : Options → Option ℤ → Options
with_limit o none = o
with_limit o (some n) = record o { num_predict = some n }

module _ {W : Type 0} (outside : Outside W) where
  abbrev request_to : OllamaAdapter → String → Body → HttpRequest
  request_to a path body = record { base_url = a.base_url; path = path; key = none; body = body }

  unfoldable pub health : OllamaAdapter → W → ProviderHealth × W
  unfolding named digests_from with_digest prefer_model
  health a w =
      let (r, w') = send_as outside (request_to a "/api/tags" nothing) w in
      (
        elim r [
          | failed _ ↦ unhealthy "ollama" (some a.base_url)
          | done reply ↦ elim (named reply.models) [
            | none ↦ unhealthy "ollama" (some a.base_url)
            | some ms ↦ elim (names_of ms) [
              | [] ↦ unhealthy "ollama" (some a.base_url)
              | n ∷ names ↦
                  record (healthy "ollama" a.base_url (prefer_model n names) (n ∷ names)) {
                    digests = with_digest (digests_from [] ms);
                  }
            ]
          ]
        ],
        w',
      )

  abbrev list_names : Dict String → List String → List Listed
  list_names digests [] = []
  list_names digests (n ∷ names) =
      record { provider = "ollama"; name = n; digest = get digests n; is_local = true }
      ∷ list_names digests names

  unfoldable pub list_models : OllamaAdapter → W → List Listed × W
  unfolding health
  list_models a w = let (h, w') = health a w in (list_names h.digests h.models, w')

  unfoldable pub post_chat : OllamaAdapter → Chat → Options → W → Result Reply × W
  post_chat a q options w =
      send_as outside
        (request_to a "/api/chat" (ollama_chat q.model q.stream q.messages options q.format)) w

  -- The endpoint takes one text at a time.
  unfoldable pub embed_all : OllamaAdapter → String → List String → W → Result (List String) × W
  embed_all a model [] w = (done [], w)
  embed_all a model (text ∷ inputs) w =
      let (r, w') = send_as outside (request_to a "/api/embeddings" (ollama_embed model text)) w in
      let rest = embed_all a model inputs w' in
      elim r [
        | failed e ↦ (failed e, w')
        | done reply ↦
            (elim rest.0 [ failed e ↦ failed e | done vs ↦ done (reply.embedding ∷ vs) ], rest.1)
      ]

  module _ {M : Type 0} (money : Money M) where
    unfoldable pub chat : OllamaAdapter → Chat → Option (RequestBudget M) → W → Outcome M W
    unfolding budgeted post_chat
    chat a q budget w = elim budget [
      | none ↦ unbudgeted (post_chat a q (with_limit (options_of q) q.max_tokens) w)
      | some b ↦
          budgeted money (pos 256) q.max_tokens b
            (λ n w'. post_chat a q (with_limit (options_of q) (some n)) w') w
    ]
