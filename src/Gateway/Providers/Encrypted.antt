-- ===== src/Gateway/Providers/Encrypted.antt =====
-- gateway/providers/openai_compat.py: which requests the adapter of a configured endpoint makes.
use brain_flow.Prelude.{
  String, ◌≡◌, refl, Bool, true, false, ◌⊎◌, inl, inr, not, Option, none, some, List, arith,
  if◌then◌else◌, if_ind, Bool-cases,
}
use brain_flow.Prelude.Int.{ℤ, pos}
use brain_flow.Gateway.Budget.{Money, RequestBudget, Checked, ok, raise}
use brain_flow.Gateway.Secrets.{Answer, ok, err, truthy}
use brain_flow.Gateway.Providers.{
  Chat, Body, HttpRequest, Reply, Outside, ChatError, Result, done, failed, is_loopback, is_https,
  send_as, Outcome, plan, settle, budgeted,
}
use brain_flow.Gateway.Providers.OpenAi
use brain_flow.Gateway.Providers.OpenAi.{
  OpenAiCompatAdapter, openai_compat_adapter, lacks_tls, request, health, cloud_health, post_chat,
  embeddings, chat, ProviderHealth,
}

module _ {W : Type 0} (outside : Outside W) where
  -- A request that goes over TLS, or stays on the machine.
  abbrev pub IsGuarded : String → Type 0
  IsGuarded url = (is_https outside url ≡ true) ⊎ (is_loopback outside url ≡ true)

  lacks_tls-IsGuarded :
      (a : OpenAiCompatAdapter)
      → a.require_tls ≡ not (is_loopback outside a.base_url)
      → lacks_tls outside a ≡ false
      → IsGuarded a.base_url
  lacks_tls-IsGuarded a e h = elim (Bool-cases (is_https outside a.base_url)) [
    | inl s ↦ inl s
    | inr n ↦ inr (ground (arith, e, h, n))
  ]

  module _ (Inv : W → Type 0) where
    -- What guarded requests, and they alone, may do outside.
    abbrev Allows : Type 0
    Allows = (q : HttpRequest) (w : W) → IsGuarded q.base_url → Inv w → Inv (outside.send q w).1

    module _ (allows : Allows) (a : OpenAiCompatAdapter)
        (tls : a.require_tls ≡ not (is_loopback outside a.base_url)) where
      request-Inv :
          (path : String) (body : Body) (w : W)
          → lacks_tls outside a ≡ false
          → Inv w
          → Inv (request outside a path body w).1
      unfolding request
      request-Inv path body w h i = go (outside.get_secret a.api_key_ref w)
        where
          go :
              (s : Answer (Option String))
              → Inv
                  (elim s as (λ _. Result Reply × W) [
                    | err _ ↦ (failed ChatError.invalid_ref, w)
                    | ok key ↦
                        send_as outside
                          (record {
                            base_url = a.base_url;
                            path = path;
                            key = truthy key;
                            body = body;
                          })
                          w
                  ]).1
          go (err e) = i
          go (ok key) =
              allows (record { base_url = a.base_url; path = path; key = truthy key; body = body })
                w (lacks_tls-IsGuarded a tls h) i

      health-Inv : (w : W) → Inv w → Inv (health outside a w).1
      unfolding health
      health-Inv w i =
          if_ind (λ (r : Result Reply × W). Inv r.1) (lacks_tls outside a) (λ _. i)
            (λ h. request-Inv _ _ w h i)

      cloud_health-Inv : (w : W) → Inv w → Inv (cloud_health outside a w).1
      unfolding cloud_health
      cloud_health-Inv w i = go (outside.get_secret a.api_key_ref w)
        where
          with_key :
              (k : Option String)
              → Inv
                  (elim k as (λ _. ProviderHealth × W) [
                    | some _ ↦ health outside a w
                    | none ↦
                        if a.has_transport
                        then health outside a w
                        else (OpenAi.unhealthy a.id none, w)
                  ]).1
          with_key (some k) = health-Inv w i
          with_key none =
              if_ind (λ (r : ProviderHealth × W). Inv r.1) a.has_transport (λ _. health-Inv w i)
                (λ _. i)

          go :
              (s : Answer (Option String))
              → Inv
                  (elim s as (λ _. ProviderHealth × W) [
                    | err _ ↦ (OpenAi.unhealthy a.id none, w)
                    | ok key ↦ elim (truthy key) [
                      | some _ ↦ health outside a w
                      | none ↦
                          if a.has_transport
                          then health outside a w
                          else (OpenAi.unhealthy a.id none, w)
                    ]
                  ]).1
          go (err e) = i
          go (ok key) = with_key (truthy key)

      embeddings-Inv :
          (model : String) (inputs : List String) (w : W)
          → Inv w
          → Inv (embeddings outside a model inputs w).1
      unfolding embeddings
      embeddings-Inv model inputs w i =
          if_ind (λ (r : Result Reply × W). Inv r.1) (lacks_tls outside a) (λ _. i)
            (λ h. request-Inv _ _ w h i)

      post_chat-Inv :
          (q : Chat) (n : Option ℤ) (w : W)
          → lacks_tls outside a ≡ false
          → Inv w
          → Inv (post_chat outside a q n w).1
      unfolding post_chat
      post_chat-Inv q n w h i = request-Inv _ _ w h i

      module _ {M : Type 0} (money : Money M) where
        settle-Inv :
            (n : ℤ) (b : RequestBudget M) (r : Result Reply × W)
            → Inv r.1
            → Inv (settle money n b r).world
        unfolding settle
        settle-Inv n b (failed e, w) i = i
        settle-Inv n b (done r, w) i = i

        budgeted-Inv :
            (default : ℤ) (planned : Option ℤ) (b : RequestBudget M)
            (post : ℤ → W → Result Reply × W) (w : W)
            → Inv w
            → ((n : ℤ) → Inv (post n w).1)
            → Inv (budgeted money default planned b post w).world
        unfolding budgeted
        budgeted-Inv default planned b post w i k = go (plan money default planned b)
          where
            go :
                (c : Checked ℤ)
                → Inv
                    (elim c as (λ _. Outcome M W) [
                      | raise e ↦ record {
                        budget = some b;
                        world = w;
                        result = failed (ChatError.over_budget e);
                      }
                      | ok n ↦ settle money n b (post n w)
                    ]).world
            go (raise e) = i
            go (ok n) = settle-Inv n b (post n w) (k n)

        chat-Inv :
            (q : Chat) (budget : Option (RequestBudget M)) (w : W)
            → Inv w
            → Inv (chat outside money a q budget w).world
        unfolding chat
        chat-Inv q none w i =
            if_ind (λ (o : Outcome M W). Inv o.world) (lacks_tls outside a) (λ _. i)
              (λ h. post_chat-Inv q q.max_tokens w h i)
        chat-Inv q (some b) w i =
            if_ind (λ (o : Outcome M W). Inv o.world) (lacks_tls outside a) (λ _. i)
              (λ h.
                budgeted-Inv (pos 1024) q.max_tokens b (λ n w'. post_chat outside a q (some n) w') w
                  i (λ n. post_chat-Inv q (some n) w h i))

  -- What an adapter that asks for TLS makes of it.
  require_tls-loopback :
      (base_url api_key_ref provider_id : String) (has_transport : Bool)
      → let a = openai_compat_adapter outside base_url api_key_ref provider_id true has_transport in
        a.require_tls ≡ not (is_loopback outside a.base_url)
  unfolding openai_compat_adapter
  require_tls-loopback base_url api_key_ref provider_id has_transport = refl

  -- The adapter of an endpoint that is configured with TLS makes only requests that go over TLS or stay
  -- on the machine, with or without a key and whatever the address is: what such requests keep true
  -- stays true through its report on its health, embeddings and chats with or without a budget.
  pub openai_compat_adapter-Allows :
      {M : Type 0} (money : Money M) (Inv : W → Type 0)
      → Allows Inv
      → (base_url api_key_ref provider_id : String) (has_transport : Bool)
      → let a = openai_compat_adapter outside base_url api_key_ref provider_id true has_transport in
        (w : W)
        → Inv w
        → Inv (health outside a w).1
          × Inv (cloud_health outside a w).1
          × ((model : String) (inputs : List String) → Inv (embeddings outside a model inputs w).1)
          × ((q : Chat) (budget : Option (RequestBudget M))
              → Inv (chat outside money a q budget w).world)
  openai_compat_adapter-Allows money Inv allows base_url api_key_ref provider_id has_transport w i =
      let a = openai_compat_adapter outside base_url api_key_ref provider_id true has_transport in
      let tls = require_tls-loopback base_url api_key_ref provider_id has_transport in
      (
        health-Inv Inv allows a tls w i,
        cloud_health-Inv Inv allows a tls w i,
        λ model inputs. embeddings-Inv Inv allows a tls model inputs w i,
        λ q budget. chat-Inv Inv allows a tls money q budget w i,
      )
