-- ===== src/Gateway/Providers/Spending.antt =====
-- gateway/providers: what chats with any of the adapters make of a budget that they share.
use brain_flow.Prelude.{String, ◌≡◌, true, Option, none, some, List, [], ◌∷◌}
use brain_flow.Gateway.Budget.{Money, RequestBudget, exceeded}
use brain_flow.Gateway.Providers.{Chat, Outside}
use brain_flow.Gateway.Providers.OpenAi
use brain_flow.Gateway.Providers.Ollama
use brain_flow.Gateway.Providers.Anthropic
use brain_flow.Gateway.Providers.Gemini
use brain_flow.Gateway.Providers.Adapters.{Adapter, chat_with}

module _ {M W : Type 0} (money : Money M) (environ : String → Option String)
    (outside : Outside W) where
  -- Chats after one another, with any of the adapters, that share a budget: each finds the budget as
  -- the one before has left it, also where that one has failed.
  unfoldable pub chat_all :
      List (Adapter × Chat) → Option (RequestBudget M) → W → Option (RequestBudget M) × W
  chat_all [] b w = (b, w)
  chat_all ((a, q) ∷ chats) b w =
      let o = chat_with environ outside money a q b w in chat_all chats o.budget o.world

  -- Once the tokens are over their limit, all further chats leave the budget and the world as they are.
  abbrev pub IsShut : Option (RequestBudget M) → Type 0
  IsShut none = Unit
  IsShut (some b) =
      exceeded money b.max_tokens b.tokens_used ≡ true
      → (more : List (Adapter × Chat)) (w : W) → chat_all more (some b) w ≡ (some b, w)
