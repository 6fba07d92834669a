-- ===== src/Gateway/Tests.antt =====
-- gateway/budget.py, gateway/pins.py: runs on small inputs, and the theorems at inputs that meet
-- their hypotheses. Money is counted in whole cents.
use brain_flow.Prelude.{ℕ, ◌+◌, ◌≡◌, refl, none, some, leb, ltb, ◌==◌}
use brain_flow.Prelude.Int.{pos, ◌+ℤ◌, ◌-ℤ◌}
use brain_flow.Gateway.Budget.{
  Money, RequestBudget, ok, clamp_max_tokens, record_usage, fresh, absent, value, Nested, Params,
  budget_from_params,
}
use brain_flow.Gateway.Budget.Usage.{Raw, extract_usage_tokens, token_limit}

abbrev cents : Money ℕ
cents = record {
  zero_usd = 0;
  add = λ a b. a + b;
  exceeds = λ a b. ltb b a;
  reaches = λ a b. leb b a;
  is_zero_usd = λ a. a == 0;
}

abbrev limited : RequestBudget ℕ
limited = fresh cents (some (pos 100)) none (some (pos 3)) "run"

-- Ten tokens more than the limit.
abbrev overspent : RequestBudget ℕ
overspent = (record_usage cents (pos 110) 5 limited).0

clamp-limited : clamp_max_tokens cents (some (pos 512)) (pos 1024) limited ≡ ok (pos 100)
unfolding clamp_max_tokens ◌-ℤ◌
clamp-limited = refl

abbrev openai_like : Raw
openai_like = record {
  usage = some (record {
    total_tokens = none;
    input_tokens = none;
    output_tokens = none;
    prompt_tokens = some (pos 12);
    completion_tokens = some (pos 30);
  });
  usage_metadata = none;
  eval_count = none;
  prompt_eval_count = none;
}

extract-openai_like : extract_usage_tokens openai_like ≡ pos 42
unfolding extract_usage_tokens ◌+ℤ◌
extract-openai_like = refl

abbrev nested : Nested ℕ
nested = record {
  max_tokens = value (pos 500);
  max_spend_usd = absent;
  max_cost_usd = absent;
  max_llm_requests = absent;
  max_requests = absent;
  label = none;
}

abbrev chat_request : Params ℕ
chat_request = record {
  max_tokens = value (pos 512);
  max_tokens_budget = absent;
  budget_max_tokens = absent;
  max_spend_usd = absent;
  max_cost_usd = absent;
  max_llm_requests = absent;
  budget = some nested;
}

-- Without `max_tokens` beside it, the nested limit is kept.
nested_kept :
    token_limit (budget_from_params cents (record chat_request { max_tokens = absent }) "run")
    ≡ some (pos 500)
unfolding budget_from_params
nested_kept = refl
