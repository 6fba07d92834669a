-- ===== src/Gateway/Budget/Usage.antt =====
-- gateway/budget.py: the tokens that a provider's response reports, and the limits that a request's
-- parameters set.
use brain_flow.Prelude.{String, ◌≡◌, true, Option, none, some, List, [], ◌∷◌, arith}
use brain_flow.Prelude.Int.{ℤ, pos, ◌+ℤ◌, ◌≤ℤ◌, +ℤ_parts}
use brain_flow.Gateway.Budget.{Money, RequestBudget, absent, is_present, Params, budget_from_params}

-- The envelope of a response. `usage` and `usageMetadata` are `none` where they are missing, empty or
-- no dictionary.
pub record Counts : Type 0 where
  pub total_tokens : Option ℤ
  pub input_tokens : Option ℤ
  pub output_tokens : Option ℤ
  pub prompt_tokens : Option ℤ
  pub completion_tokens : Option ℤ

pub record Metadata : Type 0 where
  pub total_token_count : Option ℤ
  pub prompt_token_count : Option ℤ
  pub candidates_token_count : Option ℤ

pub record Raw : Type 0 where
  pub usage : Option Counts
  pub usage_metadata : Option Metadata
  pub eval_count : Option ℤ
  pub prompt_eval_count : Option ℤ

-- [int(p) for p in parts if p is not None]
abbrev present : List (Option ℤ) → List ℤ
present [] = []
present (none ∷ parts) = present parts
present (some n ∷ parts) = n ∷ present parts

-- sum(nums)
abbrev sum : List ℤ → ℤ
sum [] = pos 0
sum (n ∷ nums) = n +ℤ sum nums

abbrev sum_if_any : List ℤ → Option ℤ
sum_if_any [] = none
sum_if_any (n ∷ nums) = some (sum (n ∷ nums))

-- The total, or the sum of the parts, if one of them is there.
abbrev total_or_parts : Option ℤ → List (Option ℤ) → Option ℤ
total_or_parts (some total) parts = some total
total_or_parts none parts = sum_if_any (present parts)

unfoldable pub usage_tokens : Option Counts → Option ℤ
usage_tokens none = none
usage_tokens (some u) =
    total_or_parts u.total_tokens
      (u.input_tokens ∷ u.output_tokens ∷ u.prompt_tokens ∷ u.completion_tokens ∷ [])

unfoldable pub metadata_tokens : Option Metadata → Option ℤ
metadata_tokens none = none
metadata_tokens (some m) =
    total_or_parts m.total_token_count (m.prompt_token_count ∷ m.candidates_token_count ∷ [])

abbrev or_zero : Option ℤ → ℤ
or_zero none = pos 0
or_zero (some n) = n

abbrev or_else : Option ℤ → ℤ → ℤ
or_else none d = d
or_else (some n) d = n

unfoldable pub extract_usage_tokens : Raw → ℤ
unfolding usage_tokens metadata_tokens
extract_usage_tokens raw = or_else (usage_tokens raw.usage) (
    or_else (metadata_tokens raw.usage_metadata)
      (or_zero raw.eval_count +ℤ or_zero raw.prompt_eval_count))

abbrev NonNegative : Option ℤ → Type 0
NonNegative none = Unit
NonNegative (some n) = pos 0 ≤ℤ n

abbrev AllNonNegative : List (Option ℤ) → Type 0
AllNonNegative [] = Unit
AllNonNegative (n ∷ ns) = NonNegative n × AllNonNegative ns

abbrev NonNegativeCounts : Option Counts → Type 0
NonNegativeCounts none = Unit
NonNegativeCounts (some u) =
    AllNonNegative (
      u.total_tokens ∷ u.input_tokens ∷ u.output_tokens ∷ u.prompt_tokens ∷ u.completion_tokens
      ∷ [])

abbrev NonNegativeMetadata : Option Metadata → Type 0
NonNegativeMetadata none = Unit
NonNegativeMetadata (some m) =
    AllNonNegative (m.total_token_count ∷ m.prompt_token_count ∷ m.candidates_token_count ∷ [])

or_zero-nonneg : (a : Option ℤ) → NonNegative a → pos 0 ≤ℤ or_zero a
or_zero-nonneg none h = omega arith
or_zero-nonneg (some n) h = h

sum-nonneg : (parts : List (Option ℤ)) → AllNonNegative parts → pos 0 ≤ℤ sum (present parts)
sum-nonneg [] h = omega arith
sum-nonneg (none ∷ parts) (_, h) = sum-nonneg parts h
sum-nonneg (some n ∷ parts) (p, h) =
    omega (arith, +ℤ_parts n (sum (present parts)), sum-nonneg parts h)

sum_if_any-nonneg : (nums : List ℤ) → pos 0 ≤ℤ sum nums → NonNegative (sum_if_any nums)
sum_if_any-nonneg [] h = tt
sum_if_any-nonneg (n ∷ nums) h = h

total_or_parts-nonneg :
    (total : Option ℤ) (parts : List (Option ℤ))
    → NonNegative total
    → AllNonNegative parts
    → NonNegative (total_or_parts total parts)
total_or_parts-nonneg (some n) parts p h = p
total_or_parts-nonneg none parts p h = sum_if_any-nonneg (present parts) (sum-nonneg parts h)

or_else-nonneg : (o : Option ℤ) (d : ℤ) → NonNegative o → pos 0 ≤ℤ d → pos 0 ≤ℤ or_else o d
or_else-nonneg none d h k = k
or_else-nonneg (some n) d h k = h

usage_tokens-nonneg : (u : Option Counts) → NonNegativeCounts u → NonNegative (usage_tokens u)
unfolding usage_tokens
usage_tokens-nonneg none h = tt
usage_tokens-nonneg (some u) (p, h) = total_or_parts-nonneg u.total_tokens _ p h

metadata_tokens-nonneg :
    (m : Option Metadata) → NonNegativeMetadata m → NonNegative (metadata_tokens m)
unfolding metadata_tokens
metadata_tokens-nonneg none h = tt
metadata_tokens-nonneg (some m) (p, h) = total_or_parts-nonneg m.total_token_count _ p h

-- A response all of whose counts are at least 0 is never counted as less than 0 tokens, whichever of
-- the three envelopes it uses.
extract_usage_tokens-nonneg :
    (raw : Raw)
    → NonNegativeCounts raw.usage
    → NonNegativeMetadata raw.usage_metadata
    → NonNegative raw.eval_count
    → NonNegative raw.prompt_eval_count
    → pos 0 ≤ℤ extract_usage_tokens raw
unfolding extract_usage_tokens
extract_usage_tokens-nonneg raw u m e p =
    or_else-nonneg (usage_tokens raw.usage) _ (usage_tokens-nonneg raw.usage u) (
      or_else-nonneg (metadata_tokens raw.usage_metadata) _
        (metadata_tokens-nonneg raw.usage_metadata m)
        (evals raw.eval_count raw.prompt_eval_count e p))
  where
    evals : (a b : Option ℤ) → NonNegative a → NonNegative b → pos 0 ≤ℤ or_zero a +ℤ or_zero b
    evals a b h k =
        omega (arith, +ℤ_parts (or_zero a) (or_zero b), or_zero-nonneg a h, or_zero-nonneg b k)

-- The token limit of a budget, if there is a budget.
abbrev pub token_limit : {M : Type 0} → Option (RequestBudget M) → Option ℤ
token_limit none = none
token_limit (some b) = b.max_tokens

-- A request whose parameters name one of the four keys is read without its nested `budget`: where
-- `max_tokens` is there and neither of the two other keys for a limit on tokens, a limit that the
-- nested object states is dropped, and the request has no limit on its tokens.
budget_from_params-nested_dropped :
    {M : Type 0} (money : Money M) (params : Params M) (label : String)
    → is_present params.max_tokens ≡ true
    → params.max_tokens_budget ≡ absent
    → params.budget_max_tokens ≡ absent
    → token_limit (budget_from_params money params label) ≡ none
unfolding budget_from_params
budget_from_params-nested_dropped money params label h k l = rw (h, k, l)
