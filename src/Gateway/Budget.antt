-- ===== src/Gateway/Budget.antt =====
-- gateway/budget.py: the limits on requests, tokens and money of one provider or run. Amounts of
-- money are floats in the program: their type and its operations are a parameter.
pub mod Protocol
pub mod Usage
use brain_flow.Prelude.{
  ℕ, zero, suc, ◌+◌, String, Bool, true, false, ◌&&◌, ◌||◌, not, Option, none, some, List, [], ◌∷◌,
  ◌++◌, if◌then◌else◌,
}
use brain_flow.Prelude.Text.{or_text}
use brain_flow.Prelude.Int.{
  ℤ, pos, negsuc, pos_part, ◌+ℤ◌, ◌-ℤ◌, leb_ℤ, ltb_ℤ, at_least_zero, min_ℤ, max_ℤ, is_zero,
}

-- Floats, as far as the budgets use them.
pub record Money (M : Type 0) : Type 0 where
  pub zero_usd : M
  pub add : M → M → M
  pub exceeds : M → M → Bool
  pub reaches : M → M → Bool
  pub is_zero_usd : M → Bool

pub record Entry (M : Type 0) : Type 0 where
  pub tokens : ℤ
  pub spend_usd : M

pub record RequestBudget (M : Type 0) : Type 0 where
  pub max_tokens : Option ℤ
  pub max_spend_usd : Option M
  pub max_requests : Option ℤ
  pub tokens_used : ℤ
  pub spend_usd : M
  pub requests_used : ℕ
  pub label : String
  pub history : List (Entry M)

-- The cases of `BudgetExceeded`.
pub data BudgetExceeded : Type 0 where
  requests_exhausted spend_exhausted tokens_exhausted planned_exceeds_remaining : BudgetExceeded
  tokens_exceeded spend_exceeded : BudgetExceeded

pub data Checked (A : Type 0) : Type 0 where
  ok : A → Checked A
  raise : BudgetExceeded → Checked A

module _ {M : Type 0} (money : Money M) where
  -- max(0, int(self.max_tokens) - int(self.tokens_used))
  unfoldable pub remaining_tokens : RequestBudget M → Option ℤ
  remaining_tokens b = elim b.max_tokens [
    | none ↦ none
    | some limit ↦ some (at_least_zero (limit -ℤ b.tokens_used))
  ]

  abbrev pub reached : Option ℤ → ℕ → Bool
  reached none used = false
  reached (some limit) used = leb_ℤ limit (pos used)

  abbrev reached_usd : Option M → M → Bool
  reached_usd none used = false
  reached_usd (some limit) used = money.reaches used limit

  abbrev exceeded_usd : Option M → M → Bool
  exceeded_usd none used = false
  exceeded_usd (some limit) used = money.exceeds used limit

  abbrev pub exceeded : Option ℤ → ℤ → Bool
  exceeded none used = false
  exceeded (some limit) used = ltb_ℤ limit used

  abbrev no_tokens : Option ℤ → Bool
  no_tokens none = false
  no_tokens (some rem) = leb_ℤ rem (pos 0)

  abbrev planned_over : Option ℤ → Option ℤ → Bool
  planned_over (some rem) (some planned) = ltb_ℤ rem planned
  planned_over _ _ = false

  -- The exception that `check_before_request` raises, if it does.
  unfoldable pub check_before_request : Option ℤ → RequestBudget M → Option BudgetExceeded
  unfolding remaining_tokens
  check_before_request planned b =
      let rem = remaining_tokens b in
      if reached b.max_requests b.requests_used
      then some requests_exhausted
      else if reached_usd b.max_spend_usd b.spend_usd
      then some spend_exhausted
      else if no_tokens rem
      then some tokens_exhausted
      else if planned_over rem planned
      then some planned_exceeds_remaining
      else none

  abbrev or_default : Option ℤ → ℤ → ℤ
  or_default none d = d
  or_default (some n) d = n

  unfoldable pub clamp_max_tokens : Option ℤ → ℤ → RequestBudget M → Checked ℤ
  unfolding remaining_tokens
  clamp_max_tokens requested default b =
      let base = or_default requested default in
      elim (remaining_tokens b) [
        | none ↦ ok (max_ℤ (pos 1) base)
        | some rem ↦
            if leb_ℤ rem (pos 0)
            then raise tokens_exhausted
            else ok (max_ℤ (pos 1) (min_ℤ base rem))
      ]

  -- max(0.0, float(spend_usd))
  abbrev clamp_usd : M → M
  clamp_usd amount = if money.exceeds amount money.zero_usd then amount else money.zero_usd

  -- The budget after a request, also where `record_usage` raises, and the exception.
  unfoldable pub record_usage : ℤ → M → RequestBudget M → RequestBudget M × Option BudgetExceeded
  record_usage tokens spend_usd b =
      let b' = record b {
        tokens_used = b.tokens_used +ℤ at_least_zero tokens;
        spend_usd = money.add b.spend_usd (clamp_usd spend_usd);
        requests_used = b.requests_used + 1;
        history = b.history ++ record { tokens = tokens; spend_usd = spend_usd } ∷ [];
      } in
      (
        b',
        if exceeded b'.max_tokens b'.tokens_used
            then some tokens_exceeded
            else if exceeded_usd b'.max_spend_usd b'.spend_usd
            then some spend_exceeded
            else none,
      )

-- A key of a parameter dictionary: absent, null or an empty text, or a number.
pub data Arg (A : Type 0) : Type 0 where
  absent null : Arg A
  value : A → Arg A

abbrev pub is_present : {A : Type 0} → Arg A → Bool
is_present absent = false
is_present _ = true

-- _optional_int(v), _optional_float(v)
abbrev pub optional : {A : Type 0} → Arg A → Option A
optional (value n) = some n
optional _ = none

-- a or b, where a zero is false
abbrev pub or_arg : {A : Type 0} → (A → Bool) → Arg A → Arg A → Arg A
or_arg is_false (value n) b = if is_false n then b else value n
or_arg is_false _ b = b

-- The keys of a nested `budget` object, and of `workflow["budgets"]`.
pub record Nested (M : Type 0) : Type 0 where
  pub max_tokens : Arg ℤ
  pub max_spend_usd : Arg M
  pub max_cost_usd : Arg M
  pub max_llm_requests : Arg ℤ
  pub max_requests : Arg ℤ
  pub label : Option String

-- The keys of the request's parameters.
pub record Params (M : Type 0) : Type 0 where
  pub max_tokens : Arg ℤ
  pub max_tokens_budget : Arg ℤ
  pub budget_max_tokens : Arg ℤ
  pub max_spend_usd : Arg M
  pub max_cost_usd : Arg M
  pub max_llm_requests : Arg ℤ
  pub budget : Option (Nested M)

module _ {M : Type 0} (money : Money M) where
  abbrev pub fresh : Option ℤ → Option M → Option ℤ → String → RequestBudget M
  fresh tokens usd requests label = record {
    max_tokens = tokens;
    max_spend_usd = usd;
    max_requests = requests;
    tokens_used = pos 0;
    spend_usd = money.zero_usd;
    requests_used = 0;
    label = label;
    history = [];
  }

  unfoldable pub budget_from_workflow : Nested M → String → RequestBudget M
  budget_from_workflow budgets label =
      fresh (optional budgets.max_tokens)
        (optional (or_arg money.is_zero_usd budgets.max_cost_usd budgets.max_spend_usd))
        (optional budgets.max_llm_requests) label

  -- `none` is Python's None: no budget. `params` is there and not empty.
  unfoldable pub budget_from_params : Params M → String → Option (RequestBudget M)
  budget_from_params params label =
      if not (
        is_present params.max_tokens
        || is_present params.max_spend_usd
        || is_present params.max_cost_usd
        || is_present params.max_llm_requests)
      then (elim params.budget [
        | none ↦ none
        | some nested ↦ some (
            fresh (optional nested.max_tokens)
              (optional (or_arg money.is_zero_usd nested.max_spend_usd nested.max_cost_usd))
              (optional (or_arg is_zero nested.max_llm_requests nested.max_requests))
              (or_text nested.label label))
      ])
      else some (
          fresh (optional (or_arg is_zero params.max_tokens_budget params.budget_max_tokens))
            (optional (or_arg money.is_zero_usd params.max_spend_usd params.max_cost_usd))
            (optional params.max_llm_requests) label)
