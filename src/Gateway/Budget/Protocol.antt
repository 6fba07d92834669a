-- ===== src/Gateway/Budget/Protocol.antt =====
-- gateway/budget.py: what a request may take of its budget, and what stays after it.
use brain_flow.Prelude.{
  ◌≡◌, refl, ◌≢◌, Bool, false, Option, none, some, arith, subst, if_ind, if◌then◌else◌,
}
use brain_flow.Prelude.Int.{ℤ, pos, ◌+ℤ◌, ◌-ℤ◌, ◌≤ℤ◌, leb_ℤ, at_least_zero, min_ℤ, max_ℤ}
use brain_flow.Gateway.Budget.{
  Money, RequestBudget, tokens_exceeded, tokens_exhausted, Checked, ok, raise, remaining_tokens,
  check_before_request, clamp_max_tokens, record_usage, or_default, exceeded, spend_exceeded,
  no_tokens,
}

module _ {M : Type 0} (money : Money M) where
  -- A request asks for at least one token, and for no more than it wants, if that is at least one,
  -- and than the budget has left.
  abbrev pub Fits : ℤ → Option ℤ → ℤ → Type 0
  Fits base none n = (pos 1 ≤ℤ n) × (n ≤ℤ max_ℤ (pos 1) base)
  Fits base (some limit) n = (pos 1 ≤ℤ n) × (n ≤ℤ max_ℤ (pos 1) base) × (n ≤ℤ limit)

  abbrev pub Result : (ℤ → Type 0) → Type 0 → Checked ℤ → Type 0
  Result P Q (ok n) = P n
  Result P Q (raise e) = Q

  clamped :
      (base rem : ℤ)
      → Result (Fits base (some rem)) (rem ≤ℤ pos 0) (
          if leb_ℤ rem (pos 0) then raise tokens_exhausted else ok (max_ℤ (pos 1) (min_ℤ base rem)))
  clamped base rem =
      if_ind (Result (Fits base (some rem)) (rem ≤ℤ pos 0)) (leb_ℤ rem (pos 0))
        (λ h. ground (arith, h)) (λ h. (ground arith, ground arith, ground (arith, h)))

  at_least_one : (base : ℤ) → Fits base none (max_ℤ (pos 1) base)
  at_least_one base = (ground arith, ground arith)

  abbrev pub Nothing : Option ℤ → Type 0
  Nothing none = ⊥
  Nothing (some rem) = rem ≤ℤ pos 0

  -- What an outbound request asks for: at least one token, no more than the caller wants (or the
  -- default, or one), and no more than the budget has left; the call raises only where the budget
  -- has a limit and nothing of it is left.
  clamp_max_tokens_bounds :
      (requested : Option ℤ) (default : ℤ) (b : RequestBudget M)
      → Result
          (Fits (or_default money requested default) (remaining_tokens money b))
          (Nothing (remaining_tokens money b))
          (clamp_max_tokens money requested default b)
  unfolding clamp_max_tokens
  clamp_max_tokens_bounds requested default b =
      go (or_default money requested default) (remaining_tokens money b)
    where
      go :
          (base : ℤ) (o : Option ℤ)
          → Result (Fits base o) (Nothing o) (elim o [
            | none ↦ ok (max_ℤ (pos 1) base)
            | some rem ↦
                if leb_ℤ rem (pos 0)
                then raise tokens_exhausted
                else ok (max_ℤ (pos 1) (min_ℤ base rem))
          ])
      go base none = at_least_one base
      go base (some rem) = clamped base rem

  below-limit :
      (limit used n tokens : ℤ)
      → n ≤ℤ at_least_zero (limit -ℤ used)
      → tokens ≤ℤ n
      → pos 1 ≤ℤ n
      → used +ℤ at_least_zero tokens ≤ℤ limit
  unfolding ◌+ℤ◌ ◌-ℤ◌
  below-limit limit used n tokens h k p = ground arith

  checked-remaining :
      (planned : Option ℤ) (b : RequestBudget M)
      → check_before_request money planned b ≡ none
      → no_tokens money (remaining_tokens money b) ≡ false
  unfolding check_before_request
  checked-remaining planned b h = ground arith

  -- A request that passes `check_before_request` is not refused by `clamp_max_tokens`.
  check-clamp :
      (planned requested : Option ℤ) (default : ℤ) (b : RequestBudget M)
      → check_before_request money planned b ≡ none
      → (n : ℤ) × (clamp_max_tokens money requested default b ≡ ok n)
  unfolding clamp_max_tokens
  check-clamp planned requested default b h =
      go (remaining_tokens money b) (checked-remaining planned b h)
    where
      go :
          (o : Option ℤ)
          → no_tokens money o ≡ false
          → (n : ℤ) × (◌≡◌ {A = Checked ℤ}
              (elim o [
                | none ↦ ok (max_ℤ (pos 1) (or_default money requested default))
                | some rem ↦
                    if leb_ℤ rem (pos 0)
                    then raise tokens_exhausted
                    else ok (max_ℤ (pos 1) (min_ℤ (or_default money requested default) rem))
              ])
              (ok n))
      go none k = (_, refl)
      go (some rem) k = (max_ℤ (pos 1) (min_ℤ (or_default money requested default) rem), rw k)

  Fits-within :
      (limit : Option ℤ) (base used n tokens : ℤ)
      → Fits base (elim limit [ none ↦ none | some l ↦ some (at_least_zero (l -ℤ used)) ]) n
      → tokens ≤ℤ n
      → exceeded money limit (used +ℤ at_least_zero tokens) ≡ false
  Fits-within none base used n tokens f k = refl
  Fits-within (some l) base used n tokens f k =
      let inside = below-limit l used n tokens f.2 k f.0 in ground arith

  unraised :
      (a c : Bool)
      → a ≡ false
      → (if a then some tokens_exceeded else if c then some spend_exceeded else none)
        ≢ some tokens_exceeded
  unraised a c h e = ground arith

  -- A provider that spends no more tokens than `clamp_max_tokens` gave it leaves the tokens of the
  -- budget within their limit, if there is one, and `record_usage` does not raise for them.
  pub clamp-record_usage :
      (requested : Option ℤ) (default n tokens : ℤ) (usd : M) (b : RequestBudget M)
      → clamp_max_tokens money requested default b ≡ ok n
      → tokens ≤ℤ n
      → (exceeded money b.max_tokens (record_usage money tokens usd b).0.tokens_used ≡ false)
        × ((record_usage money tokens usd b).1 ≢ some tokens_exceeded)
  unfolding record_usage remaining_tokens
  clamp-record_usage requested default n tokens usd b h k =
      let base = or_default money requested default in
      let given : Result (Fits base (remaining_tokens money b)) (Nothing (remaining_tokens money b))
          (ok n) =
        subst (Result (Fits base (remaining_tokens money b)) (Nothing (remaining_tokens money b))) h
          (clamp_max_tokens_bounds requested default b) in
      let within = Fits-within b.max_tokens base b.tokens_used n tokens given k in
      (within, unraised _ _ within)

  -- Where `record_usage` raises for the tokens, `check_before_request` refuses the next request,
  -- whatever it plans.
  record_usage-check :
      (planned : Option ℤ) (tokens : ℤ) (usd : M) (b : RequestBudget M)
      → (record_usage money tokens usd b).1 ≡ some tokens_exceeded
      → check_before_request money planned (record_usage money tokens usd b).0 ≢ none
  unfolding record_usage check_before_request remaining_tokens ◌+ℤ◌ ◌-ℤ◌
  record_usage-check planned tokens usd b h e = ground arith
