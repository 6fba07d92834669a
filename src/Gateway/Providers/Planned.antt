-- ===== src/Gateway/Providers/Planned.antt =====
-- gateway/providers: what a chat within a budget leaves of it.
use brain_flow.Prelude.{
  ℕ, ◌+◌, ◌≡◌, refl, true, false, Option, none, some, arith, if_ind, option_ind, ap, subst, ◌⊎◌,
  inl, inr, Bool-cases,
}
use brain_flow.Prelude.Int.{ℤ, pos, ◌≤ℤ◌, ◌+ℤ◌, ◌-ℤ◌, leb_ℤ, ltb_ℤ, at_least_zero}
use brain_flow.Gateway.Budget.{
  Money, RequestBudget, Checked, ok, raise, exceeded, clamp_max_tokens, check_before_request,
  record_usage, reached, remaining_tokens, tokens_exhausted,
}
use brain_flow.Gateway.Budget.Protocol.{clamp-record_usage}
use brain_flow.Gateway.Providers.{
  Reply, Result, done, failed, Outcome, plan, used_tokens, settle, budgeted, ChatError,
}

abbrev AtMost : Option ℤ → ℕ → Type 0
AtMost none n = Unit
AtMost (some limit) n = pos n ≤ℤ limit

module _ {M : Type 0} (money : Money M) (start : RequestBudget M) where
  -- The budget is what one reply has made of another, which was within its limit on the tokens: its
  -- checks had let through a request for at most `n` tokens, and the reply used more than those.
  abbrev pub IsPassed : RequestBudget M → Type 0
  IsPassed b =
      (before : RequestBudget M) × (default : ℤ) × (planned : Option ℤ) × (n : ℤ) × (used : ℤ)
      × (ltb_ℤ n used ≡ true)
      × (exceeded money before.max_tokens before.tokens_used ≡ false)
      × (clamp_max_tokens money planned default before ≡ ok n)
      × (check_before_request money (some n) before ≡ none)
      × (b ≡ (record_usage money used money.zero_usd before).0)

  -- The budget has the limits that it had at the start, its requests are not over them, and its tokens
  -- are not, or have been passed by one reply.
  pub record IsWithin (b : RequestBudget M) : Type 0 where
    pub same_tokens : b.max_tokens ≡ start.max_tokens
    pub same_requests : b.max_requests ≡ start.max_requests
    pub requests : AtMost b.max_requests b.requests_used
    pub tokens : (exceeded money b.max_tokens b.tokens_used ≡ false) ⊎ IsPassed b

  abbrev Planned : ℤ → Option ℤ → RequestBudget M → Checked ℤ → Type 0
  Planned default planned b (raise e) = Unit
  Planned default planned b (ok n) =
      (clamp_max_tokens money planned default b ≡ ok n)
      × (check_before_request money (some n) b ≡ none)

  plan-Planned :
      (default : ℤ) (planned : Option ℤ) (b : RequestBudget M)
      → Planned default planned b (plan money default planned b)
  unfolding plan
  plan-Planned default planned b = go (clamp_max_tokens money planned default b) refl
    where
      go :
          (c : Checked ℤ)
          → clamp_max_tokens money planned default b ≡ c
          → Planned default planned b (elim c [
            | raise e ↦ raise e
            | ok m ↦ elim (check_before_request money (some m) b) [ some e ↦ raise e | none ↦ ok m ]
          ])
      go (raise e) q = tt
      go (ok m) q =
          option_ind (Planned default planned b) (check_before_request money (some m) b)
            (λ r. (q, r)) (λ e r. tt)

  check-AtMost :
      (n : ℤ) (b : RequestBudget M)
      → check_before_request money (some n) b ≡ none
      → AtMost b.max_requests (b.requests_used + 1)
  unfolding check_before_request
  check-AtMost n b h = go b.max_requests b.requests_used (ground (arith, h))
    where
      go : (o : Option ℤ) (used : ℕ) → reached money o used ≡ false → AtMost o (used + 1)
      go none used q = tt
      go (some limit) used q = ground (arith, q)

  nothing_left :
      (limit used : ℤ)
      → ltb_ℤ limit used ≡ true
      → leb_ℤ (at_least_zero (limit -ℤ used)) (pos 0) ≡ true
  unfolding ◌+ℤ◌ ◌-ℤ◌
  nothing_left limit used h = ground (arith, h)

  -- Tokens over their limit leave nothing to ask for.
  clamp-exceeded :
      (default : ℤ) (planned : Option ℤ) (b : RequestBudget M)
      → exceeded money b.max_tokens b.tokens_used ≡ true
      → clamp_max_tokens money planned default b ≡ raise tokens_exhausted
  unfolding clamp_max_tokens remaining_tokens
  clamp-exceeded default planned b h = go b.max_tokens h
    where
      go :
          (limit : Option ℤ)
          → exceeded money limit b.tokens_used ≡ true
          → clamp_max_tokens money planned default (record b { max_tokens = limit })
            ≡ raise tokens_exhausted
      go none k = absurd (ground arith)
      go (some l) k =
          if_ind (λ (c : Checked ℤ). c ≡ raise tokens_exhausted)
            (leb_ℤ (at_least_zero (l -ℤ b.tokens_used)) (pos 0)) (λ _. refl)
            (λ left. absurd (ground (arith, left, nothing_left l b.tokens_used k)))

  pub plan-exceeded :
      (default : ℤ) (planned : Option ℤ) (b : RequestBudget M)
      → exceeded money b.max_tokens b.tokens_used ≡ true
      → plan money default planned b ≡ raise tokens_exhausted
  unfolding plan
  plan-exceeded default planned b h =
      ap
        (λ (c : Checked ℤ). elim c as (λ _. Checked ℤ) [
          | raise e ↦ raise e
          | ok n ↦ elim (check_before_request money (some n) b) [ some e ↦ raise e | none ↦ ok n ]
        ])
        (clamp-exceeded default planned b h)

  clamp-fits :
      (default n : ℤ) (planned : Option ℤ) (b : RequestBudget M)
      → clamp_max_tokens money planned default b ≡ ok n
      → exceeded money b.max_tokens b.tokens_used ≡ false
  clamp-fits default n planned b h = elim (Bool-cases (exceeded money b.max_tokens b.tokens_used)) [
    | inl over ↦ absurd (ground (arith, h, clamp-exceeded default planned b over))
    | inr off ↦ off
  ]

  -- What has been planned may be asked for, whatever is then reported.
  plan-IsWithin :
      (default n used : ℤ) (planned : Option ℤ) (b : RequestBudget M)
      → plan money default planned b ≡ ok n
      → IsWithin b
      → IsWithin (record_usage money used money.zero_usd b).0
  unfolding record_usage
  plan-IsWithin default n used planned b h v =
      let (clamped, checked) =
        subst (Planned default planned b) h (plan-Planned default planned b) in
      record {
        same_tokens = v.same_tokens;
        same_requests = v.same_requests;
        requests = check-AtMost n b checked;
        tokens = elim (Bool-cases (ltb_ℤ n used)) [
          | inl more ↦ inr (
            b,
            default,
            planned,
            n,
            used,
            more,
            clamp-fits default n planned b clamped,
            clamped,
            checked,
            refl,
          )
          | inr off ↦ inl (
              (clamp-record_usage money planned default n used money.zero_usd b clamped
                (ground (arith, off))).0)
        ];
      }

module _ {M : Type 0} (money : Money M) (start : RequestBudget M) where
  abbrev pub AreWithin : Option (RequestBudget M) → Type 0
  AreWithin none = ⊥
  AreWithin (some b) = IsWithin money start b

module _ {M W : Type 0} (money : Money M) (start : RequestBudget M) where
  settle-AreWithin :
      (default n : ℤ) (planned : Option ℤ) (b : RequestBudget M) (r : Result Reply × W)
      → plan money default planned b ≡ ok n
      → IsWithin money start b
      → AreWithin money start (settle money n b r).budget
  unfolding settle
  settle-AreWithin default n planned b (failed e, w) h v = v
  settle-AreWithin default n planned b (done r, w) h v =
      plan-IsWithin money start default n (used_tokens r.usage n) planned b h v

  pub budgeted-AreWithin :
      (default : ℤ) (planned : Option ℤ) (b : RequestBudget M) (post : ℤ → W → Result Reply × W)
      (w : W)
      → IsWithin money start b
      → AreWithin money start (budgeted money default planned b post w).budget
  unfolding budgeted
  budgeted-AreWithin default planned b post w v = go (plan money default planned b) refl
    where
      go :
          (c : Checked ℤ)
          → plan money default planned b ≡ c
          → AreWithin money start
              (elim c as (λ _. Outcome M W) [
                | raise e ↦ record {
                  budget = some b;
                  world = w;
                  result = failed (ChatError.over_budget e);
                }
                | ok n ↦ settle money n b (post n w)
              ]).budget
      go (raise e) q = v
      go (ok n) q = settle-AreWithin default n planned b (post n w) q v

  -- With its tokens over their limit, a chat is refused before its request.
  pub budgeted-exceeded :
      (default : ℤ) (planned : Option ℤ) (b : RequestBudget M) (post : ℤ → W → Result Reply × W)
      (w : W)
      → exceeded money b.max_tokens b.tokens_used ≡ true
      → budgeted money default planned b post w ≡ record {
        budget = some b;
        world = w;
        result = failed (ChatError.over_budget tokens_exhausted);
      }
  unfolding budgeted
  budgeted-exceeded default planned b post w h =
      ap
        (λ (c : Checked ℤ). elim c as (λ _. Outcome M W) [
          | raise e ↦ record {
            budget = some b;
            world = w;
            result = failed (ChatError.over_budget e);
          }
          | ok n ↦ settle money n b (post n w)
        ])
        (plan-exceeded money start default planned b h)
