-- ===== src/Kernel/Executor/Room.antt =====
-- kernel/executor.py: what is left of the budgets of a run, counted in nodes.
use brain_flow.Prelude.{
  ℕ, zero, suc, ◌+◌, ◌*◌, ◌≤◌, String, ◌≡◌, refl, false, Option, none, some, arith,
}
use brain_flow.Kernel.Workflow.{Workflow, or_number}
use brain_flow.Kernel.Run.{RunState, emit, Event}
use brain_flow.Kernel.Attempt.{Env, over_limit, set_node}
use brain_flow.Kernel.Executor.{start_node, exhausted, at_limit, hit_cache}

-- What leaves room for more leaves room for less.
pub below :
    (limit : Option ℕ) (a b : ℕ) → a ≤ b → at_limit limit b ≡ false → at_limit limit a ≡ false
below none a b le h = refl
below (some n) a b le h = ground (arith, le, h)

pub within :
    (limit : Option ℕ) (a b : ℕ) → a ≤ b → at_limit limit b ≡ false → over_limit limit a ≡ false
within none a b le h = refl
within (some n) a b le h = ground (arith, le, h)

next :
    (limit : Option ℕ) (a b : ℕ) → suc a ≤ b → over_limit limit b ≡ false → at_limit limit a ≡ false
next none a b le h = refl
next (some n) a b le h = ground (arith, le, h)

pub no_more :
    (limit : Option ℕ) (a b : ℕ) → a ≤ b → over_limit limit b ≡ false → over_limit limit a ≡ false
no_more none a b le h = refl
no_more (some n) a b le h = ground (arith, le, h)

pub suc_times : (k c : ℕ) → suc k * c ≡ c + k * c
suc_times k c = omega arith

times_mono : (a b c : ℕ) → a ≤ b → a * c ≤ b * c
times_mono zero b c h = omega arith
times_mono (suc a) zero c h = absurd (ground (arith, h))
times_mono (suc a) (suc b) c h =
    ground (arith, suc_times a c, suc_times b c, times_mono a b c (omega arith))

module _ (wf : Workflow) (cost : ℕ) where
  -- Nobody has cancelled the run, and its budgets suffice for so many nodes more.
  pub record HasBudget (left : ℕ) (s : RunState) : Type 0 where
    pub active : s.cancel_requested ≡ false
    pub steps : s.steps + left ≤ or_number wf.budgets.max_steps 80
    pub tokens : at_limit wf.budgets.max_tokens (s.tokens + left * cost) ≡ false
    pub files : over_limit wf.budgets.max_generated_files (s.generated_files + left) ≡ false

  pub start-HasBudget :
      (left : ℕ) (nid : String) (s : RunState)
      → HasBudget left s
      → HasBudget left (start_node nid s)
  unfolding start_node set_node
  start-HasBudget left nid s h = ground arith

  pub unexhausted : (left : ℕ) (s : RunState) → HasBudget (suc left) s → exhausted wf s ≡ none
  unfolding exhausted
  unexhausted left s h = ground (
    arith,
    h.steps,
    below wf.budgets.max_tokens s.tokens (s.tokens + suc left * cost) (omega arith) h.tokens,
    next wf.budgets.max_generated_files s.generated_files (s.generated_files + suc left)
        (omega arith) h.files,
  )

  pub hit-HasBudget :
      {W : Type 0} (env : Env W) (input_hash : String) (left : ℕ) (nid ck : String) (s : RunState)
      → HasBudget (suc left) s
      → HasBudget left (hit_cache env wf input_hash nid ck s)
  unfolding hit_cache set_node emit
  hit-HasBudget env input_hash left nid ck s h = record {
    active = h.active;
    steps = ground (arith, h.steps);
    tokens =
        below wf.budgets.max_tokens _ (s.tokens + suc left * cost)
          (ground (arith, suc_times left cost)) h.tokens;
    files =
        no_more wf.budgets.max_generated_files _ (s.generated_files + suc left) (omega arith)
          h.files;
  }

  pub fewer : (k left : ℕ) (s : RunState) → k ≤ left → HasBudget left s → HasBudget k s
  fewer k left s le h = record {
    active = h.active;
    steps = ground (arith, h.steps, le);
    tokens =
        below wf.budgets.max_tokens _ (s.tokens + left * cost)
          (ground (arith, times_mono k left cost le)) h.tokens;
    files =
        no_more wf.budgets.max_generated_files _ (s.generated_files + left) (omega arith) h.files;
  }

  pub emit-HasBudget :
      (left : ℕ) (e : Event) (s : RunState) → HasBudget left s → HasBudget left (emit e s)
  unfolding emit
  emit-HasBudget left e s h = record {
    active = h.active;
    steps = h.steps;
    tokens = h.tokens;
    files = h.files;
  }
