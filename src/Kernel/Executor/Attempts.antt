-- ===== src/Kernel/Executor/Attempts.antt =====
-- A proof rule for one attempt at a node: what is to be shown for each way in which it ends.
use brain_flow.Prelude.{
  ℕ, ◌+◌, ◌==◌, String, ◌≡◌, refl, true, false, not, ◌&&◌, Option, none, some, ◌⊎◌, arith, if_ind,
  option_ind, subst, sym,
}
use brain_flow.Prelude.Text.{is_empty}
use brain_flow.Kernel.Workflow.{Node, Workflow, or_number}
use brain_flow.Kernel.Run.{max_tokens, Output, RunState, Interference, disturb}
use brain_flow.Kernel.Attempt.{
  Env, Reply, returned, raised, Attempt, success, over_budget, failure, attempt_node, begin_attempt,
  invoke, accept, fail, over_limit, add_artifact, add_tokens, conclude_attempt, take_artifact,
  path_error, store,
}

-- What holds after one attempt, by how it ends.
abbrev pub AttemptEnds :
    (RunState → Type 0) → (RunState → Type 0) → (String → RunState → Type 0) → Attempt → Type 0
AttemptEnds P Q F (success s) = P s
AttemptEnds P Q F (over_budget s) = Q s
AttemptEnds P Q F (failure text s) = F text s

-- No path of an artifact is there.
abbrev pub IsUnset : Option String → Type 0
IsUnset none = Unit
IsUnset (some path) = is_empty path ≡ true

module _ {W : Type 0} (env : Env W) (wf : Workflow) (input_hash : String) (node : Node)
    (nid ck : String) (attempt : ℕ) (P Q : RunState → Type 0) (F : String → RunState → Type 0) where
  -- The tokens that a handler reports fit, or it reports none.
  abbrev pub Fits : ℕ → RunState → Type 0
  Fits n s = (n ≡ 0) ⊎ (over_limit wf.budgets.max_tokens (s.tokens + n) ≡ false)

  -- `s` is the state when the handler returns, with an output for which `Returned` holds.
  pub record Outcomes (Returned : Output → Type 0) (s : RunState) : Type 0 where
    pub over :
        (n : ℕ)
        → over_limit wf.budgets.max_tokens (s.tokens + n) ≡ true
        → Q (fail max_tokens (add_tokens n s))
    pub plain :
        (n : ℕ) (out : Output)
        → IsUnset out.artifact_path
        → Fits n s
        → P (store nid ck attempt out (add_tokens n s))
    pub artifact :
        (n : ℕ) (out : Output) (path : String)
        → Returned out
        → out.artifact_path ≡ some path
        → Fits n s
        → is_empty path ≡ false
        → path_error node path ≡ none
        → P (store nid ck attempt out (add_artifact path (add_tokens n s)))
    pub refused :
        (n : ℕ) (path text : String)
        → Fits n s
        → path_error node path ≡ some text
        → F text (add_tokens n s)

  take_artifact-Ends :
      (Returned : Output → Type 0) (n : ℕ) (out : Output) (s : RunState) (path : Option String)
      → Outcomes Returned s
      → Returned out
      → out.artifact_path ≡ path
      → Fits n s
      → AttemptEnds P Q F (
          conclude_attempt nid ck attempt out
            (add_tokens n s)
            (take_artifact node path (add_tokens n s)))
  unfolding take_artifact
  take_artifact-Ends R n out s none o back e fits = o.plain n out (subst IsUnset (sym e) tt) fits
  take_artifact-Ends R n out s (some path) o back at fits =
      if_ind Holds (is_empty path) (λ unset. o.plain n out (subst IsUnset (sym at) unset) fits)
        λ given.
          option_ind Holds (path_error node path) (λ e. o.artifact n out path back at fits given e)
            (λ text e. o.refused n path text fits e)
    where
      Holds : RunState ⊎ String → Type 0
      Holds r = AttemptEnds P Q F (conclude_attempt nid ck attempt out (add_tokens n s) r)

  accept-Ends :
      (Returned : Output → Type 0) (out : Output) (s : RunState)
      → Outcomes Returned s
      → Returned out
      → AttemptEnds P Q F (accept wf node nid ck attempt out s)
  unfolding accept add_tokens
  accept-Ends R out s o back =
      if_ind (AttemptEnds P Q F) (not (n == 0) && over_limit wf.budgets.max_tokens (s.tokens + n))
        (λ h. o.over n (ground (arith, h)))
        (λ h. take_artifact-Ends R n out s out.artifact_path o back refl (ground (arith, h)))
    where
      n : ℕ
      n = or_number out.tokens_used (or_number out.tokens 0)

  abbrev Answers : RunState → W → Output → Type 0
  Answers s w out = (invoke env wf input_hash node (begin_attempt nid attempt s) w).0 ≡ returned out

  pub attempt_node-Ends :
      (s : RunState) (w : W)
      → ((o : Interference) → Outcomes (Answers s w) (disturb o (begin_attempt nid attempt s)))
      → ((o : Interference) (text : String)
          → (invoke env wf input_hash node (begin_attempt nid attempt s) w).0 ≡ raised text
          → F text (disturb o (begin_attempt nid attempt s)))
      → AttemptEnds P Q F (attempt_node env wf input_hash node nid ck attempt s w).0
  unfolding attempt_node
  attempt_node-Ends s w outcomes raises =
      go (invoke env wf input_hash node (begin_attempt nid attempt s) w) outcomes raises
    where
      go :
          (r : Reply × Interference × W)
          → ((o : Interference)
              → Outcomes (λ out. r.0 ≡ returned out) (disturb o (begin_attempt nid attempt s)))
          → ((o : Interference) (text : String)
              → r.0 ≡ raised text
              → F text (disturb o (begin_attempt nid attempt s)))
          → AttemptEnds P Q F (
              let x : Attempt × W = elim r.0 [
                | returned out ↦ (
                  accept wf node nid ck attempt out (disturb r.1 (begin_attempt nid attempt s)),
                  r.2,
                )
                | raised text ↦ (failure text (disturb r.1 (begin_attempt nid attempt s)), r.2)
              ] in
              x.0)
      go (returned out, o, w') k h = accept-Ends _ out _ (k o) refl
      go (raised text, o, w') k h = h o text refl
