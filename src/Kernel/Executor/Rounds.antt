-- ===== src/Kernel/Executor/Rounds.antt =====
-- kernel/executor.py: a node's round leaves the node done, and those of the other nodes as they are.
use brain_flow.Prelude.{
  ℕ, ◌+◌, ◌<◌, String, ◌≡◌, refl, sym, ap, ◌∙◌, Bool, true, false, Option, none, some, List, ◌⊎◌,
  inl, inr, arith, if_ind, option_ind, subst, str_eq, if◌then◌else◌,
}
use brain_flow.Prelude.Text.{is_empty}
use brain_flow.Prelude.Dict.{Dict, get, put, get-put, get-put_self}
use brain_flow.Kernel.Workflow.{Node, Workflow}
use brain_flow.Kernel.Run.{NodeState, RunState, Interference, disturb, emit}
use brain_flow.Kernel.Attempt.{
  Env, raised, fail, begin_attempt, store, add_tokens, add_artifact, attempts, settle, invoke,
}
use brain_flow.Kernel.Executor.{
  start_node, is_done, ask, record_approval, await_approval, hit_cache,
}
use brain_flow.Kernel.Executor.Attempts.{attempt_node-Ends}
use brain_flow.Kernel.Executor.Rules.{Ends, Round, attempts-Ends}
use brain_flow.Kernel.Executor.Open.{
  IsDone, IsOpen, absurd_open, cancel-IsOpen, disturb-IsOpen, disturb-states, path_error-text,
}

module _ {W : Type 0} (env : Env W) (wf : Workflow) (input_hash : String) where
  -- The exceptions of the handlers have a text.
  abbrev pub HasTexts : Type 0
  HasTexts =
      (node : Node) (s : RunState) (w : W) (text : String)
      → (invoke env wf input_hash node s w).0 ≡ raised text
      → is_empty text ≡ false

  ask-IsOpen :
      (node : Node) (s : RunState) (w : W) → IsOpen s → IsOpen (ask env wf input_hash node s w).1
  unfolding ask
  ask-IsOpen node s w h =
      option_ind (λ (r : Bool × RunState × W). IsOpen r.1) env.approval_callback (λ _. h)
        (λ callback _. disturb-IsOpen (callback node w).1 s h)

  ask-states :
      (node : Node) (s : RunState) (w : W)
      → (ask env wf input_hash node s w).1.node_states ≡ s.node_states
  unfolding ask
  ask-states node s w =
      option_ind (λ (r : Bool × RunState × W). r.1.node_states ≡ s.node_states)
        env.approval_callback (λ _. refl) (λ callback _. disturb-states (callback node w).1 s)

  -- The round of the node itself.
  module _ (texts : HasTexts) (nid : String) (node : Node) where
    -- After an attempt there is a text to report, and before the first there is a round to come.
    abbrev Reports : ℕ → Option String → Type 0
    Reports left none = 0 < left
    Reports left (some text) = is_empty text ≡ false

    Closed : RunState → Type 0
    Closed s = IsDone s nid

    settle-Ends :
        (attempt : ℕ) (last : Option String) (s : RunState) (w : W)
        → Reports 0 last
        → Ends (λ t. IsOpen t × IsDone t nid) IsOpen (settle nid attempt last s w)
    unfolding settle
    settle-Ends attempt none s w h = absurd (omega arith)
    settle-Ends attempt (some text) s w h =
        if_ind (Ends (λ t. IsOpen t × IsDone t nid) IsOpen) (is_empty text) (absurd_open h)
          (λ _. refl)

    begin-IsOpen : (attempt : ℕ) (s : RunState) → IsOpen s → IsOpen (begin_attempt nid attempt s)
    unfolding begin_attempt
    begin-IsOpen attempt s h = h

    tries :
        (ck : String) (left : ℕ) (s : RunState) (w : W)
        → 0 < left
        → IsOpen s
        → Ends
            (λ t. IsOpen t × IsDone t nid)
            IsOpen
            (attempts env wf input_hash node nid ck left 0 none s w)
    unfolding emit store fail add_tokens add_artifact
    tries ck left s w some_left h =
        attempts-Ends env wf input_hash node nid ck (λ k _ last t. IsOpen t × Reports k last)
          (λ t. IsOpen t × IsDone t nid) IsOpen (λ _ _ _ s' h' _. cancel-IsOpen s' h'.0)
          (λ k attempt _ s' w' h'.
            let opened : (o : Interference)
                → IsOpen (disturb o (begin_attempt nid (attempt + 1) s')) =
              λ o. disturb-IsOpen o _ (begin-IsOpen (attempt + 1) s' h'.0) in
            attempt_node-Ends env wf input_hash node nid ck (attempt + 1)
              (λ t. IsOpen t × IsDone t nid) IsOpen _ s' w'
              (λ o. record {
                over = λ n _. refl;
                plain = λ n out _ _. (opened o, ap is_done (get-put_self _ nid _));
                artifact = λ n out path _ _ _ _ _. (opened o, ap is_done (get-put_self _ nid _));
                refused = λ n path text _ e. (opened o, path_error-text node path text e);
              })
              (λ o text e. (opened o, texts node _ w' text e)))
          (λ attempt last s' w' h'. settle-Ends attempt last s' w' h'.1) left 0 none s w
          (h, some_left)

    start-IsOpen : (s : RunState) → IsOpen s → IsOpen (start_node nid s)
    unfolding start_node
    start-IsOpen s h = h

    pub round_same :
        (nids : List String)
        → Round env wf input_hash nid node IsOpen IsOpen IsOpen
            (λ t. IsOpen t × IsDone t nid)
            IsOpen
    unfolding fail record_approval await_approval hit_cache
    round_same nids = record {
      starts = λ s h _. start-IsOpen s h;
      stops = λ b s h _. refl;
      free = λ s h _. h;
      approves = λ s w h _ _. ask-IsOpen node s w h;
      denies = λ s w h _ _. refl;
      hits = λ s h. (h, ap is_done (get-put_self _ nid _));
      tries = λ s w h. tries _ _ s w (omega arith) h;
    }

  -- The round of another node leaves the state of `v` alone.
  module _ (v nid : String) (node : Node) (other : str_eq nid v ≡ false) (C : Type 0) where
    abbrev Keeps : RunState → Type 0
    Keeps s = IsOpen s × (C ⊎ IsDone s v)

    set-Keeps :
        (d : Dict NodeState) (n : NodeState)
        → C ⊎ (is_done (get d v) ≡ true)
        → C ⊎ (is_done (get (put d nid n) v) ≡ true)
    set-Keeps d n (inl c) = inl c
    set-Keeps d n (inr h) =
        inr (ap is_done (get-put d nid v n ∙ ap (λ b. if b then some n else get d v) other) ∙ h)

    states-Keeps :
        {d d' : Dict NodeState}
        → d' ≡ d
        → C ⊎ (is_done (get d v) ≡ true)
        → C ⊎ (is_done (get d' v) ≡ true)
    states-Keeps {d} {d'} e h = subst (λ x. C ⊎ (is_done (get x v) ≡ true)) (sym e) h

    begin-Keeps : (attempt : ℕ) (s : RunState) → Keeps s → Keeps (begin_attempt nid attempt s)
    unfolding begin_attempt
    begin-Keeps attempt s (h, k) = (h, set-Keeps s.node_states _ k)

    disturb-Keeps : (o : Interference) (s : RunState) → Keeps s → Keeps (disturb o s)
    disturb-Keeps o s (h, k) = (disturb-IsOpen o s h, states-Keeps (disturb-states o s) k)

    settle-Keeps :
        (attempt : ℕ) (last : Option String) (s : RunState) (w : W)
        → Keeps s
        → Ends Keeps IsOpen (settle nid attempt last s w)
    unfolding settle
    settle-Keeps attempt none s w h = h
    settle-Keeps attempt (some text) s w h =
        if_ind (Ends Keeps IsOpen) (is_empty text) (λ _. h) (λ _. refl)

    tries_other :
        (ck : String) (left : ℕ) (s : RunState) (w : W)
        → Keeps s
        → Ends Keeps IsOpen (attempts env wf input_hash node nid ck left 0 none s w)
    unfolding emit store fail add_tokens add_artifact
    tries_other ck left s w h =
        attempts-Ends env wf input_hash node nid ck (λ _ _ _. Keeps) Keeps IsOpen
          (λ _ _ _ s' h' _. cancel-IsOpen s' h'.0)
          (λ _ attempt _ s' w' h'.
            let kept : (o : Interference) → Keeps (disturb o (begin_attempt nid (attempt + 1) s')) =
              λ o. disturb-Keeps o _ (begin-Keeps (attempt + 1) s' h') in
            attempt_node-Ends env wf input_hash node nid ck (attempt + 1) Keeps IsOpen _ s' w'
              (λ o. record {
                over = λ n _. refl;
                plain = λ n out _ _. ((kept o).0, set-Keeps _ _ (kept o).1);
                artifact = λ n out path _ _ _ _ _. ((kept o).0, set-Keeps _ _ (kept o).1);
                refused = λ n path text _ _. kept o;
              })
              (λ o text _. kept o))
          (λ attempt last s' w' h'. settle-Keeps attempt last s' w' h') left 0 none s w h

    pub round_other : Round env wf input_hash nid node Keeps Keeps Keeps Keeps IsOpen
    unfolding start_node fail record_approval await_approval hit_cache
    round_other = record {
      starts = λ s h _. (h.0, set-Keeps _ _ h.1);
      stops = λ b s h _. refl;
      free = λ s h _. h;
      approves = λ s w h _ _. (ask-IsOpen node s w h.0, states-Keeps (ask-states node s w) h.1);
      denies = λ s w h _ _. refl;
      hits = λ s h. (h.0, set-Keeps _ _ h.1);
      tries = λ s w h. tries_other _ _ s w h;
    }
