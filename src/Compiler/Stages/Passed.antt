-- ===== src/Compiler/Stages/Passed.antt =====
-- kernel/stages.py: what a workflow that the pipeline lets through has passed.
use brain_flow.Prelude.{
  map, String, ◌≡◌, refl, sym, ap, subst, ◌∙◌, Bool, true, false, ◌&&◌, ◌||◌, not, Option, none,
  some, List, [], ◌∷◌, any-append, arith, if◌then◌else◌, if_ind, option_ind,
}
use brain_flow.Kernel.Gate.{no_nodes, search, report, check_nodes, Report, validate_workflow_policy}
use brain_flow.Compiler.Packs.{Pack}
use brain_flow.Compiler.Stages.{
  add_verify_node, edge_from, last_id, gate_node, Stage, schema_stage, intake_stage,
  goal_router_stage, domain_planner_stage, compiler_stage, Draft, DraftNode, Intake, Critique,
  has_verify, is_verify, is_nil, verify_node, critic_review, apply_critic_verify_patch, gate_doc,
  Outcome, accepted, Tools, run_policy, run_critic, run_compiler, run_kernel_pipeline, choose_pack,
  intake_analyst,
}

or_true : (b : Bool) → b || true ≡ true
or_true true = refl
or_true false = refl

patched-has_verify :
    (id : String) (w : Draft) → has_verify (apply_critic_verify_patch id w).nodes ≡ true
unfolding apply_critic_verify_patch
patched-has_verify id w =
    if_ind (λ (d : Draft). has_verify d.nodes ≡ true) (has_verify w.nodes) (λ h. h)
      (λ _. any-append is_verify w.nodes (verify_node id ∷ []) ∙ or_true (has_verify w.nodes))

abbrev ok_of : Option Report → Bool
ok_of none = false
ok_of (some r) = r.ok

module _ (tools : Tools) where
  -- The schema and the policy gate have let a workflow through, and one of its nodes verifies the outcome.
  pub record IsPassed (w : Draft) (r : Report) : Type 0 where
    pub schema : tools.validate_workflow_ir w ≡ true
    pub policy : validate_workflow_policy tools.set_order (gate_doc w) ≡ some r
    pub ok : r.ok ≡ true
    pub verified : has_verify w.nodes ≡ true

  abbrev Passes : Outcome → Type 0
  Passes (accepted w c r log) = IsPassed w r
  Passes _ = Unit

  run_policy-Passes :
      (w : Draft) (c : Critique) (log : List Stage)
      → tools.validate_workflow_ir w ≡ true
      → ((r : Report)
          → validate_workflow_policy tools.set_order (gate_doc w) ≡ some r
          → r.ok ≡ true
          → has_verify w.nodes ≡ true)
      → Passes (run_policy tools w c log)
  unfolding run_policy
  run_policy-Passes w c log s v =
      option_ind Passes (validate_workflow_policy tools.set_order (gate_doc w)) (λ _. tt)
        λ r e.
          if_ind Passes r.ok (λ k. record { schema = s; policy = e; ok = k; verified = v r e k })
            (λ _. tt)

  -- The gate refuses a draft without nodes.
  empty-refused :
      (w : Draft) (r : Report)
      → w.nodes ≡ []
      → validate_workflow_policy tools.set_order (gate_doc w) ≡ some r
      → r.ok ≡ false
  unfolding validate_workflow_policy
  empty-refused w r n e = sym (ap (λ (o : Option Report). ok_of o) (sym (gate w.nodes n) ∙ e))
    where
      gate :
          (nodes : List DraftNode)
          → nodes ≡ []
          → (elim (map gate_node nodes) as (λ _. Option Report) [
            | [] ↦ some no_nodes
            | _ ∷ _ ↦ elim (search tools.set_order (gate_doc w)) as (λ _. Option Report) [
              | none ↦ none
              | some k ↦ some (report (gate_doc w) (check_nodes (map gate_node w.nodes)).1 k)
            ]
          ])
            ≡ some no_nodes
      gate [] h = refl
      gate (m ∷ ms) h = absurd (ground (arith, h))

  -- A critic that proposes no patch has found a node that verifies, or no node at all.
  unpatched-verified :
      (w : Draft) (intake : Intake) (pack : Pack)
      → (w.nodes ≡ [] → ⊥)
      → is_nil (critic_review w intake pack).patch ≡ true
      → has_verify w.nodes ≡ true
  unfolding critic_review
  unpatched-verified w intake pack h e = go w.nodes h e
    where
      go :
          (nodes : List DraftNode)
          → (nodes ≡ [] → ⊥)
          → is_nil (
              if not (has_verify nodes) && not (is_nil nodes)
              then add_verify_node ∷ edge_from (last_id nodes)
              else [])
            ≡ true
          → has_verify nodes ≡ true
      go [] h e = absurd (h refl)
      go (m ∷ ms) h e = ground (arith, e)

  run_critic-Passes :
      (w : Draft) (intake : Intake) (pack : Pack) (log : List Stage)
      → tools.validate_workflow_ir w ≡ true
      → Passes (run_critic tools w intake pack log)
  unfolding run_critic
  run_critic-Passes w intake pack log s =
      if_ind Passes (is_nil (critic_review w intake pack).patch)
        (λ e. run_policy-Passes w _ _ s (λ r p k.
          unpatched-verified w intake pack (λ n. absurd (ground (arith, k, empty-refused w r n p)))
            e))
        (λ _.
          if_ind Passes (tools.validate_workflow_ir (apply_critic_verify_patch tools.verify_id w))
            (λ k. run_policy-Passes _ _ _ k (λ _ _ _. patched-has_verify tools.verify_id w))
            (λ _. tt))

  run_compiler-Passes :
      (prompt source_text : String) (intake : Intake) (pack : Pack)
      → Passes (run_compiler tools prompt source_text intake pack)
  unfolding run_compiler
  run_compiler-Passes prompt source_text intake pack =
      if_ind Passes (tools.validate_workflow_ir (tools.compile_fn prompt source_text pack))
        (λ k.
          run_critic-Passes (tools.compile_fn prompt source_text pack) intake pack
            (intake_stage ∷ goal_router_stage ∷ domain_planner_stage ∷ compiler_stage ∷ schema_stage
              ∷ [])
            k)
        (λ _. tt)

  pipeline-Passes :
      (pack_id : Option String) (prompt source_text : String)
      → Passes (run_kernel_pipeline tools pack_id prompt source_text)
  unfolding run_kernel_pipeline
  pipeline-Passes pack_id prompt source_text =
      option_ind Passes (choose_pack tools pack_id prompt source_text) (λ _. tt)
        (λ pack _.
          run_compiler-Passes prompt source_text
            (intake_analyst tools.to_lower tools.is_blank source_text) pack)

  -- A workflow that the pipeline lets through, its own critic's patch included, is valid by the schema
  -- as it is returned, the policy gate has answered for that very workflow and found nothing against it,
  -- and one of its nodes verifies the outcome.
  pub run_kernel_pipeline-IsPassed :
      (pack_id : Option String) (prompt source_text : String) (w : Draft) (c : Critique)
      (r : Report) (log : List Stage)
      → run_kernel_pipeline tools pack_id prompt source_text ≡ accepted w c r log
      → IsPassed w r
  run_kernel_pipeline-IsPassed pack_id prompt source_text w c r log e =
      subst Passes e (pipeline-Passes pack_id prompt source_text)
