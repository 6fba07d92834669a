-- ===== src/Compiler/Stages.antt =====
-- kernel/stages.py: the bounded stages from a prompt to a workflow that may run. The compiler, the schema,
-- `uuid4`, `str.lower` and the test for a blank text are parameters; scores are in hundredths.
mod Drafts
pub mod Passed
unfoldable pub use Drafts.*
use Prim.Native.String
use brain_flow.Prelude.{
  ℕ, zero, suc, ◌+◌, String, Bool, true, false, ◌&&◌, ◌||◌, not, Option, none, some, List, [], ◌∷◌,
  ◌++◌, any, map, ltb, leb, str_eq, if◌then◌else◌,
}
use brain_flow.Prelude.Int.{ℤ}
use brain_flow.Prelude.Text.{codes, starts_with, is_infix, or_text, char_count, is_empty}
use brain_flow.Kernel.Workflow.{Edge}
use brain_flow.Kernel.Gate.{NodeDoc, Doc, Report, validate_workflow_policy}
use brain_flow.Compiler.Packs.{Pack, Routed, get_pack, pack_ref, route_pack}

abbrev when : {A : Type 0} → Bool → A → List A
when true a = a ∷ []
when false a = []

abbrev pub is_nil : {A : Type 0} → List A → Bool
is_nil [] = true
is_nil (_ ∷ _) = false

unfoldable pub intake_analyst : (String → String) → (String → Bool) → String → Intake
intake_analyst to_lower is_blank source_text =
    let lower = codes (to_lower source_text) in
    record {
      quality_warnings =
          when (is_blank source_text) empty_source
          ++ when (ltb 100000 (char_count source_text)) large_source_truncated;
      sensitive_data_flags =
          when (is_infix (codes "password") lower) possible_secret
          ++ when (is_infix (codes "api_key") lower) possible_secret
          ++ when (is_infix (codes "ssn") lower) possible_pii;
      is_missing = is_blank source_text;
    }

abbrev pub is_verify : DraftNode → Bool
is_verify n = elim n.type [ none ↦ false | some t ↦ str_eq t "verify" ]

abbrev pub has_verify : List DraftNode → Bool
has_verify nodes = any is_verify nodes

abbrev pub last_id : List DraftNode → Option String
last_id [] = none
last_id (n ∷ nodes) = elim nodes [ [] ↦ some n.id | _ ∷ _ ↦ last_id nodes ]

-- The edge from the last node, if it has an id.
abbrev pub edge_from : Option String → List PatchOp
edge_from none = []
edge_from (some id) = if is_empty id then [] else add_edge_from id ∷ []

abbrev has_two : List DraftNode → Bool
has_two (_ ∷ _ ∷ _) = true
has_two _ = false

unfoldable pub critic_review : Draft → Intake → Pack → Critique
critic_review w intake pack =
    let scores : Scores = record {
      completeness = if has_two w.nodes then 70 else 40;
      ordering = if is_nil w.edges then 50 else 80;
      feasibility = 75;
      domain_fit =
          if starts_with (codes (or_text w.domain_pack_id "")) (codes pack.id) then 80 else 50;
      source_grounding = if is_nil intake.quality_warnings then 60 else 45;
      risk = if is_nil intake.sensitive_data_flags then 15 else 30;
    } in
    record {
      scores = scores;
      passes = leb 50 scores.completeness && leb 50 scores.domain_fit;
      patch =
          if not (has_verify w.nodes) && not (is_nil w.nodes)
          then add_verify_node ∷ edge_from (last_id w.nodes)
          else [];
    }

abbrev pub verify_node : String → DraftNode
verify_node id = record {
  id = id;
  type = some "verify";
  permission_class = some "read";
  review_loop = none;
}

abbrev edge_to_verify : Option String → String → List Edge
edge_to_verify none verify_id = []
edge_to_verify (some prev) verify_id =
    record { source = String.◌++◌ prev ":out"; target = String.◌++◌ verify_id ":in" } ∷ []

unfoldable pub apply_critic_verify_patch : String → Draft → Draft
apply_critic_verify_patch verify_id w = if has_verify w.nodes then w else record w {
  nodes = w.nodes ++ verify_node verify_id ∷ [];
  edges = w.edges ++ edge_to_verify (last_id w.nodes) verify_id;
}

abbrev pub gate_node : DraftNode → Option NodeDoc
gate_node n =
    some (record { id = n.id; permission_class = n.permission_class; review_loop = n.review_loop })

-- A draft as the policy gate reads it.
abbrev pub gate_doc : Draft → Doc
gate_doc w = record {
  nodes = map gate_node w.nodes;
  edges = map some w.edges;
  max_steps = w.max_steps;
  max_parallel_jobs = w.max_parallel_jobs;
}

pub data PipelineError : Type 0 where
  schema_validate_failed post_critic_schema_failed : PipelineError
  policy_rejected : Report → PipelineError

-- How the pipeline ends, with the stages that it has logged. `raised` is a RuntimeError or a failed
-- assertion; the policy gate's `none` is one that does not answer.
pub data Outcome : Type 0 where
  accepted : Draft → Critique → Report → List Stage → Outcome
  failed : PipelineError → List Stage → Outcome
  raised no_answer : Outcome

-- What the program does not implement.
pub record Tools : Type 0 where
  pub to_lower : String → String
  pub is_blank : String → Bool
  pub compile_fn : String → String → Pack → Draft
  pub validate_workflow_ir : Draft → Bool
  pub set_order : List String → List String
  pub verify_id : String
  pub packs : List Pack

module _ (tools : Tools) where
  -- The last stage: the policy gate.
  unfoldable pub run_policy : Draft → Critique → List Stage → Outcome
  unfolding validate_workflow_policy
  run_policy w critique log = elim (validate_workflow_policy tools.set_order (gate_doc w)) [
    | none ↦ no_answer
    | some r ↦
        if r.ok
        then accepted w critique r (log ++ policy_stage ∷ [])
        else failed (policy_rejected r) (log ++ policy_stage ∷ [])
  ]

  -- From the critic on.
  unfoldable pub run_critic : Draft → Intake → Pack → List Stage → Outcome
  unfolding critic_review apply_critic_verify_patch run_policy
  run_critic w intake pack log =
      let critique = critic_review w intake pack in
      let log' = log ++ critic_stage ∷ [] in
      if is_nil critique.patch
      then run_policy w critique log'
      else (let patched = apply_critic_verify_patch tools.verify_id w in
          let log'' = log' ++ schema_stage ∷ [] in
          if tools.validate_workflow_ir patched
          then run_policy patched critique log''
          else failed post_critic_schema_failed log'')

  -- From the planner on, with the pack that is chosen.
  unfoldable pub run_compiler : String → String → Intake → Pack → Outcome
  unfolding run_critic
  run_compiler prompt source_text intake pack =
      let w = tools.compile_fn prompt source_text pack in
      let log =
        intake_stage ∷ goal_router_stage ∷ domain_planner_stage ∷ compiler_stage ∷ schema_stage
        ∷ [] in
      if tools.validate_workflow_ir w
      then run_critic w intake pack log
      else failed schema_validate_failed log

  abbrev routed_pack : String → String → Option Pack
  routed_pack prompt source_text = elim (route_pack tools.to_lower tools.packs prompt source_text) [
    | none ↦ none
    | some r ↦ get_pack tools.packs (pack_ref r.pack)
  ]

  abbrev pub choose_pack : Option String → String → String → Option Pack
  choose_pack none prompt source_text = routed_pack prompt source_text
  choose_pack (some pack_id) prompt source_text =
      if is_empty pack_id then routed_pack prompt source_text else get_pack tools.packs pack_id

  unfoldable pub run_kernel_pipeline : Option String → String → String → Outcome
  unfolding intake_analyst get_pack run_compiler
  run_kernel_pipeline pack_id prompt source_text =
      let intake = intake_analyst tools.to_lower tools.is_blank source_text in
      elim (choose_pack pack_id prompt source_text) [
        | none ↦ raised
        | some pack ↦ run_compiler prompt source_text intake pack
      ]
