-- ===== src/Compiler/Generate.antt =====
-- workflow_gen.py: `generate_workflow_ir`, from the document that the model has written on. The model, its
-- JSON, `uuid4`, the text of a number and the order of a set are parameters.
mod Documents
pub mod Harmless
pub mod Safety
unfoldable pub use Documents.*
use Prim.Native.String
use brain_flow.Prelude.{
  ℕ, zero, suc, ◌+◌, String, Bool, true, false, ◌&&◌, ◌||◌, not, Option, none, some, List, [], ◌∷◌,
  ◌++◌, any, length, str_eq, if◌then◌else◌,
}
use brain_flow.Prelude.Dict.{Dict, get, put, has}
use brain_flow.Prelude.Text.{or_text, take_chars, before, is_empty}
use brain_flow.Kernel.Policy.{contains}
use brain_flow.Kernel.Workflow.{Node, Budgets}
use brain_flow.Gateway.Pins.{Ref}
use brain_flow.Compiler.Packs.{Pack}

abbrev default_types : List String
default_types =
    "extract" ∷ "retrieve" ∷ "llm_plan" ∷ "write_artifact" ∷ "verify" ∷ "human_approve"
    ∷ "summarize" ∷ []

-- pack.get("allowed_node_types") or […]
abbrev allowed_types : Pack → List String
allowed_types pack = elim pack.allowed_node_types [ [] ↦ default_types | t ∷ ts ↦ t ∷ ts ]

-- A class that would need an approval becomes `safe_overlay`.
unfoldable pub safe_class : Option String → Option String → String
safe_class permission_class default =
    let perm = or_text permission_class (or_text default "safe_overlay") in
    if str_eq perm "read" || str_eq perm "safe_overlay" then perm else "safe_overlay"

abbrev retry_of : Option (Option ℕ) → Option ℕ
retry_of none = some 1
retry_of (some m) = m

abbrev kind_of : Option String → String
kind_of none = "data"
kind_of (some k) =
    if str_eq k "data" || str_eq k "control" || str_eq k "approval" then k else "data"

-- f"{pack.get('id')}@{pack.get('version', '1.0.0')}"
abbrev pub pack_name : Pack → String
pack_name pack =
    String.◌++◌ pack.id
      (String.◌++◌ "@" (elim pack.version [ none ↦ "1.0.0" | some version ↦ version ]))

-- A goal that has no statement gets the text of None, whatever the prompt is.
abbrev statement_of : String → RawGoal → String
statement_of prompt (RawGoal.goal none) = "None"
statement_of prompt (RawGoal.goal (some statement)) = statement
statement_of prompt no_goal = or_text (some prompt) "Derive a short artifact from the source note"

unfoldable pub texts_of : Pack → String → RawDoc → Texts
texts_of pack prompt doc = record {
  title = take_chars 200 (or_text doc.title (or_text (some prompt) "Generated workflow"));
  domain_pack_id = or_text doc.domain_pack_id (pack_name pack);
  statement = statement_of prompt doc.goal;
}

module _ (uuid4 : ℕ → String) (show : ℕ → String) (pick : List String → String) where
  abbrev pub key_of : Ids → Option String → String
  key_of s none = String.◌++◌ "anon-" (show (length s.id_map))
  key_of s (some old) = old

  -- `fresh`: the id that stands for an old one, and the ids after it.
  unfoldable pub fresh : Option String → Ids → String × Ids
  fresh old s =
      let key = key_of s old in
      elim (get s.id_map key) [
        | some u ↦ (u, s)
        | none ↦ (
          uuid4 s.given,
          record { id_map = put s.id_map key (uuid4 s.given); given = s.given + 1 },
        )
      ]

  -- A type that the pack does not allow becomes another one.
  unfoldable pub node_type : Pack → Option String → String
  node_type pack type =
      let t = or_text type "summarize" in
      if contains (allowed_types pack) t
      then t
      else if contains (allowed_types pack) "summarize"
      then "summarize"
      else pick (allowed_types pack)

  unfoldable pub make_node : Pack → RawNode → String → Node
  unfolding node_type safe_class
  make_node pack n node_id =
      let ntype = node_type pack n.type in
      let key = String.◌++◌ ntype (String.◌++◌ ":" node_id) in
      record {
        id = node_id;
        type = some ntype;
        title = some (take_chars 120 (or_text n.title ntype));
        permission_class = some (safe_class n.permission_class pack.default_permission_class);
        cache_key = some (or_text n.cache_key key);
        idempotency_key = some (or_text n.idempotency_key key);
        retry_max = retry_of n.retry;
      }

  -- The loop over the nodes.
  unfoldable pub make_nodes : Pack → List (Option RawNode) → Ids → List Node × Ids
  unfolding fresh make_node
  make_nodes pack [] s = ([], s)
  make_nodes pack (none ∷ ns) s = make_nodes pack ns s
  make_nodes pack (some n ∷ ns) s =
      let (node_id, s') = fresh n.id s in
      let (nodes, s'') = make_nodes pack ns s' in (make_node pack n node_id ∷ nodes, s'')

  abbrev pub out : String → String
  out id = String.◌++◌ id ":out"

  abbrev pub into : String → String
  into id = String.◌++◌ id ":in"

  abbrev pub make_link : ℕ → Option String → Option String → Option String → Option Link
  make_link n (some u) (some v) kind =
      some (record { id = uuid4 n; source = out u; target = into v; kind = kind_of kind })
  make_link n _ _ kind = none

  -- The loop over the edges: one between ids that no node has is left out. The number is that of the
  -- uuids so far.
  unfoldable pub make_links : Dict String → List (Option RawEdge) → ℕ → List Link × ℕ
  make_links ids [] n = ([], n)
  make_links ids (none ∷ es) n = make_links ids es n
  make_links ids (some e ∷ es) n =
      elim (make_link n (get ids (before b':' e.source)) (get ids (before b':' e.target)) e.kind) [
        | none ↦ make_links ids es n
        | some l ↦ let (links, n') = make_links ids es (n + 1) in (l ∷ links, n')
      ]

  -- Without edges, the nodes follow one another.
  unfoldable pub chain : List Node → ℕ → List Link × ℕ
  chain [] n = ([], n)
  chain (a ∷ []) n = ([], n)
  chain (a ∷ b ∷ nodes) n =
      let (links, n') = chain (b ∷ nodes) (n + 1) in
      (record { id = uuid4 n; source = out a.id; target = into b.id; kind = "data" } ∷ links, n')

  abbrev pub or_chain : List Node → List Link × ℕ → List Link × ℕ
  or_chain nodes ([], n) = chain nodes n
  or_chain nodes (l ∷ links, n) = (l ∷ links, n)

  -- The digest that is asked for, or that of the health report, or "unknown".
  abbrev pinned_digest : Option String → Dict String → String → String
  pinned_digest model_digest digests model =
      or_text model_digest (or_text (get digests model) "unknown")

  abbrev pub assemble : Ref → Texts → List Node × Ids → RawDoc → Compiled
  assemble planner texts ([], s) doc = no_usable_nodes
  assemble planner texts (n ∷ nodes, s) doc =
      let (links, given) = or_chain (n ∷ nodes) (make_links s.id_map doc.edges s.given) in
      compiled (record {
        workflow_id = uuid4 given;
        texts = texts;
        planner = planner;
        nodes = n ∷ nodes;
        edges = links;
        budgets = record {
          max_steps = some 12;
          max_tokens = some 16000;
          max_generated_files = some 8;
        };
        criteria = "artifact_written" ∷ [];
      })

  unfoldable pub generate_workflow_ir :
      Pack → String → String → Option String → Dict String → RawDoc → Compiled
  unfolding make_nodes make_links chain get texts_of
  generate_workflow_ir pack prompt model model_digest digests doc =
      let planner : Ref = record {
        provider = "ollama";
        name = model;
        digest = some (pinned_digest model_digest digests model);
      } in
      elim doc.nodes [
        | [] ↦ no_nodes
        | _ ∷ _ ↦
            assemble planner (texts_of pack prompt doc)
              (make_nodes pack doc.nodes (record { id_map = []; given = 0 })) doc
      ]
