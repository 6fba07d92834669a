-- ===== src/Lib.antt =====
-- A verification library for BrainFlow's worker (services/ai-worker/brainflow_worker): the kernel
-- that runs workflows, the compiler that makes them from a prompt, the gateway's choice of models with
-- its budgets, pins, keys and registry, the adapters of the providers, the requests that the worker
-- answers, and the intake of files.
--
-- The parts and their files
-- - Kernel (kernel/): the policy gate says which node may act without an approval and which paths
--   are safe (Kernel/Policy, policy_gate.py), and which documents are workflows that
--   may run (Kernel/Gate, `validate_workflow_policy`). The executor puts the nodes of a workflow in order
--   (Kernel/Topo, `_topo_layers`), and runs each under the budgets, the policy, the cache and the
--   retries of its node (Kernel/Attempt and Kernel/Executor, `DagExecutor`) over a `RunState`
--   (Kernel/Run, saved and loaded in Kernel/Run/Saved). What it reads of a workflow document is in
--   Kernel/Workflow. Imported content is delimited as evidence (Kernel/Delimit, delimit.py). A field
--   of `RunState` or of a node has the name that it has in Python; an entry of `budgets_used` is a field.
-- - Compiler: the choice of a domain pack (Compiler/Packs, domain_packs/registry.py), the workflow
--   that is made from what a model writes (Compiler/Generate, workflow_gen.py), what the model is sent
--   and how its answer is read (Compiler/Ask, workflow_gen.py), and the stages from a prompt to a
--   workflow that the policy gate lets through (Compiler/Stages, kernel/stages.py). The generator
--   makes nodes of Kernel/Workflow, and the stages end in Kernel/Gate.
-- - Gateway (gateway/): `RequestBudget` and what providers report (Gateway/Budget, budget.py), the
--   models that are pinned for a run (Gateway/Pins, pins.py), the models that may be chosen
--   (Gateway/Candidate, types.py) with their gates, scores and order (Gateway/Scoring, scoring.py),
--   the choice itself, which ends in the pins (Gateway/Select, select.py), the card that shows it
--   (Gateway/Recommend, recommend.py), and the signed registry of models with its snapshots
--   (Gateway/Registry, registry.py). The keys are in Gateway/Secrets (secrets.py). The adapters of the
--   LLM providers (Gateway/Providers, providers/) send requests with such a key and within such a
--   budget: OpenAi is openai_compat.py and openrouter.py, Adapters is __init__.py and stubs.py.
-- - Rpc: the requests that the worker answers (Rpc, rpc.py), and `workflow.generate` (Rpc/Generate), which
--   joins the health of the providers, the choice of models, the pins, the compiler, the schema and the
--   policy gate (validate.py).
-- - Intake (intake/): the pipeline from the bytes of a file to its bundle and its evidence
--   (Intake/Pipeline, pipeline.py), with the identity of a file (Intake/Identity, identity.py), the
--   choice of an adapter and the adapter for unknown files (Intake/Registry, registry.py), the bundle
--   (Intake/Document, bundle.py) and the evidence (Intake/Evidence, evidence.py), which Kernel/Delimit
--   delimits; the tracker of resource limits (Intake/Limits, limits.py), the quarantine of names
--   (Intake/Quarantine, quarantine.py), and the adapter for archives, which uses both
--   (Intake/Archive, adapters/archive.py).
-- - Prelude: names of the library, dictionaries in the order of insertion, the text functions of
--   Python that the worker uses, and integers.
--
-- How the code is translated
-- - A method that changes its object takes the state and returns the new one. An early `return` of
--   `execute` and of the adapter's loops is a case of a result type (`Flow`, `Next`); an exception
--   is a value. `execute` is `none` where Python raises a KeyError.
-- - Handlers, the approval callback, adapters, `hashlib`, `json`, the decoder and `str.lower` are
--   parameters. A handler works on a state `W` of the world, and says what others did to the run
--   while it ran: nothing, `request_cancel`, or `cancel`. Nothing is assumed of them but what a
--   theorem names.
-- - Loops over lists recurse on the list. The loop over the attempts recurses on the attempts left.
--   Kahn's loop takes fuel, one unit for each node and each edge; the depth-first search of the gate
--   takes one unit for each node, which bounds its depth.
-- - `uuid4` is a function of how many ids there have been. The folder of registry snapshots is a
--   dictionary from file names to manifests; a file's name is its stamp and hash, and the newest is the
--   last by name. JSON that the code reads by key is a record with an Option for each key.
-- - Counts are natural numbers; the token counts of a provider, and the degrees in Kahn's loop, are
--   integers. Floats (money, ratios, scores) are parameters, the scores by way of Gateway/Float.
--   Python's integers have no bound, and neither do those here. The workflow schema makes budgets and
--   retries non-negative; the token counts that a handler returns to the executor are taken to be so.
--
-- What is left out
-- - Times of day in events, approvals and cache entries, and texts that only people read.
-- - The plan of `domain_planner` and the provenance of a run, on which nothing decides.
-- - The probes of hardware and of models' capabilities, the adapters for other files than archives, and
--   the loops over stdin and HTTP that hand requests on.
-- - Of HTTP and JSON, all but the requests that the adapters make and what they read of the responses. A
--   request's parameters have the types that the methods expect, and the content of a message is a text.
-- - Exceptions of the approval callback, of `getmembers` on a tar that has been opened, and of `int` on
--   a budget, on a node's `timeout_ms` (which is left out) or on a retry count; and the limit on the depth
--   of recursion. In the documents that are modelled there are numbers where the code takes `int` of them.
-- - That the services behind a request read the keys of `secrets.set`: they are parameters over a state
--   `outside` of their own, so that nothing is said of what a stored key does for a later `workflow.generate`.
-- - Regular expressions of `strip_html_active_content`, which are parameters, and all I/O.
mod Prelude
pub mod Kernel
pub mod Gateway
pub mod Intake
pub mod Compiler
pub mod Rpc
