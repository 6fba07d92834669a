-- ===== src/Gateway/Scoring/Gated.antt =====
-- gateway/scoring.py: what is read of a model, and the gates that are not about memory.
use Prim.Native.String
use brain_flow.Prelude.{
  ℕ, String, Bool, true, false, ◌&&◌, ◌||◌, not, Option, none, some, List, [], ◌∷◌, ◌++◌, any, ltb,
  str_eq, if◌then◌else◌,
}
use brain_flow.Prelude.Text.{or_text}
use brain_flow.Gateway.Candidate.{
  CapabilityRequirements, Model, Reject, SelectionPolicy, cloud_provider, embeddings_required,
  json_schema_required, low_latency, maximum_privacy, missing_vision, remote_code, short_context,
  tools_required,
}

abbrev pub is_privacy : SelectionPolicy → Bool
is_privacy maximum_privacy = true
is_privacy _ = false

abbrev pub is_low_latency : SelectionPolicy → Bool
is_low_latency low_latency = true
is_low_latency _ = false

abbrev pub holds : List String → String → Bool
holds xs x = any (str_eq x) xs

-- The default of `local_providers`.
abbrev pub local_providers : List String
local_providers = "ollama" ∷ "openai_compat" ∷ []

abbrev pub truthy : Option Bool → Bool
truthy none = false
truthy (some b) = b

-- caps.get("json_schema", True)
abbrev pub truthy_or_missing : Option Bool → Bool
truthy_or_missing none = true
truthy_or_missing (some b) = b

abbrev max_of : ℕ → List ℕ → ℕ
max_of m [] = m
max_of m (c ∷ cs) = max_of (if ltb m c then c else m) cs

-- max(int(c) for c in ctxs), where no lengths are read as [4096]
unfoldable pub max_context : List ℕ → ℕ
max_context [] = 4096
max_context (c ∷ cs) = max_of c cs

-- xs + [x] if a test says so
abbrev pub when : {A : Type 0} → Bool → A → List A
when true a = a ∷ []
when false a = []

abbrev pub is_license_ok : Option String → Bool
is_license_ok none = false
is_license_ok (some l) = not (str_eq l "unknown-proprietary")

abbrev pub first_of : List String → Option String
first_of [] = none
first_of (q ∷ _) = some q

module _ {F : Type 0} where
  abbrev pub provider_of : Model F → String
  provider_of m = or_text m.preferred_provider (or_text m.source "ollama")

  abbrev pub name_of : Model F → String
  name_of m = or_text m.runtime_name (or_text m.display_name m.id)

  abbrev pub digest_of : Model F → String
  digest_of m = elim m.digests [ [] ↦ String.◌++◌ "registry:" m.id | d ∷ _ ↦ d ]

  -- The capability gates.
  unfoldable pub gate_reasons : SelectionPolicy → CapabilityRequirements → Model F → List (Reject F)
  unfolding max_context
  gate_reasons policy req m =
      let max_ctx = max_context m.context_lengths in
      when ((req.vision || holds req.modalities "vision") && not (holds m.modalities "vision"))
        missing_vision
      ++ when (req.tools && not (truthy m.capabilities.tools)) tools_required
      ++ when (req.json_schema && not (truthy_or_missing m.capabilities.json_schema))
          json_schema_required
      ++ when (req.embeddings && not (truthy m.capabilities.embeddings)) embeddings_required
      ++ when (ltb max_ctx req.min_context) (short_context max_ctx req.min_context)
      ++ when m.remote_code_required remote_code
      ++ when (is_privacy policy && not (holds local_providers (provider_of m))) cloud_provider
