-- ===== src/Gateway/Scoring.antt =====
-- gateway/scoring.py: the capability gates, the memory fit and the score of a model
-- of the registry, and the ranking of the candidates.
mod Gated
pub mod Gates
pub mod Ranking
unfoldable pub use Gated.*
use Prim.Native.String
use brain_flow.Prelude.{
  ℕ, ◌+◌, String, Bool, true, false, ◌&&◌, ◌||◌, not, Option, none, some, List, [], ◌∷◌, ◌++◌, any,
  ltb, map, str_eq, if◌then◌else◌,
}
use brain_flow.Prelude.Text.{or_text}
use brain_flow.Gateway.Float.{Float, fmin, fmax, unit, nil, or_float, given}
use brain_flow.Gateway.Candidate.{
  CapabilityRequirements, Caps, Model, Reject, ScoredCandidate, SelectionPolicy, Weights, Won, auto,
  balanced, barely_allocates, cloud_provider, context, embeddings_required, good_fit, good_quality,
  json_schema_required, low_latency, low_latency_weights, maximum_privacy, maximum_quality,
  missing_vision, over_budget, pinned, pinned_by_user, policy_weights, privacy_bonus, remote_code,
  short_context, tools_required,
}

module _ {F : Type 0} (float : Float F) where
  abbrev pub best : F → List (Option F) → F
  best m [] = m
  best m (none ∷ vs) = best m vs
  best m (some v ∷ vs) = best (fmax float m v) vs

  -- _best_quality
  unfoldable pub best_quality : List (Option F) → Option F → F
  best_quality [] quality = or_float float quality (float.hundredths 50)
  best_quality (none ∷ scores) quality = best_quality scores quality
  best_quality (some v ∷ scores) quality = best v scores

  -- weights_mb, else the size of the download, else 0.55 bytes for each parameter
  unfoldable pub weights_of : Model F → Option F
  weights_of m = elim m.weights_mb [
    | some w ↦ some w
    | none ↦ elim m.download_size_mb [
      | some d ↦ some d
      | none ↦ elim m.parameter_count [
        | none ↦ none
        | some p ↦
            if float.is_nil p
            then none
            else some (float.over (float.times p (float.hundredths 55)) (float.of_nat 1048576))
      ]
    ]
  ]

  -- _estimate_memory_mb
  unfoldable pub estimate_memory_mb : Model F → ℕ → Option F
  unfolding weights_of
  estimate_memory_mb m target_ctx = elim (weights_of m) [
    | none ↦ none
    | some w ↦
        let kv_per_k = or_float float m.kv_mb_per_1k_ctx (float.of_nat 8) in
        let overhead = or_float float m.runtime_overhead_mb (float.of_nat 512) in
        let kv = float.times kv_per_k (float.over (float.of_nat target_ctx) (float.of_nat 1000)) in
        some (float.plus (float.plus w kv) overhead)
  ]

  -- The fit, and why it is not one: an unknown memory fits.
  unfoldable pub fit_of : F → Option F → F × List (Reject F)
  fit_of budget none = (unit float, [])
  fit_of budget (some mem) =
      if float.below budget mem
      then (nil float, over_budget mem budget ∷ [])
      else if float.below (float.times budget (float.hundredths 90)) mem
      then (nil float, barely_allocates ∷ [])
      else (
        fmax float (nil float) (
            fmin float (unit float) (
              float.minus (unit float)
                (float.times (float.over mem budget) (float.hundredths 50)))),
        [],
      )

  abbrev pub is_none : List (Reject F) → Bool
  is_none [] = true
  is_none (_ ∷ _) = false

  -- 0.0 if max_ctx <= 0 else min(1.0, max_ctx / max(requirements.min_context, 1))
  unfoldable pub context_fit_of : ℕ → ℕ → F
  context_fit_of max_ctx min_context =
      if ltb 0 max_ctx
      then fmin float (unit float) (
          float.over (float.of_nat max_ctx)
            (float.of_nat (if ltb min_context 1 then 1 else min_context)))
      else nil float

  unfoldable pub disk_pressure : Option F → F
  disk_pressure size =
      let disk = or_float float size (nil float) in
      if float.is_nil disk
      then nil float
      else fmin float (unit float) (float.over disk (float.of_nat 20000))

  abbrev weighted : ℕ → F → F
  weighted w x = float.times (float.hundredths w) x

  -- The weighted sum, and the bonus of a local provider.
  unfoldable pub score_of : SelectionPolicy → F → F → F → Model F → F
  unfolding policy_weights disk_pressure
  score_of policy quality context_fit fit m =
      let w = policy_weights policy in
      let reliability = given float m.eval_reliability (float.hundredths 70) in
      let perf = given float m.performance_floor (float.hundredths 60) in
      let penalty = or_float float m.quant_penalty (nil float) in
      let license_ok = if is_license_ok m.license then unit float else float.hundredths 40 in
      let gains =
        float.plus
          (float.plus
            (float.plus (float.plus (weighted w.w_q quality) (weighted w.w_c context_fit))
              (weighted w.w_r reliability))
            (weighted w.w_p perf))
          (weighted w.w_f fit) in
      let net =
        float.minus (float.minus gains (weighted w.w_z penalty))
          (weighted w.w_d (disk_pressure m.download_size_mb)) in
      let score = float.plus net (weighted 5 license_ok) in
      if is_privacy policy && holds local_providers (provider_of m)
      then float.plus score (float.hundredths 15)
      else score

  abbrev positive : ℕ → Option ℕ
  positive n = if ltb 0 n then some n else none

  -- The body of the loop: a model with the memory budget.
  unfoldable pub score_candidate :
      SelectionPolicy → CapabilityRequirements → F → Model F → ScoredCandidate F
  unfolding gate_reasons fit_of best_quality estimate_memory_mb context_fit_of score_of max_context
  score_candidate policy req budget m =
      let max_ctx = max_context m.context_lengths in
      let quality = best_quality m.quality_scores m.quality in
      let mem = estimate_memory_mb m req.min_context in
      let (fit, unfit) = fit_of budget mem in
      let reject = gate_reasons policy req m ++ unfit in
      let context_fit = context_fit_of max_ctx req.min_context in
      let eligible = is_none reject in
      record {
        model_id = m.id;
        display_name = or_text m.display_name m.id;
        provider = provider_of m;
        name = name_of m;
        digest = digest_of m;
        score = if eligible then score_of policy quality context_fit fit m else nil float;
        quality = quality;
        fit = fit;
        context_fit = context_fit;
        capability = if eligible then unit float else nil float;
        rejected = not eligible;
        reject_reasons = reject;
        reasons_won =
            when (is_privacy policy && holds local_providers (provider_of m)) privacy_bonus
            ++ when (is_low_latency policy) low_latency_weights
            ++ (if eligible
                then good_quality quality ∷ good_fit fit mem ∷ context max_ctx ∷ []
                else []);
        expected_memory_mb = mem;
        context_length = positive max_ctx;
        license = m.license;
        download_size_mb = m.download_size_mb;
        quant = first_of m.quantizations;
        modalities = m.modalities;
        capabilities = m.capabilities;
      }

  -- key(c) < key(d), with the key (not c.rejected, c.score)
  abbrev pub key_below : ScoredCandidate F → ScoredCandidate F → Bool
  key_below c d =
      if c.rejected
      then (if d.rejected then float.below c.score d.score else true)
      else (if d.rejected then false else float.below c.score d.score)

  -- A stable sort by descending keys: a candidate comes behind those that are not below it.
  unfoldable pub place : ScoredCandidate F → List (ScoredCandidate F) → List (ScoredCandidate F)
  place c [] = c ∷ []
  place c (d ∷ ds) = let rest = place c ds in if key_below d c then c ∷ d ∷ ds else d ∷ rest

  unfoldable pub sort_by_key :
      List (ScoredCandidate F) → List (ScoredCandidate F) → List (ScoredCandidate F)
  unfolding place
  sort_by_key sorted [] = sorted
  sort_by_key sorted (c ∷ cs) = sort_by_key (place c sorted) cs

  unfoldable pub score_candidates :
      SelectionPolicy → CapabilityRequirements → F → List (Model F) → List (ScoredCandidate F)
  unfolding score_candidate sort_by_key
  score_candidates policy req budget models =
      sort_by_key [] (map (score_candidate policy req budget) models)
