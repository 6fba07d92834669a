-- ===== src/Gateway/Scoring/Ranking.antt =====
-- gateway/scoring.py: the order of the candidates.
use mathlib.Core.List.{Perm, perm_middle, append-nil}
use mathlib.Core.List.Perm
use brain_flow.Prelude.{
  ◌≡◌, subst, true, false, List, [], ◌∷◌, ◌++◌, All, All-imp, arith, map, if_ind,
}
use brain_flow.Gateway.Float.{Float, IsOrdered}
use brain_flow.Gateway.Candidate.{SelectionPolicy, CapabilityRequirements, Model, ScoredCandidate}
use brain_flow.Gateway.Scoring.{key_below, place, sort_by_key, score_candidate, score_candidates}

module _ {F : Type 0} (float : Float F) where
  -- No candidate is below one that comes later.
  abbrev pub Ranked : List (ScoredCandidate F) → Type 0
  Ranked [] = Unit
  Ranked (c ∷ cs) = All (λ d. key_below float c d ≡ false) cs × Ranked cs

  place-All :
      (P : ScoredCandidate F → Type 0) (c : ScoredCandidate F) (ds : List (ScoredCandidate F))
      → P c
      → All P ds
      → All P (place float c ds)
  unfolding place
  place-All P c [] p h = (p, tt)
  place-All P c (d ∷ ds) p (q, h) =
      if_ind (All P) (key_below float d c) (λ _. (p, (q, h))) (λ _. (q, place-All P c ds p h))

  place-Perm :
      (c : ScoredCandidate F) (ds : List (ScoredCandidate F)) → Perm (place float c ds) (c ∷ ds)
  unfolding place
  place-Perm c [] = Perm.rfl
  place-Perm c (d ∷ ds) =
      if_ind (λ l. Perm l (c ∷ d ∷ ds)) (key_below float d c) (λ _. Perm.rfl)
        (λ _. Perm.trans (Perm.cons d (place-Perm c ds)) (Perm.swap c d ds))

  sort-Perm :
      (sorted cs : List (ScoredCandidate F)) → Perm (sort_by_key float sorted cs) (cs ++ sorted)
  unfolding sort_by_key
  sort-Perm sorted [] = Perm.rfl
  sort-Perm sorted (c ∷ cs) =
      Perm.trans (sort-Perm (place float c sorted) cs)
        (Perm.trans (Perm.append_left cs (place-Perm c sorted)) (perm_middle cs sorted))

  module _ (o : IsOrdered float) where
    key_asym : (c d : ScoredCandidate F) → key_below float c d ≡ true → key_below float d c ≡ false
    key_asym c d h = ground (arith, h, o.asym c.score d.score)

    key_trans :
        (c d e : ScoredCandidate F)
        → key_below float c d ≡ false
        → key_below float d e ≡ false
        → key_below float c e ≡ false
    key_trans c d e h k = ground (arith, h, k, o.not_below_trans c.score d.score e.score)

    place-Ranked :
        (c : ScoredCandidate F) (ds : List (ScoredCandidate F))
        → Ranked ds
        → Ranked (place float c ds)
    unfolding place
    place-Ranked c [] h = (tt, tt)
    place-Ranked c (d ∷ ds) (below, h) =
        if_ind Ranked (key_below float d c)
          (λ k.
            let first = key_asym d c k in
            ((first, All-imp (λ e. key_trans c d e first) ds below), (below, h)))
          (λ k. (place-All (λ e. key_below float d e ≡ false) c ds k below, place-Ranked c ds h))

    sort-Ranked :
        (sorted cs : List (ScoredCandidate F))
        → Ranked sorted
        → Ranked (sort_by_key float sorted cs)
    unfolding sort_by_key
    sort-Ranked sorted [] h = h
    sort-Ranked sorted (c ∷ cs) h = sort-Ranked (place float c sorted) cs (place-Ranked c sorted h)

    -- Where scores are numbers, the candidates are those of the models, each once, in an order in
    -- which no eligible one comes behind a rejected one, or behind one of a smaller score.
    pub score_candidates-Ranked :
        (policy : SelectionPolicy) (req : CapabilityRequirements) (budget : F)
        (models : List (Model F))
        → Perm
            (score_candidates float policy req budget models)
            (map (score_candidate float policy req budget) models)
          × Ranked (score_candidates float policy req budget models)
    unfolding score_candidates
    score_candidates-Ranked policy req budget models = (
      subst (Perm _) (append-nil (map (score_candidate float policy req budget) models))
          (sort-Perm [] (map (score_candidate float policy req budget) models)),
      sort-Ranked [] (map (score_candidate float policy req budget) models) tt,
    )
