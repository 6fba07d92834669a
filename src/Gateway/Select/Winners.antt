-- ===== src/Gateway/Select/Winners.antt =====
-- gateway/select.py: the models that a policy which ranks lets win.
use brain_flow.Prelude.{
  String, ◌≡◌, refl, sym, subst, Bool, true, false, Option, none, some, List, [], ◌∷◌, All, arith,
  map, str_eq, eq_iff, if_ind,
}
use brain_flow.Prelude.Dict.{Dict, put}
use brain_flow.Gateway.Float.{Float, IsOrdered}
use brain_flow.Gateway.Candidate.{ScoredCandidate, Model}
use brain_flow.Gateway.Scoring.{key_below, score_candidates}
use brain_flow.Gateway.Scoring.Ranking.{Ranked, score_candidates-Ranked}
use brain_flow.Gateway.Select.{
  Request, Health, find, keep, is_eligible, sees, embeds, is_other, add_other, ranked_winners,
  select_models, conclude_selection, prefer_installed, policy_of, ranking_policy, require,
  is_pinned_policy,
}

put-All :
    {V : Type 0} (P : String × V → Type 0) (d : Dict V) (k : String) (v : V)
    → All P d
    → P (k, v)
    → All P (put d k v)
unfolding put
put-All P [] k v h p = (p, tt)
put-All P ((i, w) ∷ d) k v (q, h) p =
    if_ind (All P) (str_eq i k) (λ e. (subst (λ j. P (j, v)) (sym ((eq_iff i k).0 e)) p, h))
      (λ _. (q, put-All P d k v h p))

keep-All : {A : Type 0} (P : A → Type 0) (p : A → Bool) (xs : List A) → All P xs → All P (keep p xs)
keep-All P p [] h = tt
keep-All P p (x ∷ xs) (q, h) =
    if_ind (All P) (p x) (λ _. (q, keep-All P p xs h)) (λ _. keep-All P p xs h)

All-keep : {A : Type 0} (p : A → Bool) (xs : List A) → All (λ x. p x ≡ true) (keep p xs)
All-keep p [] = tt
All-keep p (x ∷ xs) =
    if_ind (All (λ y. p y ≡ true)) (p x) (λ h. (h, All-keep p xs)) (λ _. All-keep p xs)

abbrev Found : {A : Type 0} → (A → Type 0) → (A → Bool) → Option A → Type 0
Found P p none = Unit
Found P p (some x) = P x × (p x ≡ true)

-- What is found passes the test, and is in the list.
find-Found :
    {A : Type 0} (P : A → Type 0) (p : A → Bool) (xs : List A) → All P xs → Found P p (find p xs)
find-Found P p [] h = tt
find-Found P p (x ∷ xs) (q, h) = if_ind (Found P p) (p x) (λ e. (q, e)) (λ _. find-Found P p xs h)

never : {A : Type 0} → false ≡ true → A
never h = absurd (ground arith)

module _ {F : Type 0} (float : Float F) where
  irrefl_key : (c : ScoredCandidate F) → IsOrdered float → key_below float c c ≡ false
  irrefl_key c o = ground (arith, o.irrefl c.score)

  Ranked-keep :
      (p : ScoredCandidate F → Bool) (cs : List (ScoredCandidate F))
      → Ranked float cs
      → Ranked float (keep p cs)
  Ranked-keep p [] h = tt
  Ranked-keep p (c ∷ cs) (below, h) =
      if_ind (Ranked float) (p c) (λ _. (keep-All _ p cs below, Ranked-keep p cs h))
        (λ _. Ranked-keep p cs h)

  -- The planner is not below any candidate; a model for images sees, and one for embeddings embeds.
  abbrev Suits : List (ScoredCandidate F) → String × ScoredCandidate F → Type 0
  Suits eligible (role, c) =
      (str_eq role "planner" ≡ true → All (λ d. key_below float c d ≡ false) eligible)
      × (str_eq role "multimodal" ≡ true → sees c ≡ true)
      × (str_eq role "embeddings" ≡ true → embeds c ≡ true)

  abbrev pub Wins : List (ScoredCandidate F) → String × ScoredCandidate F → Type 0
  Wins eligible (role, c) = (is_eligible c ≡ true) × Suits eligible (role, c)

  add_other-All :
      (P : String × ScoredCandidate F → Type 0) (role : String) (planner : ScoredCandidate F)
      (o : Option (ScoredCandidate F)) (winners : Dict (ScoredCandidate F))
      → All P winners
      → ((c : ScoredCandidate F) → o ≡ some c → P (role, c))
      → All P (add_other role planner o winners)
  add_other-All P role planner none winners h f = h
  add_other-All P role planner (some c) winners h f =
      if_ind (All P) (is_other planner c) (λ _. put-All P winners role c h (f c refl)) (λ _. h)

  found :
      (Q : ScoredCandidate F → Type 0) (p : ScoredCandidate F → Bool)
      (cs : List (ScoredCandidate F)) (c : ScoredCandidate F)
      → All Q cs
      → find p cs ≡ some c
      → Q c × (p c ≡ true)
  found Q p cs c h e = subst (Found Q p) e (find-Found Q p cs h)

  ranked_winners-Wins :
      (single : Bool) (eligible : List (ScoredCandidate F))
      → IsOrdered float
      → Ranked float eligible
      → All (λ c. is_eligible c ≡ true) eligible
      → All (Wins eligible) (ranked_winners single eligible)
  unfolding ranked_winners
  ranked_winners-Wins single [] o r h = tt
  ranked_winners-Wins single (planner ∷ others) o (best, r) (first, h) =
      let eligible = planner ∷ others in
      let own : All (Wins eligible) (("planner", planner) ∷ []) =
        ((first, ((λ _. (irrefl_key planner o, best)), never, never)), tt) in
      if_ind (All (Wins eligible)) single (λ _. own)
        (λ _.
          add_other-All (Wins eligible) "embeddings" planner (find embeds eligible) _
            (add_other-All (Wins eligible) "multimodal" planner (find sees eligible) _ own (λ c e.
              let (ok, sight) = found _ sees eligible c (first, h) e in
              (ok, (never, (λ _. sight), never))))
            (λ c e.
              let (ok, text) = found _ embeds eligible c (first, h) e in
              (ok, (never, never, (λ _. text)))))

  -- The candidates that `select_models` ranks, and those of them that are eligible.
  abbrev pub eligible_of : F → Health → List (Model F) → Request → List (ScoredCandidate F)
  eligible_of budget health models q = keep is_eligible (
      score_candidates float (ranking_policy (policy_of q.policy)) (require q.requirements) budget
        (map (prefer_installed health) models))

  -- Under a policy that ranks, where scores are numbers, every model that wins is eligible; the
  -- planner is below no eligible candidate, the model for images sees, and that for embeddings embeds.
  pub select_models-Wins :
      (budget : F) (health : Health) (models : List (Model F)) (q : Request)
      → IsOrdered float
      → is_pinned_policy (policy_of q.policy) ≡ false
      → All
          (Wins (eligible_of budget health models q))
          (select_models float budget health models q).winners
  unfolding select_models conclude_selection
  select_models-Wins budget health models q o h =
      let scored =
        score_candidates float (ranking_policy (policy_of q.policy)) (require q.requirements) budget
          (map (prefer_installed health) models) in
      rw h (
        ranked_winners-Wins q.single_model_only (keep is_eligible scored) o
          (Ranked-keep is_eligible scored
            (score_candidates-Ranked float o (ranking_policy (policy_of q.policy))
              (require q.requirements) budget (map (prefer_installed health) models)).1)
          (All-keep is_eligible scored))
