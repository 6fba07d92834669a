-- ===== src/Gateway/Recommend/Shown.antt =====
-- gateway/recommend.py: which of the scored models stand on the card, and where.
use mathlib.Core.List.{Mem, mem-cons_self, mem-cons_of_mem}
use brain_flow.Prelude.{
  ℕ, zero, suc, ◌≤◌, String, ◌≡◌, refl, ap, sym, subst, Bool, true, false, ◌&&◌, Option, List, [],
  ◌∷◌, ◌⊎◌, inl, inr, arith, All, All-imp, All-imp_both, length, map, if_ind, Bool-cases, not,
}
use brain_flow.Prelude.Dict.{Dict}
use brain_flow.Gateway.Candidate.{ScoredCandidate}
use brain_flow.Gateway.Scoring.{holds}
use brain_flow.Gateway.Select.{keep}
use brain_flow.Gateway.Recommend.{
  RecommendationCard, Alternative, Rejection, take, alternative, rejection, winner_ids,
  is_alternative, is_rejected, build_recommendation,
}

module _ {A : Type 0} where
  take-cases : (n : ℕ) (xs : List A) → (take n xs ≡ xs) ⊎ (length (take n xs) ≡ n)
  take-cases zero xs = inr refl
  take-cases (suc n) [] = inl refl
  take-cases (suc n) (x ∷ xs) = elim (take-cases n xs) [
    | inl e ↦ inl (ap (λ ys. x ∷ ys) e)
    | inr e ↦ inr (ap (λ m. suc m) e)
  ]

  length-take : (n : ℕ) (xs : List A) → length (take n xs) ≤ n
  length-take zero xs = omega arith
  length-take (suc n) [] = omega arith
  length-take (suc n) (x ∷ xs) = omega (arith, length-take n xs)

  take-All : (P : A → Type 0) (n : ℕ) (xs : List A) → All P xs → All P (take n xs)
  take-All P zero xs h = tt
  take-All P (suc n) [] h = tt
  take-All P (suc n) (x ∷ xs) (p, h) = (p, take-All P n xs h)

module _ {A B : Type 0} (p : A → Bool) (f : A → B) where
  -- What comes of a filtered list.
  abbrev From : List A → B → Type 0
  From xs b = (a : A) × Mem a xs × (b ≡ f a) × (p a ≡ true)

  keep-Mem : (xs : List A) → All (λ x. p x ≡ true → Mem (f x) (map f (keep p xs))) xs
  keep-Mem [] = tt
  keep-Mem (x ∷ xs) =
      if_ind
        (λ ys.
          (p x ≡ true → Mem (f x) (map f ys)) × All (λ y. p y ≡ true → Mem (f y) (map f ys)) xs)
        (p x)
        (λ _. (λ _. mem-cons_self, All-imp (λ y k h. mem-cons_of_mem (f x) (k h)) xs (keep-Mem xs)))
        (λ off. (λ on. absurd (ground (arith, off, on)), keep-Mem xs))

  keep-From : (xs : List A) → All (From xs) (map f (keep p xs))
  keep-From [] = tt
  keep-From (x ∷ xs) =
      let later = All-imp (λ b (a, m, e, on). (a, mem-cons_of_mem x m, e, on)) _ (keep-From xs) in
      if_ind (λ ys. All (From (x ∷ xs)) (map f ys)) (p x)
        (λ on. ((x, mem-cons_self, refl, on), later)) (λ _. later)

module _ {F H : Type 0} (round4 : F → F) (show3 : F → String) (hardware_summary : H) where
  -- Where a scored candidate stands on the card: a rejected one among the rejected, and any other one as
  -- a model that wins or among the alternatives, unless there are five others there.
  abbrev pub Stands : Dict (ScoredCandidate F) → RecommendationCard F H → ScoredCandidate F → Type 0
  Stands winners card c =
      (c.rejected ≡ true → Mem (rejection c) card.rejected)
      × (c.rejected ≡ false
          → (holds (winner_ids winners) c.model_id ≡ true)
            ⊎ (Mem (alternative round4 show3 hardware_summary c) card.alternatives)
            ⊎ (length card.alternatives ≡ 5))

  -- Which candidate an alternative stands for, and which one a rejection.
  abbrev pub Offered : List (ScoredCandidate F) → Dict (ScoredCandidate F) → Alternative F → Type 0
  Offered scored winners a =
      (c : ScoredCandidate F) × Mem c scored
      × (a ≡ alternative round4 show3 hardware_summary c)
      × (c.rejected ≡ false)
      × (holds (winner_ids winners) c.model_id ≡ false)

  abbrev pub Refused : List (ScoredCandidate F) → Rejection F → Type 0
  Refused scored r =
      (c : ScoredCandidate F) × Mem c scored × (r ≡ rejection c) × (c.rejected ≡ true)

  not_both : (a b : Bool) → (not a && not b) ≡ true → (a ≡ false) × (b ≡ false)
  not_both a b h = (ground arith, ground arith)

  neither : (a b : Bool) → a ≡ false → b ≡ false → (not a && not b) ≡ true
  neither a b h k = ground arith

  place :
      (winners : Dict (ScoredCandidate F)) (all : List (Alternative F)) (c : ScoredCandidate F)
      → (is_alternative winners c ≡ true → Mem (alternative round4 show3 hardware_summary c) all)
      → c.rejected ≡ false
      → (holds (winner_ids winners) c.model_id ≡ true)
        ⊎ (Mem (alternative round4 show3 hardware_summary c) (take 5 all))
        ⊎ (length (take 5 all) ≡ 5)
  place winners all c h off = elim (Bool-cases (holds (winner_ids winners) c.model_id)) [
    | inl wins ↦ inl wins
    | inr loses ↦ inr (elim (take-cases 5 all) [
      | inl whole ↦ inl (
          subst (Mem (alternative round4 show3 hardware_summary c)) (sym whole)
            (h (neither c.rejected _ off loses)))
      | inr full ↦ inr full
    ])
  ]

  -- Each scored candidate stands on the card in its place: a rejected one among the rejected, and any
  -- other one as a model that wins, or among the alternatives, unless five others stand there. The
  -- alternatives are at most five scored candidates that are not rejected and whose model wins no role,
  -- and the rejected are scored candidates that are rejected.
  pub build_recommendation-Stands :
      (policy : String) (scored : List (ScoredCandidate F)) (winners : Dict (ScoredCandidate F))
      (registry_digest : Option String) (portfolio : Bool)
      → let card =
          build_recommendation round4 show3 hardware_summary policy scored winners registry_digest
            portfolio in
        All (Stands winners card) scored
        × (length card.alternatives ≤ 5)
        × All (Offered scored winners) card.alternatives
        × All (Refused scored) card.rejected
  unfolding build_recommendation
  build_recommendation-Stands policy scored winners registry_digest portfolio =
      let show = alternative round4 show3 hardware_summary in
      let all = map show (keep (is_alternative winners) scored) in
      (
        All-imp_both (λ c r a. (r, place winners all c a)) scored
            (keep-Mem is_rejected rejection scored) (keep-Mem (is_alternative winners) show scored),
        length-take 5 all,
        take-All (Offered scored winners) 5 all (
            All-imp
              (λ a (c, m, e, on).
                let (off, loses) = not_both c.rejected (holds (winner_ids winners) c.model_id) on in
                (c, m, e, off, loses))
              all (keep-From (is_alternative winners) show scored)),
        keep-From is_rejected rejection scored,
      )
