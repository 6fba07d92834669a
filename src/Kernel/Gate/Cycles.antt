-- ===== src/Kernel/Gate/Cycles.antt =====
-- kernel/policy_gate.py: the depth-first search of `validate_workflow_policy`.
use brain_flow.Prelude.{
  ℕ, zero, suc, ◌≤◌, String, ◌≡◌, refl, sym, ap, ◌∙◌, subst, Bool, true, false, ◌||◌, Option, none,
  some, List, [], ◌∷◌, ◌++◌, All, arith, str_eq, eq_refl, if_ind,
}
use brain_flow.Prelude.Dict.{Dict}
use brain_flow.Kernel.Policy.{contains}
use brain_flow.Kernel.Topo.{targets}
use brain_flow.Kernel.Gate.{
  Walk, enter, leave, close_cycle, from_first, all_in, discard, walk_all, dfs,
}
use brain_flow.Kernel.Gate.Search.{
  append-empty, not_empty, unequal, discard-entered, contains-append, cycle-outside, free, free-lt,
  mark_ind, Searched, OnStack,
}

module _ (adj : Dict (List String)) (loops ids : List String) where
  abbrev pub Reaches : List String → Walk → Option Walk → Type 0
  Reaches from w o = (w' : Walk) × (o ≡ some w') × Searched adj loops from w w'

  close-Searched :
      (stack : List String) (u : String) (w : Walk)
      → OnStack stack w
      → contains w.visiting u ≡ true
      → Searched adj loops (u ∷ []) w (close_cycle loops stack u w)
  close-Searched stack u w on h =
      if_ind (Searched adj loops (u ∷ []) w) (all_in loops (from_first u stack))
        (λ inside. record {
          visiting = refl;
          clear = λ e. e;
          kept = λ x k. k;
          sorted = λ l _ _. absurd (
              unequal (cycle-outside u stack (on u h))
                (subst (λ ls. all_in ls (from_first u stack) ≡ true) l inside));
        })
        (λ _. record {
          visiting = refl;
          clear = append-empty w.errors _;
          kept = λ x k. k;
          sorted = λ _ e _. absurd (not_empty w.errors _ e);
        })

  finished-Searched :
      (u : String) (w : Walk) → contains w.visited u ≡ true → Searched adj loops (u ∷ []) w w
  finished-Searched u w h = record {
    visiting = refl;
    clear = λ e. e;
    kept = λ x k. k;
    sorted = λ _ _ s. (s, (h, tt));
  }

  leave-Searched :
      (u : String) (w w' : Walk)
      → contains w.visiting u ≡ false
      → Searched adj loops (targets adj u) (enter u w) w'
      → Searched adj loops (u ∷ []) w (leave u w')
  leave-Searched u w w' h r = record {
    visiting = ap (discard u) r.visiting ∙ discard-entered u w.visiting h;
    clear = r.clear;
    kept = λ x k. ground (arith, r.kept x k);
    sorted =
        λ l e s. let (s', all) = r.sorted l e s in ((all, s'), (ground (arith, eq_refl u), tt));
  }

  -- The targets of every id are ids.
  abbrev AllTargets : Type 0
  AllTargets = (u : String) → All (λ v. contains ids v ≡ true) (targets adj u)

  pushed :
      (stack : List String) (u : String) (w : Walk)
      → OnStack stack w
      → (y : String) → contains (u ∷ w.visiting) y ≡ true
      → contains (stack ++ u ∷ []) y ≡ true
  pushed stack u w on y m =
      contains-append stack (u ∷ []) y
      ∙ either (str_eq y u) (contains w.visiting y) (contains stack y) (on y) m
    where
      either : (a b c : Bool) → (b ≡ true → c ≡ true) → (a || b) ≡ true → (c || (a || false)) ≡ true
      either a b c f h = ground (arith, f, h)

  none-Searched : (w : Walk) → Searched adj loops [] w w
  none-Searched w = record {
    visiting = refl;
    clear = λ e. e;
    kept = λ x k. k;
    sorted = λ _ _ s. (s, tt);
  }

  then-Searched :
      (u : String) (us : List String) (w w1 w2 : Walk)
      → Searched adj loops (u ∷ []) w w1
      → Searched adj loops us w1 w2
      → Searched adj loops (u ∷ us) w w2
  then-Searched u us w w1 w2 a b = record {
    visiting = b.visiting ∙ a.visiting;
    clear = λ e. a.clear (b.clear e);
    kept = λ x k. b.kept x (a.kept x k);
    sorted = λ l e s.
        let (s1, (first, _)) = a.sorted l (b.clear e) s in
        let (s2, rest) = b.sorted l e s1 in (s2, (b.kept u first, rest));
  }

  -- Some ids after one another.
  pub walk_all-Reaches :
      (step : String → Walk → Option Walk) (path : List String)
      → ((u : String) (w : Walk)
          → contains ids u ≡ true
          → w.visiting ≡ path
          → Reaches (u ∷ []) w (step u w))
      → (us : List String) (w : Walk) → All (λ u. contains ids u ≡ true) us
      → w.visiting ≡ path
      → Reaches us w (walk_all step us w)
  unfolding walk_all
  walk_all-Reaches step path one [] w h p = (w, refl, none-Searched w)
  walk_all-Reaches step path one (u ∷ us) w (h, hs) p =
      let (w1, e1, r1) = one u w h p in
      let (w2, e2, r2) = walk_all-Reaches step path one us w1 hs (r1.visiting ∙ p) in
      (
        w2,
        ap (λ o. elim o [ none ↦ none | some w' ↦ walk_all step us w' ]) e1 ∙ e2,
        then-Searched u us w w1 w2 r1 r2,
      )

  pub dfs-Reaches :
      AllTargets
      → (fuel : ℕ) (stack : List String) (u : String) (w : Walk) → contains ids u ≡ true
      → OnStack stack w
      → free w.visiting ids ≤ fuel
      → Reaches (u ∷ []) w (dfs adj loops fuel stack u w)
  unfolding dfs
  dfs-Reaches closed zero stack u w h on room =
      mark_ind (Reaches (u ∷ []) w) u w (λ k. (_, refl, close-Searched stack u w on k))
        (λ k. (w, refl, finished-Searched u w k))
        (λ k _. absurd (ground (arith, free-lt w.visiting ids u h k)))
  dfs-Reaches closed (suc fuel) stack u w h on room =
      mark_ind (Reaches (u ∷ []) w) u w (λ k. (_, refl, close-Searched stack u w on k))
        (λ k. (w, refl, finished-Searched u w k))
        λ k _.
          let deeper = free-lt w.visiting ids u h k in
          let (w', e, r) =
            walk_all-Reaches (dfs adj loops fuel (stack ++ u ∷ [])) (u ∷ w.visiting)
              (λ v x i p.
                dfs-Reaches closed fuel (stack ++ u ∷ []) v x i
                  (λ y m. pushed stack u w on y (subst (λ vs. contains vs y ≡ true) p m))
                  (subst (λ vs. free vs ids ≤ fuel) (sym p) (omega (arith, deeper, room))))
              (targets adj u) (enter u w) (closed u) refl in
          (
            leave u w',
            ap (λ o. elim o [ none ↦ none | some x ↦ some (leave u x) ]) e,
            leave-Searched u w w' k r,
          )
