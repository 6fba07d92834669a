-- ===== src/Kernel/Gate/Search.antt =====
-- kernel/policy_gate.py: the path of the depth-first search of `validate_workflow_policy`, and what
-- a search from some ids leaves.
use brain_flow.Prelude.{
  ℕ, suc, ◌≤◌, ◌<◌, String, ◌≡◌, refl, sym, ap, subst, Bool, true, false, ◌||◌, List, [], ◌∷◌, ◌++◌,
  inl, inr, length, All, any-append, arith, str_eq, eq_iff, eq_refl, if◌then◌else◌, if_ind,
  Bool-cases,
}
use brain_flow.Prelude.Dict.{Dict}
use brain_flow.Kernel.Policy.{contains}
use brain_flow.Kernel.Topo.{targets}
use brain_flow.Kernel.Gate.{Walk, on_path, finished, fresh, mark, from_first, all_in, discard}

pub append-empty : {A : Type 0} (xs ys : List A) → xs ++ ys ≡ [] → xs ≡ []
append-empty [] ys h = refl
append-empty (x ∷ xs) ys h = absurd (ground arith)

pub not_empty : {A : Type 0} (xs : List A) (x : A) → xs ++ x ∷ [] ≡ [] → ⊥
not_empty [] x h = ground arith
not_empty (y ∷ xs) x h = ground arith

pub unequal : {b : Bool} → b ≡ false → b ≡ true → ⊥
unequal e f = ground arith

discard-absent : (u : String) (vs : List String) → contains vs u ≡ false → discard u vs ≡ vs
discard-absent u [] h = refl
discard-absent u (v ∷ vs) h =
    ground (arith, discard-absent u vs (ground (arith, h)), eq_iff u v, eq_iff v u, h)

pub discard-entered :
    (u : String) (vs : List String) → contains vs u ≡ false → discard u (u ∷ vs) ≡ vs
discard-entered u vs h = ground (arith, eq_refl u, discard-absent u vs h)

pub contains-append :
    (xs ys : List String) (u : String) → contains (xs ++ ys) u ≡ (contains xs u || contains ys u)
contains-append xs ys u = any-append (str_eq u) xs ys

-- A cycle is never inside an empty list of loop nodes.
pub cycle-outside :
    (u : String) (stack : List String)
    → contains stack u ≡ true
    → all_in [] (from_first u stack) ≡ false
cycle-outside u [] h = absurd (ground arith)
cycle-outside u (s ∷ stack) h =
    if_ind (λ cycle. all_in [] cycle ≡ false) (str_eq s u) (λ _. refl)
      (λ e. cycle-outside u stack (ground (arith, h, e, eq_iff s u, eq_iff u s)))

-- How many of the ids are not on the path.
abbrev pub free : List String → List String → ℕ
free path [] = 0
free path (i ∷ ids) = if contains path i then free path ids else suc (free path ids)

pub free-nil : (ids : List String) → free [] ids ≡ length ids
free-nil [] = refl
free-nil (i ∷ ids) = ap (λ n. suc n) (free-nil ids)

free-le : (path ids : List String) (u : String) → free (u ∷ path) ids ≤ free path ids
free-le path [] u = omega arith
free-le path (i ∷ ids) u = ground (arith, free-le path ids u)

pub free-lt :
    (path ids : List String) (u : String)
    → contains ids u ≡ true
    → contains path u ≡ false
    → free (u ∷ path) ids < free path ids
free-lt path [] u h k = absurd (ground arith)
free-lt path (i ∷ ids) u h k = elim (Bool-cases (str_eq i u)) [
  | inl e ↦
      let off : contains path i ≡ false =
        subst (λ x. contains path x ≡ false) (sym ((eq_iff i u).0 e)) k in
      ground (arith, e, off, free-le path ids u)
  | inr n ↦
      ground (arith, n, free-lt path ids u (ground (arith, h, n, eq_iff i u, eq_iff u i)) k, k)
]

-- Each id stands in front of all its targets.
abbrev pub Sorted : Dict (List String) → List String → Type 0
Sorted adj [] = Unit
Sorted adj (u ∷ us) = All (λ v. contains us v ≡ true) (targets adj u) × Sorted adj us

-- What a search from some ids leaves, where the state was `w`: the path is as it was, no error is
-- taken back, and nothing visited is forgotten; without errors, and without loop nodes, the visited
-- ids stay sorted, and those from which the search started are among them.
pub record Searched (adj : Dict (List String)) (loops from : List String) (w w' : Walk)
    : Type 0 where
  pub visiting : w'.visiting ≡ w.visiting
  pub clear : w'.errors ≡ [] → w.errors ≡ []
  pub kept : (x : String) → contains w.visited x ≡ true → contains w'.visited x ≡ true
  pub sorted :
      loops ≡ []
      → w'.errors ≡ []
      → Sorted adj w.visited
      → Sorted adj w'.visited × All (λ v. contains w'.visited v ≡ true) from

-- Every id on the path is on the stack.
abbrev pub OnStack : List String → Walk → Type 0
OnStack stack w = (x : String) → contains w.visiting x ≡ true → contains stack x ≡ true

pub mark_ind :
    {A : Type 0} (C : A → Type 0) (u : String) (w : Walk) {x y z : A}
    → (contains w.visiting u ≡ true → C x)
    → (contains w.visited u ≡ true → C y)
    → (contains w.visiting u ≡ false → contains w.visited u ≡ false → C z)
    → C (elim (mark u w) [ on_path ↦ x | finished ↦ y | fresh ↦ z ])
mark_ind C u w {x} {y} {z} f g h = go (contains w.visiting u) (contains w.visited u) f g h
  where
    go :
        (a b : Bool)
        → (a ≡ true → C x)
        → (b ≡ true → C y)
        → (a ≡ false → b ≡ false → C z)
        → C (elim (if a then on_path else if b then finished else fresh) [
          | on_path ↦ x
          | finished ↦ y
          | fresh ↦ z
        ])
    go true b f g h = f refl
    go false true f g h = g refl
    go false false f g h = h refl refl
