-- ===== src/Compiler/Ask/Found.antt =====
-- workflow_gen.py, `_extract_json_object`: an object is found whatever stands around it.
use brain_flow.Prelude.{
  ℕ, ◌≡◌, refl, sym, ap, subst, ◌∙◌, Bool, true, false, Option, none, some, [], ◌∷◌, ◌++◌, arith,
  any, ◌==◌, if_ind, if◌then◌else◌,
}
use mathlib.Core.List.{append_assoc}
use brain_flow.Prelude.Text.{Codes, codes, starts_with, ends_with, codes_eq}
use brain_flow.Compiler.Ask.{
  ModelServices, lstrip_by, rstrip_by, without_start, without_end, fence, from_first, to_last,
  between_braces, open_fence, close_fence, clean, extract_json_object,
}

abbrev Lacks : ℕ → Codes → Type 0
Lacks a s = any (λ c. c == a) s ≡ false

Lacks-tail : (a c : ℕ) (s : Codes) → Lacks a (c ∷ s) → Lacks a s
Lacks-tail a c s h = ground arith

from_first-append : (a : ℕ) (s t : Codes) → Lacks a s → from_first a (s ++ a ∷ t) ≡ some (a ∷ t)
from_first-append a [] t h = ground arith
from_first-append a (c ∷ s) t h = ground (arith, h, from_first-append a s t (Lacks-tail a c s h))

to_last-none : (a : ℕ) (s : Codes) → Lacks a s → to_last a s ≡ none
to_last-none a [] h = refl
to_last-none a (c ∷ s) h = ground (arith, h, to_last-none a s (Lacks-tail a c s h))

to_last-append : (a : ℕ) (s t : Codes) → Lacks a t → to_last a (s ++ a ∷ t) ≡ some (s ++ a ∷ [])
to_last-append a [] t h = ground (arith, to_last-none a t h)
to_last-append a (c ∷ s) t h = ground (arith, to_last-append a s t h)

codes_eq-other : (a : ℕ) (s t p : Codes) → Lacks a p → codes_eq (s ++ a ∷ t) p ≡ false
codes_eq-other a [] t [] h = refl
codes_eq-other a [] t (q ∷ p) h = ground (arith, h)
codes_eq-other a (c ∷ s) t [] h = refl
codes_eq-other a (c ∷ s) t (q ∷ p) h = ground (arith, codes_eq-other a s t p (Lacks-tail a q p h))

-- A suffix without `a` ends behind the last `a`.
without_end-append :
    (a : ℕ) (s t p : Codes) → Lacks a p → without_end p (s ++ a ∷ t) ≡ s ++ a ∷ without_end p t
without_end-append a [] t p h = ground (arith, codes_eq-other a [] t p h)
without_end-append a (c ∷ s) t p h =
    ground (arith, codes_eq-other a (c ∷ s) t p h, without_end-append a s t p h)

rstrip_by-append :
    (p : ℕ → Bool) (a : ℕ) (s t : Codes)
    → p a ≡ false
    → rstrip_by p (s ++ a ∷ t) ≡ s ++ a ∷ rstrip_by p t
rstrip_by-append p a [] t h = ground (arith, h)
rstrip_by-append p a (c ∷ []) t h = ground (arith, h)
rstrip_by-append p a (c ∷ d ∷ s) t h = ground (arith, h, rstrip_by-append p a (d ∷ s) t h)

rstrip_by-Lacks : (p : ℕ → Bool) (a : ℕ) (s : Codes) → Lacks a s → Lacks a (rstrip_by p s)
rstrip_by-Lacks p a [] h = refl
rstrip_by-Lacks p a (c ∷ s) h = ground (arith, h, rstrip_by-Lacks p a s (Lacks-tail a c s h))

without_end-Lacks : (p : Codes) (a : ℕ) (s : Codes) → Lacks a s → Lacks a (without_end p s)
without_end-Lacks p a [] h = refl
without_end-Lacks p a (c ∷ s) h = ground (arith, h, without_end-Lacks p a s (Lacks-tail a c s h))

-- A text with an object in it: before the object there is no opening brace, and behind it no closing one.
abbrev Around : Codes → Codes → Type 0
Around mid s =
    (before after : Codes) × (s ≡ before ++ (b'{' ∷ mid ++ b'}' ∷ after))
    × Lacks b'{' before
    × Lacks b'}' after

module _ (mid : Codes) where
  -- What is done to the end of a text is done behind the object.
  ending-Around :
      (f : Codes → Codes)
      → ((s t : Codes) → f (s ++ b'}' ∷ t) ≡ s ++ b'}' ∷ f t)
      → ((s : Codes) → Lacks b'}' s → Lacks b'}' (f s))
      → (s : Codes) → Around mid s
      → Around mid (f s)
  ending-Around f through keeps s (before, after, e, l, r) = (
    before,
    f after,
    ap f (e ∙ sym (append_assoc before (b'{' ∷ mid) (b'}' ∷ after)))
        ∙ through (before ++ b'{' ∷ mid) after
        ∙ append_assoc before (b'{' ∷ mid) (b'}' ∷ f after),
    l,
    keeps after r,
  )

  lstrip-Around :
      (p : ℕ → Bool) (before after : Codes)
      → p b'{' ≡ false
      → Lacks b'{' before
      → Lacks b'}' after
      → Around mid (lstrip_by p (before ++ (b'{' ∷ mid ++ b'}' ∷ after)))
  lstrip-Around p [] after h l r = (
    [],
    after,
    ap (λ b. if b then lstrip_by p (mid ++ b'}' ∷ after) else b'{' ∷ mid ++ b'}' ∷ after) h,
    refl,
    r,
  )
  lstrip-Around p (c ∷ before) after h l r =
      if_ind (λ s. Around mid s) (p c)
        (λ _. lstrip-Around p before after h (Lacks-tail b'{' c before l) r)
        (λ _. (c ∷ before, after, refl, l, r))

  -- A prefix without an opening brace ends before the object.
  without_start-Around :
      (p before after : Codes)
      → Lacks b'{' p
      → starts_with (before ++ (b'{' ∷ mid ++ b'}' ∷ after)) p ≡ true
      → Lacks b'{' before
      → Lacks b'}' after
      → Around mid (without_start p (before ++ (b'{' ∷ mid ++ b'}' ∷ after)))
  without_start-Around [] before after h on l r = (before, after, refl, l, r)
  without_start-Around (q ∷ p) [] after h on l r = absurd (ground (arith, h, on))
  without_start-Around (q ∷ p) (c ∷ before) after h on l r =
      without_start-Around p before after (Lacks-tail b'{' q p h) (ground (arith, on))
        (Lacks-tail b'{' c before l) r

  lstrip_by-Around :
      (p : ℕ → Bool) (s : Codes) → p b'{' ≡ false → Around mid s → Around mid (lstrip_by p s)
  lstrip_by-Around p s h (before, after, e, l, r) =
      subst (λ t. Around mid (lstrip_by p t)) (sym e) (lstrip-Around p before after h l r)

  dropped-Around :
      (p s : Codes)
      → Lacks b'{' p
      → starts_with s p ≡ true
      → Around mid s
      → Around mid (without_start p s)
  dropped-Around p s h on (before, after, e, l, r) =
      subst (λ t. Around mid (without_start p t)) (sym e)
        (without_start-Around p before after h (subst (λ t. starts_with t p ≡ true) e on) l r)

  rstrip_by-Around :
      (p : ℕ → Bool) (s : Codes) → p b'}' ≡ false → Around mid s → Around mid (rstrip_by p s)
  rstrip_by-Around p s h =
      ending-Around (rstrip_by p) (λ x y. rstrip_by-append p b'}' x y h) (rstrip_by-Lacks p b'}') s

  module _ {J W : Type 0} (services : ModelServices J W) (opens : services.is_space b'{' ≡ false)
      (closes : services.is_space b'}' ≡ false) where
    open_fence-Around : (s : Codes) → Around mid s → Around mid (open_fence services s)
    open_fence-Around s a =
        if_ind (Around mid) (starts_with s fence)
          (λ on.
            let rest = without_start fence s in
            let h = dropped-Around fence s refl on a in
            lstrip_by-Around services.is_space _ opens (
              if_ind (Around mid) (starts_with rest (codes "json"))
                (λ on'. dropped-Around (codes "json") rest refl on' h) (λ _. h)))
          (λ _. a)

    close_fence-Around : (s : Codes) → Around mid s → Around mid (close_fence services s)
    close_fence-Around s a =
        if_ind (Around mid) (ends_with s fence)
          (λ _. rstrip_by-Around services.is_space _ closes (
            ending-Around (without_end fence) (λ x y. without_end-append b'}' x y fence refl)
              (without_end-Lacks fence b'}') s a))
          (λ _. a)

    clean-Around : (s : Codes) → Around mid s → Around mid (clean services s)
    unfolding clean
    clean-Around s a =
        let t = rstrip_by services.is_space (lstrip_by services.is_space s) in
        let h =
          rstrip_by-Around services.is_space (lstrip_by services.is_space s) closes
            (lstrip_by-Around services.is_space s opens a) in
        if_ind (Around mid) (starts_with t fence)
          (λ _. close_fence-Around _ (open_fence-Around t h)) (λ _. h)

  between_braces-Around :
      (s : Codes) → Around mid s → between_braces s ≡ some (b'{' ∷ mid ++ b'}' ∷ [])
  unfolding between_braces
  between_braces-Around s (before, after, e, l, r) =
      ap (λ t. elim (from_first b'{' t) [ none ↦ none | some u ↦ to_last b'}' u ]) e
      ∙ ap (λ o. elim o [ none ↦ none | some u ↦ to_last b'}' u ])
          (from_first-append b'{' before (mid ++ b'}' ∷ after) l)
      ∙ to_last-append b'}' (b'{' ∷ mid) after r

-- Where no opening brace comes before a braced part of an answer, and no closing one behind it, the
-- compiler reads that part, whatever else stands around it, white space and code fences included,
-- unless the answer is JSON as a whole once they are off. Braces are no white space.
pub extract_json_object-found :
    {J W : Type 0} (services : ModelServices J W) (before mid after : Codes)
    → services.is_space b'{' ≡ false
    → services.is_space b'}' ≡ false
    → Lacks b'{' before
    → Lacks b'}' after
    → extract_json_object services (before ++ (b'{' ∷ mid ++ b'}' ∷ after))
      ≡ (elim (services.loads (clean services (before ++ (b'{' ∷ mid ++ b'}' ∷ after)))) [
        | some j ↦ some j
        | none ↦ services.loads (b'{' ∷ mid ++ b'}' ∷ [])
      ])
unfolding extract_json_object
extract_json_object-found services before mid after opens closes l r =
    let s = before ++ (b'{' ∷ mid ++ b'}' ∷ after) in
    ap
      (λ (o : Option Codes). elim (services.loads (clean services s)) [
        | some j ↦ some j
        | none ↦ elim o [ none ↦ none | some part ↦ services.loads part ]
      ])
      (between_braces-Around mid _
        (clean-Around mid services opens closes s (before, after, refl, l, r)))
