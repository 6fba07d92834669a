-- ===== src/Kernel/Policy/Paths.antt =====
-- kernel/policy_gate.py: what `assert_path_safe_overlay` promises of a path.
use brain_flow.Prelude.{
  String, ◌≡◌, refl, sym, ap, ◌∙◌, Bool, true, false, ◌||◌, none, some, List, [], ◌∷◌, ◌++◌, ◌⊎◌,
  inl, inr, arith, any, if_ind, if◌then◌else◌,
}
use mathlib.Core.List.{tail}
use brain_flow.Prelude.Text.{Codes, codes, codes_eq, split, starts_with}
use brain_flow.Kernel.Policy.{overlay_path, overlay_roots, assert_path_safe_overlay}

-- How a file system reads a path's parts: an empty part and "." stay, ".." goes up, any other part
-- goes down. The stack has its top at the head.
unfoldable pub go_down : List Codes → Codes → List Codes
go_down stack part =
    if codes_eq (codes "") part || codes_eq (codes ".") part
    then stack
    else if codes_eq (codes "..") part
    then tail stack
    else part ∷ stack

unfoldable pub descend : List Codes → List Codes → List Codes
descend stack [] = stack
descend stack (part ∷ parts) = descend (go_down stack part) parts

-- The folders that an artifact may be written to.
abbrev pub overlay_folders : List (List Codes)
overlay_folders =
    (codes "artifacts" ∷ codes ".brainflow" ∷ [])
    ∷ (codes "workflows" ∷ codes ".brainflow" ∷ [])
    ∷ (codes "graphs" ∷ codes ".brainflow" ∷ [])
    ∷ (codes "templates" ∷ codes ".brainflow" ∷ [])
    ∷ (codes "artifacts" ∷ [])
    ∷ []

-- The path leads to `folder` or to something below it.
abbrev pub Below : List Codes → List Codes → Type 0
Below folder stack = (more : List Codes) × (stack ≡ more ++ folder)

abbrev pub OneOf {ℓ} : {A : Type ℓ} → (A → Type 0) → List A → Type 0
OneOf P [] = ⊥
OneOf P (x ∷ xs) = P x ⊎ OneOf P xs

-- Without ".." a path only goes down.
descend-Below :
    (folder stack parts : List Codes)
    → any (codes_eq (codes "..")) parts ≡ false
    → Below folder stack
    → Below folder (descend stack parts)
unfolding descend go_down
descend-Below folder stack [] h b = b
descend-Below folder stack (part ∷ parts) h (more, e) =
    descend-Below folder (go_down stack part) parts (second h) (
      if_ind (Below folder) (codes_eq (codes "") part || codes_eq (codes ".") part) (λ _. (more, e))
        λ _.
          if_ind (Below folder) (codes_eq (codes "..") part)
            (λ up. absurd (true_false up (first h))) (λ _. (part ∷ more, ap (λ l. part ∷ l) e)))
  where
    first :
        (codes_eq (codes "..") part || any (codes_eq (codes "..")) parts) ≡ false
        → codes_eq (codes "..") part ≡ false
    first f = ground (arith, f)

    second :
        (codes_eq (codes "..") part || any (codes_eq (codes "..")) parts) ≡ false
        → any (codes_eq (codes "..")) parts ≡ false
    second f = ground (arith, f)

    true_false : {b : Bool} → b ≡ true → b ≡ false → ⊥
    true_false f g = ground arith

-- A text that starts with another is that one and a rest.
starts_with-rest : (s p : Codes) → starts_with s p ≡ true → (rest : Codes) × (s ≡ p ++ rest)
starts_with-rest s [] h = (s, refl)
starts_with-rest [] (b ∷ p) h = absurd (ground arith)
starts_with-rest (a ∷ s) (b ∷ p) h =
    let (rest, e) = starts_with-rest s p (ground arith) in (rest, ground arith)

-- The parts of a path that starts with `root` lead to `folder`, and then go on.
abbrev Leads : Codes → List Codes → Type 0
Leads root folder =
    (rest : Codes)
    → (descend [] (split b'/' (root ++ rest)) ≡ descend folder (split b'/' rest))
      × (any (codes_eq (codes "..")) (split b'/' (root ++ rest))
          ≡ any (codes_eq (codes "..")) (split b'/' rest))

Leads-Below :
    (root : Codes) (folder : List Codes) (p : Codes)
    → Leads root folder
    → any (codes_eq (codes "..")) (split b'/' p) ≡ false
    → starts_with p root ≡ true
    → Below folder (descend [] (split b'/' p))
Leads-Below root folder p leads plain h =
    let (rest, e) = starts_with-rest p root h in
    let (down, same) = leads rest in
    let below : Below folder (descend folder (split b'/' rest)) =
      descend-Below folder folder (split b'/' rest)
        (sym same ∙ ap (λ q. any (codes_eq (codes "..")) (split b'/' q)) (sym e) ∙ plain)
        ([], refl) in
    rw (e, down) below

two_tests :
    {A : Type 0} (x y : A) (a b : Bool)
    → (if a then some x else if b then none else some y) ≡ none
    → (a ≡ false) × (b ≡ true)
two_tests x y a b h = ground arith

safe_parts :
    (path : String)
    → assert_path_safe_overlay path ≡ none
    → (any (codes_eq (codes "..")) (split b'/' (overlay_path path)) ≡ false)
      × (any (starts_with (overlay_path path)) overlay_roots ≡ true)
unfolding assert_path_safe_overlay
safe_parts path h =
    two_tests _ _ (any (codes_eq (codes "..")) (split b'/' (overlay_path path)))
      (any (starts_with (overlay_path path)) overlay_roots) h

abbrev AllLead : List Codes → List (List Codes) → Type 0
AllLead [] [] = Unit
AllLead (root ∷ roots) (folder ∷ folders) = Leads root folder × AllLead roots folders
AllLead _ _ = ⊥

starts-OneOf :
    (p : Codes) (roots : List Codes) (folders : List (List Codes))
    → AllLead roots folders
    → any (codes_eq (codes "..")) (split b'/' p) ≡ false
    → any (starts_with p) roots ≡ true
    → OneOf (λ folder. Below folder (descend [] (split b'/' p))) folders
starts-OneOf p [] [] l plain h = absurd (ground arith)
starts-OneOf p (root ∷ roots) (folder ∷ folders) (l, ls) plain h =
    go (starts-OneOf p roots folders ls plain) (starts_with p root) refl h
  where
    go :
        (any (starts_with p) roots ≡ true
          → OneOf (λ f. Below f (descend [] (split b'/' p))) folders)
        → (b : Bool) → starts_with p root ≡ b
        → (b || any (starts_with p) roots) ≡ true
        → OneOf (λ f. Below f (descend [] (split b'/' p))) (folder ∷ folders)
    go rest true e k = inl (Leads-Below root folder p l plain e)
    go rest false e k = inr (rest k)
starts-OneOf p [] (f ∷ fs) l plain h = absurd l
starts-OneOf p (r ∷ rs) [] l plain h = absurd l

overlay-AllLead : AllLead overlay_roots overlay_folders
unfolding split descend go_down
overlay-AllLead = (
  λ _. (refl, refl),
  (λ _. (refl, refl), (λ _. (refl, refl), (λ _. (refl, refl), (λ _. (refl, refl), tt)))),
)

-- A path that the policy takes for safe leads, read part by part from the root of the vault, to one
-- of the overlay's folders or to something below it.
pub assert_path_safe_overlay-Below :
    (path : String)
    → assert_path_safe_overlay path ≡ none
    → OneOf (λ folder. Below folder (descend [] (split b'/' (overlay_path path)))) overlay_folders
assert_path_safe_overlay-Below path h =
    let (plain, starts) = safe_parts path h in
    starts-OneOf (overlay_path path) overlay_roots overlay_folders overlay-AllLead plain starts
