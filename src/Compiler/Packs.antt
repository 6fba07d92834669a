-- ===== src/Compiler/Packs.antt =====
-- domain_packs/registry.py: the choice of a domain pack by keywords. The packs are data, and `str.lower`
-- is a parameter.
use Prim.Native.String
use brain_flow.Prelude.{
  ℕ, ◌+◌, ◌≤◌, ◌≡◌, String, Bool, true, false, ◌||◌, Option, none, some, List, [], ◌∷◌, ◌⊎◌, ltb,
  ◌==◌, str_eq, arith, if◌then◌else◌,
}
use brain_flow.Prelude.Text.{codes, is_infix, before}

pub record Pack : Type 0 where
  pub id : String
  pub version : Option String
  pub allowed_node_types : List String
  pub default_permission_class : Option String

abbrev study_words : List String
study_words = "study" ∷ "flashcard" ∷ "exam" ∷ "lecture" ∷ "quiz" ∷ "learn" ∷ []

abbrev research_words : List String
research_words = "research" ∷ "literature" ∷ "paper" ∷ "evidence" ∷ "synthesize" ∷ "claim" ∷ []

abbrev project_words : List String
project_words =
    "project" ∷ "milestone" ∷ "roadmap" ∷ "plan" ∷ "deadline" ∷ "sprint" ∷ "deliverable" ∷ []

pub record Scores : Type 0 where
  pub study_prep : ℕ
  pub research_synthesis : ℕ
  pub project_planning : ℕ

pub data PackId : Type 0 where
  study research project : PackId

abbrev id_text : PackId → String
id_text study = "study_prep"
id_text research = "research_synthesis"
id_text project = "project_planning"

abbrev score_at : PackId → Scores → ℕ
score_at study s = s.study_prep
score_at research s = s.research_synthesis
score_at project s = s.project_planning

-- Two points for each keyword in the text.
abbrev pub points : List String → String → ℕ
points [] text = 0
points (w ∷ words) text =
    if is_infix (codes w) (codes text) then 2 + points words text else points words text

abbrev score_text : String → Scores
score_text text = record {
  study_prep = points study_words text;
  research_synthesis = points research_words text;
  project_planning = points project_words text;
}

-- max(scores, key=scores.get): the first of the greatest
unfoldable pub best_pack : Scores → PackId
best_pack s =
    let b = if ltb s.study_prep s.research_synthesis then research else study in
    if ltb (score_at b s) s.project_planning then project else b

abbrev pub chosen : Scores → PackId
chosen s = let b = best_pack s in if score_at b s == 0 then study else b

abbrev larger : ℕ → ℕ → ℕ
larger a b = if ltb a b then b else a

abbrev pub smaller : ℕ → ℕ → ℕ
smaller a b = if ltb b a then b else a

-- sorted(…, reverse=True)[0] and [1]
abbrev greatest : ℕ → ℕ → ℕ → ℕ
greatest a b c = larger (larger a b) c

abbrev pub second : ℕ → ℕ → ℕ → ℕ
second a b c = larger (smaller a b) (smaller (larger a b) c)

unfoldable pub needs_user_choice : Scores → Bool
unfolding best_pack
needs_user_choice s =
    let a = s.study_prep in
    let b = s.research_synthesis in
    let c = s.project_planning in ltb (score_at (chosen s) s) 2 || (greatest a b c == second a b c)

-- get_pack: a name with or without a version.
unfoldable pub get_pack : List Pack → String → Option Pack
get_pack [] pack_id = none
get_pack (p ∷ packs) pack_id =
    if str_eq p.id (before b'@' pack_id) then some p else get_pack packs pack_id

abbrev pub pack_ref : Pack → String
pack_ref p = String.◌++◌ p.id (String.◌++◌ "@" (elim p.version [ none ↦ "0.0.0" | some v ↦ v ]))

pub record Routed : Type 0 where
  pub pack : Pack
  pub scores : Scores
  pub needs_user_choice : Bool

-- `none` where the assertion fails that there is such a pack.
unfoldable pub route_pack : (String → String) → List Pack → String → String → Option Routed
unfolding best_pack needs_user_choice get_pack
route_pack to_lower packs goal_prompt source_excerpt =
    let text = to_lower (String.◌++◌ goal_prompt (String.◌++◌ "\n" source_excerpt)) in
    let s = score_text text in
    elim (get_pack packs (id_text (chosen s))) [
      | none ↦ none
      | some p ↦ some (record { pack = p; scores = s; needs_user_choice = needs_user_choice s })
    ]

abbrev is_same : PackId → PackId → Bool
is_same study study = true
is_same research research = true
is_same project project = true
is_same _ _ = false

-- The chosen pack has points, and every other pack has fewer.
abbrev IsClear : Scores → Type 0
IsClear s =
    (1 ≤ score_at (chosen s) s)
    × ((p : PackId) → (is_same p (chosen s) ≡ true) ⊎ (score_at p s + 1 ≤ score_at (chosen s) s))

-- Where the user is not asked, the chosen pack has points, and every other pack has fewer; and the other
-- way round, where the chosen pack has at least 2 points and every other one fewer.
needs_user_choice_lem :
    (s : Scores)
    → (needs_user_choice s ≡ false → IsClear s)
      × (2 ≤ score_at (chosen s) s → IsClear s → needs_user_choice s ≡ false)
unfolding needs_user_choice best_pack
needs_user_choice_lem s = (
  λ h. (ground (arith, h), λ p. clear p h),
  λ two k. ground (arith, two, k.1 study, k.1 research, k.1 project),
)
  where
    clear :
        (p : PackId)
        → needs_user_choice s ≡ false
        → (is_same p (chosen s) ≡ true) ⊎ (score_at p s + 1 ≤ score_at (chosen s) s)
    clear study h = ground (arith, h)
    clear research h = ground (arith, h)
    clear project h = ground (arith, h)
