-- ===== src/Prelude/Text.antt =====
-- Texts by their code points: Python's `replace` of one character, `lstrip`, `split` and
-- `startswith`.
use Prim.Native.Nat.{ℕ, zero, suc}
use Prim.Native.Char.{code}
use Prim.Native.String.{String}
use mathlib.Core.Bool.{Bool, true, false, ◌&&◌, ◌||◌}
use mathlib.Core.Option.{Option, none, some}
use mathlib.Core.List.{List, [], ◌∷◌}
use text.Mathlib.Text.{◌==◌ as str_eq}
use brain_flow.Prelude.Tests.{if◌then◌else◌, ◌==◌}

-- The code points of a text.
abbrev pub Codes : Type 0
Codes = List ℕ

abbrev pub codes : String → Codes
codes String.[] = []
codes (String.◌∷◌ c s) = code c ∷ codes s

-- s.replace(a, b), both one character
abbrev pub replace_code : ℕ → ℕ → Codes → Codes
replace_code a b [] = []
replace_code a b (c ∷ s) = (if c == a then b else c) ∷ replace_code a b s

-- s.lstrip(a)
abbrev pub lstrip : ℕ → Codes → Codes
lstrip a [] = []
lstrip a (c ∷ s) = if c == a then lstrip a s else c ∷ s

-- s.startswith(p)
abbrev pub starts_with : Codes → Codes → Bool
starts_with s [] = true
starts_with [] (p ∷ ps) = false
starts_with (c ∷ s) (p ∷ ps) = (c == p) && starts_with s ps

abbrev pub codes_eq : Codes → Codes → Bool
codes_eq [] [] = true
codes_eq (a ∷ s) (b ∷ t) = (a == b) && codes_eq s t
codes_eq _ _ = false

abbrev cons_first : ℕ → List Codes → List Codes
cons_first c [] = (c ∷ []) ∷ []
cons_first c (part ∷ parts) = (c ∷ part) ∷ parts

-- s.split(a)
unfoldable pub split : ℕ → Codes → List Codes
split a [] = [] ∷ []
split a (c ∷ s) = let rest = split a s in if c == a then [] ∷ rest else cons_first c rest

-- s.split(a)[0], for a text
abbrev pub before : ℕ → String → String
before a String.[] = String.[]
before a (String.◌∷◌ c s) = if code c == a then String.[] else String.◌∷◌ c (before a s)

-- "" and None are false in a test: `x or y`
abbrev pub is_empty : String → Bool
is_empty s = str_eq s ""

-- opt or default, at an optional text
abbrev pub or_text : Option String → String → String
or_text none d = d
or_text (some s) d = if is_empty s then d else s

-- s[:n]
abbrev pub take_chars : ℕ → String → String
take_chars zero s = String.[]
take_chars (suc n) String.[] = String.[]
take_chars (suc n) (String.◌∷◌ c s) = String.◌∷◌ c (take_chars n s)

-- len(s)
abbrev pub char_count : String → ℕ
char_count String.[] = 0
char_count (String.◌∷◌ c s) = suc (char_count s)

-- s.rsplit(a, 1)[1], if `a` occurs
abbrev pub after_last : ℕ → String → Option String
after_last a String.[] = none
after_last a (String.◌∷◌ c s) = elim (after_last a s) [
  | some r ↦ some r
  | none ↦ if code c == a then some s else none
]

-- s.replace("\\", "/")
abbrev pub forward_slashes : String → String
forward_slashes String.[] = String.[]
forward_slashes (String.◌∷◌ c s) =
    String.◌∷◌ (if code c == 0x5c then "/" else c) (forward_slashes s)

-- p in s
abbrev pub is_infix : Codes → Codes → Bool
is_infix p [] = starts_with [] p
is_infix p (c ∷ s) = starts_with (c ∷ s) p || is_infix p s

-- s.endswith(p)
abbrev pub ends_with : Codes → Codes → Bool
ends_with [] p = codes_eq [] p
ends_with (c ∷ s) p = codes_eq (c ∷ s) p || ends_with s p
