-- ===== src/Gateway/Float.antt =====
-- The operations on floats that the gateway's scores use. A constant is given in hundredths.
use brain_flow.Prelude.{ℕ, ◌≡◌, Bool, true, false, Option, none, some, if◌then◌else◌}

pub record Float (F : Type 0) : Type 0 where
  pub hundredths : ℕ → F
  pub of_nat : ℕ → F
  pub plus : F → F → F
  pub minus : F → F → F
  pub times : F → F → F
  pub over : F → F → F
  pub below : F → F → Bool
  pub is_nil : F → Bool

-- The order of floats that are numbers: what is not below, and not below that, is not below.
pub record IsOrdered {F : Type 0} (float : Float F) : Type 0 where
  pub irrefl : (a : F) → float.below a a ≡ false
  pub not_below_trans :
      (a b c : F) → float.below a b ≡ false → float.below b c ≡ false → float.below a c ≡ false
  pub asym : (a b : F) → float.below a b ≡ true → float.below b a ≡ false

module _ {F : Type 0} (float : Float F) where
  -- min(a, b), max(a, b)
  abbrev pub fmin : F → F → F
  fmin a b = if float.below b a then b else a

  abbrev pub fmax : F → F → F
  fmax a b = if float.below a b then b else a

  abbrev pub unit : F
  unit = float.of_nat 1

  abbrev pub nil : F
  nil = float.of_nat 0

  -- float(x or d)
  abbrev pub or_float : Option F → F → F
  or_float none d = d
  or_float (some x) d = if float.is_nil x then d else x

  -- float(x if x is not None else d)
  abbrev pub given : Option F → F → F
  given none d = d
  given (some x) d = x
