-- ===== src/Gateway/Secrets.antt =====
-- gateway/secrets.py: the store of the providers' keys. The environment, the OS keyring and `str.upper` are
-- parameters; the dictionary `_MEMORY` and the keyring are the state.
pub mod Kept
use brain_flow.Prelude.{
  ℕ, String, Bool, true, false, ◌&&◌, ◌||◌, not, Option, none, some, List, [], ◌∷◌, all, length,
  str_eq, leb, ◌==◌, if◌then◌else◌,
}
use brain_flow.Prelude.Dict.{Dict, get, put, has}
use brain_flow.Prelude.Text.{Codes, codes, is_empty}
use Prim.Native.String
use Prim.Native.Char.{code}

abbrev is_upper : ℕ → Bool
is_upper c = leb b'A' c && leb c b'Z'

abbrev is_digit : ℕ → Bool
is_digit c = leb b'0' c && leb c b'9'

-- [a-zA-Z0-9_.:@-]
is_ref_char : ℕ → Bool
is_ref_char c =
    leb b'a' c && leb c b'z'
    || is_upper c
    || is_digit c
    || c == b'_'
    || c == b'.'
    || c == b':'
    || c == b'@'
    || c == b'-'

-- A `$` also matches before a newline at the end.
abbrev without_newline : Codes → Codes
without_newline [] = []
without_newline (c ∷ []) = if c == 0x0a then [] else c ∷ []
without_newline (c ∷ d ∷ s) = c ∷ without_newline (d ∷ s)

unfoldable pub is_ref : String → Bool
unfolding is_ref_char
is_ref ref =
    let body = without_newline (codes ref) in
    all is_ref_char body && leb 1 (length body) && leb (length body) 128

-- re.sub(r"[^A-Z0-9_]", "_", s)
abbrev safe : String → String
safe String.[] = String.[]
safe (String.◌∷◌ c s) =
    String.◌∷◌ (if is_upper (code c) || is_digit (code c) || code c == b'_' then c else "_")
      (safe s)

-- The keyring package: an answer of `none` is an exception, also that of a missing package.
pub record Keyring (K : Type 0) : Type 0 where
  pub get_password : String → K → Option (Option String)
  pub set_password : String → String → K → Option K
  pub delete_password : String → K → Option K

pub record Secrets (K : Type 0) : Type 0 where
  pub memory : Dict String
  pub keyring : K

pub data Backend : Type 0 where
  os_keyring process_memory missing env os_keyring_or_unknown : Backend

pub data SecretError : Type 0 where
  invalid_ref empty_secret : SecretError

pub data Answer (A : Type 0) : Type 0 where
  ok : A → Answer A
  err : SecretError → Answer A

-- d.pop(k, None)
unfoldable pub pop : Dict String → String → Dict String
pop [] k = []
pop ((j, v) ∷ d) k = if str_eq j k then d else (j, v) ∷ pop d k

-- An empty text is false in a test.
abbrev pub truthy : Option String → Option String
truthy none = none
truthy (some s) = if is_empty s then none else some s

abbrev pub first : Option String → Option String → Option String
first none b = b
first (some a) b = some a

module _ {K : Type 0} (environ : String → Option String) (upper : String → String)
    (keyring : Keyring K) where
  unfoldable pub env_key : String → String
  env_key ref = String.◌++◌ "BRAINFLOW_SECRET_" (safe (upper ref))

  abbrev pub from_env : String → Option String
  from_env ref = truthy (environ (env_key ref))

  abbrev from_keyring : String → K → Option String
  from_keyring ref k = elim (keyring.get_password ref k) [ none ↦ none | some p ↦ truthy p ]

  -- `get_secret`, of a reference that is valid.
  unfoldable pub lookup_secret : String → Secrets K → Option String
  lookup_secret ref s = elim (get s.memory ref) [
    | some v ↦ some v
    | none ↦ first (from_env ref) (from_keyring ref s.keyring)
  ]

  unfoldable pub get_secret : String → Secrets K → Answer (Option String)
  unfolding lookup_secret
  get_secret ref s = if is_ref ref then ok (lookup_secret ref s) else err invalid_ref

  unfoldable pub set_secret : String → String → Bool → Secrets K → Answer (Backend × Secrets K)
  set_secret ref value prefer_keyring s =
      let held = ok (process_memory, record s { memory = put s.memory ref value }) in
      if not (is_ref ref)
      then err invalid_ref
      else if is_empty value
      then err empty_secret
      else if prefer_keyring
      then (elim (keyring.set_password ref value s.keyring) [
        | some k ↦ ok (os_keyring, record { memory = pop s.memory ref; keyring = k })
        | none ↦ held
      ])
      else held

  -- An exception of the keyring is passed over.
  unfoldable pub delete_secret : String → Secrets K → Answer (Secrets K)
  unfolding pop
  delete_secret ref s =
      if not (is_ref ref)
      then err invalid_ref
      else ok (record {
        memory = pop s.memory ref;
        keyring = elim (keyring.delete_password ref s.keyring) [ none ↦ s.keyring | some k ↦ k ];
      })

  abbrev pub is_there : Option String → Bool
  is_there none = false
  is_there (some _) = true

  unfoldable pub secret_status : String → Secrets K → Answer (Bool × Backend)
  unfolding lookup_secret
  secret_status ref s =
      let present = is_there (lookup_secret ref s) in
      if not (is_ref ref)
      then err invalid_ref
      else ok (
        present,
        if has s.memory ref
            then process_memory
            else if is_there (from_env ref)
            then env
            else if present
            then os_keyring_or_unknown
            else missing,
      )
