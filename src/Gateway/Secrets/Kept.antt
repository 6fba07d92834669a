-- ===== src/Gateway/Secrets/Kept.antt =====
-- gateway/secrets.py: what a read gives after a write, over a keyring that keeps what it is given.
use brain_flow.Prelude.{
  String, ◌≡◌, refl, Bool, false, not, Option, none, some, [], ◌∷◌, str_eq, eq_iff, arith,
  if◌then◌else◌, if_ind, option_ind, subst,
}
use brain_flow.Prelude.Dict.{Dict, get, put, has, get-put}
use brain_flow.Prelude.Text.{is_empty}
use brain_flow.Gateway.Secrets.{
  Keyring, Secrets, Backend, os_keyring, Answer, ok, err, pop, first, is_ref, from_env,
  lookup_secret, set_secret, delete_secret,
}

-- The documented behaviour of a keyring, where it raises no exception.
pub record IsFaithful {K : Type 0} (keyring : Keyring K) : Type 0 where
  pub reads_back :
      (ref value : String) (k k' : K)
      → keyring.set_password ref value k ≡ some k'
      → (other : String)
      → keyring.get_password other k'
        ≡ (if str_eq ref other then some (some value) else keyring.get_password other k)
  pub removes :
      (ref : String) (k k' : K)
      → keyring.delete_password ref k ≡ some k'
      → (other : String)
      → keyring.get_password other k'
        ≡ (if str_eq ref other then some none else keyring.get_password other k)

-- Each name stands in `_MEMORY` once.
abbrev pub Distinct : Dict String → Type 0
Distinct [] = Unit
Distinct ((j, v) ∷ d) = (has d j ≡ false) × Distinct d

absent : (d : Dict String) (k : String) → has d k ≡ false → get d k ≡ none
unfolding has get
absent [] k h = refl
absent ((j, v) ∷ d) k h = ground (arith, absent d k)

get-pop :
    (d : Dict String) (k j : String)
    → Distinct d
    → get (pop d k) j ≡ (if str_eq k j then none else get d j)
unfolding get pop
get-pop [] k j h = ground arith
get-pop ((i, v) ∷ d) k j (p, h) =
    ground (arith, get-pop d k j h, absent d i, eq_iff i k, eq_iff k j, eq_iff i j)

module _ {K : Type 0} (environ : String → Option String) (upper : String → String)
    (keyring : Keyring K) where
  read-held :
      (ref value other : String) (s : Secrets K)
      → lookup_secret environ upper keyring other (record s { memory = put s.memory ref value })
        ≡ (if str_eq ref other then some value else lookup_secret environ upper keyring other s)
  unfolding lookup_secret
  read-held ref value other s = ground (arith, get-put s.memory ref other value)

  read-in_keyring :
      (ref value other : String) (s : Secrets K) (k : K)
      → IsFaithful keyring
      → Distinct s.memory
      → is_empty value ≡ false
      → keyring.set_password ref value s.keyring ≡ some k
      → lookup_secret environ upper keyring other
          (record { memory = pop s.memory ref; keyring = k })
        ≡ (if str_eq ref other
            then first (from_env environ upper keyring ref) (some value)
            else lookup_secret environ upper keyring other s)
  unfolding lookup_secret
  read-in_keyring ref value other s k f d v e = ground (
    arith,
    get-pop s.memory ref other d,
    f.reads_back ref value s.keyring k e other,
    v,
    eq_iff ref other,
  )

  read-deleted :
      (ref other : String) (s : Secrets K) (k : K)
      → IsFaithful keyring
      → Distinct s.memory
      → keyring.delete_password ref s.keyring ≡ some k
      → lookup_secret environ upper keyring other
          (record { memory = pop s.memory ref; keyring = k })
        ≡ (if str_eq ref other
            then first (from_env environ upper keyring ref) none
            else lookup_secret environ upper keyring other s)
  unfolding lookup_secret
  read-deleted ref other s k f d e =
      ground
        (arith, get-pop s.memory ref other d, f.removes ref s.keyring k e other, eq_iff ref other)

  -- What a reference gives after a value has been stored for it.
  abbrev pub after_set : Backend → String → String → Option String
  after_set os_keyring ref value = first (from_env environ upper keyring ref) (some value)
  after_set _ ref value = some value

  abbrev Reads : String → String → String → Secrets K → Answer (Backend × Secrets K) → Type 0
  Reads ref value other s (err e) = Unit
  Reads ref value other s (ok (b, s')) = lookup_secret environ upper keyring other s' ≡ (
      if str_eq ref other
      then after_set b ref value
      else lookup_secret environ upper keyring other s)

  set_secret-Reads :
      (ref value other : String) (prefer_keyring : Bool) (s : Secrets K)
      → IsFaithful keyring
      → Distinct s.memory
      → Reads ref value other s (set_secret environ upper keyring ref value prefer_keyring s)
  unfolding set_secret
  set_secret-Reads ref value other prefer_keyring s f d =
      let P = Reads ref value other s in
      if_ind P (not (is_ref ref)) (λ _. tt)
        (λ _.
          if_ind P (is_empty value) (λ _. tt)
            (λ v.
              if_ind P prefer_keyring
                (λ _.
                  option_ind P (keyring.set_password ref value s.keyring)
                    (λ _. read-held ref value other s)
                    (λ k e. read-in_keyring ref value other s k f d v e))
                (λ _. read-held ref value other s)))

  -- After `set_secret` has answered, a read of the reference gives the value, where it is held in
  -- memory, and where the keyring has it, what the environment holds for the reference and else the
  -- value; a read of any other reference gives what it gave before. The keyring gives back what it has
  -- been given, and no name stands in the memory twice.
  pub set_secret-get :
      (ref value : String) (prefer_keyring : Bool) (s s' : Secrets K) (b : Backend)
      → IsFaithful keyring
      → Distinct s.memory
      → set_secret environ upper keyring ref value prefer_keyring s ≡ ok (b, s')
      → (other : String)
      → lookup_secret environ upper keyring other s' ≡ (
          if str_eq ref other
          then after_set b ref value
          else lookup_secret environ upper keyring other s)
  set_secret-get ref value prefer_keyring s s' b f d h other =
      subst (Reads ref value other s) h (set_secret-Reads ref value other prefer_keyring s f d)

  -- After `delete_secret` has answered, and the keyring has raised no exception, a read of the reference
  -- gives only what the environment holds for it, and a read of any other reference gives what it gave
  -- before.
  delete_secret-get :
      (ref : String) (s s' : Secrets K) (k : K)
      → IsFaithful keyring
      → Distinct s.memory
      → keyring.delete_password ref s.keyring ≡ some k
      → delete_secret environ upper keyring ref s ≡ ok s'
      → (other : String)
      → lookup_secret environ upper keyring other s' ≡ (
          if str_eq ref other
          then first (from_env environ upper keyring ref) none
          else lookup_secret environ upper keyring other s)
  unfolding delete_secret
  delete_secret-get ref s s' k f d e h other =
      let P : Answer (Secrets K) → Type 0 = λ r. elim r [
        | err _ ↦ Unit {0}
        | ok t ↦ lookup_secret environ upper keyring other t ≡ (
            if str_eq ref other
            then first (from_env environ upper keyring ref) none
            else lookup_secret environ upper keyring other s)
      ] in
      subst P h
        (if_ind P (not (is_ref ref)) (λ _. tt) (λ _. rw e (read-deleted ref other s k f d e)))
