-- ===== src/Gateway/Registry/Manifests.antt =====
-- gateway/registry.py: manifests, keys, and the folder of snapshots.
use Prim.Native.Nat.{Ordering}
use Prim.Native.String
use brain_flow.Prelude.{
  String, Bool, true, false, ◌&&◌, Option, none, some, List, [], ◌∷◌, str_eq, if◌then◌else◌,
}
use brain_flow.Prelude.Dict.{Dict}

pub record Signature : Type 0 where
  pub alg : Option String
  pub key_id : Option String
  pub value : Option String
  pub content_digest : Option String

-- A manifest: what `canonical_bytes` gives of it, which leaves the signature out, and the signature;
-- one that is missing has no fields.
pub record Manifest : Type 0 where
  pub canonical_bytes : String
  pub signature : Signature

-- A pinned key; a secret that is missing is empty.
pub record Key : Type 0 where
  pub key_id : String
  pub alg : String
  pub secret_hex : String
  pub secret_text : String
  pub public_key_hex : String

pub record Crypto : Type 0 where
  pub sha256_hex : String → String
  pub hmac_hex : String → String → String
  pub fromhex : String → Option String
  pub has_cryptography : Bool
  pub ed25519_verify : String → String → String → Bool
  pub dev_secret : String

pub data VerifyError : Type 0 where
  unsupported_alg unknown_hmac_key hmac_mismatch digest_mismatch : VerifyError
  no_cryptography unknown_ed25519_key ed25519_invalid : VerifyError

-- `value_error` is the exception of `bytes.fromhex` on a text that is no hexadecimal.
pub data Verdict : Type 0 where
  dev_unsigned hmac_ok ed25519_ok : Verdict
  refused : VerifyError → Verdict
  value_error : Verdict

abbrev pub is_ok : Verdict → Bool
is_ok (refused e) = false
is_ok value_error = false
is_ok _ = true

-- x == "…", where x may be missing
abbrev pub is_text : Option String → String → Bool
is_text none t = false
is_text (some s) t = str_eq s t

abbrev pub or_blank : Option String → String
or_blank none = ""
or_blank (some s) = s

-- str(x)
abbrev pub text_of : Option String → String
text_of none = "None"
text_of (some s) = s

pub data Secret : Type 0 where
  unknown malformed : Secret
  secret : String → Secret

-- The snapshot files by name, and the current manifest.
pub record Cache : Type 0 where
  pub current : Option Manifest
  pub previous : Dict Manifest

-- s < t by code points
abbrev pub str_below : String → String → Bool
str_below s t = elim (String.compare s t) [ Ordering.lt ↦ true | _ ↦ false ]

-- next((k for k in keys if k.get("key_id") == key_id and k.get("alg") == alg), None)
abbrev pub find_key : Option String → String → List Key → Option Key
find_key key_id alg [] = none
find_key key_id alg (k ∷ keys) =
    if is_text key_id k.key_id && str_eq k.alg alg then some k else find_key key_id alg keys

-- sorted(…)[-1], of names that differ
abbrev pub latest_from : String × Manifest → Dict Manifest → String × Manifest
latest_from best [] = best
latest_from best ((n, m) ∷ files) = latest_from (if str_below best.0 n then (n, m) else best) files

abbrev pub latest : Dict Manifest → Option (String × Manifest)
latest [] = none
latest (f ∷ files) = some (latest_from f files)

-- latest.unlink(missing_ok=True)
unfoldable pub unlink : String → Dict Manifest → Dict Manifest
unlink name [] = []
unlink name ((n, m) ∷ files) = if str_eq n name then files else (n, m) ∷ unlink name files
