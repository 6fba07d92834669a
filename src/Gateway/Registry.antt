-- ===== src/Gateway/Registry.antt =====
-- gateway/registry.py: the signed manifest of models, its cache with the snapshots to roll back to,
-- and the verification of signatures. `json`, `hashlib`, `hmac`, `cryptography`, the clock and the files
-- of keys are parameters.
mod Manifests
pub mod Signatures
pub mod Snapshots
mod Tests
unfoldable pub use Manifests.*
use Prim.Native.Nat.{Ordering}
use Prim.Native.String
use brain_flow.Prelude.{
  String, Bool, true, false, ◌&&◌, ◌||◌, not, Option, none, some, List, [], ◌∷◌, str_eq,
  if◌then◌else◌,
}
use brain_flow.Prelude.Dict.{Dict, get, put}
use brain_flow.Prelude.Text.{is_empty}

module _ (crypto : Crypto) where
  abbrev pub content_digest : Manifest → String
  content_digest m = String.◌++◌ "sha256:" (crypto.sha256_hex m.canonical_bytes)

  abbrev from_hex : String → Secret
  from_hex text = elim (crypto.fromhex text) [ none ↦ malformed | some b ↦ secret b ]

  -- The secret of a key that is pinned, or that of the development key.
  unfoldable pub hmac_secret : List Key → Bool → Option String → Secret
  hmac_secret keys allow_dev key_id =
      let dev =
        if allow_dev && is_text key_id "brainflow-dev" then secret crypto.dev_secret else unknown in
      elim (find_key key_id "bf-hmac-v1" keys) [
        | none ↦ dev
        | some k ↦
            if not (is_empty k.secret_hex)
            then from_hex k.secret_hex
            else if not (is_empty k.secret_text)
            then secret k.secret_text
            else dev
      ]

  -- sig.get("content_digest") and sig["content_digest"] != digest
  abbrev differs : Option String → String → Bool
  differs none digest = false
  differs (some d) digest = not (is_empty d) && not (str_eq d digest)

  abbrev pub checked_hmac : Secret → Manifest → Verdict
  checked_hmac unknown m = refused unknown_hmac_key
  checked_hmac malformed m = value_error
  checked_hmac (secret key) m =
      if not (str_eq (crypto.hmac_hex key m.canonical_bytes) (or_blank m.signature.value))
      then refused hmac_mismatch
      else if differs m.signature.content_digest (content_digest m)
      then refused digest_mismatch
      else hmac_ok

  unfoldable pub verify_hmac : List Key → Bool → Manifest → Verdict
  unfolding hmac_secret
  verify_hmac keys allow_dev m = checked_hmac (hmac_secret keys allow_dev m.signature.key_id) m

  abbrev pub checked_ed25519 : Option String → Option String → String → Verdict
  checked_ed25519 (some public) (some value) bytes =
      if crypto.ed25519_verify public value bytes then ed25519_ok else refused ed25519_invalid
  checked_ed25519 _ _ bytes = value_error

  unfoldable pub verify_ed25519 : List Key → Manifest → Verdict
  verify_ed25519 keys m =
      if not crypto.has_cryptography
      then refused no_cryptography
      else elim (find_key m.signature.key_id "ed25519" keys) [
        | none ↦ refused unknown_ed25519_key
        | some k ↦
            checked_ed25519 (crypto.fromhex k.public_key_hex)
              (crypto.fromhex (text_of m.signature.value)) m.canonical_bytes
      ]

  -- `keys` are those that the caller gives, or else the pinned ones.
  unfoldable pub verify_manifest : List Key → Bool → Manifest → Verdict
  unfolding verify_hmac verify_ed25519
  verify_manifest keys allow_dev m =
      if is_text m.signature.alg "ed25519"
      then verify_ed25519 keys m
      else if is_text m.signature.alg "bf-hmac-v1"
      then verify_hmac keys allow_dev m
      else if is_text m.signature.alg "dev-unsigned" && allow_dev
      then dev_unsigned
      else refused unsupported_alg

  unfoldable pub sign_manifest_hmac : String → String → Manifest → Manifest
  sign_manifest_hmac key_id key m = record m {
    signature = record {
      alg = some "bf-hmac-v1";
      key_id = some key_id;
      value = some (crypto.hmac_hex key m.canonical_bytes);
      content_digest = some (content_digest m);
    };
  }

  -- f"{stamp}-{prev_digest.replace(':', '_')}.json": the digest has one colon, behind its prefix
  abbrev pub snapshot_name : String → Manifest → String
  snapshot_name stamp m =
      String.◌++◌ stamp
        (String.◌++◌ "-sha256_" (String.◌++◌ (crypto.sha256_hex m.canonical_bytes) ".json"))

  module _ (keys : List Key) where
    -- The current manifest goes to the snapshots before it is written over. The verdict says whether
    -- the manifest is installed.
    unfoldable pub install_manifest : String → Manifest → Cache → Cache × Verdict
    unfolding verify_manifest
    install_manifest stamp m cache =
        let verdict = verify_manifest keys true m in
        if not (is_ok verdict) then (cache, verdict) else (
          record {
            current = some m;
            previous = elim cache.current [
              | none ↦ cache.previous
              | some c ↦ put cache.previous (snapshot_name stamp c) c
            ];
          },
          verdict,
        )

    -- `none`: no snapshot to go back to.
    unfoldable pub rollback_to :
        String → Cache → Option (String × Manifest) → Cache × Option Verdict
    unfolding install_manifest unlink
    rollback_to stamp cache none = (cache, none)
    rollback_to stamp cache (some (name, m)) =
        let (installed, verdict) = install_manifest stamp m cache in
        if is_ok verdict
        then (record installed { previous = unlink name installed.previous }, some verdict)
        else (installed, some verdict)

    unfoldable pub rollback_registry : String → Cache → Cache × Option Verdict
    unfolding rollback_to
    rollback_registry stamp cache = rollback_to stamp cache (latest cache.previous)

    -- `load_registry`: the cache, the manifest that is loaded and what its verification says. `path` and
    -- `bundled` are the manifests of those files, if they exist; `none` is a FileNotFoundError.
    unfoldable pub load_registry :
        String
        → Option Manifest
        → Option Manifest
        → Bool
        → Cache
        → Cache × Option (Manifest × Verdict)
    unfolding install_manifest verify_manifest
    load_registry stamp path bundled refresh cache =
        let bootstrap : Cache × Option (Manifest × Verdict) = elim bundled [
          | none ↦ (cache, none)
          | some b ↦ ((install_manifest stamp b cache).0, some (b, verify_manifest keys true b))
        ] in
        elim path [
          | some p ↦ (cache, some (p, verify_manifest keys true p))
          | none ↦ elim cache.current [
            | none ↦ bootstrap
            | some c ↦ if refresh then bootstrap else (cache, some (c, verify_manifest keys true c))
          ]
        ]
