-- ===== src/Gateway/Registry/Tests.antt =====
-- gateway/registry.py: the theorems at inputs that meet their hypotheses. All texts have one
-- hash and one code.
use brain_flow.Prelude.{String, ◌≡◌, refl, true, false, none, some, []}
use brain_flow.Prelude.Dict.{put}
use brain_flow.Gateway.Registry.{
  Manifest, Crypto, hmac_ok, is_ok, Cache, secret, hmac_secret, verify_manifest, verify_hmac,
  sign_manifest_hmac, install_manifest, rollback_registry,
}
use brain_flow.Gateway.Registry.Signatures.{
  verify_manifest-sign_manifest_hmac, verify_manifest-tampered,
}
use brain_flow.Gateway.Registry.Snapshots.{
  Snapshots, Verified, install_manifest_lem, rollback_registry-install_manifest,
}

abbrev crypto : Crypto
crypto = record {
  sha256_hex = λ s. "hash";
  hmac_hex = λ k s. "code";
  fromhex = λ s. some s;
  has_cryptography = false;
  ed25519_verify = λ p v b. false;
  dev_secret = "dev";
}

abbrev plain : String → Manifest
plain text = record {
  canonical_bytes = text;
  signature = record {
    alg = some "dev-unsigned";
    key_id = none;
    value = none;
    content_digest = none;
  };
}

abbrev old : Manifest
old = plain "old"

abbrev new : Manifest
new = plain "new"

old-Verified : Verified crypto [] old
unfolding verify_manifest
old-Verified = refl

new-Verified : Verified crypto [] new
unfolding verify_manifest
new-Verified = refl

abbrev start : Cache
start = record { current = some old; previous = [] }

dev_key : hmac_secret crypto [] true (some "brainflow-dev") ≡ secret "dev"
unfolding hmac_secret
dev_key = refl

verify_manifest-sign_manifest_hmac_example :
    verify_manifest crypto [] true (sign_manifest_hmac crypto "brainflow-dev" "dev" new) ≡ hmac_ok
verify_manifest-sign_manifest_hmac_example =
    verify_manifest-sign_manifest_hmac crypto [] true "brainflow-dev" "dev" new dev_key

verify_manifest-tampered_example :
    (crypto.hmac_hex "dev" "evil" ≡ crypto.hmac_hex "dev" "new")
    × (crypto.sha256_hex "evil" ≡ crypto.sha256_hex "new")
unfolding verify_manifest verify_hmac sign_manifest_hmac hmac_secret
verify_manifest-tampered_example =
    verify_manifest-tampered crypto [] true "brainflow-dev" "dev" "evil" new dev_key refl

install_manifest_lem_example :
    ((install_manifest crypto [] "1" new start).1 ≡ verify_manifest crypto [] true new)
    × (is_ok (verify_manifest crypto [] true new) ≡ false
        → (install_manifest crypto [] "1" new start).0 ≡ start)
    × (is_ok (verify_manifest crypto [] true new) ≡ true
        → ((install_manifest crypto [] "1" new start).0.current ≡ some new)
          × Snapshots crypto [] "1" start (install_manifest crypto [] "1" new start).0.previous)
install_manifest_lem_example = install_manifest_lem crypto [] "1" new start

rollback_registry-install_manifest_example :
    ((rollback_registry crypto [] "2" (install_manifest crypto [] "1" new start).0).0.current
      ≡ some old)
    × ((rollback_registry crypto [] "3"
          (rollback_registry crypto [] "2"
            (install_manifest crypto [] "1" new start).0).0).0.current
        ≡ some new)
unfolding put
rollback_registry-install_manifest_example =
    rollback_registry-install_manifest crypto [] "1" "2" "3" new old [] new-Verified old-Verified tt
      (refl, tt)
