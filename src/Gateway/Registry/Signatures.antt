-- ===== src/Gateway/Registry/Signatures.antt =====
-- gateway/registry.py: what the signature of a manifest vouches for.
use text.Mathlib.TextLemmas.{append_cancel_left, append-eq-nil_iff}
use brain_flow.Prelude.{
  sym, String, ◌≡◌, ap, subst, ◌∙◌, Bool, true, false, some, List, arith, eq_iff, eq_refl,
  Bool-cases, inl, inr,
}
use brain_flow.Prelude.Text.{is_empty}
use brain_flow.Gateway.Registry.{
  Manifest, Key, Crypto, hmac_ok, is_ok, secret, hmac_secret, content_digest, checked_hmac,
  verify_hmac, verify_manifest, sign_manifest_hmac,
}

module _ (crypto : Crypto) where
  -- A manifest that is signed with a secret is verified wherever the key's id stands for that secret.
  pub verify_manifest-sign_manifest_hmac :
      (keys : List Key) (allow_dev : Bool) (key_id key : String) (m : Manifest)
      → hmac_secret crypto keys allow_dev (some key_id) ≡ secret key
      → verify_manifest crypto keys allow_dev (sign_manifest_hmac crypto key_id key m) ≡ hmac_ok
  unfolding verify_manifest sign_manifest_hmac verify_hmac
  verify_manifest-sign_manifest_hmac keys allow_dev key_id key m h =
      ap (λ s. checked_hmac crypto s (sign_manifest_hmac crypto key_id key m)) h
      ∙ ground (
        arith,
        eq_refl (crypto.hmac_hex key m.canonical_bytes),
        eq_refl (content_digest crypto m),
      )

  digest-nonempty : (m : Manifest) → is_empty (content_digest crypto m) ≡ false
  digest-nonempty m = elim (Bool-cases (is_empty (content_digest crypto m))) [
    | inl e ↦
        let prefix : ◌≡◌ {A = String} "sha256:" "" =
          (append-eq-nil_iff.0 ((eq_iff (content_digest crypto m) "").0 e)).0 in
        absurd (ground (arith, (eq_iff "sha256:" "").1 prefix))
    | inr e ↦ e
  ]

  -- Whoever changes a manifest that is signed with a secret, and keeps its signature, is refused, unless
  -- the changed bytes have the same code under that secret and the same hash.
  pub verify_manifest-tampered :
      (keys : List Key) (allow_dev : Bool) (key_id key bytes : String) (m : Manifest)
      → hmac_secret crypto keys allow_dev (some key_id) ≡ secret key
      → is_ok (
          verify_manifest crypto keys allow_dev
            (record (sign_manifest_hmac crypto key_id key m) { canonical_bytes = bytes }))
        ≡ true
      → (crypto.hmac_hex key bytes ≡ crypto.hmac_hex key m.canonical_bytes)
        × (crypto.sha256_hex bytes ≡ crypto.sha256_hex m.canonical_bytes)
  unfolding verify_manifest sign_manifest_hmac verify_hmac
  verify_manifest-tampered keys allow_dev key_id key bytes m h ok =
      let altered = record (sign_manifest_hmac crypto key_id key m) { canonical_bytes = bytes } in
      let passed : is_ok (checked_hmac crypto (secret key) altered) ≡ true =
        subst (λ s. is_ok (checked_hmac crypto s altered) ≡ true) h ok in
      (
        (eq_iff _ _).0 (ground (arith, passed)),
        sym (
            append_cancel_left "sha256:" _ _ (
              (eq_iff (content_digest crypto m) (content_digest crypto altered)).0
                (ground (arith, passed, digest-nonempty m)))),
      )
