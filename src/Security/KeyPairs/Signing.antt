-- ===== src/Security/KeyPairs/Signing.antt =====
-- security/keyManager.js: signatures verify, and both ends of a connection derive one secret.
use p2p_app.Prelude.{◌∙◌, String, ◌≡◌, ◌⊎◌, true, false, length, ◌==◌, arith}
use p2p_app.Security.{Signed}
use p2p_app.Security.Sodium.{Sodium, IsLawful}
use p2p_app.Security.KeyPairs.{
  KeyPairs, get_public_key, get_box_public_key, sign, verify, derive_shared_secret, key_manager,
}
use p2p_app.Security.KeyPairs.Init.{IsPaired}

module _ (l : Sodium) (law : IsLawful l) where
  -- What a manager signs verifies under the public key that it gives out.
  pub verify-sign :
      (k : KeyPairs) (message : String)
      → IsPaired l k
      → verify l message (sign l k message) (get_public_key l k) ≡ true
  unfolding verify sign get_public_key
  verify-sign k message paired = ground (
    arith,
    paired.sign_pair,
    law.base64_round_trip (l.sign_detached (l.from_utf8 message) k.sign_secret_key),
    law.base64_round_trip k.sign_public_key,
    law.length-sign (l.from_utf8 message) k.sign_secret_key,
    law.length-sk_to_pk k.sign_secret_key,
    law.verify-sign (l.from_utf8 message) k.sign_secret_key,
  )

  -- The same for the interface that security/index.js uses.
  pub key_manager-verify :
      (text_of : Signed → String) (k : KeyPairs) (s : Signed)
      → IsPaired l k
      → let manager = key_manager l text_of k in
        manager.verify s (manager.sign s) manager.public_key ≡ true
  unfolding key_manager
  key_manager-verify text_of k s paired = verify-sign k (text_of s) paired

  -- A signature or a key of the wrong size is refused.
  pub verify_wrong_size :
      (message signature key : String)
      → (length (l.from_base64 signature) == l.sign_bytes) ≡ false
        ⊎ (length (l.from_base64 key) == l.sign_public_key_bytes) ≡ false
      → verify l message signature key ≡ false
  unfolding verify
  verify_wrong_size message signature key wrong = ground arith

  -- Each of two managers derives the same secret from the public key of the other.
  pub derive_shared_secret_comm :
      (a b : KeyPairs)
      → IsPaired l a
      → IsPaired l b
      → derive_shared_secret l a (get_box_public_key l b)
        ≡ derive_shared_secret l b (get_box_public_key l a)
  unfolding derive_shared_secret get_box_public_key
  derive_shared_secret_comm a b pa pb = ground (
    arith,
    law.base64_round_trip a.box_public_key,
    law.base64_round_trip b.box_public_key,
    pa.box_pair,
    pb.box_pair,
    law.scalarmult_comm a.box_secret_key b.box_secret_key,
  )

  pub length-derive_shared_secret :
      (k : KeyPairs) (key : String) → length (derive_shared_secret l k key) ≡ l.secretbox_key_bytes
  unfolding derive_shared_secret
  length-derive_shared_secret k key =
      law.length-generichash l.aead_xchacha20poly1305_ietf_key_bytes _
        (omega (arith, law.same_key_bytes, law.generichash_bytes_min-le))
        (omega (arith, law.same_key_bytes, law.le-generichash_bytes_max))
      ∙ law.same_key_bytes
