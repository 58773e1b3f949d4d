-- ===== src/Security/Encryptor/RoundTrip.antt =====
-- security/encryptor.js with security/keyManager.js: what one peer encrypts, the other decrypts.
use p2p_app.Prelude.{String, ◌≡◌, some, length, arith}
use p2p_app.Security.Sodium.{Buffer, Sodium, IsLawful}
use p2p_app.Security.KeyPairs.{KeyPairs, get_box_public_key, derive_shared_secret}
use p2p_app.Security.KeyPairs.Init.{IsPaired}
use p2p_app.Security.KeyPairs.Signing.{derive_shared_secret_comm, length-derive_shared_secret}
use p2p_app.Security.Encryptor.{returns, Encrypted, usable, encrypt, open_box, decrypt}

module _ (l : Sodium) (law : IsLawful l) where
  -- A text that UTF-8 can encode, encrypted under a key of the right size, is decrypted under the same
  -- key.
  pub decrypt-encrypt :
      (nonce key : Buffer) (plaintext : String)
      → l.to_utf8 (l.from_utf8 plaintext) ≡ plaintext
      → length nonce ≡ l.secretbox_nonce_bytes
      → length key ≡ l.secretbox_key_bytes
      → (e : Encrypted) × (encrypt l nonce plaintext (some key) ≡ returns e)
        × (decrypt l e.ciphertext e.nonce (some key) ≡ returns plaintext)
  unfolding encrypt decrypt usable open_box
  decrypt-encrypt nonce key plaintext encodable sized keyed =
      let cipher = l.secretbox_easy (l.from_utf8 plaintext) nonce key in
      (
        record { ciphertext = l.to_base64 cipher; nonce = l.to_base64 nonce },
        ground arith,
        ground (
          arith,
          law.base64_round_trip cipher,
          law.base64_round_trip nonce,
          law.length-secretbox (l.from_utf8 plaintext) nonce key,
          law.open-secretbox (l.from_utf8 plaintext) nonce key,
        ),
      )

  -- Two peers that know each other's public keys: a text that UTF-8 can encode, which one of them
  -- encrypts under the secret that it derives, is decrypted by the other under its own.
  pub decrypt-encrypt_shared :
      (a b : KeyPairs) (nonce : Buffer) (plaintext : String)
      → IsPaired l a
      → IsPaired l b
      → l.to_utf8 (l.from_utf8 plaintext) ≡ plaintext
      → length nonce ≡ l.secretbox_nonce_bytes
      → let from_a = derive_shared_secret l a (get_box_public_key l b) in
        let from_b = derive_shared_secret l b (get_box_public_key l a) in
        (e : Encrypted) × (encrypt l nonce plaintext (some from_a) ≡ returns e)
        × (decrypt l e.ciphertext e.nonce (some from_b) ≡ returns plaintext)
  decrypt-encrypt_shared a b nonce plaintext pa pb encodable sized =
      let from_a = derive_shared_secret l a (get_box_public_key l b) in
      let there =
        decrypt-encrypt nonce from_a plaintext encodable sized
          (length-derive_shared_secret l law a (get_box_public_key l b)) in
      (there.0, there.1, rw (← derive_shared_secret_comm l law a b pa pb) there.2)
