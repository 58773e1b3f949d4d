-- ===== src/Security/Sodium.antt =====
-- The interface to libsodium and to the encodings of Node's buffers, which security/keyManager.js and
-- security/encryptor.js call, and what they rely on of it.
use p2p_app.Prelude.{ℕ, ◌+◌, ◌≤◌, String, ◌≡◌, Bool, true, Option, some, List, length}

abbrev pub Buffer : Type 0
Buffer = List ℕ

-- A failure that a function reports is `none`.
pub record Sodium : Type 0 where
  pub sign_bytes : ℕ
  pub sign_public_key_bytes : ℕ
  pub sign_secret_key_bytes : ℕ
  pub box_public_key_bytes : ℕ
  pub box_secret_key_bytes : ℕ
  pub secretbox_key_bytes : ℕ
  pub aead_xchacha20poly1305_ietf_key_bytes : ℕ
  pub generichash_bytes_min : ℕ
  pub generichash_bytes_max : ℕ
  pub secretbox_nonce_bytes : ℕ
  pub secretbox_mac_bytes : ℕ
  -- The message and the secret key.
  pub sign_detached : Buffer → Buffer → Buffer
  -- The signature, the message and the public key.
  pub sign_verify_detached : Buffer → Buffer → Buffer → Bool
  pub sign_ed25519_sk_to_pk : Buffer → Buffer
  pub scalarmult_base : Buffer → Buffer
  -- The own secret key and the other's public key.
  pub scalarmult : Buffer → Buffer → Buffer
  -- The length of the hash, which is that of the buffer for it, and what is hashed.
  pub generichash : ℕ → Buffer → Buffer
  -- The plaintext, the nonce and the key.
  pub secretbox_easy : Buffer → Buffer → Buffer → Buffer
  -- The ciphertext, the nonce and the key.
  pub secretbox_open_easy : Buffer → Buffer → Buffer → Option Buffer
  -- `toString('base64')`, `Buffer.from(s, 'base64')`, and the same for 'utf8'.
  pub to_base64 : Buffer → String
  pub from_base64 : String → Buffer
  pub to_utf8 : Buffer → String
  pub from_utf8 : String → Buffer

-- What the documentation of these functions promises.
pub record IsLawful (l : Sodium) : Type 0 where
  pub base64_round_trip : (b : Buffer) → l.from_base64 (l.to_base64 b) ≡ b
  pub length-sign : (m sk : Buffer) → length (l.sign_detached m sk) ≡ l.sign_bytes
  pub length-sk_to_pk :
      (sk : Buffer) → length (l.sign_ed25519_sk_to_pk sk) ≡ l.sign_public_key_bytes
  pub verify-sign :
      (m sk : Buffer)
      → l.sign_verify_detached (l.sign_detached m sk) m (l.sign_ed25519_sk_to_pk sk) ≡ true
  pub scalarmult_comm :
      (a b : Buffer) → l.scalarmult a (l.scalarmult_base b) ≡ l.scalarmult b (l.scalarmult_base a)
  pub length-generichash :
      (n : ℕ) (b : Buffer)
      → l.generichash_bytes_min ≤ n
      → n ≤ l.generichash_bytes_max
      → length (l.generichash n b) ≡ n
  pub same_key_bytes : l.aead_xchacha20poly1305_ietf_key_bytes ≡ l.secretbox_key_bytes
  pub generichash_bytes_min-le : l.generichash_bytes_min ≤ l.secretbox_key_bytes
  pub le-generichash_bytes_max : l.secretbox_key_bytes ≤ l.generichash_bytes_max
  pub length-secretbox :
      (p n k : Buffer) → length (l.secretbox_easy p n k) ≡ length p + l.secretbox_mac_bytes
  pub open-secretbox :
      (p n k : Buffer) → l.secretbox_open_easy (l.secretbox_easy p n k) n k ≡ some p
