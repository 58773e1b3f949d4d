-- ===== src/Security/Encryptor.antt =====
-- security/encryptor.js: encrypt and decrypt, over libsodium. The nonce that randombytes_buf fills is
-- an argument.
pub mod RoundTrip
mod Tests
use p2p_app.Prelude.{
  ℕ, ◌<◌, String, Bool, true, false, Option, none, some, length, ltb, ◌==◌, if◌then◌else◌,
}
use p2p_app.Security.Sodium.{Buffer, Sodium}

pub data Failure : Type 0 where
  invalid_symmetric_key_size invalid_nonce_size ciphertext_too_short : Failure
  message_authentication_failed : Failure

-- What a call returns or throws.
pub data Outcome (A : Type 0) : Type 0 where
  returns : A → Outcome A
  throws : Failure → Outcome A

pub record Encrypted : Type 0 where
  pub ciphertext : String
  pub nonce : String

module _ (l : Sodium) where
  -- `!sharedSecret || sharedSecret.length !== KEYBYTES`, the negation of it.
  unfoldable pub usable : Option Buffer → Option Buffer
  usable none = none
  usable (some key) = if length key == l.secretbox_key_bytes then some key else none

  unfoldable pub encrypt : Buffer → String → Option Buffer → Outcome Encrypted
  unfolding usable
  encrypt nonce plaintext shared_secret = elim (usable shared_secret) [
    | none ↦ throws invalid_symmetric_key_size
    | some key ↦ returns (record {
      ciphertext = l.to_base64 (l.secretbox_easy (l.from_utf8 plaintext) nonce key);
      nonce = l.to_base64 nonce;
    })
  ]

  -- The part of decrypt after the checks.
  unfoldable pub open_box : Buffer → Buffer → Buffer → Outcome String
  open_box cipher nonce key = elim (l.secretbox_open_easy cipher nonce key) [
    | none ↦ throws message_authentication_failed
    | some plain ↦ returns (l.to_utf8 plain)
  ]

  unfoldable pub decrypt : String → String → Option Buffer → Outcome String
  unfolding usable open_box
  decrypt ciphertext_base64 nonce_base64 shared_secret = elim (usable shared_secret) [
    | none ↦ throws invalid_symmetric_key_size
    | some key ↦
        let cipher = l.from_base64 ciphertext_base64 in
        let nonce = l.from_base64 nonce_base64 in
        if length nonce == l.secretbox_nonce_bytes
        then (if ltb (length cipher) l.secretbox_mac_bytes
            then throws ciphertext_too_short
            else open_box cipher nonce key)
        else throws invalid_nonce_size
  ]
