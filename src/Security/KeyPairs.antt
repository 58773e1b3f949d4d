-- ===== src/Security/KeyPairs.antt =====
-- security/keyManager.js: the class KeyManager, over libsodium and the two key files.
pub mod Init
pub mod Signing
use p2p_app.Prelude.{
  ℕ, zero, suc, String, ◌≡◌, Bool, true, false, List, [], ◌∷◌, ◌++◌, Option, none, some, length,
  take, drop, ◌==◌, if◌then◌else◌,
}
use p2p_app.Security.{KeyManager, Signed}
use p2p_app.Security.Sodium.{Buffer, Sodium}

pub record KeyPairs : Type 0 where
  pub sign_public_key : Buffer
  pub sign_secret_key : Buffer
  pub box_public_key : Buffer
  pub box_secret_key : Buffer

-- The files sign.key and box.key; `none` is a file that cannot be read.
pub record Disk : Type 0 where
  pub sign_file : Option Buffer
  pub box_file : Option Buffer

-- Which of the calls of fs succeed.
pub record Access : Type 0 where
  pub mkdir : Bool
  pub write_sign : Bool
  pub write_box : Bool

-- The manager, the files, and whether `init` throws.
pub record Started : Type 0 where
  pub keys : KeyPairs
  pub disk : Disk
  pub throws : Bool

-- `Buffer.alloc(n)`
unfoldable pub alloc : ℕ → Buffer
alloc zero = []
alloc (suc n) = 0 ∷ alloc n

-- `saved.copy(target)`: what is too long is cut off, what is too short leaves the rest as it was.
unfoldable pub copy_into : Buffer → Buffer → Buffer
copy_into saved target = take (length target) saved ++ drop (length saved) target

module _ (l : Sodium) where
  unfoldable pub new_manager : KeyPairs
  unfolding alloc
  new_manager = record {
    sign_public_key = alloc l.sign_public_key_bytes;
    sign_secret_key = alloc l.sign_secret_key_bytes;
    box_public_key = alloc l.box_public_key_bytes;
    box_secret_key = alloc l.box_secret_key_bytes;
  }

  -- Both files were read.
  unfoldable pub load : KeyPairs → Buffer → Buffer → KeyPairs
  load k saved_sign saved_box =
      let sign_secret = copy_into saved_sign k.sign_secret_key in
      let box_secret = copy_into saved_box k.box_secret_key in
      record {
        sign_public_key = l.sign_ed25519_sk_to_pk sign_secret;
        sign_secret_key = sign_secret;
        box_public_key = l.scalarmult_base box_secret;
        box_secret_key = box_secret;
      }

  -- The inner `catch`, with the key pairs that libsodium generates.
  unfoldable pub generate : KeyPairs → Access → Disk → Started
  generate fresh access disk =
      if access.write_sign
      then (if access.write_box
          then (record {
            keys = fresh;
            disk = record {
              sign_file = some fresh.sign_secret_key;
              box_file = some fresh.box_secret_key;
            };
            throws = false;
          })
          else (record {
            keys = fresh;
            disk = record disk { sign_file = some fresh.sign_secret_key };
            throws = true;
          }))
      else (record { keys = fresh; disk = disk; throws = true })

  unfoldable pub init : KeyPairs → KeyPairs → Access → Disk → Started
  init k fresh access disk =
      if access.mkdir
      then elim disk.sign_file [
        | none ↦ generate fresh access disk
        | some saved_sign ↦ elim disk.box_file [
          | none ↦ generate fresh access disk
          | some saved_box ↦ (record {
            keys = load k saved_sign saved_box;
            disk = disk;
            throws = false;
          })
        ]
      ]
      else (record { keys = k; disk = disk; throws = true })

  unfoldable pub get_public_key : KeyPairs → String
  get_public_key k = l.to_base64 k.sign_public_key

  unfoldable pub get_box_public_key : KeyPairs → String
  get_box_public_key k = l.to_base64 k.box_public_key

  unfoldable pub sign : KeyPairs → String → String
  sign k message = l.to_base64 (l.sign_detached (l.from_utf8 message) k.sign_secret_key)

  unfoldable pub verify : String → String → String → Bool
  verify message signature_base64 sender_public_key_base64 =
      let signature = l.from_base64 signature_base64 in
      let pk = l.from_base64 sender_public_key_base64 in
      if length signature == l.sign_bytes
      then (if length pk == l.sign_public_key_bytes
          then l.sign_verify_detached signature (l.from_utf8 message) pk
          else false)
      else false

  unfoldable pub derive_shared_secret : KeyPairs → String → Buffer
  derive_shared_secret k their_box_public_key_base64 =
      l.generichash l.aead_xchacha20poly1305_ietf_key_bytes
        (l.scalarmult k.box_secret_key (l.from_base64 their_box_public_key_base64))

  -- The key manager that security/index.js uses, with the text of the signed fields that
  -- `JSON.stringify` makes.
  unfoldable pub key_manager : (Signed → String) → KeyPairs → KeyManager
  key_manager text_of k = record {
    public_key = get_public_key k;
    sign = λ s. sign k (text_of s);
    verify = λ s signature key. verify (text_of s) signature key;
  }
