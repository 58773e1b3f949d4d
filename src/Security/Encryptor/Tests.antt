-- ===== src/Security/Encryptor/Tests.antt =====
-- security/keyManager.js and security/encryptor.js: runs over a toy library, in which a key is one
-- number and a signature names the key and the length of the message.
use Prim.Native.Char.{code}
use Prim.Native.String.{String}
use p2p_app.Prelude.{
  ℕ, zero, suc, ◌+◌, ◌≡◌, refl, ◌∙◌, ap, Bool, true, false, ◌&&◌, [], ◌∷◌, Option, none, some,
  length, ◌==◌, eqb, same, if◌then◌else◌, arith,
}
use p2p_app.Security.Sodium.{Buffer, Sodium, IsLawful}
use p2p_app.Security.KeyPairs.{
  KeyPairs, Disk, Access, generate, new_manager, init, get_box_public_key, derive_shared_secret,
  copy_into, alloc,
}
use p2p_app.Security.KeyPairs.Init.{IsPaired, init-init}
use p2p_app.Security.Encryptor.{
  returns, throws, invalid_nonce_size, Encrypted, usable, encrypt, decrypt,
}
use p2p_app.Security.Encryptor.RoundTrip.{decrypt-encrypt_shared}

-- A number is as many strokes and a dot.
unary : ℕ → String → String
unary zero s = String.◌∷◌ "." s
unary (suc n) s = String.◌∷◌ "|" (unary n s)

written : Buffer → String
unfolding unary
written [] = String.[]
written (n ∷ b) = unary n (written b)

read_from : ℕ → String → Buffer
read_from n String.[] = []
read_from n (String.◌∷◌ c s) = elim (code c == 46) [
  | true ↦ n ∷ read_from 0 s
  | false ↦ read_from (suc n) s
]

read_from-unary : (m n : ℕ) (s : String) → read_from m (unary n s) ≡ (m + n) ∷ read_from 0 s
unfolding read_from unary
read_from-unary m zero s = let e : m ≡ m + 0 = omega arith in ap (λ k. k ∷ read_from 0 s) e
read_from-unary m (suc n) s =
    let e : suc m + n ≡ m + suc n = omega arith in
    read_from-unary (suc m) n s ∙ ap (λ k. k ∷ read_from 0 s) e

read_from-written : (b : Buffer) → read_from 0 (written b) ≡ b
unfolding read_from written
read_from-written [] = refl
read_from-written (n ∷ b) =
    let e : 0 + n ≡ n = omega arith in
    read_from-unary 0 n (written b)
    ∙ ap (λ k. k ∷ read_from 0 (written b)) e
    ∙ ap (◌∷◌ n) (read_from-written b)

abbrev first : Buffer → ℕ
first [] = 0
first (n ∷ b) = n

abbrev names : ℕ → Buffer → Buffer → Bool
names key m (k ∷ n ∷ []) = k == key && n == length m
names key m _ = false

abbrev unlocked : ℕ → Buffer → Option Buffer
unlocked key [] = none
unlocked key (k ∷ p) = if k == key then some p else none

abbrev toy : Sodium
toy = record {
  sign_bytes = 2;
  sign_public_key_bytes = 1;
  sign_secret_key_bytes = 1;
  box_public_key_bytes = 1;
  box_secret_key_bytes = 1;
  secretbox_key_bytes = 1;
  aead_xchacha20poly1305_ietf_key_bytes = 1;
  generichash_bytes_min = 1;
  generichash_bytes_max = 1;
  secretbox_nonce_bytes = 1;
  secretbox_mac_bytes = 1;
  sign_detached = λ m sk. first sk ∷ length m ∷ [];
  sign_verify_detached = λ signature m pk. names (first pk) m signature;
  sign_ed25519_sk_to_pk = λ sk. first sk ∷ [];
  scalarmult_base = λ sk. first sk ∷ [];
  scalarmult = λ sk pk. (first sk + first pk) ∷ [];
  generichash = λ n b. first b ∷ [];
  secretbox_easy = λ p n k. first k ∷ p;
  secretbox_open_easy = λ c n k. unlocked (first k) c;
  to_base64 = written;
  from_base64 = read_from 0;
  to_utf8 = λ b. if length b == 2 then "hi" else "";
  from_utf8 = λ s. if eqb s "hi" then 104 ∷ 105 ∷ [] else [];
}

toy-IsLawful : IsLawful toy
toy-IsLawful = record {
  base64_round_trip = read_from-written;
  length-sign = λ m sk. refl;
  length-sk_to_pk = λ sk. refl;
  verify-sign = λ m sk. ground arith;
  scalarmult_comm = λ a b. ap (λ k. k ∷ []) (omega arith);
  length-generichash = λ n b low high. omega arith;
  same_key_bytes = refl;
  generichash_bytes_min-le = omega arith;
  le-generichash_bytes_max = omega arith;
  length-secretbox = λ p n k. omega arith;
  open-secretbox = λ p n k. ground arith;
}

abbrev pairs : ℕ → KeyPairs
pairs n = record {
  sign_public_key = n ∷ [];
  sign_secret_key = n ∷ [];
  box_public_key = n ∷ [];
  box_secret_key = n ∷ [];
}

pairs-IsPaired : (n : ℕ) → IsPaired toy (pairs n)
pairs-IsPaired n = record { sign_pair = refl; box_pair = refl; sign_size = refl; box_size = refl }

abbrev granted : Access
granted = record { mkdir = true; write_sign = true; write_box = true }

abbrev empty_disk : Disk
empty_disk = record { sign_file = none; box_file = none }

init-init_example :
    let first_start = init toy (new_manager toy) (pairs 7) granted empty_disk in
    init toy (new_manager toy) (pairs 8) granted first_start.disk
    ≡ record { keys = first_start.keys; disk = first_start.disk; throws = false }
init-init_example =
    init-init toy (pairs 7) (pairs 8) granted granted empty_disk (pairs-IsPaired 7) refl
      (unfold init generate in refl)

decrypt-encrypt_shared_example :
    let from_a = derive_shared_secret toy (pairs 3) (get_box_public_key toy (pairs 4)) in
    let from_b = derive_shared_secret toy (pairs 4) (get_box_public_key toy (pairs 3)) in
    (e : Encrypted) × (encrypt toy (9 ∷ []) "hi" (some from_a) ≡ returns e)
    × (decrypt toy e.ciphertext e.nonce (some from_b) ≡ returns "hi")
decrypt-encrypt_shared_example =
    decrypt-encrypt_shared toy toy-IsLawful (pairs 3) (pairs 4) (9 ∷ []) "hi" (pairs-IsPaired 3)
      (pairs-IsPaired 4) (unfold same in refl) refl

-- A key file that is too short is padded with the zeros of the new buffer.
short_key : copy_into (5 ∷ 6 ∷ []) (alloc 4) ≡ 5 ∷ 6 ∷ 0 ∷ 0 ∷ []
unfolding copy_into alloc
short_key = refl

-- A nonce of the wrong size is refused.
wrong_nonce : decrypt toy "." ".." (some (1 ∷ [])) ≡ throws invalid_nonce_size
unfolding decrypt usable read_from
wrong_nonce = refl
