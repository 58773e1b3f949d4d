-- ===== src/Pow.antt =====
-- utils/pow.js: the puzzle that each message id must solve. The native add-on, when it is loaded, and
-- the code units of a text followed by a number are parameters. A difficulty is not 0.
pub mod Solve
mod Tests
use p2p_app.Prelude.{
  ℕ, zero, suc, ◌+◌, ◌*◌, ◌/◌, ◌%◌, ◌^◌, String, Bool, true, false, List, [], ◌∷◌, Option, none,
  some, ltb, ◌==◌, if◌then◌else◌,
}

pub record Native : Type 0 where
  pub native_solve : String → ℕ → ℕ
  pub native_verify : String → ℕ → ℕ → Bool

-- `code_units text nonce` are those of `data + nonce`.
pub record Platform : Type 0 where
  pub native_pow : Option Native
  pub code_units : String → ℕ → List ℕ

-- `a ^ b` on words of `bits` bits.
unfoldable pub xor : ℕ → ℕ → ℕ → ℕ
xor zero a b = 0
xor (suc bits) a b = 2 * xor bits (a / 2) (b / 2) + (a + b) % 2

-- `Math.imul(a, b) >>> 0`.
unfoldable pub imul : ℕ → ℕ → ℕ
imul a b = a * b % 2 ^ 32

-- The loop of `jsSimpleHash`; a word is kept unsigned, which `>>> 0` does at the end.
unfoldable pub hash_from : ℕ → List ℕ → ℕ
unfolding xor imul
hash_from hash [] = hash
hash_from hash (c ∷ units) = hash_from (imul (xor 32 hash c) 16777619) units

unfoldable pub js_simple_hash : List ℕ → ℕ
unfolding hash_from
js_simple_hash units = hash_from 2166136261 units

unfoldable pub js_verify : Platform → String → ℕ → ℕ → Bool
unfolding js_simple_hash
js_verify platform text difficulty nonce =
    js_simple_hash (platform.code_units text nonce) % difficulty == 0

-- The last nonce that the loop tries.
abbrev pub last_nonce : ℕ
last_nonce = 1000000

-- The `while` loop from `nonce` on. The fuel counts the nonces up to the last one, after which the
-- loop breaks and 0 is returned.
unfoldable pub search : (ℕ → Bool) → ℕ → ℕ → ℕ
search solves zero nonce = 0
search solves (suc fuel) nonce =
    let rest = search solves fuel (nonce + 1) in if solves nonce then nonce else rest

-- Both functions, for the add-on that was loaded or none.
unfoldable pub solve_with : Option Native → Platform → String → ℕ → ℕ
unfolding search
solve_with none platform text difficulty =
    search (js_verify platform text difficulty) (last_nonce + 1) 0
solve_with (some native) platform text difficulty = native.native_solve text difficulty

unfoldable pub verify_with : Option Native → Platform → String → ℕ → ℕ → Bool
verify_with none platform text difficulty nonce = js_verify platform text difficulty nonce
verify_with (some native) platform text difficulty nonce =
    native.native_verify text difficulty nonce

unfoldable pub solve_puzzle : Platform → String → ℕ → ℕ
unfolding solve_with
solve_puzzle platform text difficulty = solve_with platform.native_pow platform text difficulty

unfoldable pub verify_puzzle : Platform → String → ℕ → ℕ → Bool
unfolding verify_with
verify_puzzle platform text difficulty nonce =
    verify_with platform.native_pow platform text difficulty nonce
